-- ===== src/Reconciler/App/Examples.antt =====
-- Tests and concrete cases of pkg/reconciler/app/app_reconciler.go.
use kubemate.Base.{
  is_some, inl, String, ◌≡◌, refl, ◌⊎◌, inr, true, false, Option, none, some, [], ◌∷◌, All,
}
use kubemate.Base.Dict.{Dict}
use kubemate.Base.Text.{chars}
use kubemate.Reconciler.App.{
  unset, failed, config_required, AppStatus, App, KustomizationRef, Kustomization, ConfigSchema,
  Cluster, Tools, validate_configuration,
}
use kubemate.Reconciler.App.Reconcile.{reconcile}
use kubemate.Reconciler.App.Reconcile.Orphans.{NoOrphan, here, next, reconciles, Reach-NoOrphan}
use kubemate.Reconciler.App.Reconcile.Removal.{success, accepted}
use kubemate.Reconciler.App.Status.{Specified, validate_configuration_cases}

abbrev tools : Tools
tools = record {
  to_lower = λ s. s;
  sha256 = λ s. chars "00112233445566778899";
  hash = λ d. "77";
  spec_equal = λ old wanted. false;
}

abbrev no_status : AppStatus
no_status = record {
  observed_generation = 0;
  state = unset;
  message = "";
  last_applied_revision = "";
  last_attempted_revision = "";
  config_schema_name = "";
  config_secret_name = "";
}

abbrev ref : KustomizationRef
ref = record {
  source_kind = "GitRepository";
  source_name = "apps";
  source_namespace = "";
  path = ".";
  timeout = none;
}

abbrev app : App
app = record {
  name = "blog";
  generation = 1;
  finalizer = true;
  deleting = false;
  enabled = some true;
  kustomization = some ref;
  status = no_status;
}

abbrev doomed : App
doomed = record app { deleting = true }

abbrev with_app : App → Cluster
with_app a = record { app = some a; kustomization = none; secrets = []; schema = none }

abbrev ready : Kustomization
ready = record {
  spec = none;
  generation = 3;
  conditions =
      record {
        type = "Ready";
        status = "True";
        observed_generation = 3;
        reason = "ok";
        message = "";
      }
      ∷ [];
  last_applied_revision = "r1";
  last_attempted_revision = "r1";
}

is_some-cases : (o : Option Kustomization) → (is_some o ≡ false) ⊎ (is_some o ≡ true)
is_some-cases none = inl refl
is_some-cases (some k) = inr refl

Reach-NoOrphan_example :
    NoOrphan (reconcile tools (reconcile tools (with_app app) success).0 accepted).0
Reach-NoOrphan_example =
    Reach-NoOrphan tools {s = with_app app}
      {t = (reconcile tools (reconcile tools (with_app app) success).0 accepted).0} (inr refl)
      (next (next here (reconciles (with_app app) success (refl, inl refl))) (
        reconciles (reconcile tools (with_app app) success).0 accepted
          (refl, is_some-cases (reconcile tools (with_app app) success).0.kustomization)))

abbrev doomed_cluster : Cluster
doomed_cluster = record (with_app doomed) { kustomization = some ready }

abbrev schema : ConfigSchema
schema = record { name = "blog"; params = record { name = "title"; title = "Title" } ∷ [] }

abbrev custom : Option (Dict String)
custom = some (("title", "mine") ∷ [])

validate_configuration_cases_example :
    (All (Specified custom none) schema.params
      × (validate_configuration schema custom none no_status ≡ no_status))
    ⊎ ((All (Specified custom none) schema.params → ⊥)
        × (((validate_configuration schema custom none no_status).state ≡ failed)
            ⊎ ((validate_configuration schema custom none no_status).state ≡ config_required)))
validate_configuration_cases_example = validate_configuration_cases schema custom none no_status
