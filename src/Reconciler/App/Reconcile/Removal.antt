-- ===== src/Reconciler/App/Reconcile/Removal.antt =====
-- pkg/reconciler/app/app_reconciler.go: how the deletion of an app ends.
use kubemate.Base.{ℕ, zero, suc, ℕ, true, false}
use kubemate.Reconciler.App.{pending, App, Cluster, Calls, Tools, removed}
use kubemate.Reconciler.App.Reconcile.{delete_kustomization, reconcile}

-- Every call succeeds with a cache that is up to date, and what is deleted is gone at once.
abbrev pub success : Calls
success = record {
  cache = λ s. s;
  get_app = true;
  update_app = true;
  app_gone = true;
  get_user_secret = true;
  get_secret = true;
  own_secret = true;
  create_secret = true;
  get_kustomization = true;
  own_kustomization = true;
  write_kustomization = true;
  delete_kustomization = removed;
  conflicting = false;
  get_schema = true;
  get_default = true;
  update_status = true;
}

-- The same, but the Kustomization is left to flux's finalizer.
abbrev pub accepted : Calls
accepted = record success { delete_kustomization = pending }

module _ (w : Tools) where
  -- That many reconciliations in which flux is not done with the Kustomization.
  abbrev pub rounds : ℕ → Cluster → Cluster
  rounds zero s = s
  rounds (suc n) s = rounds n (reconcile w s accepted).0
