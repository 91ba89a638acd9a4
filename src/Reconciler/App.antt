-- ===== src/Reconciler/App.antt =====
-- pkg/reconciler/app/app_reconciler.go: an app is installed by a Kustomization, which flux applies. The
-- model has one app with what belongs to it. What the API server answers is an argument (`Calls`); the
-- hashes, `strings.ToLower` and `equality.Semantic.DeepEqual` are parameters (`Tools`).
pub mod Reconcile
pub mod Status
pub mod Examples
use Prim.Native.Char.{Char}
use Prim.Native.String
use kubemate.Base.{
  ℕ, ◌+◌, String, ◌≡◌, ◌⊎◌, inl, inr, Bool, true, false, Option, none, some, List, [], ◌∷◌, ◌==◌,
  ◌&&◌, ◌||◌, not, ltb, nat_eq, is_some, if◌then◌else◌,
}
use kubemate.Base.Text.{cat, chars, text}
use kubemate.Base.Dict.{Dict, get, put}
use kubemate.Base.Decimal.{decimal}
use kubemate.Names.{truncate_name}
use kubemate.Resource.{Error, message, wrap, conflict}

-- appsv1.AppState, with the empty text as `unset`.
pub data AppState : Type 0 where
  unset not_installed installing upgrading installed deinstalling failed config_required : AppState

pub record AppStatus : Type 0 where
  pub observed_generation : ℕ
  pub state : AppState
  pub message : String
  pub last_applied_revision : String
  pub last_attempted_revision : String
  pub config_schema_name : String
  pub config_secret_name : String

-- AppSpec.Kustomization; the timeout is none where it is nil.
pub record KustomizationRef : Type 0 where
  pub source_kind : String
  pub source_name : String
  pub source_namespace : String
  pub path : String
  pub timeout : Option ℕ

-- `finalizer` says whether kubemate's is among the app's finalizers, `deleting` whether the deletion
-- timestamp is set.
pub record App : Type 0 where
  pub name : String
  pub generation : ℕ
  pub finalizer : Bool
  pub deleting : Bool
  pub enabled : Option Bool
  pub kustomization : Option KustomizationRef
  pub status : AppStatus

pub record Condition : Type 0 where
  pub type : String
  pub status : String
  pub observed_generation : ℕ
  pub reason : String
  pub message : String

-- The part of a KustomizationSpec that is set: the reference, prune and wait, and the substitutions.
pub record KustomizationSpec : Type 0 where
  pub ref : KustomizationRef
  pub app_name : String
  pub config_secret_name : String

-- `spec` is none in the object that the code makes before it asks for the server's.
pub record Kustomization : Type 0 where
  pub spec : Option KustomizationSpec
  pub generation : ℕ
  pub conditions : List Condition
  pub last_applied_revision : String
  pub last_attempted_revision : String

pub record ParameterDefinition : Type 0 where
  pub name : String
  pub title : String

pub record ConfigSchema : Type 0 where
  pub name : String
  pub params : List ParameterDefinition

-- What the API server has: the app, its Kustomization and schema, and the secrets by name.
pub record Cluster : Type 0 where
  pub app : Option App
  pub kustomization : Option Kustomization
  pub secrets : Dict (Dict String)
  pub schema : Option ConfigSchema

-- A deletion that the server accepts removes the object, or leaves it to its finalizers.
pub data Deletion : Type 0 where
  removed pending vanished refused : Deletion

-- How the calls of one reconciliation are answered; `true` is success. Objects are read from the cache
-- of the manager's client: `cache` says what it has, given what the server has, and may be outdated.
-- `app_gone` says whether the server removes the app with its last finalizer, `conflicting` whether a
-- failed write is a conflict; a write of an outdated app is one that fails.
pub record Calls : Type 0 where
  pub cache : Cluster → Cluster
  pub get_app : Bool
  pub update_app : Bool
  pub app_gone : Bool
  pub get_user_secret : Bool
  pub get_secret : Bool
  pub own_secret : Bool
  pub create_secret : Bool
  pub get_kustomization : Bool
  pub own_kustomization : Bool
  pub write_kustomization : Bool
  pub delete_kustomization : Deletion
  pub conflicting : Bool
  pub get_schema : Bool
  pub get_default : Bool
  pub update_status : Bool

pub record Tools : Type 0 where
  pub to_lower : List Char → List Char
  pub sha256 : List Char → List Char
  pub hash : Dict String → String
  pub spec_equal : Option KustomizationSpec → KustomizationSpec → Bool

abbrev pub default_config_secret_name : App → String
default_config_secret_name a = cat a.name "-defaultconfig"

abbrev pub user_config_secret_name : App → String
user_config_secret_name a = cat a.name "-userconfig"

abbrev pub is_enabled : App → Bool
is_enabled a = elim a.enabled [ none ↦ false | some b ↦ b ]

abbrev pub empty_condition : Condition
empty_condition = record {
  type = "";
  status = "";
  observed_generation = 0;
  reason = "";
  message = "";
}

unfoldable pub get_condition : List Condition → String → Condition
get_condition [] name = empty_condition
get_condition (c ∷ cs) name = if c.type == name then c else get_condition cs name

-- secret.Data[name] != nil, where the secret may be nil.
abbrev pub defines : Option (Dict String) → String → Bool
defines none name = false
defines (some s) name = is_some (get name s)

abbrev pub title_of : ParameterDefinition → String
title_of p = if p.title == "" then p.name else p.title

-- The loop of validateConfiguration from the i-th parameter on.
validate_from :
    ℕ
    → List ParameterDefinition
    → Option (Dict String)
    → Option (Dict String)
    → AppStatus
    → AppStatus
validate_from i [] custom defaults st = st
validate_from i (p ∷ ps) custom defaults st =
    let rest = validate_from (i + 1) ps custom defaults st in
    if p.name == ""
    then record st {
      state = failed;
      message =
          cat "invalid parameter definition: no name specified for app parameter definition "
            (decimal i);
    }
    else if not (defines defaults p.name) && not (defines custom p.name)
    then record st { state = config_required; message = cat (title_of p) " must be specified" }
    else rest

unfoldable pub validate_configuration :
    ConfigSchema → Option (Dict String) → Option (Dict String) → AppStatus → AppStatus
unfolding validate_from
validate_configuration cs custom defaults st = validate_from 0 cs.params custom defaults st

-- validateConfiguration where there is a schema.
validate_if :
    Option ConfigSchema → Option (Dict String) → Option (Dict String) → AppStatus → AppStatus
validate_if none custom defaults st = st
validate_if (some cs) custom defaults st = validate_configuration cs custom defaults st

-- The status while flux is still at work; the message of a missing parameter goes into the middle.
progress :
    Condition
    → Kustomization
    → Option ConfigSchema
    → Option (Dict String)
    → Option (Dict String)
    → AppStatus
    → AppStatus
unfolding validate_if
progress c k cs custom defaults st =
    let begun = record st {
      state =
          if k.last_applied_revision == k.last_attempted_revision then installing else upgrading;
    } in
    let checked = validate_if cs custom defaults begun in
    let msg = if checked.message == "" then "" else cat checked.message ". " in
    record checked { message = cat c.reason (cat ": " (cat msg c.message)) }

-- The branch of Reconcile for an enabled app. `st` has an empty message.
unfoldable pub enabled_status :
    Kustomization
    → Option ConfigSchema
    → Option (Dict String)
    → Option (Dict String)
    → AppStatus
    → AppStatus
unfolding progress validate_if
enabled_status k cs custom defaults st =
    let c = get_condition k.conditions "Ready" in
    if nat_eq c.observed_generation k.generation
    then (if c.status == "True"
        then validate_if cs custom defaults (record st { state = installed })
        else if c.status == "False"
        then validate_if cs custom defaults
            (record st { state = failed; message = cat c.reason (cat ": " c.message) })
        else progress c k cs custom defaults st)
    else validate_if cs custom defaults (record st { state = installing })
