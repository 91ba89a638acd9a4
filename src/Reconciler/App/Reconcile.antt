-- ===== src/Reconciler/App/Reconcile.antt =====
-- pkg/reconciler/app/app_reconciler.go: Reconcile with its calls of the API server. What it reads is
-- what the manager's cache has, what it writes goes to the server.
pub mod Orphans
pub mod Removal
use kubemate.Base.Text.{cat}
use kubemate.Base.{
  is_some, ℕ, ◌+◌, String, ◌≡◌, ◌⊎◌, inl, inr, Bool, true, false, Option, none, some, List, [], ◌∷◌,
  ◌==◌, ◌&&◌, ◌||◌, not, ltb, if◌then◌else◌,
}
use kubemate.Base.Text.{chars, text}
use kubemate.Base.Dict.{Dict, get, put}
use kubemate.Names.{truncate_name}
use kubemate.Resource.{Error, message, wrap, conflict}
use kubemate.Reconciler.App.{
  AppState, unset, not_installed, installing, upgrading, installed, deinstalling, failed,
  config_required, AppStatus, App, KustomizationRef, KustomizationSpec, Kustomization, ConfigSchema,
  Cluster, Deletion, removed, pending, vanished, refused, Calls, Tools, default_config_secret_name,
  user_config_secret_name, is_enabled, enabled_status,
}

abbrev pub write_error : Calls → String → Error
write_error c what = if c.conflicting then conflict "apps" what else message what

-- Client.Update of the app, which the server may take away with its finalizer.
abbrev pub update_app : Cluster → Calls → App → Cluster × Option Error
update_app s c a =
    if c.update_app
    then (
      record s { app = if a.deleting && not a.finalizer && c.app_gone then none else some a },
      none,
    )
    else (s, some (write_error c "update app"))

-- What becomes of a deletion: what the server does not have is not found, though the cache has it.
abbrev pub deletion : Cluster → Deletion → Deletion
deletion s refused = refused
deletion s d = if is_some s.kustomization then d else vanished

-- deleteKustomization: whether it is gone, which it counts as if the cache does not have it.
unfoldable pub delete_kustomization : Cluster → Calls → Cluster × (Error ⊎ Bool)
delete_kustomization s c =
    if not c.get_kustomization
    then (s, inl (message "get kustomization"))
    else elim (c.cache s).kustomization [
      | none ↦ (s, inr true)
      | some k ↦ elim (deletion s c.delete_kustomization) [
        | removed ↦ (record s { kustomization = none }, inr false)
        | pending ↦ (s, inr false)
        | vanished ↦ (record s { kustomization = none }, inr true)
        | refused ↦ (s, inl (message "delete kustomization"))
      ]
    ]

release_app : App → Calls → Cluster × (Error ⊎ Bool) → Cluster × Option Error
release_app a c (s, inl e) = (s, some e)
release_app a c (s, inr false) = (s, none)
release_app a c (s, inr true) = update_app s c (record a { finalizer = false })

module _ (w : Tools) where
  -- The name of the copy of the user's secret; the length is enough for the hash, so no slice panics.
  unfoldable pub content_name : App → Dict String → String
  content_name a d =
      elim (truncate_name w.to_lower w.sha256
        (chars (cat (user_config_secret_name a) (cat "-" (w.hash d)))) 63) [
          | none ↦ ""
          | some r ↦ text r
        ]

  abbrev with_secret_name : String → App → App
  with_secret_name n a = record a { status = record (a.status) { config_secret_name = n } }

  copy_secret : Cluster → Calls → App → Dict String → Cluster × (Error ⊎ App × Option (Dict String))
  copy_secret s c a src =
      let key = content_name a src in
      if not c.get_secret
      then (s, inl (message "get secret"))
      else elim (get key (c.cache s).secrets) [
        | some dst ↦ (s, inr (with_secret_name key a, some src))
        | none ↦
            if not c.own_secret
            then (s, inl (message "set owner reference"))
            else if not c.create_secret || is_some (get key s.secrets)
            then (s, inl (write_error c "create secret"))
            else (
              record s { secrets = put key src s.secrets },
              inr (with_secret_name key a, some src),
            )
      ]

  -- The app with the name of its configuration, and the user's secret if there is one.
  unfoldable pub reconcile_secret :
      Cluster → Calls → App → Cluster × (Error ⊎ App × Option (Dict String))
  unfolding copy_secret
  reconcile_secret s c a =
      if not c.get_user_secret
      then (s, inl (message "get user secret"))
      else elim (get (user_config_secret_name a) (c.cache s).secrets) [
        | none ↦ (s, inr (with_secret_name (default_config_secret_name a) a, none))
        | some src ↦ copy_secret s c a src
      ]

  abbrev pub empty_kustomization : Kustomization
  empty_kustomization = record {
    spec = none;
    generation = 0;
    conditions = [];
    last_applied_revision = "";
    last_attempted_revision = "";
  }

  abbrev pub wanted_spec : App → KustomizationRef → KustomizationSpec
  wanted_spec a ref = record {
    ref = ref;
    app_name = a.name;
    config_secret_name = a.status.config_secret_name;
  }

  -- Create or Update, by whether one was found. The server does not create what it has, nor
  -- update what it does not have; it counts the generations of a spec.
  write_kustomization :
      Cluster
      → Calls
      → Option Kustomization
      → Kustomization
      → Cluster × Kustomization × Option Error
  write_kustomization s c found k =
      let stored = record k { generation = k.generation + 1 } in
      if c.write_kustomization
        && (if is_some found then is_some s.kustomization else not (is_some s.kustomization))
      then (record s { kustomization = some stored }, stored, none)
      else (s, k, some (write_error c "write kustomization"))

  install :
      Cluster
      → Calls
      → App
      → KustomizationRef
      → Option Kustomization
      → Cluster × Kustomization × Option Error
  unfolding write_kustomization
  install s c a ref found =
      let old : Kustomization = elim found [ none ↦ empty_kustomization | some k ↦ k ] in
      let k = record old { spec = some (wanted_spec a ref) } in
      if not c.own_kustomization then (s, k, some (message "set owner reference")) else elim found [
        | none ↦ write_kustomization s c none k
        | some o ↦
            if w.spec_equal o.spec (wanted_spec a ref)
            then (s, k, none)
            else write_kustomization s c (some o) k
      ]

  uninstall : Cluster → Calls → Option Kustomization → Cluster × Kustomization × Option Error
  uninstall s c none = (s, empty_kustomization, none)
  uninstall s c (some k) = elim (deletion s c.delete_kustomization) [
    | removed ↦ (record s { kustomization = none }, k, none)
    | pending ↦ (s, k, none)
    | vanished ↦ (record s { kustomization = none }, k, some (message "not found"))
    | refused ↦ (s, k, some (write_error c "delete kustomization"))
  ]

  unfoldable pub reconcile_kustomization :
      Cluster → Calls → App → KustomizationRef → Cluster × Kustomization × Option Error
  unfolding install uninstall
  reconcile_kustomization s c a ref =
      if not c.get_kustomization
      then (s, empty_kustomization, some (message "get kustomization"))
      else if is_enabled a
      then install s c a ref (c.cache s).kustomization
      else uninstall s c (c.cache s).kustomization

  abbrev is_conflict : Error → Bool
  is_conflict (conflict gr k) = true
  is_conflict (wrap m e) = is_conflict e
  is_conflict _ = false

  abbrev error_text : Error → String
  error_text (message m) = m
  error_text e = "error"

  -- The status that Reconcile computes after the Kustomization, and the error that it returns.
  new_status :
      Cluster
      → Calls
      → App
      → Option (Dict String)
      → Kustomization
      → Option Error
      → AppStatus × Option Error
  new_status s c a secret k (some e) = (
    if is_conflict e
        then a.status
        else record (a.status) { state = failed; message = error_text e },
    some e,
  )
  new_status s c a secret k none =
      if not c.get_schema
      then (record (a.status) { state = failed; message = "load app config schema" }, none)
      else (let st = record (a.status) {
        config_schema_name = elim (c.cache s).schema [ none ↦ "" | some cs ↦ cs.name ];
        message = "";
      } in
          if not (is_enabled a)
          then (
            record st { state = if ltb 0 k.generation then deinstalling else not_installed },
            none,
          )
          else if not c.get_default
          then (st, some (message "get default config"))
          else (
            enabled_status k (c.cache s).schema secret
                (get (default_config_secret_name a) (c.cache s).secrets) st,
            none,
          ))

  abbrev same_state : AppState → AppState → Bool
  same_state unset unset = true
  same_state not_installed not_installed = true
  same_state installing installing = true
  same_state upgrading upgrading = true
  same_state installed installed = true
  same_state deinstalling deinstalling = true
  same_state failed failed = true
  same_state config_required config_required = true
  same_state _ _ = false

  -- The deferred function: the status is written if its state, message or schema has changed. The
  -- server takes the status only, and the error of the call is dropped.
  persist : Cluster → Calls → App → Kustomization → AppStatus → Cluster
  persist s c a k st =
      if same_state st.state a.status.state
        && st.message == a.status.message
        && st.config_schema_name == a.status.config_schema_name
      then s
      else if not c.update_status
      then s
      else elim s.app [
        | none ↦ s
        | some server ↦ record s {
          app = some (record server {
            status = record st {
              observed_generation = a.generation;
              last_applied_revision = k.last_applied_revision;
              last_attempted_revision = k.last_attempted_revision;
            };
          });
        }
      ]

  settle :
      Calls
      → App
      → Option (Dict String)
      → Cluster × Kustomization × Option Error
      → Cluster × Option Error
  unfolding persist new_status
  settle c a secret (s, k, e) =
      let (st, err) = new_status s c a secret k e in (persist s c a k st, err)

  with_secret :
      Calls
      → KustomizationRef
      → Cluster × (Error ⊎ App × Option (Dict String))
      → Cluster × Option Error
  unfolding settle
  with_secret c ref (s, inl e) = (s, some e)
  with_secret c ref (s, inr (a, secret)) = settle c a secret (reconcile_kustomization s c a ref)

  reconcile_app : Cluster → Calls → App → KustomizationRef → Cluster × Option Error
  unfolding release_app with_secret
  reconcile_app s c a ref =
      if not a.finalizer
      then update_app s c (record a { finalizer = true })
      else if a.deleting
      then release_app a c (delete_kustomization s c)
      else with_secret c ref (reconcile_secret s c a)

  unfoldable pub reconcile : Cluster → Calls → Cluster × Option Error
  unfolding reconcile_app
  reconcile s c = if not c.get_app then (s, some (message "get app")) else elim (c.cache s).app [
    | none ↦ (s, none)
    | some a ↦ elim a.kustomization [ none ↦ (s, none) | some ref ↦ reconcile_app s c a ref ]
  ]
