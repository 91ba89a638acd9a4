-- ===== src/Reconciler/App/Reconcile/Orphans.antt =====
-- pkg/reconciler/app/app_reconciler.go: no Kustomization is left without its app.
use kubemate.Base.{
  ◌∙◌, sym, ℕ, String, ◌≡◌, refl, ◌⊎◌, inl, inr, Bool, true, false, Option, none, some, is_some,
  arith, Option-cases, Bool-cases, if◌then◌else◌,
}
use kubemate.Base.Dict.{Dict}
use kubemate.Resource.{Error}
use kubemate.Reconciler.App.{
  App, AppStatus, Kustomization, KustomizationRef, Cluster, Calls, Tools, ConfigSchema,
}
use kubemate.Reconciler.App.Reconcile.{
  delete_kustomization, release_app, copy_secret, reconcile_secret, write_kustomization, install,
  uninstall, reconcile_kustomization, persist, new_status, settle, with_secret, reconcile_app,
  reconcile,
}

-- The app is there and has kubemate's finalizer.
abbrev pub held : Option App → Bool
held none = false
held (some a) = a.finalizer

-- If there is a Kustomization, then its app is there with the finalizer.
abbrev pub NoOrphan : Cluster → Type 0
NoOrphan s = (is_some s.kustomization ≡ false) ⊎ (held s.app ≡ true)

-- The cache has the app as the server has it, and does not miss a Kustomization that the server has.
abbrev pub Current : Cluster → Calls → Type 0
Current s c =
    ((c.cache s).app ≡ s.app)
    × ((is_some s.kustomization ≡ false) ⊎ (is_some (c.cache s).kustomization ≡ true))

release_app-NoOrphan :
    (s : Cluster) (c : Calls) (a : App)
    → (is_some s.kustomization ≡ false) ⊎ (is_some (c.cache s).kustomization ≡ true)
    → NoOrphan s
    → NoOrphan (release_app a c (delete_kustomization s c)).0
unfolding release_app delete_kustomization
release_app-NoOrphan s c a seen i = ground arith

module _ (w : Tools) where
  copy_secret-same :
      (s : Cluster) (c : Calls) (a : App) (src : Dict String)
      → ((copy_secret w s c a src).0.app ≡ s.app)
        × ((copy_secret w s c a src).0.kustomization ≡ s.kustomization)
  unfolding copy_secret
  copy_secret-same s c a src = (ground arith, ground arith)

  reconcile_secret-same :
      (s : Cluster) (c : Calls) (a : App)
      → ((reconcile_secret w s c a).0.app ≡ s.app)
        × ((reconcile_secret w s c a).0.kustomization ≡ s.kustomization)
  unfolding reconcile_secret
  reconcile_secret-same s c a = ground (arith, copy_secret-same s c a)

  reconcile_kustomization-app :
      (s : Cluster) (c : Calls) (a : App) (ref : KustomizationRef)
      → (reconcile_kustomization w s c a ref).0.app ≡ s.app
  unfolding reconcile_kustomization install uninstall write_kustomization
  reconcile_kustomization-app s c a ref = ground arith

  persist-held :
      (s : Cluster) (c : Calls) (a : App) (k : Kustomization) (st : AppStatus)
      → held (persist w s c a k st).app ≡ held s.app
  unfolding persist
  persist-held s c a k st = ground arith

  settle-held :
      (c : Calls) (a : App) (secret : Option (Dict String))
      (p : Cluster × Kustomization × Option Error)
      → held (settle w c a secret p).0.app ≡ held p.0.app
  unfolding settle
  settle-held c a secret (s, k, e) = persist-held s c a k (new_status w s c a secret k e).0

  with_secret-held :
      (c : Calls) (ref : KustomizationRef) (p : Cluster × (Error ⊎ App × Option (Dict String)))
      → held (with_secret w c ref p).0.app ≡ held p.0.app
  unfolding with_secret
  with_secret-held c ref (s, inl e) = refl
  with_secret-held c ref (s, inr (a, secret)) = ground (
    arith,
    settle-held c a secret (reconcile_kustomization w s c a ref),
    reconcile_kustomization-app s c a ref,
  )

  reconcile_app-NoOrphan :
      (s : Cluster) (c : Calls) (a : App) (ref : KustomizationRef)
      → s.app ≡ some a
      → (is_some s.kustomization ≡ false) ⊎ (is_some (c.cache s).kustomization ≡ true)
      → NoOrphan s
      → NoOrphan (reconcile_app w s c a ref).0
  unfolding reconcile_app
  reconcile_app-NoOrphan s c a ref here seen i = ground (
    arith,
    release_app-NoOrphan s c a seen,
    with_secret-held c ref (reconcile_secret w s c a),
    reconcile_secret-same s c a,
  )

  reconcile-NoOrphan :
      (s : Cluster) (c : Calls) → Current s c → NoOrphan s → NoOrphan (reconcile w s c).0
  unfolding reconcile
  reconcile-NoOrphan s c (same, seen) i = elim (Bool-cases c.get_app) [
    | inr f ↦ rw (f, reconcile) i
    | inl f ↦ elim (Option-cases (c.cache s).app) [
      | inl e ↦ rw (f, e, reconcile) i
      | inr (a, e) ↦ elim (Option-cases a.kustomization) [
        | inl k ↦ rw (f, e, k, reconcile) i
        | inr (ref, k) ↦
            rw (f, e, k, reconcile) (reconcile_app-NoOrphan s c a ref (sym same ∙ e) seen i)
      ]
    ]
  ]

  -- What happens to the cluster between two looks: a reconciliation with any answers, whose cache is
  -- current; the user makes,
  -- changes or deletes the app, where the server keeps an app with a finalizer and marks it; flux
  -- reports on the Kustomization or removes it; secrets and schemas change.
  pub data Step : Cluster → Cluster → Type 0 where
    reconciles : (s : Cluster) (c : Calls) → Current s c → Step s (reconcile w s c).0
    makes : (s : Cluster) (a : App) → s.app ≡ none → Step s (record s { app = some a })
    changes :
        (s : Cluster) (a : App) (enabled : Option Bool) (ref : Option KustomizationRef) (n : ℕ)
        → s.app ≡ some a
        → Step s (record s {
          app = some (record a { enabled = enabled; kustomization = ref; generation = n });
        })
    deletes :
        (s : Cluster) (a : App)
        → s.app ≡ some a
        → Step s
            (record s { app = if a.finalizer then some (record a { deleting = true }) else none })
    reports :
        (s : Cluster) (k k' : Kustomization)
        → s.kustomization ≡ some k
        → Step s (record s { kustomization = some k' })
    removes : (s : Cluster) → Step s (record s { kustomization = none })
    configures :
        (s : Cluster) (secrets : Dict (Dict String)) (schema : Option ConfigSchema)
        → Step s (record s { secrets = secrets; schema = schema })

  pub data Reach (s : Cluster) : Cluster → Type 0 where
    here : Reach s s
    next : {t u : Cluster} → Reach s t → Step t u → Reach s u

  Step-NoOrphan : {s t : Cluster} → Step s t → NoOrphan s → NoOrphan t
  Step-NoOrphan (reconciles s c x) i = reconcile-NoOrphan s c x i
  Step-NoOrphan (makes s a e) i = ground arith
  Step-NoOrphan (changes s a enabled ref n e) i = ground arith
  Step-NoOrphan (deletes s a e) i = ground arith
  Step-NoOrphan (reports s k k' e) i = ground arith
  Step-NoOrphan (removes s) i = inl refl
  Step-NoOrphan (configures s secrets schema) i = i

  -- A cache that misses the Kustomization: the app is released while it is there.
  missed :
      (s : Cluster) (a : App) (ref : KustomizationRef) (k : Kustomization) (c : Calls)
      → (c.cache s).app ≡ some a
      → a.kustomization ≡ some ref
      → a.finalizer ≡ true
      → a.deleting ≡ true
      → (c.cache s).kustomization ≡ none
      → s.kustomization ≡ some k
      → c.get_app ≡ true
      → c.get_kustomization ≡ true
      → c.update_app ≡ true
      → c.app_gone ≡ true
      → (reconcile w s c).0 ≡ record s { app = none }
  unfolding reconcile reconcile_app release_app delete_kustomization
  missed s a ref k c at_app spec fin del miss kust g d u o = ground arith

  -- In every order of reconciliations with any failing calls, changes and deletions by the user, and
  -- work of flux: if there is a Kustomization, then its app is still there with kubemate's finalizer.
  -- This takes a cache that is current in each reconciliation: it has the app as the server has it, and
  -- does not miss a Kustomization that the server has.
  pub Reach-NoOrphan : {s t : Cluster} → NoOrphan s → Reach s t → NoOrphan t
  Reach-NoOrphan i here = i
  Reach-NoOrphan i (next r st) = Step-NoOrphan st (Reach-NoOrphan i r)
