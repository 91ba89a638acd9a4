-- ===== src/Discovery/Removal.antt =====
-- pkg/discovery/device_discovery.go: which devices a discovery removes.
use kubemate.Base.{
  String, ◌≡◌, refl, sym, ap, ◌∙◌, inl, inr, Bool, false, Option, none, some, List, [], ◌∷◌, ◌==◌,
  ◌&&◌, ◌||◌, any, is_some, if◌then◌else◌, Bool-cases, Option-cases, arith, eq_iff,
}
use kubemate.Base.Dict.{get, keys, get-remove, any-keys}
use kubemate.Base.Sort.{any-sort}
use kubemate.Resource.{Resource, ResourceType, Error, Env}
use kubemate.Storage.InMemory
use kubemate.Storage.InMemory.{Store, store_deleted, emit, set_gvk, list}
use kubemate.Storage.InMemory.Listing.{Lists, nil, cons, list-Lists}
use kubemate.Storage.Interface.Memory.{memory}
use kubemate.Discovery.{DiscoveryBody, is_offline, keep_first, remove_offline}

-- Every object stands under its own name.
abbrev pub Named : Store DiscoveryBody → Type 0
Named s = (k : String) (r : Resource DiscoveryBody) → get k s.items ≡ some r → r.name ≡ k

-- Whether the object at a key is labelled and not among the found.
abbrev pub is_gone : List String → Option (Resource DiscoveryBody) → Bool
is_gone found none = false
is_gone found (some r) = is_offline found r

abbrev pub goes_away : List String → Store DiscoveryBody → String → Bool
goes_away found s k = is_gone found (get k s.items)

module _ (T : ResourceType DiscoveryBody) (env : Env) (device_name : String) where
  delete_lookup :
      (s : Store DiscoveryBody) (j k : String) (o : Resource DiscoveryBody)
      → get k ((memory T env).delete s j o (λ r. none)).state.items
        ≡ (if j == k then none else get k s.items)
  unfolding InMemory.delete store_deleted emit
  delete_lookup s j k o = elim (Option-cases (get j s.items)) [
    | inl e ↦ rw (InMemory.delete, e) (ground (arith, eq_iff j k))
    | inr (r, e) ↦ rw (InMemory.delete, e) (get-remove j k s.items)
  ]

  abbrev hits : List String → String → Resource DiscoveryBody → Bool
  hits found k d = d.name == k && is_offline found d

  remove_offline_lookup :
      (found : List String) (s : Store DiscoveryBody) (err : Option Error)
      (ds : List (Resource DiscoveryBody)) (k : String)
      → get k (remove_offline T env device_name found (s, err) ds).0.items
        ≡ (if any (hits found k) ds then none else get k s.items)
  unfolding remove_offline
  remove_offline_lookup found s err [] k = refl
  remove_offline_lookup found s err (d ∷ ds) k = elim (Bool-cases (is_offline found d)) [
    | inl off ↦
        let o = (memory T env).delete s d.name d (λ r. none) in
        rw (remove_offline, off)
          (remove_offline_lookup found o.state (keep_first err o.err) ds k
            ∙ rw (delete_lookup s d.name k d) (ground arith))
    | inr on ↦ rw (remove_offline, on) (remove_offline_lookup found s err ds k ∙ ground arith)
  ]

  set_gvk_offline :
      (found : List String) (r : Resource DiscoveryBody)
      → (is_offline found (set_gvk T r) ≡ is_offline found r) × ((set_gvk T r).name ≡ r.name)
  unfolding set_gvk
  set_gvk_offline found r = elim (Option-cases T.object_kind) [
    | inl e ↦ rw (set_gvk, e) (refl, refl)
    | inr (vk, e) ↦ rw (set_gvk, e) (refl, refl)
  ]

  goes_away_of :
      (found : List String) (s : Store DiscoveryBody) (k : String) (r : Resource DiscoveryBody)
      → get k s.items ≡ some r
      → goes_away found s k ≡ is_offline found r
  goes_away_of found s k r e = rw (goes_away, e) refl

  hits_of :
      (found : List String) (k : String) (r : Resource DiscoveryBody)
      → hits found k (set_gvk T r) ≡ (r.name == k && is_offline found r)
  hits_of found k r = cc ((set_gvk_offline found r).0, (set_gvk_offline found r).1)

  one_hit :
      (found : List String) (s : Store DiscoveryBody) (j k : String) (r : Resource DiscoveryBody)
      (rest : Bool)
      → get j s.items ≡ some r
      → ((j == k && is_offline found r) || (rest && goes_away found s k))
        ≡ ((j == k || rest) && goes_away found s k)
  one_hit found s j k r rest e = elim (Bool-cases (j == k)) [
    | inl same ↦
        let there : goes_away found s k ≡ is_offline found r =
          goes_away_of found s k r (ap (λ x. get x s.items) (sym ((eq_iff j k).0 same)) ∙ e) in
        rw (same, there) (ground arith)
    | inr other ↦ rw other refl
  ]

  listed_hits :
      (found : List String) (s : Store DiscoveryBody) (k : String) {ks : List String}
      {ds : List (Resource DiscoveryBody)}
      → Named s
      → Lists T s.items ks ds
      → any (hits found k) ds ≡ (any (λ j. j == k) ks && goes_away found s k)
  listed_hits found s k named nil = refl
  listed_hits found s k named (cons j {ks} {rs} r e rest) =
      ap (λ b. b || any (hits found k) rs)
        (hits_of found k r ∙ ap (λ n. n == k && is_offline found r) (named j r e))
      ∙ ap (λ b. (j == k && is_offline found r) || b) (listed_hits found s k named rest)
      ∙ one_hit found s j k r _ e

  goes_away_there :
      (found : List String) (s : Store DiscoveryBody) (k : String)
      → (is_some (get k s.items) && goes_away found s k) ≡ goes_away found s k
  goes_away_there found s k = elim (Option-cases (get k s.items)) [
    | inl e ↦ rw (goes_away, e) refl
    | inr (r, e) ↦ rw (goes_away, e) refl
  ]

  -- Of all objects exactly those that are labelled and were not found are removed.
  pub sweep_lookup :
      (found : List String) (s : Store DiscoveryBody) (err : Option Error) (k : String)
      → Named s
      → get k (remove_offline T env device_name found (s, err) (list T s).items).0.items
        ≡ (if goes_away found s k then none else get k s.items)
  sweep_lookup found s err k named =
      let hit : any (hits found k) (list T s).items ≡ goes_away found s k =
        listed_hits found s k named (list-Lists T s)
        ∙ ap (λ b. b && goes_away found s k)
            (any-sort (λ j. j == k) (keys s.items) ∙ any-keys k s.items)
        ∙ goes_away_there found s k in
      remove_offline_lookup found s err (list T s).items k
      ∙ ap (λ (b : Bool). if b then none else get k s.items) hit
