-- ===== src/Storage/InMemory/Listing.antt =====
-- pkg/storage/inmemorystore.go: lists, and the watches that start from a list's version.
use kubemate.Base.Decimal.{decimal, decimal-ne-empty}
use mathlib.Core.List.{Perm}
use kubemate.Base.{
  eq_false, is_some, lt→ltb, ℕ, ◌<◌, ◌^◌, String, ◌≡◌, refl, ap, ◌≢◌, ◌↔◌, inl, inr, true, false,
  Option, none, some, List, [], ◌∷◌, Option-cases, ◌==◌, eq_iff, All,
}
use kubemate.Base.Dict.{keys-in_use, get-remove_self, Dict, get, keys}
use kubemate.Base.Sort.{sort-All, sort, sort-perm, sort-IsSorted, IsSorted}
use kubemate.Resource.{Resource, ResourceType, Error, Env, version}
use kubemate.Storage.InMemory.{Store, list, collect, watch, set_gvk, delete, store_deleted, emit}
use kubemate.Storage.InMemory.Versions.{version_injective}

version-ne-empty : (n : ℕ) → n < 2 ^ 63 → (version n == "") ≡ false
unfolding version
version-ne-empty n h = rw (lt→ltb n (2 ^ 63) h) (eq_false (decimal n) "" (decimal-ne-empty n))

module _ {B : Type 0} (T : ResourceType B) where
  -- The objects are the items of the keys, in the order of the keys, each with its kind set.
  pub data Lists (items : Dict (Resource B)) : List String → List (Resource B) → Type 0 where
    nil : Lists items [] []
    cons :
        (k : String) {ks : List String} {rs : List (Resource B)} (r : Resource B)
        → get k items ≡ some r
        → Lists items ks rs
        → Lists items (k ∷ ks) (set_gvk T r ∷ rs)

  collect-Lists :
      (items : Dict (Resource B)) (ks : List String)
      → All (λ k. is_some (get k items) ≡ true) ks
      → Lists items ks (collect T items ks)
  unfolding collect
  collect-Lists items [] h = nil
  collect-Lists items (k ∷ ks) h = elim (Option-cases (get k items)) [
    | inl e ↦ cc (ap is_some e, h.0)
    | inr (r, e) ↦ rw (e, collect) (cons k r e (collect-Lists items ks h.1))
  ]

  pub list-Lists : (s : Store B) → Lists s.items (sort (keys s.items)) (list T s).items
  unfolding list
  list-Lists s =
      collect-Lists s.items (sort (keys s.items)) (sort-All _ (keys s.items) (keys-in_use s.items))

  -- `List` returns the items of all keys in use, each key as often as it stands in the map, by
  -- ascending key, under the store's current version.
  pub list_items :
      (s : Store B)
      → (ks : List String) × Perm ks (keys s.items)
        × IsSorted ks
        × Lists s.items ks (list T s).items
        × ((list T s).resource_version ≡ version s.seq)
  unfolding list
  list_items s = (
    sort (keys s.items),
    sort-perm (keys s.items),
    sort-IsSorted (keys s.items),
    list-Lists s,
    refl,
  )

  -- A watch from a list's version is refused exactly when the counter has moved on since the list
  -- was made (both counters below 2^63).
  pub watch-list :
      (s t : Store B)
      → s.seq < 2 ^ 63
      → t.seq < 2 ^ 63
      → (watch t (list T s).resource_version ≡ none) ↔ (s.seq ≢ t.seq)
  unfolding watch list
  watch-list s t hs ht = (
    λ refused e. cc (
        rw
          (
            version-ne-empty s.seq hs,
            (eq_iff (version s.seq) (version t.seq)).1 (ap version e),
            watch,
          )
          at refused),
    λ moved.
        rw
          (
            version-ne-empty s.seq hs,
            eq_false (version s.seq) (version t.seq)
                (λ e. moved (version_injective s.seq t.seq hs ht e)),
            watch,
          )
          refl,
  )

  -- A deletion does not move the counter. So a client that made a list before it and starts its
  -- watch from that list's version after it is accepted, though the object is gone.
  pub watch-delete :
      {D : Type 0} (s : Store B) (d : D) (env : Env) (key : String) (o r : Resource B)
      (validate : D → Resource B → D × Option Error)
      → s.seq < 2 ^ 63
      → get key s.items ≡ some r
      → (validate d r).1 ≡ none
      → (get key (delete T (s, d) env key o validate).state.0.items ≡ none)
        × (watch (delete T (s, d) env key o validate).state.0 (list T s).resource_version ≢ none)
  unfolding delete store_deleted emit
  watch-delete s d env key o r validate hs h fine = (
    rw (h, fine, delete) (get-remove_self key s.items),
    λ refused.
        (watch-list s (delete T (s, d) env key o validate).state.0 hs (rw (h, fine, delete) hs)).0
          refused (rw (h, fine, delete) refl),
  )
