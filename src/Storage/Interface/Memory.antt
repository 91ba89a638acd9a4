-- ===== src/Storage/Interface/Memory.antt =====
-- The in-memory store of pkg/storage/inmemorystore.go keeps what storage.Interface promises.
use kubemate.Base.{ℕ, Option-cases, ◌∙◌, String, ◌≡◌, refl, ap, ◌≢◌, inl, inr, Option, none, some}
use kubemate.Base.Dict.{get}
use kubemate.Resource.{Resource, ResourceType, Error, Outcome, Env}
use kubemate.Storage.InMemory
use kubemate.Storage.InMemory.{
  set_name_and_creation_timestamp, stamped, store_created, Store, get_item, set_gvk,
  set_resource_version,
}
use kubemate.Storage.InMemory.Contents.{
  create_cases, update_cases, delete_cases, UpdateCases, DeleteCases, missing, failed, outdated,
  stored, absent, invalid, gone,
}
use kubemate.Storage.Interface.{StoreOps, StoreLaws, Effect, Unchanged, refused, held}

module _ {B : Type 0} (T : ResourceType B) (env : Env) where
  -- One key, one closure: the calls of the store at a time and with readers as in `env`.
  abbrev pub memory : StoreOps (Store B) B
  memory = record {
    get = λ s key o. get_item T s.items s key o;
    create = λ s key o. InMemory.create T s env key o;
    update = λ s key o f.
        let r =
          InMemory.update T (s, tt {0}) env key o
            (λ d x. record { state = d; out = (f x).0; err = (f x).1 }) in
        record { state = r.state.0; out = r.out; err = r.err };
    delete = λ s key o v.
        let r = InMemory.delete T (s, tt {0}) env key o (λ d x. (d, v x)) in
        record { state = r.state.0; out = r.out; err = r.err };
  }

  set_gvk-body : (r : Resource B) → (set_gvk T r).body ≡ r.body
  unfolding set_gvk
  set_gvk-body r = elim (Option-cases T.object_kind) [
    | inl e ↦ rw (e, set_gvk) refl
    | inr (vk, e) ↦ rw (e, set_gvk) refl
  ]

  pub versioned-body :
      (n : ℕ) (r : Resource B) → (set_resource_version n (set_gvk T r)).body ≡ r.body
  unfolding set_resource_version
  versioned-body n r = set_gvk-body r

  pub create-body :
      (s : Store B) (key : String) (o : Resource B)
      → get key s.items ≡ none
      → (InMemory.create T s env key o).out.body ≡ o.body
  unfolding InMemory.create store_created stamped set_name_and_creation_timestamp
      set_resource_version
  create-body s key o e = rw (e, InMemory.create) (set_gvk-body o)

  pub create_free :
      (s : Store B) (key : String) (o : Resource B)
      → get key s.items ≡ none
      → Effect
          (λ k. get k s.items)
          (λ k. get k (memory.create s key o).state.items)
          key
          (λ b. b ≡ o.body)
          (memory.create s key o).err
  create_free s key o e = elim (create_cases T s env key o) [
    | inl (e', c, n) ↦
        held (memory.create s key o).out c.no_error (create-body s key o e) c.wrote.there
          c.wrote.elsewhere
    | inr (n, r, o') ↦ absurd (n e)
  ]

  pub create_used :
      (s : Store B) (key : String) (o r : Resource B)
      → get key s.items ≡ some r
      → Unchanged
          (λ k. get k s.items)
          (λ k. get k (memory.create s key o).state.items)
          (memory.create s key o).err
  create_used s key o r e = elim (create_cases T s env key o) [
    | inl (e', c, n) ↦ cc
    | inr (n, c, o') ↦ (_, c.error, λ k. ap (λ (t : Store B). get k t.items) c.kept)
  ]

  module _ (s : Store B) (key : String) (o : Resource B)
      (f : Resource B → Resource B × Option Error) where
    abbrev pub closure : Unit {0} → Resource B → Outcome (Unit {0}) B
    closure d x = record { state = d; out = (f x).0; err = (f x).1 }

    same_items :
        (t : Store B × Unit {0}) → t ≡ (s, tt) → (k : String) → get k t.0.items ≡ get k s.items
    same_items t e k = ap (λ (p : Store B × Unit {0}). get k p.0.items) e

    pub update-Effect :
        (r : Resource B) (u : Outcome (Store B × Unit {0}) B)
        → get key s.items ≡ some r
        → UpdateCases T s tt key closure u
        → Effect (λ k. get k s.items) (λ k. get k u.state.0.items) key (λ b. b ≡ (f r).0.body) u.err
    update-Effect r u e (missing e' st er) = cc
    update-Effect r u e (failed old x a b st er) = refused (_, er, same_items u.state st)
    update-Effect r u e (outdated old a b c st er) = refused (_, er, same_items u.state st)
    update-Effect r u e (stored old a b c done st out) =
        let same : old ≡ r = cc in
        held u.out done.no_error
          (ap (λ (x : Resource B). x.body) out
            ∙ versioned-body _ (closure tt old).out
            ∙ ap (λ x. (f x).0.body) same)
          done.wrote.there done.wrote.elsewhere

    pub update-Unchanged :
        (u : Outcome (Store B × Unit {0}) B)
        → get key s.items ≡ none
        → UpdateCases T s tt key closure u
        → Unchanged (λ k. get k s.items) (λ k. get k u.state.0.items) u.err
    update-Unchanged u e (missing e' st er) = (_, er, same_items u.state st)
    update-Unchanged u e (failed old x a b st er) = (_, er, same_items u.state st)
    update-Unchanged u e (outdated old a b c st er) = (_, er, same_items u.state st)
    update-Unchanged u e (stored old a b c done st out) = cc

  pub delete_effect :
      (s : Store B) (key : String) (v : Unit {0} → Resource B → Unit {0} × Option Error)
      (u : Outcome (Store B × Unit {0}) B) (k : String)
      → key ≢ k
      → DeleteCases T s env key tt v u
      → get k u.state.0.items ≡ get k s.items
  delete_effect s key v u k ne (absent e st er) =
      ap (λ (p : Store B × Unit {0}). get k p.0.items) st
  delete_effect s key v u k ne (invalid old x a b st er) =
      ap (λ (p : Store B × Unit {0}). get k p.0.items) st
  delete_effect s key v u k ne (gone old a b w st out er) = w.elsewhere k ne

  -- The in-memory store keeps every promise of the interface.
  unfoldable pub memory_laws : StoreLaws T.group_resource memory
  unfolding get_item
  memory_laws = record {
    lookup = λ s k. get k s.items;
    get_found = λ s key o r e. rw (e, get_item) refl;
    get_missing = λ s key o e. rw (e, get_item) refl;
    create_free = create_free;
    create_used = create_used;
    update_found = λ s key o r f e.
        update-Effect s key o f r _ e (update_cases T s env key tt o (closure s key o f));
    update_missing = λ s key o f e.
        update-Unchanged s key o f _ e (update_cases T s env key tt o (closure s key o f));
    delete_elsewhere =
        λ s key o v k ne. delete_effect s key _ _ k ne (delete_cases T s env key tt o _);
  }
