-- ===== src/Storage/InMemory/Contents.antt =====
-- pkg/storage/inmemorystore.go: what each call does to the items, on every branch.
use kubemate.Base.{
  String, ◌≡◌, refl, ◌≢◌, ◌⊎◌, inl, inr, Option, none, some, ◌==◌, eq_iff, Option-cases, Bool-cases,
}
use kubemate.Base.Dict.{get, put, get-put_self, get-put_ne, get-remove_self, get-remove_ne}
use kubemate.PubSub.{next_seq}
use kubemate.Resource.{
  Resource, ResourceType, Error, not_found, already_exists, conflict, wrap, Outcome, Env, version,
}
use kubemate.Storage.InMemory.{
  set_resource_version, store_deleted, store_created, Store, set_gvk, stamped, emit, create, delete,
  store_modified, update,
}

module _ {B : Type 0} where
  -- `t` has `o` at the key and what `s` has elsewhere.
  pub record Wrote (s t : Store B) (key : String) (o : Option (Resource B)) : Type 0 where
    pub there : get key t.items ≡ o
    pub elsewhere : (j : String) → key ≢ j → get j t.items ≡ get j s.items

  -- A new object with the next version is in the store, and the caller has it too.
  pub record Committed (s : Store B) (key : String) (r : Outcome (Store B) B) : Type 0 where
    pub wrote : Wrote s r.state key (some r.out)
    pub counted : r.state.seq ≡ next_seq s.seq
    pub versioned : r.out.resource_version ≡ version r.state.seq
    pub no_error : r.err ≡ none

  -- The call failed with `e`, and the store is as it was.
  pub record Refused (s : Store B) (e : Error) (r : Outcome (Store B) B) : Type 0 where
    pub kept : r.state ≡ s
    pub error : r.err ≡ some e

  Wrote-put :
      (s : Store B) (t : Store B) (key : String) (r : Resource B)
      → t.items ≡ put key r s.items
      → Wrote s t key (some r)
  Wrote-put s t key r e = record {
    there = rw e (get-put_self key r s.items);
    elsewhere = λ j ne. rw e (get-put_ne key j r s.items ne);
  }

module _ {B : Type 0} (T : ResourceType B) where
  store_created-Committed :
      (s : Store B) (env : Env) (key : String) (res : Resource B)
      → Committed s key (store_created T s env key res)
  unfolding store_created emit stamped
  store_created-Committed s env key res = record {
    wrote = Wrote-put s _ key _ refl;
    counted = refl;
    versioned = refl;
    no_error = refl;
  }

  store_created-name :
      (s : Store B) (env : Env) (key : String) (res : Resource B)
      → (store_created T s env key res).out.name ≡ key
  unfolding store_created emit stamped
  store_created-name s env key res = refl

  -- The four ways in which an update ends.
  pub data UpdateCases {D : Type 0} (s : Store B) (d : D) (key : String)
      (modify : D → Resource B → Outcome D B) (r : Outcome (Store B × D) B) : Type 0 where
    missing :
        get key s.items ≡ none
        → r.state ≡ (s, d)
        → r.err ≡ some (not_found T.group_resource key)
        → UpdateCases s d key modify r
    failed :
        (old : Resource B) (e : Error)
        → get key s.items ≡ some old
        → (modify d old).err ≡ some e
        → r.state ≡ (s, (modify d old).state)
        → r.err ≡ some (wrap "update resource" e)
        → UpdateCases s d key modify r
    outdated :
        (old : Resource B)
        → get key s.items ≡ some old
        → (modify d old).err ≡ none
        → old.resource_version ≢ (modify d old).out.resource_version
        → r.state ≡ (s, (modify d old).state)
        → r.err ≡ some (conflict T.group_resource key)
        → UpdateCases s d key modify r
    stored :
        (old : Resource B)
        → get key s.items ≡ some old
        → (modify d old).err ≡ none
        → old.resource_version ≡ (modify d old).out.resource_version
        → Committed s key (record { state = r.state.0; out = r.out; err = r.err })
        → r.state.1 ≡ (modify d old).state
        → r.out ≡ set_resource_version (next_seq s.seq) (set_gvk T (modify d old).out)
        → UpdateCases s d key modify r

  -- `Create` stores the object under a free key and refuses a key that is in use; a stored object
  -- has the key for its name, and the caller's object is touched only when it is stored.
  pub create_cases :
      (s : Store B) (env : Env) (key : String) (res : Resource B)
      → ((get key s.items ≡ none)
          × Committed s key (create T s env key res)
          × ((create T s env key res).out.name ≡ key))
        ⊎ ((get key s.items ≢ none)
            × Refused s (already_exists T.group_resource key) (create T s env key res)
            × ((create T s env key res).out ≡ res))
  unfolding create
  create_cases s env key res = elim (Option-cases (get key s.items)) [
    | inl e ↦ inl (
      e,
      rw (e, create) (store_created-Committed s env key res),
      rw (e, create) (store_created-name s env key res),
    )
    | inr (old, e) ↦
        inr ((λ n. cc), rw (e, create) (record { kept = refl; error = refl }), rw (e, create) refl)
  ]

  module _ {D : Type 0} (s : Store B) (env : Env) (key : String) where
    store_modified-Committed :
        (d : D) (old r : Resource B)
        → old.resource_version ≡ r.resource_version
        → let o = store_modified T (s, d) env key old r in
          Committed s key (record { state = o.state.0; out = o.out; err = o.err })
          × (o.state.1 ≡ d)
          × (o.out ≡ set_resource_version (next_seq s.seq) (set_gvk T r))
    unfolding store_modified emit
    store_modified-Committed d old r e = rw ((eq_iff old.resource_version r.resource_version).1 e) (
      record {
        wrote = Wrote-put s _ key _ refl;
        counted = refl;
        versioned = refl;
        no_error = refl;
      },
      refl,
      refl,
    )

    modified_cases :
        (d : D) (res : Resource B) (modify : D → Resource B → Outcome D B) (old : Resource B)
        → get key s.items ≡ some old
        → (modify d old).err ≡ none
        → UpdateCases s d key modify
            (store_modified T (s, (modify d old).state) env key old (modify d old).out)
    unfolding store_modified
    modified_cases d res modify old e fine =
        elim (Bool-cases (old.resource_version == (modify d old).out.resource_version)) [
          | inl same ↦
              let same' : old.resource_version ≡ (modify d old).out.resource_version =
                (eq_iff _ _).0 same in
              let done =
                store_modified-Committed (modify d old).state old (modify d old).out same' in
              stored old e fine same' done.0 done.1 done.2
          | inr other ↦ rw other (outdated old e fine (λ q. cc ((eq_iff _ _).1 q)) refl refl)
        ]

    -- `Update` fails if the key is not in use or the caller's closure fails, and it is a conflict if
    -- the closure has left an object with another version than the stored one. Else the object that
    -- the closure made is stored, under the next version. In the other cases the store is as it was.
    pub update_cases :
        (d : D) (res : Resource B) (modify : D → Resource B → Outcome D B)
        → UpdateCases s d key modify (update T (s, d) env key res modify)
    unfolding update
    update_cases d res modify = elim (Option-cases (get key s.items)) [
      | inl e ↦ rw (e, update) (missing e refl refl)
      | inr (old, e) ↦ elim (Option-cases (modify d old).err) [
        | inl fine ↦ rw (e, fine, update) (modified_cases d res modify old e fine)
        | inr (bad, f) ↦ rw (e, f, update) (failed old bad e f refl refl)
      ]
    ]

    -- The three ways in which a deletion ends.
    pub data DeleteCases (d : D) (validate : D → Resource B → D × Option Error)
        (r : Outcome (Store B × D) B) : Type 0 where
      absent :
          get key s.items ≡ none
          → r.state ≡ (s, d)
          → r.err ≡ some (not_found T.group_resource key)
          → DeleteCases d validate r
      invalid :
          (old : Resource B) (e : Error)
          → get key s.items ≡ some old
          → (validate d old).1 ≡ some e
          → r.state ≡ (s, (validate d old).0)
          → r.err ≡ some (wrap "delete resource" e)
          → DeleteCases d validate r
      gone :
          (old : Resource B)
          → get key s.items ≡ some old
          → (validate d old).1 ≡ none
          → Wrote s r.state.0 key none
          → r.state.1 ≡ (validate d old).0
          → r.out ≡ old
          → r.err ≡ none
          → DeleteCases d validate r

    store_deleted-cases :
        (d : D) (validate : D → Resource B → D × Option Error) (old : Resource B) (o : Option Error)
        → get key s.items ≡ some old
        → (validate d old).1 ≡ o
        → DeleteCases d validate (store_deleted T (s, (validate d old).0) env key old o)
    unfolding store_deleted emit
    store_deleted-cases d validate old none e fine =
        gone old e fine
          (record {
            there = get-remove_self key s.items;
            elsewhere = λ j ne. get-remove_ne key j s.items ne;
          })
          refl refl refl
    store_deleted-cases d validate old (some bad) e f = invalid old bad e f refl refl

    -- `Delete` removes exactly the entry of its key, and hands the removed object out, if the caller's
    -- validation passes; if the key is not in use or the validation fails, the store is as it was.
    pub delete_cases :
        (d : D) (o : Resource B) (validate : D → Resource B → D × Option Error)
        → DeleteCases d validate (delete T (s, d) env key o validate)
    unfolding delete
    delete_cases d o validate = elim (Option-cases (get key s.items)) [
      | inl e ↦ rw (e, delete) (absent e refl refl)
      | inr (old, e) ↦ rw (e, delete) (store_deleted-cases d validate old _ e refl)
    ]
