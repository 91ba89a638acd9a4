-- ===== src/Storage/InMemory.antt =====
-- pkg/storage/inmemorystore.go. The mutex makes each call one step. A closure that a caller hands in
-- is a function of the state that it writes to (`D`) and of the object that it may change.
pub mod Contents
pub mod Versions
pub mod Listing
pub mod Examples
use kubemate.Base.{
  Bool, ℕ, String, Option, none, some, List, [], ◌∷◌, ◌==◌, ◌&&◌, not, if◌then◌else◌,
}
use kubemate.Base.Dict.{Dict, get, put, remove, keys}
use kubemate.Base.Sort.{sort}
use kubemate.PubSub.{
  PubSub, Selector, EventType, added, modified, deleted, next_seq, subscribe, publish,
}
use kubemate.PubSub
use kubemate.Resource.{
  Resource, ResourceType, Error, not_found, already_exists, conflict, wrap, Outcome, Env, version,
  accessor, with_version,
}

pub record Store (B : Type 0) : Type 0 where
  pub items : Dict (Resource B)
  pub pubsub : PubSub (Resource B)
  pub seq : ℕ

pub record ResourceList (B : Type 0) : Type 0 where
  pub resource_version : String
  pub api_version : String
  pub kind : String
  pub items : List (Resource B)

unfoldable pub in_memory : {B : Type 0} → Store B
in_memory = record { items = []; pubsub = PubSub.new; seq = 0 }

-- The selector of `Watch` lets every event through.
abbrev pub any_event : Selector
any_event = record { type = none; namespace = ""; name = "" }

unfoldable pub created_at : ℕ → Option ℕ → Option ℕ
created_at now none = some now
created_at now (some t) = some t

module _ {B : Type 0} where
  -- `none` is the error Gone.
  unfoldable pub watch : Store B → String → Option (Store B)
  watch s v =
      if not (v == "") && not (v == version s.seq)
      then none
      else some (record s { pubsub = subscribe s.pubsub any_event })

  unfoldable pub set_resource_version : ℕ → Resource B → Resource B
  set_resource_version n = with_version (version n)

  unfoldable pub set_name_and_creation_timestamp : String → ℕ → Resource B → Resource B
  unfolding created_at
  set_name_and_creation_timestamp key now r = record r {
    meta = record (r.meta) { name = key; creation_timestamp = created_at now r.creation_timestamp };
  }

module _ {B : Type 0} (T : ResourceType B) where
  -- The callers drop the error of `setGVK`; then the object is as it was.
  unfoldable pub set_gvk : Resource B → Resource B
  set_gvk r = elim T.object_kind [ none ↦ r | some (v, k) ↦ record r { api_version = v; kind = k } ]

  unfoldable pub emit : Store B → EventType → Resource B → (ℕ → Bool) → Store B
  emit s action r ready = record s {
    pubsub =
        publish accessor (λ o. T.go_type) s.pubsub (record { type = action; object = r }) ready;
  }

  -- The loop of `List` over the sorted keys.
  collect : Dict (Resource B) → List String → List (Resource B)
  collect items [] = []
  collect items (k ∷ ks) =
      let rest = collect items ks in elim (get k items) [ none ↦ rest | some r ↦ set_gvk r ∷ rest ]

  unfoldable pub list : Store B → ResourceList B
  unfolding collect
  list s = record {
    resource_version = version s.seq;
    api_version = "v1";
    kind = "List";
    items = collect s.items (sort (keys s.items));
  }

  -- `Get` copies the item into the caller's object.
  unfoldable pub get_item : {S : Type 0} → Dict (Resource B) → S → String → Resource B → Outcome S B
  get_item items s key res = elim (get key items) [
    | none ↦ record { state = s; out = res; err = some (not_found T.group_resource key) }
    | some item ↦ record { state = s; out = item; err = none }
  ]

  -- The object as `Create` stores it: with kind, name, time of creation and version.
  unfoldable pub stamped : ℕ → String → ℕ → Resource B → Resource B
  unfolding set_gvk set_name_and_creation_timestamp set_resource_version
  stamped seq key now res =
      set_resource_version seq (set_name_and_creation_timestamp key now (set_gvk res))

  -- The end of `Create`, once the key is known to be free.
  unfoldable pub store_created : Store B → Env → String → Resource B → Outcome (Store B) B
  store_created s env key res =
      let r = stamped (next_seq s.seq) key env.now res in
      let stored : Store B = record s { items = put key r s.items; seq = next_seq s.seq } in
      record { state = emit stored added r env.ready; out = r; err = none }

  unfoldable pub create : Store B → Env → String → Resource B → Outcome (Store B) B
  create s env key res = elim (get key s.items) [
    | some existing ↦ record {
      state = s;
      out = res;
      err = some (already_exists T.group_resource key);
    }
    | none ↦ store_created s env key res
  ]

  module _ {D : Type 0} where
    -- The end of `Delete`, after `validate`.
    unfoldable pub store_deleted :
        Store B × D → Env → String → Resource B → Option Error → Outcome (Store B × D) B
    store_deleted (s, d) env key existing (some e) = record {
      state = (s, d);
      out = existing;
      err = some (wrap "delete resource" e);
    }
    store_deleted (s, d) env key existing none =
        let rest : Store B = record s { items = remove key s.items } in
        record { state = (emit rest deleted existing env.ready, d); out = existing; err = none }

    -- `validate` sees the item, and may have an effect outside the store.
    unfoldable pub delete :
        Store B × D
        → Env
        → String
        → Resource B
        → (D → Resource B → D × Option Error)
        → Outcome (Store B × D) B
    delete (s, d) env key o validate = elim (get key s.items) [
      | none ↦ record { state = (s, d); out = o; err = some (not_found T.group_resource key) }
      | some existing ↦
          let (d', invalid) = validate d existing in store_deleted (s, d') env key existing invalid
    ]

    -- The end of `Update`, after `modify` has changed the copy `res` of the existing item.
    unfoldable pub store_modified :
        Store B × D → Env → String → Resource B → Resource B → Outcome (Store B × D) B
    unfolding set_gvk set_resource_version
    store_modified (s, d) env key existing res =
        if existing.resource_version == res.resource_version
        then (let r = set_resource_version (next_seq s.seq) (set_gvk res) in
            let stored : Store B = record s { items = put key r s.items; seq = next_seq s.seq } in
            record { state = (emit stored modified r env.ready, d); out = r; err = none })
        else record { state = (s, d); out = res; err = some (conflict T.group_resource key) }

    unfoldable pub update :
        Store B × D
        → Env
        → String
        → Resource B
        → (D → Resource B → Outcome D B)
        → Outcome (Store B × D) B
    update (s, d) env key res modify = elim (get key s.items) [
      | none ↦ record { state = (s, d); out = res; err = some (not_found T.group_resource key) }
      | some existing ↦
          let m = modify d existing in
          elim m.err [
            | some e ↦ record {
              state = (s, m.state);
              out = m.out;
              err = some (wrap "update resource" e);
            }
            | none ↦ store_modified (s, m.state) env key existing m.out
          ]
    ]
