-- ===== src/Storage/FileStore/Refines.antt =====
-- pkg/storage/filestore.go implements the store of pkg/storage/inmemorystore.go: what a call does to the
-- items, whatever the operating system and the codec do.
use kubemate.Base.{
  String, ◌≡◌, refl, ap, inl, inr, Bool, Option, none, some, ◌==◌, Option-cases, Bool-cases,
}
use kubemate.Base.Dict.{get}
use kubemate.PubSub.{next_seq}
use kubemate.Resource.{Resource, ResourceType, Error, wrap, Outcome, Env}
use kubemate.Storage.InMemory
use kubemate.Storage.InMemory.{
  Store, get_item, stamped, store_created, store_deleted, store_modified, set_gvk,
  set_resource_version, emit,
}
use kubemate.Storage.Interface.{StoreOps}
use kubemate.Storage.Interface.Memory.{memory}
use kubemate.Storage.FileStore
use kubemate.Storage.FileStore.{
  unshared, FileStore, Disk, Os, strip, write_file, created, update_file, written, pack,
  remove_file, remove_checked,
}

module _ {Bytes B : Type 0} (T : ResourceType B) (encode : Resource B → Option Bytes)
    (deep_equal : Resource B → Resource B → Bool) (env : Env) where
  -- The calls of a file store in which the system calls succeed as in `os`.
  abbrev pub files : Os → StoreOps (FileStore Bytes B) B
  files os = record {
    get = λ s key o. get_item T s.inmemory.items s key o;
    create = λ s key o. FileStore.create T encode s env os key o;
    update = λ s key o f. FileStore.update T encode deep_equal s env os key o f;
    delete = λ s key o v. FileStore.delete T s env os key o v;
  }

  -- A request to change a store.
  pub data Request : Type 0 where
    creation : String → Resource B → Request
    change : String → Resource B → (Resource B → Resource B × Option Error) → Request
    removal : String → Resource B → (Resource B → Option Error) → Request

  abbrev pub perform : {S : Type 0} → StoreOps S B → S → Request → Outcome S B
  perform ops s (creation key o) = ops.create s key o
  perform ops s (change key o f) = ops.update s key o f
  perform ops s (removal key o v) = ops.delete s key o v

  -- The call `o` of the file store has done what the call `m` of the in-memory store does, or it has
  -- failed and changed no item.
  pub data Refines (s : Store B) (m : Outcome (Store B) B) (o : Outcome (FileStore Bytes B) B)
      : Type 0 where
    did : o.err ≡ none → m.err ≡ none → o.out ≡ m.out → o.state.inmemory ≡ m.state → Refines s m o
    failed : (e : Error) → o.err ≡ some e → o.state.inmemory.items ≡ s.items → Refines s m o

  created-Refines :
      (s : FileStore Bytes B) (os : Os) (key : String) (q : Resource B)
      (w : Disk Bytes × Option Error)
      → let r = stamped T (next_seq s.inmemory.seq) key env.now q in
        Refines s.inmemory (store_created T s.inmemory env key q) (created T encode s env key r w)
  unfolding created store_created emit
  created-Refines s os key q (d, none) = did refl refl refl refl
  created-Refines s os key q (d, some e) = failed _ refl refl

  create-Refines :
      (s : FileStore Bytes B) (os : Os) (key : String) (q : Resource B)
      → Refines s.inmemory
          (InMemory.create T s.inmemory env key q)
          (FileStore.create T encode s env os key q)
  unfolding FileStore.create InMemory.create
  create-Refines s os key q = elim (Option-cases (get key s.inmemory.items)) [
    | inl e ↦ rw (e, FileStore.create, InMemory.create) (created-Refines s os key q _)
    | inr (old, e) ↦ rw (e, FileStore.create, InMemory.create) (failed _ refl refl)
  ]

  module _ (s : FileStore Bytes B) (os : Os) (key : String) where
    -- The end of an update, whatever stands beside the store.
    modified-Refines :
        (d : Disk Bytes) (old mine : Resource B)
        → let m = store_modified T (s.inmemory, tt {0}) env key old mine in
          Refines s.inmemory
            (record { state = m.state.0; out = m.out; err = m.err })
            (pack T encode deep_equal key s.shared
              (store_modified T (s.inmemory, d) env key old mine))
    unfolding store_modified pack emit
    modified-Refines d old mine =
        elim (Bool-cases (old.resource_version == mine.resource_version)) [
          | inl same ↦ rw same (did refl refl refl refl)
          | inr other ↦ rw other (failed _ refl refl)
        ]

    module _ (old : Resource B) where
      -- The in-memory store's update of `old`, after the closure has run.
      abbrev finish : {D : Type 0} → Outcome D B → Outcome (Store B × D) B
      finish o = elim o.err [
        | none ↦ store_modified T (s.inmemory, o.state) env key old o.out
        | some e ↦ record {
          state = (s.inmemory, o.state);
          out = o.out;
          err = some (wrap "update resource" e);
        }
      ]

      abbrev alone : Outcome (Store B × Unit {0}) B → Outcome (Store B) B
      alone m = record { state = m.state.0; out = m.out; err = m.err }

      abbrev closed : Resource B × Option Error → Outcome (Unit {0}) B
      closed p = record { state = tt; out = p.0; err = p.1 }

      stored-Refines :
          (mine : Resource B) (w : Disk Bytes × Option Error)
          → Refines s.inmemory (alone (finish (closed (mine, none)))) (
              pack T encode deep_equal key s.shared
                (finish (record { state = w.0; out = mine; err = w.1 })))
      unfolding pack
      stored-Refines mine (d, none) = modified-Refines d old mine
      stored-Refines mine (d, some e) = failed _ refl refl

      finish-Refines :
          (p : Resource B × Option Error)
          → Refines s.inmemory (alone (finish (closed p))) (
              pack T encode deep_equal key s.shared
                (finish (written T encode deep_equal s.disk os key old p)))
      unfolding written pack
      finish-Refines (mine, some e) = failed _ refl refl
      finish-Refines (mine, none) = elim (Bool-cases (deep_equal old mine)) [
        | inl same ↦ rw same (modified-Refines s.disk old mine)
        | inr other ↦ rw other (stored-Refines mine (write_file T encode s.disk os key mine))
      ]

      module _ (res : Resource B) (f : Resource B → Resource B × Option Error)
          (e : get key s.inmemory.items ≡ some old) where
        update_found :
            {D : Type 0} (d : D) (m : D → Resource B → Outcome D B)
            → InMemory.update T (s.inmemory, d) env key res m ≡ finish (m d old)
        unfolding InMemory.update
        update_found d m = rw (e, InMemory.update) refl

        memory_found : (memory T env).update s.inmemory key res f ≡ alone (finish (closed (f old)))
        memory_found =
            ap (λ o. alone o)
              (update_found tt (λ d x. record { state = d; out = (f x).0; err = (f x).1 }))

        file_found :
            FileStore.update T encode deep_equal s env os key res f
            ≡ pack T encode deep_equal key s.shared
                (finish (written T encode deep_equal s.disk os key old (f old)))
        unfolding FileStore.update update_file
        file_found =
            rw (FileStore.update, e)
              (ap (λ o. pack T encode deep_equal key s.shared o)
                (update_found s.disk (update_file T encode deep_equal f os key old)))

    update-Refines :
        (res : Resource B) (f : Resource B → Resource B × Option Error)
        → Refines s.inmemory
            ((memory T env).update s.inmemory key res f)
            (FileStore.update T encode deep_equal s env os key res f)
    unfolding FileStore.update
    update-Refines res f = elim (Option-cases (get key s.inmemory.items)) [
      | inl e ↦ rw (e, FileStore.update) (failed _ refl refl)
      | inr (old, e) ↦
          rw (memory_found old res f e, file_found old res f e) (finish-Refines old (f old))
    ]

    abbrev beside : Outcome (Store B × Disk Bytes) B → Outcome (FileStore Bytes B) B
    beside r = record {
      state = record {
        inmemory = r.state.0;
        disk = r.state.1;
        shared = unshared key r.err s.shared;
      };
      out = r.out;
      err = r.err;
    }

    -- The end of a deletion of `old`, once the file was looked after.
    deleted-Refines :
        (old : Resource B) (w : Disk Bytes × Option Error)
        → Refines s.inmemory
            (alone old (store_deleted T (s.inmemory, tt {0}) env key old none))
            (beside (store_deleted T (s.inmemory, w.0) env key old w.1))
    unfolding store_deleted emit
    deleted-Refines old (d, none) = did refl refl refl refl
    deleted-Refines old (d, some e) = failed _ refl refl

    checked-Refines :
        (old : Resource B) (o : Option Error)
        → let w = remove_checked T s.disk os key o in
          Refines s.inmemory
            (alone old (store_deleted T (s.inmemory, tt {0}) env key old o))
            (beside (store_deleted T (s.inmemory, w.0) env key old w.1))
    unfolding remove_checked store_deleted
    checked-Refines old (some e) = failed _ refl refl
    checked-Refines old none = deleted-Refines old (remove_checked T s.disk os key none)

    module _ (old q : Resource B) (v : Resource B → Option Error)
        (e : get key s.inmemory.items ≡ some old) where
      delete_found :
          {D : Type 0} (d : D) (m : D → Resource B → D × Option Error)
          → InMemory.delete T (s.inmemory, d) env key q m
            ≡ store_deleted T (s.inmemory, (m d old).0) env key old (m d old).1
      unfolding InMemory.delete
      delete_found d m = rw (e, InMemory.delete) refl

      memory_deleted :
          (memory T env).delete s.inmemory key q v
          ≡ alone old (store_deleted T (s.inmemory, tt {0}) env key old (v old))
      memory_deleted = ap (λ o. alone old o) (delete_found tt (λ d x. (d, v x)))

      file_deleted :
          let w = remove_checked T s.disk os key (v old) in
          FileStore.delete T s env os key q v
          ≡ beside (store_deleted T (s.inmemory, w.0) env key old w.1)
      unfolding FileStore.delete remove_file
      file_deleted = ap (λ o. beside o) (delete_found s.disk (remove_file T v os key))

    delete-Refines :
        (q : Resource B) (v : Resource B → Option Error)
        → Refines s.inmemory
            ((memory T env).delete s.inmemory key q v)
            (FileStore.delete T s env os key q v)
    unfolding FileStore.delete InMemory.delete
    delete-Refines q v = elim (Option-cases (get key s.inmemory.items)) [
      | inl e ↦ rw (FileStore.delete, e, InMemory.delete) (failed _ refl refl)
      | inr (old, e) ↦
          rw (memory_deleted old q v e, file_deleted old q v e) (checked-Refines old (v old))
    ]

  -- A call of the file store does what the call of the in-memory store does, or it fails: whatever the
  -- system calls and the codec do, a call to create, update or delete either does to the items, the
  -- version, the watchers and the caller's object what the in-memory store does, both without an error,
  -- or it reports an error and has changed no item. (This is about the call itself. It says nothing of
  -- what the caller of a create does afterwards to the object that it handed in, which in the file
  -- store stays the item.)
  pub perform-Refines :
      (s : FileStore Bytes B) (os : Os) (r : Request)
      → Refines s.inmemory (perform (memory T env) s.inmemory r) (perform (files os) s r)
  perform-Refines s os (creation key o) = create-Refines s os key o
  perform-Refines s os (change key o f) = update-Refines s os key o f
  perform-Refines s os (removal key o v) = delete-Refines s os key o v
