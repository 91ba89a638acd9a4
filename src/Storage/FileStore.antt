-- ===== src/Storage/FileStore.antt =====
-- pkg/storage/filestore.go: the in-memory store with a copy of each object in a file of its own.
-- The codec and `equality.Semantic.DeepEqual` are parameters; whether a call of the operating system
-- succeeds is an argument (`Os`). The files are named by their keys, without the suffix `.yaml`.
pub mod Consistency
pub mod Updates
pub mod Loading
pub mod Restart
pub mod Aliasing
pub mod Refines
pub mod Promises
pub mod Examples
use Prim.Native.String.{len, slice}
use kubemate.Base.{
  any, select, ℕ, suc, ◌+◌, ◌-◌, String, ◌≡◌, Bool, true, false, Option, none, some, List, [], ◌∷◌,
  ◌==◌, ◌&&◌, not, leb, if◌then◌else◌, is_some,
}
use kubemate.Base.Dict.{Dict, get, put, remove}
use kubemate.PubSub.{next_seq, added}
use kubemate.Resource.{
  Meta, Resource, ResourceType, Error, not_found, already_exists, message, wrap, Outcome, Env,
  with_version,
}
use kubemate.Storage.InMemory
use kubemate.Storage.InMemory.{Store, in_memory, stamped, emit}

-- The directory: the contents by key, and how many temporary files were left behind.
pub record Disk (Bytes : Type 0) : Type 0 where
  pub files : Dict Bytes
  pub temps : ℕ

-- Which of the system calls of one operation succeed.
pub record Os : Type 0 where
  pub creates : Bool
  pub syncs : Bool
  pub closes : Bool
  pub renames : Bool
  pub removes : Bool

-- `shared` has the keys whose item is still the object that a caller handed to `Create`, so that what
-- the caller writes to it later is written to the item.
pub record FileStore (Bytes B : Type 0) : Type 0 where
  pub inmemory : Store B
  pub disk : Disk Bytes
  pub shared : List String

-- A successful call replaces the item by a copy of its own, or removes it.
abbrev pub unshared : String → Option Error → List String → List String
unshared key (some e) keys = keys
unshared key none keys = select (λ k. not (k == key)) keys

-- One entry of `os.ReadDir`; the content is none where the file cannot be read.
pub record DirEntry (Bytes : Type 0) : Type 0 where
  pub name : String
  pub is_dir : Bool
  pub content : Option Bytes

-- strings.HasSuffix
unfoldable pub has_suffix : String → String → Bool
has_suffix s t = leb (len t) (len s) && slice s (len s - len t) (len s) == t

-- withoutStatusAndResourceVersion
unfoldable pub strip : {B : Type 0} → ResourceType B → Resource B → Resource B
strip T r = with_version "" (record r { body = T.clear_status r.body })

module _ {Bytes B : Type 0} (T : ResourceType B) where
  module _ (encode : Resource B → Option Bytes) where
    write_encoded : Disk Bytes → Os → String → Option Bytes → Disk Bytes × Option Error
    write_encoded d os key none = (d, some (message "encode"))
    write_encoded d os key (some b) =
        if not os.syncs
        then (record d { temps = d.temps + 1 }, some (message "sync"))
        else if not os.closes
        then (record d { temps = d.temps + 1 }, some (message "close"))
        else if not os.renames
        then (record d { temps = d.temps + 1 }, some (message "rename"))
        else (record d { files = put key b d.files }, none)

    -- A temporary file is written, synced, closed and renamed. It is removed only if the encoding fails.
    unfoldable pub write_file : Disk Bytes → Os → String → Resource B → Disk Bytes × Option Error
    unfolding write_encoded
    write_file d os key r =
        if not os.creates
        then (d, some (message "create temp file"))
        else write_encoded d os key (encode (strip T r))

    created :
        FileStore Bytes B
        → Env
        → String
        → Resource B
        → Disk Bytes × Option Error
        → Outcome (FileStore Bytes B) B
    created s env key r (d, some e) = record {
      state = record {
        inmemory = record (s.inmemory) { seq = next_seq s.inmemory.seq };
        disk = d;
        shared = s.shared;
      };
      out = r;
      err = some (wrap "create resource" e);
    }
    created s env key r (d, none) =
        let stored : Store B = record (s.inmemory) {
          items = put key r s.inmemory.items;
          seq = next_seq s.inmemory.seq;
        } in
        record {
          state = record {
            inmemory = emit T stored added r env.ready;
            disk = d;
            shared = key ∷ s.shared;
          };
          out = r;
          err = none;
        }

    -- The test for an existing object copies that object into the caller's. The new item is the caller's
    -- object itself, no copy of it: see `write_shared`. So is the object of the event.
    unfoldable pub create :
        FileStore Bytes B → Env → Os → String → Resource B → Outcome (FileStore Bytes B) B
    unfolding created
    create s env os key res = elim (get key s.inmemory.items) [
      | some existing ↦ record {
        state = s;
        out = existing;
        err = some (already_exists T.group_resource key);
      }
      | none ↦
          let r = stamped T (next_seq s.inmemory.seq) key env.now res in
          created s env key r (write_file s.disk os key r)
    ]

    module _ (deep_equal : Resource B → Resource B → Bool) where
      -- The closure that `Update` hands to the in-memory store: the file is written in it.
      written :
          Disk Bytes → Os → String → Resource B → Resource B × Option Error → Outcome (Disk Bytes) B
      written d os key existing (out, some e) = record { state = d; out = out; err = some e }
      written d os key existing (out, none) =
          if deep_equal existing out
          then record { state = d; out = out; err = none }
          else (let (d', e) = write_file d os key out in record { state = d'; out = out; err = e })

      update_file :
          (Resource B → Resource B × Option Error)
          → Os
          → String
          → Resource B
          → Disk Bytes
          → Resource B
          → Outcome (Disk Bytes) B
      unfolding written
      update_file modify os key existing d r = written d os key existing (modify r)

      pack : String → List String → Outcome (Store B × Disk Bytes) B → Outcome (FileStore Bytes B) B
      pack key keys o = record {
        state = record { inmemory = o.state.0; disk = o.state.1; shared = unshared key o.err keys };
        out = o.out;
        err = o.err;
      }

      unfoldable pub update :
          FileStore Bytes B
          → Env
          → Os
          → String
          → Resource B
          → (Resource B → Resource B × Option Error)
          → Outcome (FileStore Bytes B) B
      unfolding update_file pack
      update s env os key res modify = elim (get key s.inmemory.items) [
        | none ↦ record { state = s; out = res; err = some (not_found T.group_resource key) }
        | some existing ↦ pack key s.shared (
            InMemory.update T (s.inmemory, s.disk) env key res (update_file modify os key existing))
      ]

  remove_checked : Disk Bytes → Os → String → Option Error → Disk Bytes × Option Error
  remove_checked d os key (some e) = (d, some e)
  remove_checked d os key none =
      if not (is_some (get key d.files))
      then (d, none)
      else if os.removes
      then (record d { files = remove key d.files }, none)
      else (d, some (wrap "delete resource" (message "remove")))

  -- The closure that `Delete` hands on: the file is removed in it, if it is there.
  remove_file :
      (Resource B → Option Error)
      → Os
      → String
      → Disk Bytes
      → Resource B
      → Disk Bytes × Option Error
  unfolding remove_checked
  remove_file validate os key d r = remove_checked d os key (validate r)

  unfoldable pub delete :
      FileStore Bytes B
      → Env
      → Os
      → String
      → Resource B
      → (Resource B → Option Error)
      → Outcome (FileStore Bytes B) B
  unfolding remove_file
  delete s env os key o validate =
      let r = InMemory.delete T (s.inmemory, s.disk) env key o (remove_file validate os key) in
      record {
        state = record {
          inmemory = r.state.0;
          disk = r.state.1;
          shared = unshared key r.err s.shared;
        };
        out = r.out;
        err = r.err;
      }

  -- A caller of `Create` writes to the object that it handed in. The events with that object, which
  -- change too, are not followed.
  unfoldable pub write_shared :
      FileStore Bytes B → String → (Resource B → Resource B) → FileStore Bytes B
  write_shared s key f = elim (get key s.inmemory.items) [
    | none ↦ s
    | some r ↦
        if any (λ k. k == key) s.shared
        then record s { inmemory = record (s.inmemory) { items = put key (f r) s.inmemory.items } }
        else s
  ]

  module _ (decode : Bytes → Option (Resource B)) where
    load_object : Store B → Env → String → Option (Resource B) → Option (Store B)
    load_object s env key none = none
    load_object s env key (some r) =
        let o = InMemory.create T s env key r in elim o.err [ none ↦ some o.state | some e ↦ none ]

    load_content : Store B → Env → String → Option Bytes → Option (Store B)
    unfolding load_object
    load_content s env key none = none
    load_content s env key (some b) = load_object s env key (decode b)

    -- The loop of `loadFromFiles`. A file that cannot be read, decoded or created ends it (`none`).
    unfoldable pub load_from_files : Store B → Env → List (DirEntry Bytes) → Option (Store B)
    unfolding load_content
    load_from_files s env [] = some s
    load_from_files s env (f ∷ fs) =
        let next : Option (Store B) =
          if not f.is_dir && has_suffix f.name ".yaml"
          then load_content s env (slice f.name 0 (len f.name - 5)) f.content
          else some s in
        elim next [ none ↦ none | some s' ↦ load_from_files s' env fs ]
