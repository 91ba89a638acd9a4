-- ===== src/Storage/FileStore/Consistency.antt =====
-- pkg/storage/filestore.go: whether the directory holds what the memory holds.
use kubemate.Base.{
  String, ◌≡◌, refl, sym, ap, ◌∙◌, ◌≢◌, inl, inr, Option, none, some, ◌==◌, eq_iff, is_some,
  Option-cases, Bool-cases,
}
use kubemate.Base.Dict.{Dict, get, put, get-put_self, get-put_ne, get-remove_self, get-remove_ne}
use kubemate.PubSub.{next_seq}
use kubemate.Resource.{Resource, ResourceType, Error, Outcome, Env}
use kubemate.Storage.InMemory.{emit, Store, stamped}
use kubemate.Storage.InMemory.Contents.{delete_cases, DeleteCases, absent, invalid, gone}
use kubemate.Storage.FileStore.{
  emit, FileStore, Disk, Os, strip, write_file, write_encoded, create, created, delete, remove_file,
  remove_checked,
}

module _ {Bytes B : Type 0} (T : ResourceType B) (encode : Resource B → Option Bytes) where
  -- A key in use has a file that holds the encoded object without status and version; a key that is
  -- not in use has no file.
  pub record IsConsistent (items : Dict (Resource B)) (files : Dict Bytes) : Type 0 where
    pub held :
        (k : String) (r : Resource B)
        → get k items ≡ some r
        → (b : Bytes) × (get k files ≡ some b) × (encode (strip T r) ≡ some b)
    pub free : (k : String) → get k items ≡ none → get k files ≡ none

  -- A write of a file succeeds and the file holds the encoding, or it fails and no file has changed.
  pub data WriteCases (d : Disk Bytes) (key : String) (o : Option Bytes)
      (w : Disk Bytes × Option Error) : Type 0 where
    wrote :
        (b : Bytes) → o ≡ some b → w.1 ≡ none → w.0.files ≡ put key b d.files → WriteCases d key o w
    kept : (e : Error) → w.1 ≡ some e → w.0.files ≡ d.files → WriteCases d key o w

  write_encoded-cases :
      (d : Disk Bytes) (os : Os) (key : String) (o : Option Bytes)
      → WriteCases d key o (write_encoded T encode d os key o)
  unfolding write_encoded
  write_encoded-cases d os key none = kept _ refl refl
  write_encoded-cases d os key (some b) = elim (Bool-cases os.syncs) [
    | inr x ↦ rw x (kept _ refl refl)
    | inl x ↦ elim (Bool-cases os.closes) [
      | inr y ↦ rw (x, y) (kept _ refl refl)
      | inl y ↦ elim (Bool-cases os.renames) [
        | inr z ↦ rw (x, y, z) (kept _ refl refl)
        | inl z ↦ rw (x, y, z) (wrote b refl refl refl)
      ]
    ]
  ]

  pub write_file_cases :
      (d : Disk Bytes) (os : Os) (key : String) (r : Resource B)
      → WriteCases d key (encode (strip T r)) (write_file T encode d os key r)
  unfolding write_file
  write_file_cases d os key r = elim (Bool-cases os.creates) [
    | inl x ↦ rw x (write_encoded-cases d os key (encode (strip T r)))
    | inr x ↦ rw x (kept _ refl refl)
  ]

  pub Held-IsConsistent :
      (items items' : Dict (Resource B)) (files files' : Dict Bytes) (key : String) (r : Resource B)
      (b : Bytes)
      → get key items' ≡ some r
      → ((j : String) → key ≢ j → get j items' ≡ get j items)
      → encode (strip T r) ≡ some b
      → get key files' ≡ some b
      → ((j : String) → key ≢ j → get j files' ≡ get j files)
      → IsConsistent items files
      → IsConsistent items' files'
  Held-IsConsistent items items' files files' key r b there elsewhere enc file others c = record {
    held = λ k q h. elim (Bool-cases (key == k)) [
      | inl hit ↦ let at_key : key ≡ k = (eq_iff key k).0 hit in (b, cc, cc)
      | inr miss ↦
          let ne : key ≢ k = λ p. cc ((eq_iff key k).1 p) in
          let (b', f, e) = c.held k q (sym (elsewhere k ne) ∙ h) in (b', others k ne ∙ f, e)
    ];
    free = λ k h. elim (Bool-cases (key == k)) [
      | inl hit ↦ cc (there, (eq_iff key k).0 hit)
      | inr miss ↦
          let ne : key ≢ k = λ p. cc ((eq_iff key k).1 p) in
          others k ne ∙ c.free k (sym (elsewhere k ne) ∙ h)
    ];
  }

  pub Wrote-IsConsistent :
      (items items' : Dict (Resource B)) (files : Dict Bytes) (key : String) (r : Resource B)
      (b : Bytes)
      → get key items' ≡ some r
      → ((j : String) → key ≢ j → get j items' ≡ get j items)
      → encode (strip T r) ≡ some b
      → IsConsistent items files
      → IsConsistent items' (put key b files)
  Wrote-IsConsistent items items' files key r b there elsewhere enc =
      Held-IsConsistent items items' files (put key b files) key r b there elsewhere enc
        (get-put_self key b files) (λ j ne. get-put_ne key j b files ne)

  Gone-IsConsistent :
      (items items' : Dict (Resource B)) (files files' : Dict Bytes) (key : String)
      → get key items' ≡ none
      → ((j : String) → key ≢ j → get j items' ≡ get j items)
      → get key files' ≡ none
      → ((j : String) → key ≢ j → get j files' ≡ get j files)
      → IsConsistent items files
      → IsConsistent items' files'
  Gone-IsConsistent items items' files files' key there elsewhere nofile others c = record {
    held = λ k q h. elim (Bool-cases (key == k)) [
      | inl hit ↦ cc (there, (eq_iff key k).0 hit)
      | inr miss ↦
          let ne : key ≢ k = λ p. cc ((eq_iff key k).1 p) in
          let (b, f, e) = c.held k q (sym (elsewhere k ne) ∙ h) in (b, others k ne ∙ f, e)
    ];
    free = λ k h. elim (Bool-cases (key == k)) [
      | inl hit ↦ cc (nofile, (eq_iff key k).0 hit)
      | inr miss ↦
          let ne : key ≢ k = λ p. cc ((eq_iff key k).1 p) in
          others k ne ∙ c.free k (sym (elsewhere k ne) ∙ h)
    ];
  }

  abbrev pub Consistent : FileStore Bytes B → Type 0
  Consistent s = IsConsistent s.inmemory.items s.disk.files

  created-IsConsistent :
      (s : FileStore Bytes B) (env : Env) (os : Os) (key : String) (r : Resource B)
      (w : Disk Bytes × Option Error)
      → WriteCases s.disk key (encode (strip T r)) w
      → Consistent s
      → Consistent (created T encode s env key r w).state
  unfolding created emit
  created-IsConsistent s env os key r (d, none) (wrote b enc fine files) c = rw files (
      Wrote-IsConsistent s.inmemory.items _ s.disk.files key r b
        (get-put_self key r s.inmemory.items) (λ j ne. get-put_ne key j r s.inmemory.items ne) enc
        c)
  created-IsConsistent s env os key r (d, none) (kept e bad files) c = cc
  created-IsConsistent s env os key r (d, some e) (wrote b enc fine files) c = cc
  created-IsConsistent s env os key r (d, some e) (kept e' bad files) c = rw files c

  -- `Create` keeps memory and directory consistent, whichever system calls or encodings fail.
  pub create-IsConsistent :
      (s : FileStore Bytes B) (env : Env) (os : Os) (key : String) (res : Resource B)
      → Consistent s
      → Consistent (create T encode s env os key res).state
  unfolding create
  create-IsConsistent s env os key res c = elim (Option-cases (get key s.inmemory.items)) [
    | inl e ↦
        let r : Resource B = stamped T (next_seq s.inmemory.seq) key env.now res in
        rw (e, create)
          (created-IsConsistent s env os key r (write_file T encode s.disk os key r)
            (write_file_cases s.disk os key r) c)
    | inr (old, e) ↦ rw (e, create) c
  ]

  -- What the removal of a file does.
  data RemoveCases (d : Disk Bytes) (key : String) (w : Disk Bytes × Option Error) : Type 0 where
    took :
        w.1 ≡ none
        → get key w.0.files ≡ none
        → ((j : String) → key ≢ j → get j w.0.files ≡ get j d.files)
        → RemoveCases d key w
    left : (e : Error) → w.1 ≡ some e → w.0 ≡ d → RemoveCases d key w

  remove_checked-cases :
      (d : Disk Bytes) (os : Os) (key : String) (o : Option Error)
      → RemoveCases d key (remove_checked T d os key o)
  unfolding remove_checked
  remove_checked-cases d os key (some e) = left e refl refl
  remove_checked-cases d os key none = elim (Option-cases (get key d.files)) [
    | inl e ↦ rw (ap (λ o. is_some o) e) (took refl e (λ j ne. refl))
    | inr (b, e) ↦ elim (Bool-cases os.removes) [
      | inl x ↦
          rw (ap (λ o. is_some o) e, x)
            (took refl (get-remove_self key d.files) (λ j ne. get-remove_ne key j d.files ne))
      | inr x ↦ rw (ap (λ o. is_some o) e, x) (left _ refl refl)
    ]
  ]

  deleted-IsConsistent :
      (s : FileStore Bytes B) (env : Env) (os : Os) (key : String)
      (validate : Resource B → Option Error) (o : Outcome (Store B × Disk Bytes) B)
      → DeleteCases T s.inmemory env key s.disk (remove_file T validate os key) o
      → Consistent s
      → IsConsistent o.state.0.items o.state.1.files
  unfolding remove_file
  deleted-IsConsistent s env os key validate o (absent e st er) c = rw st c
  deleted-IsConsistent s env os key validate o (invalid old x a b st er) c =
      elim (remove_checked-cases s.disk os key (validate old)) [
        | took fine nofile others ↦ cc
        | left y bad same ↦ rw (st, same) c
      ]
  deleted-IsConsistent s env os key validate o (gone old a b w st out er) c =
      elim (remove_checked-cases s.disk os key (validate old)) [
        | took fine nofile others ↦
            Gone-IsConsistent s.inmemory.items o.state.0.items s.disk.files o.state.1.files key
              w.there w.elsewhere (rw st nofile) (rw st others) c
        | left y bad same ↦ cc
      ]

  -- `Delete` keeps memory and directory consistent, also where the validation or the removal of the
  -- file fails.
  pub delete-IsConsistent :
      (s : FileStore Bytes B) (env : Env) (os : Os) (key : String) (o : Resource B)
      (validate : Resource B → Option Error)
      → Consistent s
      → Consistent (delete T s env os key o validate).state
  unfolding delete
  delete-IsConsistent s env os key o validate c =
      deleted-IsConsistent s env os key validate _
        (delete_cases T s.inmemory env key s.disk o (remove_file T validate os key)) c
