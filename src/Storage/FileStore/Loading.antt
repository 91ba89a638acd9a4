-- ===== src/Storage/FileStore/Loading.antt =====
-- pkg/storage/filestore.go: what the loop of `loadFromFiles` makes of the files of a directory.
use Prim.Native.String
use Prim.Native.String.{len, slice}
use text.Mathlib.TextPositions.{slice-append_left, slice-append_right, len-append}
use kubemate.Base.{
  arith, ℕ, String, ◌≡◌, refl, sym, ap, ◌∙◌, ◌≢◌, inl, inr, Bool, true, false, Option, none, some,
  List, [], ◌∷◌, ◌==◌, eq_iff, leb, ◌+◌, ◌-◌, ◌&&◌, not, Option-cases, Bool-cases,
}
use kubemate.Base.Dict.{Dict, get, get-put_self, get-put_ne}
use kubemate.PubSub.{next_seq}
use kubemate.Resource.{Resource, ResourceType, Outcome, Env}
use kubemate.Storage.InMemory
use kubemate.Storage.InMemory.{
  Store, created_at, in_memory, stamped, set_gvk, set_name_and_creation_timestamp,
  set_resource_version, store_created, emit,
}
use kubemate.Storage.FileStore.{DirEntry, has_suffix, load_from_files, load_content, load_object}

abbrev pub file_name : String → String
file_name k = Prim.Native.String.◌++◌ k ".yaml"

len-file_name : (k : String) → len (file_name k) ≡ len k + 5
len-file_name k = len-append k ".yaml"

-- The suffix starts where the key ends.
suffix_of : (k : String) → slice (file_name k) (len (file_name k) - 5) (len (file_name k)) ≡ ".yaml"
suffix_of k =
    let cancel : len k + 5 - 5 ≡ len k = omega arith in
    rw (len-file_name k, cancel) (slice-append_right k ".yaml")

file_name-has_suffix : (k : String) → has_suffix (file_name k) ".yaml" ≡ true
unfolding has_suffix
file_name-has_suffix k =
    let short : leb 5 (len (file_name k)) ≡ true = rw (len-file_name k) (ground arith) in
    rw (short, suffix_of k) refl

slice-file_name : (k : String) → slice (file_name k) 0 (len (file_name k) - 5) ≡ k
slice-file_name k =
    let cancel : len k + 5 - 5 ≡ len k = omega arith in
    rw (len-file_name k, cancel) (slice-append_left k ".yaml")

module _ {Bytes : Type 0} where
  abbrev pub is_object_file : DirEntry Bytes → Bool
  is_object_file f = not f.is_dir && has_suffix f.name ".yaml"

  abbrev pub entry : String → Bytes → DirEntry Bytes
  entry k b = record { name = file_name k; is_dir = false; content = some b }

  -- What `os.ReadDir` may list of a directory with these files: each of them, in any order, among
  -- temporary files, directories and others.
  pub data Listing : List (DirEntry Bytes) → Dict Bytes → Type 0 where
    done : Listing [] []
    other :
        (f : DirEntry Bytes) (es : List (DirEntry Bytes)) (fs : Dict Bytes)
        → is_object_file f ≡ false
        → Listing es fs
        → Listing (f ∷ es) fs
    file :
        (k : String) (b : Bytes) (es : List (DirEntry Bytes)) (fs : Dict Bytes)
        → get k fs ≡ none
        → Listing es fs
        → Listing (entry k b ∷ es) ((k, b) ∷ fs)

module _ {Bytes B : Type 0} (T : ResourceType B) (decode : Bytes → Option (Resource B))
    (env : Env) where
  -- `r` is what a file's object `q` becomes in the store.
  pub record IsLoaded (k : String) (q r : Resource B) : Type 0 where
    pub same_body : r.body ≡ q.body
    pub named : r.name ≡ k
    pub same_creation : (t : ℕ) → q.creation_timestamp ≡ some t → r.creation_timestamp ≡ some t

  -- The store `t` has the objects of the files, and else what `s` has.
  pub record Holds (fs : Dict Bytes) (s t : Store B) : Type 0 where
    pub kept : (k : String) → get k fs ≡ none → get k t.items ≡ get k s.items
    pub loaded :
        (k : String) (b : Bytes) (q : Resource B)
        → get k fs ≡ some b
        → decode b ≡ some q
        → (r : Resource B) × (get k t.items ≡ some r) × IsLoaded k q r

  created_at_of : (now : ℕ) (o : Option ℕ) (t : ℕ) → o ≡ some t → created_at now o ≡ some t
  unfolding created_at
  created_at_of now o t e = rw e refl

  stamped-IsLoaded :
      (n : ℕ) (k : String) (now : ℕ) (q : Resource B) → IsLoaded k q (stamped T n k now q)
  unfolding stamped set_gvk set_name_and_creation_timestamp set_resource_version created_at
  stamped-IsLoaded n k now q = elim (Option-cases T.object_kind) [
    | inl e ↦
        rw (e, stamped, set_gvk)
          (record {
            same_body = refl;
            named = refl;
            same_creation = created_at_of now q.creation_timestamp;
          })
    | inr (vk, e) ↦
        rw (e, stamped, set_gvk)
          (record {
            same_body = refl;
            named = refl;
            same_creation = created_at_of now q.creation_timestamp;
          })
  ]

  create_free :
      (s : Store B) (k : String) (q : Resource B)
      → get k s.items ≡ none
      → InMemory.create T s env k q ≡ store_created T s env k q
  unfolding InMemory.create
  create_free s k q e = rw (InMemory.create, e) refl

  abbrev state_of : Outcome (Store B) B → Option (Store B)
  state_of o = elim o.err [ none ↦ some o.state | some e ↦ none ]

  load_content_free :
      (s : Store B) (k : String) (b : Bytes) (q : Resource B)
      → decode b ≡ some q
      → get k s.items ≡ none
      → load_content T decode s env k (some b) ≡ some (store_created T s env k q).state
  unfolding load_content load_object store_created
  load_content_free s k b q d e =
      ap (load_object T decode s env k) d ∙ ap (λ o. state_of o) (create_free s k q e)

  here : (k j : String) (b : Bytes) (fs : Dict Bytes) → k == j ≡ true → get j ((k, b) ∷ fs) ≡ some b
  unfolding get
  here k j b fs hit = rw hit refl

  there :
      (k j : String) (b : Bytes) (fs : Dict Bytes) → k == j ≡ false → get j ((k, b) ∷ fs) ≡ get j fs
  unfolding get
  there k j b fs miss = rw miss refl

  ne_of : (k j : String) → k == j ≡ false → k ≢ j
  ne_of k j miss = λ p. cc ((eq_iff k j).1 p)

  -- One more file, whose key is not in use.
  file-Holds :
      (s t : Store B) (fs : Dict Bytes) (k : String) (b : Bytes) (q : Resource B)
      → decode b ≡ some q
      → get k fs ≡ none
      → Holds fs (store_created T s env k q).state t
      → Holds ((k, b) ∷ fs) s t
  unfolding store_created emit
  file-Holds s t fs k b q d unlisted h = record {
    kept = λ j e. elim (Bool-cases (k == j)) [
      | inl hit ↦ cc (sym (here k j b fs hit) ∙ e)
      | inr miss ↦
          h.kept j (sym (there k j b fs miss) ∙ e) ∙ get-put_ne k j _ s.items (ne_of k j miss)
    ];
    loaded = λ j c p e f. elim (Bool-cases (k == j)) [
      | inl hit ↦
          let key : k ≡ j = (eq_iff k j).0 hit in
          let content : b ≡ c = cc (sym (here k j b fs hit) ∙ e) in
          let object : q ≡ p = cc (sym d, content, f) in
          let r : Resource B = stamped T (next_seq s.seq) k env.now q in
          rw (← key, ← object)
            (r, h.kept k unlisted ∙ get-put_self k r s.items, stamped-IsLoaded _ k env.now q)
      | inr miss ↦ h.loaded j c p (sym (there k j b fs miss) ∙ e) f
    ];
  }

  abbrev pub AllDecode : Dict Bytes → Type 0
  AllDecode fs =
      (k : String) (b : Bytes) → get k fs ≡ some b → (q : Resource B) × (decode b ≡ some q)

  abbrev pub Free : Dict Bytes → Store B → Type 0
  Free fs s = (k : String) (b : Bytes) → get k fs ≡ some b → get k s.items ≡ none

  tail-Free :
      (s : Store B) (fs : Dict Bytes) (k : String) (b : Bytes) (q : Resource B)
      → get k fs ≡ none
      → Free ((k, b) ∷ fs) s
      → Free fs (store_created T s env k q).state
  unfolding store_created emit
  tail-Free s fs k b q unlisted free j c e = elim (Bool-cases (k == j)) [
    | inl hit ↦ cc ((eq_iff k j).0 hit, unlisted, e)
    | inr miss ↦ get-put_ne k j _ s.items (ne_of k j miss) ∙ free j c (there k j b fs miss ∙ e)
  ]

  tail-AllDecode :
      (fs : Dict Bytes) (k : String) (b : Bytes)
      → get k fs ≡ none
      → AllDecode ((k, b) ∷ fs)
      → AllDecode fs
  tail-AllDecode fs k b unlisted all j c e = elim (Bool-cases (k == j)) [
    | inl hit ↦ cc ((eq_iff k j).0 hit, unlisted, e)
    | inr miss ↦ all j c (there k j b fs miss ∙ e)
  ]

  abbrev pub Loads : List (DirEntry Bytes) → Dict Bytes → Store B → Type 0
  Loads es fs s = (t : Store B) × (load_from_files T decode s env es ≡ some t) × Holds fs s t

  load_other :
      (f : DirEntry Bytes) (es : List (DirEntry Bytes)) (fs : Dict Bytes) (s : Store B)
      → is_object_file f ≡ false
      → Loads es fs s
      → Loads (f ∷ es) fs s
  unfolding load_from_files
  load_other f es fs s no_object (t, e, h) = (t, rw (load_from_files, no_object) e, h)

  -- The loop after one file.
  abbrev go_on : List (DirEntry Bytes) → Option (Store B) → Option (Store B)
  go_on es o = elim o [ none ↦ none | some s' ↦ load_from_files T decode s' env es ]

  load_from_files-entry :
      (k : String) (b : Bytes) (es : List (DirEntry Bytes)) (s : Store B)
      → load_from_files T decode s env (entry k b ∷ es)
        ≡ go_on es (load_content T decode s env k (some b))
  unfolding load_from_files
  load_from_files-entry k b es s =
      let read : load_from_files T decode s env (entry k b ∷ es)
          ≡ go_on es (
              load_content T decode s env (slice (file_name k) 0 (len (file_name k) - 5))
                (some b)) =
        rw (load_from_files, file_name-has_suffix k) refl in
      read ∙ ap (λ n. go_on es (load_content T decode s env n (some b))) (slice-file_name k)

  load_file :
      (k : String) (b : Bytes) (q : Resource B) (es : List (DirEntry Bytes)) (fs : Dict Bytes)
      (s : Store B)
      → decode b ≡ some q
      → get k s.items ≡ none
      → get k fs ≡ none
      → Loads es fs (store_created T s env k q).state
      → Loads (entry k b ∷ es) ((k, b) ∷ fs) s
  unfolding load_from_files
  load_file k b q es fs s d free unlisted (t, e, h) = (
    t,
    load_from_files-entry k b es s ∙ ap (λ o. go_on es o) (load_content_free s k b q d free) ∙ e,
    file-Holds s t fs k b q d unlisted h,
  )

  pub load-Listing :
      (es : List (DirEntry Bytes)) (fs : Dict Bytes) (s : Store B)
      → Listing es fs
      → AllDecode fs
      → Free fs s
      → Loads es fs s
  unfolding load_from_files get
  load-Listing es fs s done all free =
      (s, refl, record { kept = λ k e. refl; loaded = λ k b q e. cc })
  load-Listing es fs s (other f es' fs' no_object l) all free =
      load_other f es' fs s no_object (load-Listing es' fs' s l all free)
  load-Listing es fs s (file k b es' fs' unlisted l) all free =
      let (q, d) = all k b (here k k b fs' ((eq_iff k k).1 refl)) in
      load_file k b q es' fs' s d (free k b (here k k b fs' ((eq_iff k k).1 refl))) unlisted (
        load-Listing es' fs' (store_created T s env k q).state l
          (tail-AllDecode fs' k b unlisted all) (tail-Free s fs' k b q unlisted free))
