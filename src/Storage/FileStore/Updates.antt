-- ===== src/Storage/FileStore/Updates.antt =====
-- pkg/storage/filestore.go: `Update` writes the file before the in-memory store looks at the version.
use kubemate.Base.{
  arith, ℕ, String, ◌≡◌, refl, sym, ap, ◌∙◌, ◌≢◌, inl, inr, Bool, true, false, Option, none, some,
  Option-cases, Bool-cases,
}
use kubemate.Base.Dict.{get, put, get-put_self}
use kubemate.PubSub.{next_seq}
use kubemate.Resource.{Resource, ResourceType, Error, conflict, Outcome, Env}
use kubemate.Storage.InMemory.{Store, set_gvk, set_resource_version}
use kubemate.Storage.InMemory.Contents.{
  Wrote, update_cases, UpdateCases, missing, failed, outdated, stored,
}
use kubemate.Storage.FileStore.{
  FileStore, Disk, Os, strip, write_file, update, update_file, written,
}
use kubemate.Storage.FileStore.Consistency.{
  IsConsistent, Consistent, WriteCases, wrote, kept, write_file_cases, Held-IsConsistent,
  Wrote-IsConsistent,
}

module _ {Bytes B : Type 0} (T : ResourceType B) (encode : Resource B → Option Bytes)
    (deep_equal : Resource B → Resource B → Bool) where
  -- What the codec and `DeepEqual` promise: the encoding does not show which kind was set in the
  -- object, since the codec writes that itself; objects that are equal have one encoding.
  pub record Codec : Type 0 where
    pub kind_free :
        (r : Resource B) (v k : String) → encode (record r { api_version = v; kind = k }) ≡ encode r
    pub equal_encoded :
        (r q : Resource B) → deep_equal r q ≡ true → encode (strip T r) ≡ encode (strip T q)

  encode-set_gvk :
      (c : Codec) (n : ℕ) (r : Resource B)
      → encode (strip T (set_resource_version n (set_gvk T r))) ≡ encode (strip T r)
  unfolding strip set_resource_version set_gvk
  encode-set_gvk c n r = elim (Option-cases T.object_kind) [
    | inl e ↦ rw (e, set_gvk) refl
    | inr ((v, k), e) ↦ rw (e, set_gvk) (c.kind_free (strip T r) v k)
  ]

  module _ (s : FileStore Bytes B) (env : Env) (os : Os) (key : String)
      (modify : Resource B → Resource B × Option Error) where
    -- The closure of `Update`, on the object that it finds.
    data WrittenCases (old : Resource B) (o : Outcome (Disk Bytes) B) : Type 0 where
      refused : (e : Error) → o.err ≡ some e → o.state.files ≡ s.disk.files → WrittenCases old o
      unchanged :
          o.err ≡ none
          → o.out ≡ (modify old).0
          → (modify old).1 ≡ none
          → deep_equal old (modify old).0 ≡ true
          → o.state ≡ s.disk
          → WrittenCases old o
      rewritten :
          (b : Bytes)
          → o.err ≡ none
          → o.out ≡ (modify old).0
          → (modify old).1 ≡ none
          → encode (strip T (modify old).0) ≡ some b
          → o.state.files ≡ put key b s.disk.files
          → WrittenCases old o

    file-cases :
        (old r : Resource B)
        → modify old ≡ (r, none)
        → deep_equal old r ≡ false
        → WriteCases T encode s.disk key (encode (strip T r)) (write_file T encode s.disk os key r)
        → WrittenCases old (written T encode deep_equal s.disk os key old (r, none))
    unfolding written
    file-cases old r e d (kept x bad files) = rw d (refused x bad files)
    file-cases old r e d (wrote b enc fine files) = rw d (
        rewritten b fine (sym (ap (λ p. p.0) e)) (ap (λ p. p.1) e)
          (ap (λ p. encode (strip T p.0)) e ∙ enc) files)

    written-cases :
        (old : Resource B) (p : Resource B × Option Error)
        → modify old ≡ p
        → WrittenCases old (written T encode deep_equal s.disk os key old p)
    unfolding written
    written-cases old (r, some x) e = refused x refl refl
    written-cases old (r, none) e = elim (Bool-cases (deep_equal old r)) [
      | inl d ↦ rw d (
          unchanged refl (sym (ap (λ p. p.0) e)) (ap (λ p. p.1) e)
            (ap (λ p. deep_equal old p.0) e ∙ d) refl)
      | inr d ↦ file-cases old r e d (write_file_cases T encode s.disk os key r)
    ]

    abbrev written_at : Resource B → Resource B → Outcome (Disk Bytes) B
    written_at old = update_file T encode deep_equal modify os key old s.disk

    -- Where the closure failed, no file has changed.
    refused-IsConsistent :
        (old : Resource B) (o : Outcome (Disk Bytes) B) (x : Error)
        → WrittenCases old o
        → o.err ≡ some x
        → Consistent T encode s
        → IsConsistent T encode s.inmemory.items o.state.files
    refused-IsConsistent old o x (refused y bad files) e i = rw files i
    refused-IsConsistent old o x (unchanged fine _ _ _ _) e i = cc
    refused-IsConsistent old o x (rewritten b fine _ _ _ _) e i = cc

    stored-IsConsistent :
        (c : Codec) (old : Resource B) (o : Outcome (Disk Bytes) B) (t : Store B) (r : Resource B)
        → get key s.inmemory.items ≡ some old
        → WrittenCases old o
        → o.err ≡ none
        → Wrote s.inmemory t key (some r)
        → r ≡ set_resource_version (next_seq s.inmemory.seq) (set_gvk T o.out)
        → Consistent T encode s
        → IsConsistent T encode t.items o.state.files
    stored-IsConsistent c old o t r at (refused y bad files) fine w out i = cc
    stored-IsConsistent c old o t r at (unchanged _ same ok eq st) fine w out i =
        let (b, file, enc) = i.held key old at in
        rw st (
          Held-IsConsistent T encode s.inmemory.items t.items s.disk.files s.disk.files key r b
            w.there w.elsewhere
            (ap (λ q. encode (strip T q)) out
              ∙ encode-set_gvk c _ o.out
              ∙ ap (λ q. encode (strip T q)) same
              ∙ sym (c.equal_encoded old (modify old).0 eq)
              ∙ enc)
            file (λ j ne. refl) i)
    stored-IsConsistent c old o t r at (rewritten b _ same ok enc files) fine w out i = rw files (
        Wrote-IsConsistent T encode s.inmemory.items t.items s.disk.files key r b w.there
          w.elsewhere
          (ap (λ q. encode (strip T q)) out
            ∙ encode-set_gvk c _ o.out
            ∙ ap (λ q. encode (strip T q)) same
            ∙ enc)
          i)

    written-out :
        (old : Resource B) (o : Outcome (Disk Bytes) B)
        → WrittenCases old o
        → o.err ≡ none
        → o.out ≡ (modify old).0
    written-out old o (refused y bad files) fine = cc
    written-out old o (unchanged _ same ok eq st) fine = same
    written-out old o (rewritten b _ same ok enc files) fine = same

    updated-IsConsistent :
        (c : Codec) (old : Resource B) (o : Outcome (Store B × Disk Bytes) B)
        → get key s.inmemory.items ≡ some old
        → old.resource_version ≡ (modify old).0.resource_version
        → Consistent T encode s
        → UpdateCases T s.inmemory s.disk key (update_file T encode deep_equal modify os key old) o
        → IsConsistent T encode o.state.0.items o.state.1.files
    unfolding update_file
    updated-IsConsistent c old o at in_time i (missing e st er) = rw st i
    updated-IsConsistent c old o at in_time i (failed old' x a b st er) =
        let same : old' ≡ old = cc in
        rw (st, same)
          (refused-IsConsistent old (written_at old old) x (written-cases old (modify old) refl)
            (ap (λ q. (written_at old q).err) (sym same) ∙ b) i)
    updated-IsConsistent c old o at in_time i (outdated old' a b v st er) =
        let same : old' ≡ old = cc in
        absurd (
          v (
            ap (λ q. q.resource_version) same
            ∙ in_time
            ∙ ap (λ q. q.resource_version)
                (sym (
                  written-out old (written_at old old) (written-cases old (modify old) refl)
                    (ap (λ q. (written_at old q).err) (sym same) ∙ b)))
            ∙ ap (λ q. (written_at old q).out.resource_version) (sym same)))
    updated-IsConsistent c old o at in_time i (stored old' a b v done st out) =
        let same : old' ≡ old = cc in
        rw (st, same)
          (stored-IsConsistent c old (written_at old old) o.state.0 o.out at
            (written-cases old (modify old) refl) (ap (λ q. (written_at old q).err) (sym same) ∙ b)
            done.wrote
            (out
              ∙ ap
                  (λ q.
                    set_resource_version (next_seq s.inmemory.seq)
                      (set_gvk T (written_at old q).out))
                  same)
            i)

    -- `Update` keeps memory and directory consistent, whichever system calls or encodings fail, if the
    -- object that the closure makes of the stored one carries the stored one's version.
    pub update-IsConsistent :
        (c : Codec) (res : Resource B)
        → ((old : Resource B)
            → get key s.inmemory.items ≡ some old
            → old.resource_version ≡ (modify old).0.resource_version)
        → Consistent T encode s
        → Consistent T encode (update T encode deep_equal s env os key res modify).state
    unfolding update
    update-IsConsistent c res in_time i = elim (Option-cases (get key s.inmemory.items)) [
      | inl e ↦ rw (e, update) i
      | inr (old, e) ↦
          rw (e, update)
            (updated-IsConsistent c old _ e (in_time old e) i (
              update_cases T s.inmemory env key s.disk res
                (update_file T encode deep_equal modify os key old)))
    ]

    written-fine :
        (old mine : Resource B)
        → modify old ≡ (mine, none)
        → deep_equal old mine ≡ false
        → (write_file T encode s.disk os key mine).1 ≡ none
        → written_at old old
          ≡ record { state = (write_file T encode s.disk os key mine).0; out = mine; err = none }
    unfolding update_file written
    written-fine old mine m de fine =
        ap (written T encode deep_equal s.disk os key old) m ∙ ground arith

    new_file :
        (mine : Resource B) (b : Bytes)
        → encode (strip T mine) ≡ some b
        → WriteCases T encode s.disk key
            (encode (strip T mine))
            (write_file T encode s.disk os key mine)
        → (write_file T encode s.disk os key mine).1 ≡ none
        → get key (write_file T encode s.disk os key mine).0.files ≡ some b
    new_file mine b enc (wrote b' enc' _ files) fine =
        rw files (get-put_self key b' s.disk.files ∙ sym enc' ∙ enc)
    new_file mine b enc (kept e bad files) fine = cc

    conflict_written :
        (old mine : Resource B) (b : Bytes) (o : Outcome (Store B × Disk Bytes) B)
        → get key s.inmemory.items ≡ some old
        → old.resource_version ≢ mine.resource_version
        → written_at old old
          ≡ record { state = (write_file T encode s.disk os key mine).0; out = mine; err = none }
        → get key (write_file T encode s.disk os key mine).0.files ≡ some b
        → UpdateCases T s.inmemory s.disk key (update_file T encode deep_equal modify os key old) o
        → (o.err ≡ some (conflict T.group_resource key))
          × (get key o.state.0.items ≡ some old)
          × (get key o.state.1.files ≡ some b)
    conflict_written old mine b o at ne e file (missing x st er) = cc
    conflict_written old mine b o at ne e file (failed old' x a bad st er) =
        let same : old' ≡ old = cc in
        cc (
          sym (ap (λ q. (written_at old q).err) same) ∙ bad,
          ap (λ (w : Outcome (Disk Bytes) B). w.err) e,
        )
    conflict_written old mine b o at ne e file (outdated old' a ok v st er) =
        let same : old' ≡ old = cc in
        (
          er,
          rw st at,
          rw st (
              ap (λ q. get key (written_at old q).state.files) same
              ∙ ap (λ (w : Outcome (Disk Bytes) B). get key w.state.files) e
              ∙ file),
        )
    conflict_written old mine b o at ne e file (stored old' a ok v done st out) =
        let same : old' ≡ old = cc in
        absurd (
          ne (
            ap (λ q. q.resource_version) (sym same)
            ∙ v
            ∙ ap (λ q. (written_at old q).out.resource_version) same
            ∙ ap (λ (w : Outcome (Disk Bytes) B). w.out.resource_version) e))

    -- A conflict is found too late: if the closure makes an object with another version and the file
    -- is written without an error, the update is refused and the memory keeps the old object, but the
    -- file holds the refused one.
    pub update_conflict_written :
        (old mine res : Resource B) (b : Bytes)
        → get key s.inmemory.items ≡ some old
        → modify old ≡ (mine, none)
        → old.resource_version ≢ mine.resource_version
        → deep_equal old mine ≡ false
        → (write_file T encode s.disk os key mine).1 ≡ none
        → encode (strip T mine) ≡ some b
        → let o = update T encode deep_equal s env os key res modify in
          (o.err ≡ some (conflict T.group_resource key))
          × (get key o.state.inmemory.items ≡ some old)
          × (get key o.state.disk.files ≡ some b)
    unfolding update
    update_conflict_written old mine res b at m ne de fine enc =
        rw (at, update)
          (conflict_written old mine b _ at ne (written-fine old mine m de fine)
            (new_file mine b enc (write_file_cases T encode s.disk os key mine) fine)
            (update_cases T s.inmemory env key s.disk res
              (update_file T encode deep_equal modify os key old)))
