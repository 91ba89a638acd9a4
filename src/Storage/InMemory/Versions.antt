-- ===== src/Storage/InMemory/Versions.antt =====
-- pkg/storage/inmemorystore.go: the resource versions, and what they are good for.
use kubemate.Base.{
  ℕ, ◌+◌, ◌≤◌, ◌<◌, ◌^◌, String, ◌≡◌, sym, ap, ◌∙◌, inl, inr, Option, none, some, List, [], ◌∷◌,
  arith, length, Bool-cases, ◌==◌, eq_iff, lt→ltb,
}
use kubemate.Base.Decimal.{decimal_injective}
use kubemate.Base.Dict.{get}
use kubemate.PubSub.{next_seq}
use kubemate.Resource.{Resource, ResourceType, Error, Outcome, Env, version}
use kubemate.Storage.InMemory.{in_memory, Store, create, delete, update, store_deleted, emit}
use kubemate.Storage.InMemory.Contents.{
  Wrote, Committed, create_cases, update_cases, delete_cases, UpdateCases, DeleteCases, missing,
  failed, outdated, stored, absent, invalid, gone,
}

-- As long as the counter has not wrapped around, two versions are equal only if their numbers are.
pub version_injective : (m n : ℕ) → m < 2 ^ 63 → n < 2 ^ 63 → version m ≡ version n → m ≡ n
unfolding version
version_injective m n hm hn e =
    decimal_injective m n (rw (lt→ltb m (2 ^ 63) hm, lt→ltb n (2 ^ 63) hn) at e)

module _ {B : Type 0} where
  -- A change of the store that either leaves the items and the counter, or removes the item of one
  -- key, or writes an object with the next version there.
  pub data Change (s t : Store B) : Type 0 where
    same : t ≡ s → Change s t
    removed : (key : String) → Wrote s t key none → t.seq ≡ s.seq → Change s t
    written :
        (key : String) (r : Resource B)
        → Wrote s t key (some r)
        → t.seq ≡ next_seq s.seq
        → r.resource_version ≡ version t.seq
        → Change s t

  -- Every item that `t` has with a version up to the counter of `s` stood in `s` under that key.
  pub record Since (s t : Store B) : Type 0 where
    pub later : s.seq ≤ t.seq
    pub old :
        (k : String) (q : Resource B) (n : ℕ)
        → get k t.items ≡ some q
        → q.resource_version ≡ version n
        → n ≤ s.seq
        → get k s.items ≡ some q

  pub Since-refl : (s : Store B) → Since s s
  Since-refl s = record { later = omega arith; old = λ k q n h v le. h }

  Since-Change : (s t u : Store B) → t.seq + 1 < 2 ^ 63 → Since s t → Change t u → Since s u
  Since-Change s t u room i (same e) = rw e i
  Since-Change s t u room i (removed key w e) = record {
    later = ground arith;
    old = λ k q n h v le. elim (Bool-cases (key == k)) [
      | inl hit ↦ cc (w.there, (eq_iff key k).0 hit)
      | inr miss ↦ i.old k q n (sym (w.elsewhere k (λ p. cc ((eq_iff key k).1 p))) ∙ h) v le
    ];
  }
  Since-Change s t u room i (written key r w e ver) = record {
    later = ground arith;
    old = λ k q n h v le. elim (Bool-cases (key == k)) [
      | inl hit ↦ absurd (written_anew q n h v le ((eq_iff key k).0 hit))
      | inr miss ↦ i.old k q n (sym (w.elsewhere k (λ p. cc ((eq_iff key k).1 p))) ∙ h) v le
    ];
  }
    where
      new_seq : u.seq ≡ t.seq + 1
      new_seq = ground arith

      written_anew :
          {k : String} (q : Resource B) (n : ℕ)
          → get k u.items ≡ some q
          → q.resource_version ≡ version n
          → n ≤ s.seq
          → key ≡ k
          → ⊥
      written_anew q n h v le at_key =
          let number : n ≡ u.seq =
            version_injective n u.seq (omega (arith, i.later)) (omega arith)
              (cc (w.there, ap (λ j. get j u.items) at_key)) in
          omega (arith, i.later)

module _ {B : Type 0} (T : ResourceType B) where
  -- A call with its arguments; the closures have no effect outside the store.
  pub data Call : Type 0 where
    creates : Env → String → Resource B → Call
    updates : Env → String → Resource B → (Resource B → Resource B × Option Error) → Call
    deletes : Env → String → Resource B → (Resource B → Option Error) → Call

  abbrev pub plain :
      (Resource B → Resource B × Option Error) → Unit {0} → Resource B → Outcome (Unit {0}) B
  plain f d r = record { state = tt; out = (f r).0; err = (f r).1 }

  abbrev pub step : Store B → Call → Store B
  step s (creates env key r) = (create T s env key r).state
  step s (updates env key r f) = (update T (s, tt) env key r (plain f)).state.0
  step s (deletes env key r f) = (delete T (s, tt) env key r (λ d x. (tt, f x))).state.0

  abbrev pub run : Store B → List Call → Store B
  run s [] = s
  run s (c ∷ cs) = run (step s c) cs

  Committed-Change :
      (s : Store B) (key : String) (o : Outcome (Store B) B) → Committed s key o → Change s o.state
  Committed-Change s key o c = written key o.out c.wrote c.counted c.versioned

  update-Change :
      (s : Store B) (key : String) (m : Unit {0} → Resource B → Outcome (Unit {0}) B)
      (o : Outcome (Store B × Unit {0}) B)
      → UpdateCases T s tt key m o
      → Change s o.state.0
  update-Change s key m o (missing e st er) = same (ap (λ p. p.0) st)
  update-Change s key m o (failed old e a b st er) = same (ap (λ p. p.0) st)
  update-Change s key m o (outdated old a b c st er) = same (ap (λ p. p.0) st)
  update-Change s key m o (stored old a b c done st body) = Committed-Change s key _ done

  delete-Change :
      (s : Store B) (env : Env) (key : String) (f : Unit {0} → Resource B → Unit {0} × Option Error)
      (o : Outcome (Store B × Unit {0}) B)
      → DeleteCases T s env key tt f o
      → o.state.0.seq ≡ s.seq
      → Change s o.state.0
  delete-Change s env key f o (absent e st er) k = same (ap (λ p. p.0) st)
  delete-Change s env key f o (invalid old e a b st er) k = same (ap (λ p. p.0) st)
  delete-Change s env key f o (gone old a b w st x er) k = removed key w k

  delete-seq :
      (s : Store B) (env : Env) (key : String) (r : Resource B)
      (f : Unit {0} → Resource B → Unit {0} × Option Error)
      → (delete T (s, tt) env key r f).state.0.seq ≡ s.seq
  unfolding delete store_deleted emit
  delete-seq s env key r f = ground arith

  step-Change : (s : Store B) (c : Call) → Change s (step s c)
  step-Change s (creates env key r) = elim (create_cases T s env key r) [
    | inl (e, c, n) ↦ Committed-Change s key _ c
    | inr (e, c, n) ↦ same c.kept
  ]
  step-Change s (updates env key r f) =
      update-Change s key _ _ (update_cases T s env key tt r (plain f))
  step-Change s (deletes env key r f) =
      delete-Change s env key _ _ (delete_cases T s env key tt r _) (delete-seq s env key r _)

  Change-seq : (s t : Store B) → s.seq + 1 < 2 ^ 63 → Change s t → t.seq ≤ s.seq + 1
  Change-seq s t room (same e) = ground arith
  Change-seq s t room (removed key w e) = omega arith
  Change-seq s t room (written key r w e v) = ground arith

  run-Since :
      (s t : Store B) (cs : List Call) → t.seq + length cs < 2 ^ 63 → Since s t → Since s (run t cs)
  run-Since s t [] room i = i
  run-Since s t (c ∷ cs) room i =
      let grown : (step t c).seq ≤ t.seq + 1 =
        Change-seq t (step t c) (omega arith) (step-Change t c) in
      run-Since s (step t c) cs (omega arith)
        (Since-Change s t (step t c) (omega arith) i (step-Change t c))

  -- No update is lost: a client reads the item of a key, any calls happen, and the client sends an
  -- update whose object carries the version that it read. If that update succeeds, then the item of
  -- the key was still the one that was read. (The version that was read is the print of a number
  -- `n` up to the counter, and the counter stays below 2^63.)
  pub update_of_latest :
      (s : Store B) (cs : List Call) (env : Env) (key : String) (read mine : Resource B) (n : ℕ)
      → get key s.items ≡ some read
      → read.resource_version ≡ version n
      → n ≤ s.seq
      → s.seq + length cs < 2 ^ 63
      → mine.resource_version ≡ read.resource_version
      → (update T (run s cs, tt) env key mine (plain (λ r. (mine, none)))).err ≡ none
      → get key (run s cs).items ≡ some read
  update_of_latest s cs env key read mine n h ver le room same_version fine =
      latest (update_cases T (run s cs) env key tt mine (plain (λ r. (mine, none))))
    where
      since : Since s (run s cs)
      since = run-Since s s cs room (Since-refl s)

      latest :
          UpdateCases T
            (run s cs)
            tt
            key
            (plain (λ r. (mine, none)))
            (update T (run s cs, tt) env key mine (plain (λ r. (mine, none))))
          → get key (run s cs).items ≡ some read
      latest (missing e st er) = cc
      latest (failed old e a b st er) = cc
      latest (outdated old a b c st er) = cc
      latest (stored old a b c done st body) =
          a ∙ sym (since.old key old n a (c ∙ same_version ∙ ver) le) ∙ h

module _ {B : Type 0} where
  -- Every item carries the version of some number up to the counter.
  pub record IsNumbered (s : Store B) : Type 0 where
    pub number :
        (k : String) (r : Resource B)
        → get k s.items ≡ some r
        → (n : ℕ) × (r.resource_version ≡ version n) × (n ≤ s.seq)

  Change-IsNumbered :
      (s t : Store B) → s.seq + 1 < 2 ^ 63 → Change s t → IsNumbered s → IsNumbered t
  Change-IsNumbered s t room (same e) i = rw e i
  Change-IsNumbered s t room (removed key w e) i = record {
    number = λ k q h. elim (Bool-cases (key == k)) [
      | inl hit ↦ cc (w.there, (eq_iff key k).0 hit)
      | inr miss ↦ rw e (i.number k q (sym (w.elsewhere k (λ p. cc ((eq_iff key k).1 p))) ∙ h))
    ];
  }
  Change-IsNumbered s t room (written key r w e ver) i = record {
    number = λ k q h. elim (Bool-cases (key == k)) [
      | inl hit ↦ (t.seq, cc (w.there, (eq_iff key k).0 hit), omega arith)
      | inr miss ↦
          let (n, v, le) = i.number k q (sym (w.elsewhere k (λ p. cc ((eq_iff key k).1 p))) ∙ h) in
          (n, v, ground arith)
    ];
  }

  pub IsNumbered-in_memory : IsNumbered (in_memory {B = B})
  unfolding in_memory get
  IsNumbered-in_memory = record { number = λ k r h. cc }

module _ {B : Type 0} (T : ResourceType B) where
  -- In a run of calls that the counter can count, every item keeps carrying the version of a number
  -- up to the counter.
  pub run-IsNumbered :
      (s : Store B) (cs : List (Call T))
      → s.seq + length cs < 2 ^ 63
      → IsNumbered s
      → IsNumbered (run T s cs)
  run-IsNumbered s [] room i = i
  run-IsNumbered s (c ∷ cs) room i =
      let grown : (step T s c).seq ≤ s.seq + 1 =
        Change-seq T s (step T s c) (omega arith) (step-Change T s c) in
      run-IsNumbered (step T s c) cs (omega arith)
        (Change-IsNumbered s (step T s c) (omega arith) (step-Change T s c) i)
