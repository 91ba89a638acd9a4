-- ===== src/Base/Sort.antt =====
-- `sort.Strings`: an insertion sort by the order of texts.
use Prim.Native.Nat.{ℕ, Ordering, compare as compare_ℕ}
use Prim.Native.Char.{code}
use Prim.Native.String.{String, compare, then as first_of_two}
use Prim.Native.String.compare
use mathlib.Core.Path.{ap, ◌∙◌, ◌≡◌, refl}
use mathlib.Core.Logic.{◌⊎◌, inl, inr}
use mathlib.Core.Bool.{◌||◌, Bool, true, false}
use mathlib.Core.List.{List, [], ◌∷◌, Perm}
use mathlib.Core.List.Perm
use native.Mathlib.Omega.{arith}
use text.Mathlib.Text.{is_le}
use kubemate.Base.Lists.{any, All}
use kubemate.Base.Tests.{if◌then◌else◌, Bool-cases}

-- a <= b
abbrev pub str_le : String → String → Bool
str_le a b = is_le (compare a b)

insert_sorted : String → List String → List String
insert_sorted k [] = k ∷ []
insert_sorted k (j ∷ l) = let rest = insert_sorted k l in if str_le k j then k ∷ j ∷ l else j ∷ rest

unfoldable pub sort : List String → List String
unfolding insert_sorted
sort [] = []
sort (k ∷ l) = insert_sorted k (sort l)

insert_sorted-perm : (k : String) (l : List String) → Perm (insert_sorted k l) (k ∷ l)
unfolding insert_sorted
insert_sorted-perm k [] = Perm.refl _
insert_sorted-perm k (j ∷ l) = elim (Bool-cases (str_le k j)) [
  | inl e ↦ rw e (Perm.refl _)
  | inr e ↦ rw e (Perm.trans (Perm.cons j (insert_sorted-perm k l)) (Perm.swap k j l))
]

-- Sorting keeps the entries, each as often as it stood there.
pub sort-perm : (l : List String) → Perm (sort l) l
unfolding sort
sort-perm [] = Perm.refl []
sort-perm (k ∷ l) = Perm.trans (insert_sorted-perm k (sort l)) (Perm.cons k (sort-perm l))

any-insert_sorted :
    (p : String → Bool) (k : String) (l : List String)
    → any p (insert_sorted k l) ≡ (p k || any p l)
unfolding insert_sorted
any-insert_sorted p k [] = refl
any-insert_sorted p k (j ∷ l) = ground (arith, any-insert_sorted p k l)

-- Sorting does not change whether an entry passes a test.
pub any-sort : (p : String → Bool) (l : List String) → any p (sort l) ≡ any p l
unfolding sort
any-sort p [] = refl
any-sort p (k ∷ l) = any-insert_sorted p k (sort l) ∙ ap (λ b. p k || b) (any-sort p l)

-- Each entry is at most the next one.
pub data IsSorted : List String → Type 0 where
  nil : IsSorted []
  one : (x : String) → IsSorted (x ∷ [])
  more :
      {x y : String} {l : List String} → str_le x y ≡ true → IsSorted (y ∷ l) → IsSorted (x ∷ y ∷ l)

-- Two texts compare by their first characters, and by the rest where these are the same.
then_total :
    (m n : ℕ) (x y : Ordering)
    → (is_le x ≡ true) ⊎ (is_le y ≡ true)
    → (is_le (first_of_two (compare_ℕ m n) x) ≡ true)
      ⊎ (is_le (first_of_two (compare_ℕ n m) y) ≡ true)
then_total m n x y h = ground arith

str_le_total : (s t : String) → (str_le s t ≡ true) ⊎ (str_le t s ≡ true)
str_le_total String.[] String.[] = inl refl
str_le_total String.[] (String.◌∷◌ c t) = inl (rw (compare.nil-cons c t))
str_le_total (String.◌∷◌ c s) String.[] = inr (rw (compare.nil-cons c s))
str_le_total (String.◌∷◌ c s) (String.◌∷◌ d t) =
    rw (compare.cons-cons c d s t, compare.cons-cons d c t s)
      (then_total (code c) (code d) (compare s t) (compare t s) (str_le_total s t))

insert_under :
    (k j : String) (l : List String)
    → str_le j k ≡ true
    → IsSorted (j ∷ l)
    → IsSorted (j ∷ insert_sorted k l)
unfolding insert_sorted
insert_under k j [] h s = more h (one k)
insert_under k j (i ∷ l) h (more g s) = elim (Bool-cases (str_le k i)) [
  | inl e ↦ rw e (more h (more e s))
  | inr e ↦ rw e (more g (insert_under k i l (other e) s))
]
  where
    other : str_le k i ≡ false → str_le i k ≡ true
    other e = elim (str_le_total k i) [ inl p ↦ cc | inr p ↦ p ]

insert_sorted-IsSorted : (k : String) (l : List String) → IsSorted l → IsSorted (insert_sorted k l)
unfolding insert_sorted
insert_sorted-IsSorted k [] s = one k
insert_sorted-IsSorted k (j ∷ l) s = elim (Bool-cases (str_le k j)) [
  | inl e ↦ rw e (more e s)
  | inr e ↦ rw e (insert_under k j l (elim (str_le_total k j) [ inl p ↦ cc | inr p ↦ p ]) s)
]

pub sort-IsSorted : (l : List String) → IsSorted (sort l)
unfolding sort
sort-IsSorted [] = nil
sort-IsSorted (k ∷ l) = insert_sorted-IsSorted k (sort l) (sort-IsSorted l)

insert_sorted-All {κ} :
    (P : String → Type κ) (k : String) (l : List String) → P k → All P l → All P (insert_sorted k l)
unfolding insert_sorted
insert_sorted-All P k [] p h = (p, tt)
insert_sorted-All P k (j ∷ l) p h = elim (Bool-cases (str_le k j)) [
  | inl e ↦ rw e (p, h)
  | inr e ↦ rw e (h.0, insert_sorted-All P k l p h.1)
]

pub sort-All {κ} : (P : String → Type κ) (l : List String) → All P l → All P (sort l)
unfolding sort
sort-All P [] h = tt
sort-All P (k ∷ l) h = insert_sorted-All P k (sort l) h.0 (sort-All P l h.1)
