-- ===== src/Passwordgen/Lengths.antt =====
-- pkg/passwordgen/passwordgen.go: the words fill the phrase.
use kubemate.Base.{
  ℕ, ◌+◌, ◌-◌, ◌*◌, ◌≤◌, ◌<◌, ◌≡◌, refl, inl, inr, Option, some, List, [], ◌∷◌, ◌++◌, map, leb, All,
  arith, length, Bool-cases, leb→le,
}
use kubemate.Passwordgen.{sum, phrase_len, min_words, add_rest, word_lengths}

abbrev pub Long : ℕ → Type 0
Long l = 2 ≤ l

drawn-Long : (draws : List ℕ) → All Long (map (λ d. 2 + d) draws)
drawn-Long [] = tt
drawn-Long (d ∷ ds) = (omega arith, drawn-Long ds)

drawn-sum :
    (draws : List ℕ) → All (λ d. d < 5) draws → sum (map (λ d. 2 + d) draws) ≤ 6 * length draws
drawn-sum [] h = omega arith
drawn-sum (d ∷ ds) h = omega (arith, drawn-sum ds h.1, h.0)

sum-append : (ls : List ℕ) (n : ℕ) → sum (ls ++ n ∷ []) ≡ sum ls + n
sum-append [] n = omega arith
sum-append (l ∷ ls) n = omega (arith, sum-append ls n)

append-Long : (ls : List ℕ) (n : ℕ) → All Long ls → 2 ≤ n → All Long (ls ++ n ∷ [])
append-Long [] n h le = (le, tt)
append-Long (l ∷ ls) n h le = (h.0, append-Long ls n h.1 le)

-- The lengths are at least 2 each, and their sum is `n`.
abbrev pub Fills : ℕ → Option (List ℕ) → Type 0
Fills n o = (ls : List ℕ) × (o ≡ some ls) × (sum ls ≡ n) × All Long ls

add_rest-Fills :
    (p s w : ℕ) (ws : List ℕ)
    → s ≤ p
    → All Long (w ∷ ws)
    → Fills (sum (w ∷ ws) + (p - s)) (add_rest p s (w ∷ ws))
unfolding add_rest
add_rest-Fills p s w [] le h = (((w + p) - s) ∷ [], refl, omega arith, (omega (arith, h.0), tt))
add_rest-Fills p s w (v ∷ ws) le h =
    let (r, e, total, long_r) = add_rest-Fills p s v ws le h.1 in
    (w ∷ r, rw (e, add_rest) refl, omega (arith, total), (h.0, long_r))

rest-Fills :
    (p : ℕ) (draws : List ℕ)
    → 3 ≤ p
    → sum (map (λ d. 2 + d) draws) ≤ p
    → p < sum (map (λ d. 2 + d) draws) + 2
    → Fills p (add_rest p (sum (map (λ d. 2 + d) draws)) (map (λ d. 2 + d) draws))
rest-Fills p [] low le lt = absurd (omega arith)
rest-Fills p (d ∷ ds) low le lt =
    let ls = map (λ d. 2 + d) (d ∷ ds) in
    let (r, e, total, long_r) =
      add_rest-Fills p (sum ls) (2 + d) (map (λ d. 2 + d) ds) le (drawn-Long (d ∷ ds)) in
    (r, e, omega (arith, total, le), long_r)

-- For every supported length of a password and all random numbers, the cut of its phrase into words
-- does not panic, every word has at least the two letters that generateWord asks for, and the words
-- fill the phrase exactly.
pub word_lengths-Fills :
    (n : ℕ) (draws : List ℕ)
    → 7 ≤ n
    → All (λ d. d < 5) draws
    → length draws ≡ min_words (phrase_len n)
    → Fills (phrase_len n) (word_lengths (phrase_len n) draws)
unfolding word_lengths
word_lengths-Fills n draws long_enough below count =
    let ls = map (λ d. 2 + d) draws in
    let bound : sum ls ≤ 6 * length draws = drawn-sum draws below in
    let p : ℕ = phrase_len n in
    let low : 3 ≤ phrase_len n = omega arith in
    let fits : sum ls ≤ phrase_len n = omega arith in
    elim (Bool-cases (leb (sum ls + 2) (phrase_len n))) [
      | inl e ↦
          let room : sum ls + 2 ≤ phrase_len n = leb→le _ _ e in
          rw (e, word_lengths)
            (
              ls ++ (phrase_len n - sum ls) ∷ [],
              refl,
              omega (arith, sum-append ls (phrase_len n - sum ls), fits),
              append-Long ls (phrase_len n - sum ls) (drawn-Long draws) (omega arith),
            )
      | inr e ↦ rw (e, word_lengths) (rest-Fills (phrase_len n) draws low fits (ground arith))
    ]
