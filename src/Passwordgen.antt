-- ===== src/Passwordgen.antt =====
-- pkg/passwordgen/passwordgen.go: how a password is cut into words, and the weighted choice of the next
-- letter. A random number is an argument; none is a panic. The shuffle of the words is left out.
pub mod Lengths
pub mod Choice
use kubemate.Base.{
  ℕ, zero, suc, ◌+◌, ◌-◌, ◌/◌, max, min, Bool, true, false, Option, none, some, List, [], ◌∷◌, ◌++◌,
  map, ltb, leb, if◌then◌else◌,
}

abbrev pub sum : List ℕ → ℕ
sum [] = 0
sum (n ∷ ns) = n + sum ns

abbrev pub min_word_len : ℕ
min_word_len = 2

abbrev pub max_word_len : ℕ
max_word_len = 7

abbrev pub num_len : ℕ → ℕ
num_len length = max 1 (min 3 (length / 2))

abbrev pub phrase_len : ℕ → ℕ
phrase_len length = length - num_len length - 1

abbrev pub min_words : ℕ → ℕ
min_words phrase_len = phrase_len / max_word_len

-- wordLengths[minWords-1] += phraseLen - wordLenSum
add_rest : ℕ → ℕ → List ℕ → Option (List ℕ)
add_rest p s [] = none
add_rest p s (w ∷ []) = some (((w + p) - s) ∷ [])
add_rest p s (w ∷ v ∷ ws) = elim (add_rest p s (v ∷ ws)) [ none ↦ none | some r ↦ some (w ∷ r) ]

-- The lengths of the words of a phrase; `draws` are the numbers that randInt(5) gives.
pub word_lengths : ℕ → List ℕ → Option (List ℕ)
unfolding add_rest
word_lengths p draws =
    let ls = map (λ d. min_word_len + d) draws in
    if leb (sum ls + min_word_len) p then some (ls ++ (p - sum ls) ∷ []) else add_rest p (sum ls) ls

-- The second loop of weightedRandInt, with the sum of the weights before.
pick : ℕ → ℕ → List ℕ → Option ℕ
pick k s [] = none
pick k s (w ∷ ws) =
    let rest = pick k (s + w) ws in
    if leb k (s + w) then some 0 else elim rest [ none ↦ none | some i ↦ some (suc i) ]

-- `k` is what randInt gives below the sum of the weights.
pub weighted_rand_int : ℕ → List ℕ → Option ℕ
unfolding pick
weighted_rand_int k weights = pick k 0 weights
