-- ===== src/Passwordgen/Choice.antt =====
-- pkg/passwordgen/passwordgen.go: what weightedRandInt chooses.
use kubemate.Base.{
  ℕ, suc, ◌+◌, ◌≤◌, ◌<◌, ◌≡◌, refl, inl, inr, false, some, List, [], ◌∷◌, ◌++◌, leb, arith, length,
  Bool-cases,
}
use kubemate.Passwordgen.{sum, pick, weighted_rand_int}

pick-last :
    (k s : ℕ) (ws : List ℕ) (w : ℕ)
    → 1 ≤ length ws
    → k ≤ s + sum ws
    → (i : ℕ) × (pick k s (ws ++ w ∷ []) ≡ some i) × (i < length ws)
unfolding pick
pick-last k s [] w n h = absurd (omega arith)
pick-last k s (v ∷ ws) w n h = elim (Bool-cases (leb k (s + v))) [
  | inl e ↦ (0, rw (e, pick) refl, omega arith)
  | inr e ↦
      let (i, found, below) = pick-last k (s + v) ws w (later ws e h) (omega arith) in
      (suc i, rw (e, found, pick) refl, omega arith)
]
  where
    later : (vs : List ℕ) → leb k (s + v) ≡ false → k ≤ s + (v + sum vs) → 1 ≤ length vs
    later [] e h = ground arith
    later (x ∷ xs) e h = omega arith

-- A last item of weight 1 is never chosen: for every random number below the sum of the weights the
-- choice ends, and it ends before that item.
pub weighted_rand_int_skips_last :
    (k : ℕ) (ws : List ℕ)
    → 1 ≤ length ws
    → k < sum (ws ++ 1 ∷ [])
    → (i : ℕ) × (weighted_rand_int k (ws ++ 1 ∷ []) ≡ some i) × (i < length ws)
unfolding weighted_rand_int
weighted_rand_int_skips_last k ws n h = pick-last k 0 ws 1 n (omega (arith, sum-one ws))
  where
    sum-one : (vs : List ℕ) → sum (vs ++ 1 ∷ []) ≡ sum vs + 1
    sum-one [] = refl
    sum-one (x ∷ xs) = omega (arith, sum-one xs)
