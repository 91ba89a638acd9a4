-- ===== src/Storage/Refresh/Examples.antt =====
-- Concrete cases of pkg/storage/refresh.go.
use kubemate.Base.{false, [], ◌∷◌, arith}
use kubemate.Storage.Refresh.{rate_limit}
use kubemate.Storage.Refresh.Spacing.{calls, finishes, Spaced, seen_of, seen_of-Spaced}

seen_of-Spaced_example :
    Spaced 10 false 0 (
      seen_of 10 rate_limit (calls 20 21 ∷ calls 22 22 ∷ finishes ∷ calls 25 25 ∷ calls 31 32 ∷ []))
seen_of-Spaced_example =
    seen_of-Spaced 10 rate_limit
      (calls 20 21 ∷ calls 22 22 ∷ finishes ∷ calls 25 25 ∷ calls 31 32 ∷ [])
      (omega arith, (omega arith, (tt, (omega arith, (omega arith, tt)))))
