-- ===== src/Base/Dict.antt =====
-- Go's `map[string]V` as an association list: a write replaces the entry or adds one at the end.
use Prim.Native.String.{String}
use mathlib.Core.Path.{◌≡◌, refl}
use mathlib.Core.Bool.{true}
use mathlib.Core.List.{List, [], ◌∷◌}
use mathlib.Core.Option.{Option, none, some}
use mathlib.Core.Logic.{◌≢◌}
use native.Mathlib.Omega.{arith}
use text.Mathlib.Text.{◌==◌}
use text.Mathlib.TextEquality.{eq_iff}
use kubemate.Base.Lists.{any, All}
use kubemate.Base.Tests.{is_some, if◌then◌else◌}

abbrev pub Dict {ℓ} : Type ℓ → Type ℓ
Dict V = List (String × V)

module _ {ℓ} {V : Type ℓ} where
  -- m[k], with the comma-ok form.
  unfoldable pub get : String → Dict V → Option V
  get k [] = none
  get k ((j, v) ∷ m) = if j == k then some v else get k m

  -- m[k] = v
  unfoldable pub put : String → V → Dict V → Dict V
  put k v [] = (k, v) ∷ []
  put k v ((j, w) ∷ m) = if j == k then (k, v) ∷ m else (j, w) ∷ put k v m

  -- delete(m, k)
  unfoldable pub remove : String → Dict V → Dict V
  remove k [] = []
  remove k ((j, v) ∷ m) = let rest = remove k m in if j == k then rest else (j, v) ∷ rest

  abbrev pub keys : Dict V → List String
  keys [] = []
  keys ((j, v) ∷ m) = j ∷ keys m

  pub get-put :
      (k j : String) (v : V) (m : Dict V) → get j (put k v m) ≡ (if k == j then some v else get j m)
  unfolding get put
  get-put k j v [] = refl
  get-put k j v ((i, w) ∷ m) = ground (arith, eq_iff k j, eq_iff i k, eq_iff i j, get-put k j v m)

  pub get-remove :
      (k j : String) (m : Dict V) → get j (remove k m) ≡ (if k == j then none else get j m)
  unfolding get remove
  get-remove k j [] = ground arith
  get-remove k j ((i, w) ∷ m) = ground (arith, eq_iff k j, eq_iff i k, eq_iff i j, get-remove k j m)

  pub get-put_self : (k : String) (v : V) (m : Dict V) → get k (put k v m) ≡ some v
  get-put_self k v m = ground (arith, get-put k k v m, eq_iff k k)

  pub get-put_ne : (k j : String) (v : V) (m : Dict V) → k ≢ j → get j (put k v m) ≡ get j m
  get-put_ne k j v m h = ground (arith, get-put k j v m, eq_iff k j)

  pub get-remove_self : (k : String) (m : Dict V) → get k (remove k m) ≡ none
  get-remove_self k m = ground (arith, get-remove k k m, eq_iff k k)

  pub get-remove_ne : (k j : String) (m : Dict V) → k ≢ j → get j (remove k m) ≡ get j m
  get-remove_ne k j m h = ground (arith, get-remove k j m, eq_iff k j)

module _ {ℓ} {V : Type ℓ} where
  All-get-cons :
      (ks : List String) (j : String) (v : V) (m : Dict V)
      → All (λ k. is_some (get k m) ≡ true) ks
      → All (λ k. is_some (get k ((j, v) ∷ m)) ≡ true) ks
  unfolding get
  All-get-cons [] j v m h = tt
  All-get-cons (k ∷ ks) j v m h = (ground arith, All-get-cons ks j v m h.1)

  -- Every listed key is in use.
  pub keys-in_use : (m : Dict V) → All (λ k. is_some (get k m) ≡ true) (keys m)
  unfolding get
  keys-in_use [] = tt
  keys-in_use ((j, v) ∷ m) =
      (ground (arith, eq_iff j j), All-get-cons (keys m) j v m (keys-in_use m))

module _ {ℓ} {V : Type ℓ} where
  -- A key is listed where it is in use.
  pub any-keys : (k : String) (m : Dict V) → any (λ j. j == k) (keys m) ≡ is_some (get k m)
  unfolding get
  any-keys k [] = refl
  any-keys k ((j, v) ∷ m) = ground (arith, any-keys k m)

pub ruleset dict_laws = (get-put, get-remove)
