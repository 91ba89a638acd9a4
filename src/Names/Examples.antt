-- ===== src/Names/Examples.antt =====
-- Tests and concrete cases of pkg/utils/names.go.
use Prim.Native.Char.{Char}
use kubemate.Base.Text.{chars}
use kubemate.Base.{◌≤◌, ◌≡◌, refl, some, List, [], ◌∷◌, length, All, arith}
use kubemate.Names.{truncate_name, is_name_char}
use kubemate.Names.Valid.{Valid, truncate_name-Valid}

abbrev same : List Char → List Char
same s = s

abbrev d : Char
d = "7"

-- A hash in which every digit is 7.
abbrev sevens : List Char → List Char
sevens s = d ∷ d ∷ d ∷ d ∷ d ∷ d ∷ d ∷ d ∷ d ∷ d ∷ d ∷ d ∷ []

abbrev name : List Char
name = chars "ssid-My  Net_work!"

truncate_name_test : truncate_name same sevens (chars "a_b") 63 ≡ some (chars "a-b-77777777777")
unfolding truncate_name
truncate_name_test = refl

truncate_name-Valid_example :
    (r : List Char) × (truncate_name same sevens name 20 ≡ some r) × (length r ≤ 20) × All Valid r
unfolding is_name_char
truncate_name-Valid_example = truncate_name-Valid same sevens name 20 (omega arith) (
  refl,
  (refl, (refl, (refl, (refl, (refl, (refl, (refl, (refl, (refl, (refl, (refl, tt))))))))))),
)
