-- ===== src/Base/Text.antt =====
-- A text as the list of its characters, where the code walks or cuts it.
use Prim.Native.Char.{Char, code}
use kubemate.Base.Tests.{nat_eq, if◌then◌else◌}
use mathlib.Core.Bool.{Bool, true}
use mathlib.Core.Option.{Option, none, some}
use Prim.Native.String.{String}
use Prim.Native.String
use mathlib.Core.Path.{◌≡◌, refl, ap}
use mathlib.Core.List.{List, [], ◌∷◌, ◌++◌}
use native.Mathlib.Omega.{arith}

abbrev pub chars : String → List Char
chars String.[] = []
chars (String.◌∷◌ c s) = c ∷ chars s

abbrev pub text : List Char → String
text [] = String.[]
text (c ∷ s) = String.◌∷◌ c (text s)

pub chars-text : (s : List Char) → chars (text s) ≡ s
chars-text [] = refl
chars-text (c ∷ s) = ap (λ t. c ∷ t) (chars-text s)

abbrev pub cat : String → String → String
cat a b = Prim.Native.String.◌++◌ a b

pub text-chars : (s : String) → text (chars s) ≡ s
text-chars String.[] = refl
text-chars (String.◌∷◌ c s) = ap (λ t. String.◌∷◌ c t) (text-chars s)

abbrev pub same_char : Char → Char → Bool
same_char c d = nat_eq (code c) (code d)

-- What follows a prefix.
unfoldable pub eat : List Char → List Char → Option (List Char)
eat [] s = some s
eat (c ∷ p) [] = none
eat (c ∷ p) (d ∷ s) = let rest = eat p s in if same_char c d then rest else none

pub eat-append : (p s : List Char) → eat p (p ++ s) ≡ some s
unfolding eat
eat-append [] s = refl
eat-append (c ∷ p) s =
    let same : nat_eq (code c) (code c) ≡ true = ground arith in rw (same, eat-append p s) refl
