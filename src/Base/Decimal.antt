-- ===== src/Base/Decimal.antt =====
-- `fmt.Sprintf("%d", n)` and `strconv.Itoa`: the decimal print of a number, and its value.
use Prim.Native.Nat.{ℕ, zero, suc, ◌+◌, ◌-◌, ◌*◌, ◌/◌, ◌%◌, ◌<◌}
use Prim.Native.Char.{Char, code}
use Prim.Native.String.{String}
use mathlib.Core.Path.{◌≡◌, refl, sym, ap, ◌∙◌}
use native.Mathlib.Omega.{arith}
use mathlib.Core.Bool.{Bool, true, false}
use mathlib.Core.Logic.{◌≢◌, inl, inr}
use kubemate.Base.Tests.{ltb, ltb→lt, Bool-cases, if◌then◌else◌}

digit : ℕ → Char
digit zero = "0"
digit (suc zero) = "1"
digit (suc (suc zero)) = "2"
digit (suc (suc (suc zero))) = "3"
digit (suc (suc (suc (suc zero)))) = "4"
digit (suc (suc (suc (suc (suc zero))))) = "5"
digit (suc (suc (suc (suc (suc (suc zero)))))) = "6"
digit (suc (suc (suc (suc (suc (suc (suc zero))))))) = "7"
digit (suc (suc (suc (suc (suc (suc (suc (suc zero)))))))) = "8"
digit _ = "9"

-- The digits of `n` in front of `out`; the fuel is more than `n`.
emit : ℕ → ℕ → String → String
emit zero n out = out
emit (suc f) n out =
    let rest = emit f (n / 10) (String.◌∷◌ (digit (n % 10)) out) in
    if ltb n 10 then String.◌∷◌ (digit n) out else rest

unfoldable pub decimal : ℕ → String
unfolding emit digit
decimal n = emit (suc n) n String.[]

-- The number that digits spell behind `n`.
value : ℕ → String → ℕ
value n String.[] = n
value n (String.◌∷◌ c s) = value (n * 10 + (code c - 48)) s

code-digit : (d : ℕ) → d < 10 → code (digit d) - 48 ≡ d
unfolding digit
code-digit zero h = refl
code-digit (suc zero) h = refl
code-digit (suc (suc zero)) h = refl
code-digit (suc (suc (suc zero))) h = refl
code-digit (suc (suc (suc (suc zero)))) h = refl
code-digit (suc (suc (suc (suc (suc zero))))) h = refl
code-digit (suc (suc (suc (suc (suc (suc zero)))))) h = refl
code-digit (suc (suc (suc (suc (suc (suc (suc zero))))))) h = refl
code-digit (suc (suc (suc (suc (suc (suc (suc (suc zero)))))))) h = refl
code-digit (suc (suc (suc (suc (suc (suc (suc (suc (suc zero))))))))) h = refl
code-digit (suc (suc (suc (suc (suc (suc (suc (suc (suc (suc d)))))))))) h = absurd (omega arith)

last_digit : (n : ℕ) → ltb n 10 ≡ true → 0 * 10 + (code (digit n) - 48) ≡ n
last_digit n h = omega (arith, code-digit n (ltb→lt n 10 h))

next_digit : (n : ℕ) → n / 10 * 10 + (code (digit (n % 10)) - 48) ≡ n
next_digit n = omega (arith, code-digit (n % 10) (omega arith))

value-emit : (f n : ℕ) (out : String) → n < f → value 0 (emit f n out) ≡ value n out
unfolding emit value
value-emit zero n out h = elim h [ ]
value-emit (suc f) n out h = elim (Bool-cases (ltb n 10)) [
  | inl last ↦ rw last (ap (λ d. value d out) (last_digit n last))
  | inr more ↦
      rw more (value-emit f (n / 10) _ (ground arith) ∙ ap (λ d. value d out) (next_digit n))
]

-- Two numbers with one print are one number.
pub decimal_injective : (m n : ℕ) → decimal m ≡ decimal n → m ≡ n
unfolding decimal value
decimal_injective m n h =
    sym (value-emit (suc m) m String.[] (omega arith))
    ∙ ap (value 0) h
    ∙ value-emit (suc n) n String.[] (omega arith)

is_empty : String → Bool
is_empty String.[] = true
is_empty (String.◌∷◌ c s) = false

emit-is_empty : (f n : ℕ) (c : Char) (s : String) → is_empty (emit f n (String.◌∷◌ c s)) ≡ false
unfolding emit is_empty
emit-is_empty zero n c s = refl
emit-is_empty (suc f) n c s = elim (Bool-cases (ltb n 10)) [
  | inl last ↦ rw last
  | inr more ↦ rw more (emit-is_empty f (n / 10) _ _)
]

pub decimal-ne-empty : (n : ℕ) → decimal n ≢ ""
unfolding decimal is_empty
decimal-ne-empty n e = elim (Bool-cases (ltb n 10)) [
  | inl last ↦ cc (ap is_empty (rw last at e))
  | inr more ↦ cc (emit-is_empty n (n / 10) (digit (n % 10)) String.[])
]
