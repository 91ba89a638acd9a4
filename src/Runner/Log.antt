-- ===== src/Runner/Log.antt =====
-- pkg/runner/logtranslate.go: the level and the text of a line that a child process has logged. A text is
-- the list of its characters. In both regular expressions each repetition is followed by a character
-- that it does not take, so a match is found without going back. `strconv.Unquote` is a parameter.
pub mod Lines
use Prim.Native.Char.{Char, code}
use kubemate.Base.{
  String, Bool, true, false, Option, none, some, List, [], ◌∷◌, ◌++◌, ◌==◌, ◌&&◌, ◌||◌, not, leb,
  nat_eq, if◌then◌else◌,
}
use kubemate.Base.Text.{same_char, eat, chars, text}
use kubemate.Runner.{is_space}

pub data Level : Type 0 where
  trace debug info warn error : Level

-- A line in neither format is left to the caller; `panicked` is an index out of range.
pub data Translation : Type 0 where
  unknown panicked : Translation
  logged : Level → List Char → Translation

abbrev pub is_digit : Char → Bool
is_digit c = leb b'0' (code c) && leb (code c) b'9'

abbrev pub quote_mark : Char
quote_mark = "\""

abbrev pub is_quote : Char → Bool
is_quote c = same_char c quote_mark

-- X*: what is taken and what follows.
pub span : (Char → Bool) → List Char → List Char × List Char
span p [] = ([], [])
span p (c ∷ s) = let (a, b) = span p s in if p c then (c ∷ a, b) else ([], c ∷ s)

abbrev pub unless_empty : List Char × List Char → Option (List Char × List Char)
unless_empty ([], b) = none
unless_empty (c ∷ a, b) = some (c ∷ a, b)

-- X+
pub some_of : (Char → Bool) → List Char → Option (List Char × List Char)
unfolding span
some_of p s = unless_empty (span p s)

abbrev pub follow : {A : Type 0} → Option (List Char) → (List Char → Option A) → Option A
follow o f = elim o [ none ↦ none | some s ↦ f s ]

abbrev pub rest_of : Option (List Char × List Char) → Option (List Char)
rest_of o = elim o [ none ↦ none | some (a, b) ↦ some b ]

abbrev pub is_level_letter : Char → Bool
is_level_letter c =
    same_char c "I"
    || same_char c "E"
    || same_char c "W"
    || same_char c "D"
    || same_char c "T"
    || same_char c "F"

-- shortLogFormat: what follows the match.
pub after_letter : List Char → Option (List Char)
after_letter s = follow (rest_of (some_of is_digit s)) (λ s1. follow (eat (chars " ") s1) (λ s2.
    follow (rest_of (some_of (λ c. not (is_space c)) s2)) (λ s3.
      follow (rest_of (some_of is_space s3))
        (λ s4. follow (rest_of (some_of is_digit s4)) (λ s5. eat (chars " ") s5)))))

pub short_format : List Char → Option (Char × List Char)
short_format [] = none
short_format (c ∷ s) =
    if is_level_letter c
    then elim (after_letter s) [ none ↦ none | some msg ↦ some (c, msg) ]
    else none

abbrev pub with_level : List Char → Option (List Char) → Option (List Char × List Char)
with_level l none = none
with_level l (some msg) = some (l, msg)

abbrev pub level_then_text : Option (List Char × List Char) → Option (List Char × List Char)
level_then_text none = none
level_then_text (some (l, s)) = with_level l (eat (chars " msg=\"") s)

-- goLogFormat: the level, and what follows the match.
pub go_format : List Char → Option (List Char × List Char)
go_format s = follow (eat (chars "time=\"") s) (λ s1.
    follow (rest_of (some_of (λ c. not (is_quote c)) s1)) (λ s2.
      follow (eat (chars "\" level=") s2)
        (λ s3. level_then_text (some_of (λ c. not (is_space c)) s3))))

unfoldable pub short_level : Char → Level
short_level c =
    if same_char c "I"
    then info
    else if same_char c "F" || same_char c "E"
    then error
    else if same_char c "W"
    then warn
    else if same_char c "D"
    then debug
    else if same_char c "T"
    then trace
    else warn

unfoldable pub go_level : List Char → Level
go_level l =
    if text l == "info"
    then info
    else if text l == "fatal" || text l == "error"
    then error
    else if text l == "warn"
    then warn
    else if text l == "debug"
    then debug
    else if text l == "trace"
    then trace
    else warn

-- The text without a quote at its end; none is the panic on an empty text.
pub unclosed : List Char → Option (List Char)
unclosed [] = none
unclosed (c ∷ s) =
    let rest = unclosed s in
    elim s [
      | [] ↦ some (if is_quote c then [] else c ∷ [])
      | d ∷ r ↦ elim rest [ none ↦ none | some t ↦ some (c ∷ t) ]
    ]

module _ (unquote : List Char → Option (List Char)) where
  unfoldable pub unquoted : List Char → List Char
  unquoted m = elim (unquote (quote_mark ∷ (m ++ quote_mark ∷ []))) [ none ↦ m | some u ↦ u ]

  pub go_message : Option (List Char × List Char) → Translation
  unfolding unclosed
  go_message none = unknown
  go_message (some (l, msg)) = elim (unclosed msg) [
    | none ↦ panicked
    | some m ↦ logged (go_level l) (unquoted m)
  ]

  -- parseAndLogProcessLogLine
  unfoldable pub translate : List Char → Translation
  unfolding go_message
  translate line = elim (short_format line) [
    | some (c, msg) ↦ logged (short_level c) msg
    | none ↦ go_message (go_format line)
  ]
