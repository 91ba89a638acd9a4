-- ===== src/Runner/Log/Lines.antt =====
-- pkg/runner/logtranslate.go: lines in either format.
use Prim.Native.Char.{Char}
use kubemate.Base.Text.{text, eat-append}
use kubemate.Base.{
  none, ◌≢◌, sym, eq_false, ◌⊎◌, ◌≡◌, ◌⊎◌, inl, inr, refl, ap, ◌∙◌, Bool, true, false, Option, some,
  List, [], ◌∷◌, ◌++◌, not, All, arith,
}
use kubemate.Base.Text.{chars}
use kubemate.Runner.{is_space}
use kubemate.Runner.Log.{
  info, error, warn, debug, trace, Level, warn, error, info, Level, with_level, level_then_text,
  unless_empty, panicked, logged, is_digit, quote_mark, is_quote, span, some_of, is_level_letter,
  after_letter, short_format, go_format, short_level, go_level, unclosed, unquoted, go_message,
  translate,
}

-- The letters that klog begins a line with, and the words that logrus has for a level.
pub data Letter : Type 0 where
  i_letter e_letter f_letter w_letter d_letter t_letter : Letter

pub data Word : Type 0 where
  info_word error_word fatal_word warn_word debug_word trace_word : Word
  other_word : List Char → Word

abbrev pub letter : Letter → List Char
letter i_letter = chars "I"
letter e_letter = chars "E"
letter f_letter = chars "F"
letter w_letter = chars "W"
letter d_letter = chars "D"
letter t_letter = chars "T"

abbrev pub word : Word → List Char
word info_word = chars "info"
word error_word = chars "error"
word fatal_word = chars "fatal"
word warn_word = chars "warn"
word debug_word = chars "debug"
word trace_word = chars "trace"
word (other_word l) = l

-- A line of klog: letter, date, time, spaces, process ID and text; and one of logrus: time, level, text.
pub data Line : Type 0 where
  klog : Letter → List Char → List Char → List Char → List Char → List Char → Line
  logrus : List Char → Word → List Char → Line

abbrev pub print : Line → List Char
print (klog c day time gap pid msg) =
    letter c ++ (day ++ (chars " " ++ (time ++ (gap ++ (pid ++ (chars " " ++ msg))))))
print (logrus t l msg) =
    chars "time=\""
    ++ (t ++ (chars "\" level=" ++ (word l ++ (chars " msg=\"" ++ (msg ++ quote_mark ∷ [])))))

-- What a letter and a word stand for.
abbrev pub letter_level : Letter → Level
letter_level i_letter = info
letter_level e_letter = error
letter_level f_letter = error
letter_level w_letter = warn
letter_level d_letter = debug
letter_level t_letter = trace

abbrev pub word_level : Word → Level
word_level info_word = info
word_level error_word = error
word_level fatal_word = error
word_level warn_word = warn
word_level debug_word = debug
word_level trace_word = trace
word_level (other_word l) = warn

abbrev pub level_of : Line → Level
level_of (klog c day time gap pid msg) = letter_level c
level_of (logrus t l msg) = word_level l

-- One character or more, all of which pass the test.
abbrev pub Filled : (Char → Bool) → List Char → Type 0
Filled p [] = ⊥
Filled p (c ∷ s) = (p c ≡ true) × All (λ d. p d ≡ true) s

-- A word of logrus has no space, and the other words are none of the six.
abbrev pub IsWord : Word → Type 0
IsWord (other_word l) =
    Filled (λ c. not (is_space c)) l
    × (text l ≢ "info")
    × (text l ≢ "error")
    × (text l ≢ "fatal")
    × (text l ≢ "warn")
    × (text l ≢ "debug")
    × (text l ≢ "trace")
IsWord _ = Unit

abbrev pub IsPlain : Line → Type 0
IsPlain (klog c day time gap pid msg) =
    Filled is_digit day
    × Filled (λ d. not (is_space d)) time
    × Filled is_space gap
    × Filled is_digit pid
IsPlain (logrus t l msg) = Filled (λ c. not (is_quote c)) t × IsWord l

-- The repetition ends before this text.
abbrev Ends : (Char → Bool) → List Char → Type 0
Ends p [] = Unit
Ends p (c ∷ s) = p c ≡ false

span-append :
    (p : Char → Bool) (a b : List Char)
    → All (λ c. p c ≡ true) a
    → Ends p b
    → span p (a ++ b) ≡ (a, b)
unfolding span
span-append p [] [] h e = refl
span-append p [] (c ∷ b) h e = rw e refl
span-append p (c ∷ a) b h e = rw (h.0, span-append p a b h.1 e) refl

some_of-append :
    (p : Char → Bool) (a b : List Char) → Filled p a → Ends p b → some_of p (a ++ b) ≡ some (a, b)
unfolding some_of
some_of-append p [] b h e = absurd h
some_of-append p (c ∷ a) b h e = ap (λ o. unless_empty o) (span-append p (c ∷ a) b h e)

unclosed-append : (m : List Char) → unclosed (m ++ quote_mark ∷ []) ≡ some m
unfolding unclosed
unclosed-append [] = refl
unclosed-append (c ∷ []) = refl
unclosed-append (c ∷ d ∷ m) = rw (unclosed-append (d ∷ m)) refl

digit_no_space : (c : Char) → is_digit c ≡ true → is_space c ≡ false
digit_no_space c h = ground arith

Filled-Ends :
    (p q : Char → Bool) (a b : List Char)
    → ((c : Char) → p c ≡ true → q c ≡ false)
    → Filled p a
    → Ends q (a ++ b)
Filled-Ends p q [] b f h = absurd h
Filled-Ends p q (c ∷ a) b f h = f c h.0

after_letter-klog :
    (day time gap pid msg : List Char)
    → Filled is_digit day
    → Filled (λ d. not (is_space d)) time
    → Filled is_space gap
    → Filled is_digit pid
    → after_letter (day ++ (chars " " ++ (time ++ (gap ++ (pid ++ (chars " " ++ msg)))))) ≡ some msg
unfolding after_letter
after_letter-klog day time gap pid msg d t g p =
    let end : List Char = chars " " ++ msg in
    rw
      (
        some_of-append is_digit day (chars " " ++ (time ++ (gap ++ (pid ++ end)))) d refl,
        eat-append (chars " ") (time ++ (gap ++ (pid ++ end))),
        some_of-append (λ c. not (is_space c)) time (gap ++ (pid ++ end)) t
            (Filled-Ends is_space (λ c. not (is_space c)) gap (pid ++ end) (λ c e. rw e refl) g),
        some_of-append is_space gap (pid ++ end) g
            (Filled-Ends is_digit is_space pid end digit_no_space p),
        some_of-append is_digit pid end p refl,
        eat-append (chars " ") msg,
      )
      refl

level_and_text :
    (l end : List Char)
    → Filled (λ c. not (is_space c)) l
    → level_then_text (some_of (λ c. not (is_space c)) (l ++ (chars " msg=\"" ++ end)))
      ≡ some (l, end)
level_and_text l end h =
    ap (λ o. level_then_text o)
      (some_of-append (λ c. not (is_space c)) l (chars " msg=\"" ++ end) h refl)
    ∙ ap (λ o. with_level l o) (eat-append (chars " msg=\"") end)

go_format-append :
    (t l end : List Char)
    → Filled (λ c. not (is_quote c)) t
    → Filled (λ c. not (is_space c)) l
    → go_format (chars "time=\"" ++ (t ++ (chars "\" level=" ++ (l ++ (chars " msg=\"" ++ end)))))
      ≡ some (l, end)
unfolding go_format
go_format-append t l end ht hl =
    let level : List Char = l ++ (chars " msg=\"" ++ end) in
    rw
      (
        eat-append (chars "time=\"") (t ++ (chars "\" level=" ++ level)),
        some_of-append (λ c. not (is_quote c)) t (chars "\" level=" ++ level) ht refl,
        eat-append (chars "\" level=") level,
      )
      (level_and_text l end hl)

short_format-letter :
    (c : Char) (s msg : List Char)
    → is_level_letter c ≡ true
    → after_letter s ≡ some msg
    → short_format (c ∷ s) ≡ some (c, msg)
unfolding short_format
short_format-letter c s msg h e = rw (h, e) refl

word-Filled : (l : Word) → IsWord l → Filled (λ c. not (is_space c)) (word l)
word-Filled info_word h = (refl, (refl, (refl, (refl, tt))))
word-Filled error_word h = (refl, (refl, (refl, (refl, (refl, tt)))))
word-Filled fatal_word h = (refl, (refl, (refl, (refl, (refl, tt)))))
word-Filled warn_word h = (refl, (refl, (refl, (refl, tt))))
word-Filled debug_word h = (refl, (refl, (refl, (refl, (refl, tt)))))
word-Filled trace_word h = (refl, (refl, (refl, (refl, (refl, tt)))))
word-Filled (other_word l) h = h.0

go_level-word : (l : Word) → IsWord l → go_level (word l) ≡ word_level l
unfolding go_level
go_level-word info_word h = refl
go_level-word error_word h = refl
go_level-word fatal_word h = refl
go_level-word warn_word h = refl
go_level-word debug_word h = refl
go_level-word trace_word h = refl
go_level-word (other_word l) (f, a, b, c, d, e, g) = rw (
  eq_false (text l) "info" a,
  eq_false (text l) "error" b,
  eq_false (text l) "fatal" c,
  eq_false (text l) "warn" d,
  eq_false (text l) "debug" e,
  eq_false (text l) "trace" g,
)

module _ (unquote : List Char → Option (List Char)) where
  -- The text that a line has: the one of logrus stands in quotes, and is taken as it is where they do
  -- not quote anything.
  abbrev pub IsText : Line → List Char → Type 0
  IsText (klog c day time gap pid msg) m = m ≡ msg
  IsText (logrus t l msg) m =
      (unquote (chars "\"" ++ (msg ++ chars "\"")) ≡ some m)
      ⊎ ((unquote (chars "\"" ++ (msg ++ chars "\"")) ≡ none) × (m ≡ msg))

  translate-letter :
      (c : Letter) (s msg : List Char)
      → after_letter s ≡ some msg
      → translate unquote (letter c ++ s) ≡ logged (letter_level c) msg
  unfolding translate short_level
  translate-letter i_letter s msg e = rw (translate, short_format-letter _ s msg refl e) refl
  translate-letter e_letter s msg e = rw (translate, short_format-letter _ s msg refl e) refl
  translate-letter f_letter s msg e = rw (translate, short_format-letter _ s msg refl e) refl
  translate-letter w_letter s msg e = rw (translate, short_format-letter _ s msg refl e) refl
  translate-letter d_letter s msg e = rw (translate, short_format-letter _ s msg refl e) refl
  translate-letter t_letter s msg e = rw (translate, short_format-letter _ s msg refl e) refl

  unquoted-IsText :
      (t msg m : List Char) (l : Word) → IsText (logrus t l msg) m → unquoted unquote msg ≡ m
  unfolding unquoted
  unquoted-IsText t msg m l (inl e) = rw (unquoted, e) refl
  unquoted-IsText t msg m l (inr (e, same)) = rw (unquoted, e) (sym same)

  -- A line that was printed in the format of klog or of logrus is logged with the level that its letter
  -- or its word stands for, and with its text, whatever that is: it may be empty, or hold quotes and
  -- spaces. (F and fatal count as errors, and a word of logrus that is none of the six as a warning. The
  -- text of logrus is the one that `strconv.Unquote` finds in the quotes, and where it finds none the
  -- text as it stands.)
  pub translate-print :
      (line : Line) (m : List Char)
      → IsPlain line
      → IsText line m
      → translate unquote (print line) ≡ logged (level_of line) m
  unfolding translate go_message short_format
  translate-print (klog c day time gap pid msg) m h e =
      translate-letter c _ msg (after_letter-klog day time gap pid msg h.0 h.1 h.2 h.3)
      ∙ ap (λ x. logged (letter_level c) x) (sym e)
  translate-print (logrus t l msg) m h e =
      ap (λ o. go_message unquote o)
        (go_format-append t (word l) (msg ++ quote_mark ∷ []) h.0 (word-Filled l h.1))
      ∙ rw (go_message, unclosed-append msg)
          (ap (λ x. logged x (unquoted unquote msg)) (go_level-word l h.1)
            ∙ ap (λ x. logged (word_level l) x) (unquoted-IsText t msg m l e))

  -- A line that ends with the opening quote of its text panics, and with it the whole program.
  translate_of_open :
      (t l : List Char)
      → Filled (λ c. not (is_quote c)) t
      → Filled (λ c. not (is_space c)) l
      → translate unquote
          (chars "time=\"" ++ (t ++ (chars "\" level=" ++ (l ++ (chars " msg=\"" ++ [])))))
        ≡ panicked
  unfolding translate go_message unclosed short_format
  translate_of_open t l ht hl = ap (λ o. go_message unquote o) (go_format-append t l [] ht hl)
