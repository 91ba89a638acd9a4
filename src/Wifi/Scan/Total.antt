-- ===== src/Wifi/Scan/Total.antt =====
-- pkg/wifi/scaniw.go: any output is read without a panic.
use Prim.Native.Char.{Char}
use kubemate.Base.{
  arith, ℕ, ◌+◌, ◌≡◌, ◌⊎◌, refl, inl, inr, Bool, true, false, Option, none, some, List, [], ◌∷◌,
  ◌==◌, ◌&&◌, ◌||◌, not, ltb, leb, length, take, drop, reverse, select, All, if◌then◌else◌,
  Bool-cases,
}
use kubemate.Base.Text.{eat, chars, text}
use kubemate.Wifi.Scan.{
  slice_from, sliced, FoundNetwork, Scan, no_scan, has_prefix, index_colon, change_last,
  with_networks, add_attribute, attribute_at, parse_line, then_line, parse_lines, is_named,
  filtered, parse_iw_network_scan_result,
}

-- Lines are read only for a network that is there.
abbrev IsReady : Scan → Type 0
IsReady st =
    (st.entry ≡ false) ⊎ ((n : FoundNetwork) × ((ns : List FoundNetwork) × (st.networks ≡ n ∷ ns)))

-- The step has not panicked, and its state is ready.
abbrev IsRead : Option Scan → Type 0
IsRead none = ⊥
IsRead (some st) = IsReady st

change_last-IsRead :
    (st : Scan) (f : FoundNetwork → FoundNetwork) (n : FoundNetwork) (ns l : List FoundNetwork)
    → l ≡ n ∷ ns
    → IsRead (with_networks st (change_last l f))
change_last-IsRead st f n ns l e = rw e (inr (f n, (ns, refl)))

if-IsRead : (b : Bool) (o u : Option Scan) → IsRead o → IsRead u → IsRead (if b then o else u)
if-IsRead true o u x y = x
if-IsRead false o u x y = y

and_right : (a b : Bool) → (a && b) ≡ true → b ≡ true
and_right a b e = ground arith

-- The same, where the branches may use the test.
guard-IsRead :
    (b : Bool) (o u : Option Scan)
    → (b ≡ true → IsRead o)
    → (b ≡ false → IsRead u)
    → IsRead (if b then o else u)
guard-IsRead true o u x y = x refl
guard-IsRead false o u x y = y refl

-- A slice within its bounds does not panic.
sliced-IsRead :
    (b : Bool) (s : List Char) (f : List Char → Option Scan)
    → b ≡ true
    → IsRead (f s)
    → IsRead (sliced (if b then some s else none) f)
sliced-IsRead b s f e x = rw e x

within : (n p : ℕ) → (ltb p 1 || leb n (p + 3)) ≡ false → (leb p n ≡ true) × (leb (p + 2) n ≡ true)
within n p e = (ground arith, ground arith)

add_attribute-IsRead :
    (st : Scan) (key value : List Char) (n : FoundNetwork) (ns : List FoundNetwork)
    → st.networks ≡ n ∷ ns
    → IsRead (add_attribute st key value)
unfolding add_attribute
add_attribute-IsRead st key value n ns e =
    if-IsRead (text key == "SSID") _ _ (change_last-IsRead st _ n ns st.networks e) (
      guard-IsRead (text key == "Country" && leb 2 (length value)) _ (some st)
        (λ long.
          sliced-IsRead (leb 2 (length value)) (take 2 value) _ (and_right _ _ long)
            (change_last-IsRead st _ n ns st.networks e))
        (λ short. inr (n, (ns, e))))

attribute_at-IsRead :
    (st : Scan) (line : List Char) (p : Option ℕ) (n : FoundNetwork) (ns : List FoundNetwork)
    → st.networks ≡ n ∷ ns
    → IsRead (attribute_at st line p)
unfolding attribute_at
attribute_at-IsRead st line none n ns e = inr (n, (ns, e))
attribute_at-IsRead st line (some p) n ns e =
    guard-IsRead (ltb p 1 || leb (length line) (p + 3)) (some st) _ (λ out. inr (n, (ns, e)))
      (λ inside.
        let (a, b) = within (length line) p inside in
        sliced-IsRead (leb p (length line)) (take p line) _ a (
          sliced-IsRead (leb (p + 2) (length line)) (drop (p + 2) line) _ b
            (add_attribute-IsRead st (take p line) (drop (p + 2) line) n ns e)))

-- A line with an indent has one character at least.
indented :
    (line : List Char) → not (has_prefix line (chars "\t")) ≡ false → leb 1 (length line) ≡ true
unfolding eat
indented [] e = absurd cc
indented (c ∷ s) e = ground arith

parse_line-IsRead : (st : Scan) (line : List Char) → IsReady st → IsRead (parse_line st line)
unfolding parse_line
parse_line-IsRead st line x =
    guard-IsRead (has_prefix line (chars "BSS ") && leb 21 (length line)) _ _
      (λ long.
        sliced-IsRead (leb 21 (length line)) (take 17 (drop 4 line)) _ (and_right _ _ long)
          (inr (_, (st.networks, refl))))
      (λ other.
        guard-IsRead (not (has_prefix line (chars "\t"))) (some (record st { entry = false })) _
          (λ bare. inl refl) (λ tab. entry_line x (indented line tab)))
  where
    entry_line :
        IsReady st
        → leb 1 (length line) ≡ true
        → IsRead (
            if not st.entry
            then some st
            else sliced (slice_from 1 line) (λ rest. attribute_at st rest (index_colon rest)))
    entry_line (inl e) tab = rw e (inl refl)
    entry_line (inr (n, (ns, e))) tab = if-IsRead (not st.entry) (some st) _ (inr (n, (ns, e))) (
        sliced-IsRead (leb 1 (length line)) (drop 1 line) _ tab
          (attribute_at-IsRead st (drop 1 line) (index_colon (drop 1 line)) n ns e))

then_line-IsRead :
    (o : Option Scan) (f : Scan → Option Scan)
    → IsRead o
    → ((st : Scan) → IsReady st → IsRead (f st))
    → IsRead (then_line o f)
then_line-IsRead none f x k = x
then_line-IsRead (some st) f x k = k st x

parse_lines-IsRead : (st : Scan) (ls : List (List Char)) → IsReady st → IsRead (parse_lines st ls)
unfolding parse_lines
parse_lines-IsRead st [] x = x
parse_lines-IsRead st (l ∷ ls) x =
    then_line-IsRead (parse_line st l) _ (parse_line-IsRead st l x)
      (λ t y. parse_lines-IsRead t ls y)

-- What the parser returns.
pub record IsResult (ns : List FoundNetwork) (o : Option (List FoundNetwork)) : Type 0 where
  pub returned : o ≡ some ns
  pub named : All (λ n. is_named n ≡ true) ns

select-named : (ns : List FoundNetwork) → All (λ n. is_named n ≡ true) (select is_named ns)
select-named [] = tt
select-named (n ∷ ns) = elim (Bool-cases (is_named n)) [
  | inl e ↦ rw e (e, select-named ns)
  | inr e ↦ rw e (select-named ns)
]

filtered-IsResult :
    (o : Option Scan) → IsRead o → (ns : List FoundNetwork) × IsResult ns (filtered o)
filtered-IsResult none x = elim x [ ]
filtered-IsResult (some st) x = (
  select is_named (reverse st.networks),
  record { returned = refl; named = select-named (reverse st.networks) },
)

-- Whatever lines iw prints, the parser returns without a panic: no slice is out of range, and no
-- attribute is read before a network. Each network that it returns has a name.
pub parse-IsResult :
    (ls : List (List Char))
    → (ns : List FoundNetwork) × IsResult ns (parse_iw_network_scan_result ls)
unfolding parse_iw_network_scan_result
parse-IsResult ls =
    filtered-IsResult (parse_lines no_scan ls) (parse_lines-IsRead no_scan ls (inl refl))
