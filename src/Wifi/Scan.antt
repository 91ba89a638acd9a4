-- ===== src/Wifi/Scan.antt =====
-- pkg/wifi/scaniw.go: the networks in the output of `iw scan`. A text is the list of its bytes, and the
-- output is given by its lines, as strings.Split leaves them. The log is left out.
pub mod Total
pub mod Lines
pub mod Printed
pub mod Examples
use Prim.Native.Char.{Char, code}
use kubemate.Base.{
  ◌-◌, ℕ, zero, suc, ◌+◌, Bool, true, false, Option, none, some, List, [], ◌∷◌, ◌==◌, ◌&&◌, ◌||◌,
  not, ltb, leb, nat_eq, length, take, drop, reverse, select, is_some, if◌then◌else◌,
}
use kubemate.Base.Text.{chars, text, eat}

pub record FoundNetwork : Type 0 where
  pub mac : List Char
  pub ssid : List Char
  pub country : List Char

-- The networks so far, the last one first; `entry` says whether lines are read for it.
pub record Scan : Type 0 where
  pub networks : List FoundNetwork
  pub entry : Bool

abbrev pub no_scan : Scan
no_scan = record { networks = []; entry = false }

abbrev pub has_prefix : List Char → List Char → Bool
has_prefix s p = is_some (eat p s)

-- strings.Index(s, ":"), with none for -1.
unfoldable pub index_colon : List Char → Option ℕ
index_colon [] = none
index_colon (c ∷ s) =
    let rest = index_colon s in
    if nat_eq (code c) 58 then some 0 else elim rest [ none ↦ none | some n ↦ some (suc n) ]

-- s[n:], s[:n] and s[m:n], where none is the panic on a bound that is out of range.
abbrev pub slice_from : ℕ → List Char → Option (List Char)
slice_from n s = if leb n (length s) then some (drop n s) else none

abbrev pub slice_to : ℕ → List Char → Option (List Char)
slice_to n s = if leb n (length s) then some (take n s) else none

abbrev pub slice : ℕ → ℕ → List Char → Option (List Char)
slice m n s = if leb m n && leb n (length s) then some (take (n - m) (drop m s)) else none

-- What is done with a slice, unless it panics.
abbrev pub sliced : Option (List Char) → (List Char → Option Scan) → Option Scan
sliced none f = none
sliced (some s) f = f s

-- networks[i], where none is the panic on an empty list.
abbrev pub change_last :
    List FoundNetwork → (FoundNetwork → FoundNetwork) → Option (List FoundNetwork)
change_last [] f = none
change_last (n ∷ ns) f = some (f n ∷ ns)

abbrev pub with_networks : Scan → Option (List FoundNetwork) → Option Scan
with_networks st none = none
with_networks st (some ns) = some (record st { networks = ns })

unfoldable pub add_attribute : Scan → List Char → List Char → Option Scan
add_attribute st key value =
    if text key == "SSID"
    then with_networks st (change_last st.networks (λ n. record n { ssid = value }))
    else if text key == "Country" && leb 2 (length value)
    then sliced (slice_to 2 value)
        (λ v. with_networks st (change_last st.networks (λ n. record n { country = v })))
    else some st

pub attribute_at : Scan → List Char → Option ℕ → Option Scan
unfolding add_attribute
attribute_at st line none = some st
attribute_at st line (some p) =
    if ltb p 1 || leb (length line) (p + 3)
    then some st
    else sliced (slice_to p line)
        (λ key. sliced (slice_from (p + 2) line) (λ value. add_attribute st key value))

unfoldable pub parse_line : Scan → List Char → Option Scan
unfolding attribute_at
parse_line st line =
    if has_prefix line (chars "BSS ") && leb 21 (length line)
    then sliced (slice 4 (4 + 17) line) (λ m. some (record {
      networks = record { mac = m; ssid = []; country = [] } ∷ st.networks;
      entry = true;
    }))
    else if not (has_prefix line (chars "\t"))
    then some (record st { entry = false })
    else if not st.entry
    then some st
    else sliced (slice_from 1 line) (λ rest. attribute_at st rest (index_colon rest))

abbrev pub then_line : Option Scan → (Scan → Option Scan) → Option Scan
then_line none f = none
then_line (some st) f = f st

unfoldable pub parse_lines : Scan → List (List Char) → Option Scan
unfolding parse_line
parse_lines st [] = some st
parse_lines st (l ∷ ls) = then_line (parse_line st l) (λ t. parse_lines t ls)

abbrev pub is_named : FoundNetwork → Bool
is_named n = not (nat_eq (length n.ssid) 0)

abbrev pub filtered : Option Scan → Option (List FoundNetwork)
filtered none = none
filtered (some st) = some (select is_named (reverse st.networks))

-- parseIwNetworkScanResult; none is a panic.
unfoldable pub parse_iw_network_scan_result : List (List Char) → Option (List FoundNetwork)
unfolding parse_lines
parse_iw_network_scan_result lines = filtered (parse_lines no_scan lines)
