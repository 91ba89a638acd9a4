-- ===== src/Wifi/Scan/Lines.antt =====
-- pkg/wifi/scaniw.go: what `iw scan` prints of a network, and how each kind of line is read.
use Prim.Native.Char.{Char, code}
use kubemate.Base.{
  String, Option, none, sym, subst, ◌==◌, nat_eq, map, false, inl, inr, eq_iff, Bool-cases,
  Option-cases, ℕ, zero, suc, ◌≤◌, ◌≡◌, refl, ap, ◌∙◌, true, false, some, List, [], ◌∷◌, ◌++◌, leb,
  length, take, All, length-append, arith,
}
use kubemate.Base.Text.{chars, eat, text, chars-text}
use kubemate.Wifi.Scan.{
  FoundNetwork, Scan, has_prefix, index_colon, add_attribute, attribute_at, parse_line,
}

-- What iw prints of a network: its address with the rest of that line, its name and, where it is
-- sent, its country with the rest of that line, and other indented lines, by their texts, before,
-- between and after.
pub record Printed : Type 0 where
  pub found : FoundNetwork
  pub interface : List Char
  pub before : List (List Char)
  pub between : List (List Char)
  pub environment : Option (List Char)
  pub after : List (List Char)

abbrev pub indented : List Char → List Char
indented s = chars "\t" ++ s

abbrev pub mac_line : Printed → List Char
mac_line n = chars "BSS " ++ (n.found.mac ++ n.interface)

abbrev pub ssid_line : FoundNetwork → List Char
ssid_line n = chars "\tSSID: " ++ n.ssid

abbrev pub country_lines : FoundNetwork → Option (List Char) → List (List Char)
country_lines n none = []
country_lines n (some e) = (chars "\tCountry: " ++ (n.country ++ e)) ∷ []

abbrev pub network_lines : Printed → List (List Char)
network_lines n =
    mac_line n
    ∷ (map indented n.before
        ++ ssid_line n.found
          ∷ (map indented n.between
              ++ (country_lines n.found n.environment ++ map indented n.after)))

abbrev pub print : List Printed → List (List Char)
print [] = []
print (n ∷ ns) = network_lines n ++ print ns

-- Neither a name nor a country.
abbrev pub IsOther : List Char → Type 0
IsOther s = (has_prefix s (chars "SSID:") ≡ false) × (has_prefix s (chars "Country:") ≡ false)

-- A country of two characters, or none where no line has it.
abbrev pub IsCountry : List Char → Option (List Char) → Type 0
IsCountry c none = c ≡ []
IsCountry c (some e) = length c ≡ 2

-- An address of 17 characters, a name of two at least, a country, and other lines.
pub record IsPlain (n : Printed) : Type 0 where
  pub mac : length n.found.mac ≡ 17
  pub ssid : 2 ≤ length n.found.ssid
  pub country : IsCountry n.found.country n.environment
  pub before : All IsOther n.before
  pub between : All IsOther n.between
  pub after : All IsOther n.after

take-append : (xs ys : List Char) (n : ℕ) → length xs ≡ n → take n (xs ++ ys) ≡ xs
take-append [] ys zero h = refl
take-append [] ys (suc n) h = absurd (ground arith)
take-append (x ∷ xs) ys zero h = absurd (ground arith)
take-append (x ∷ xs) ys (suc n) h = ap (λ l. x ∷ l) (take-append xs ys n (omega (arith, h)))

pub append_assoc : (a b c : List (List Char)) → ((a ++ b) ++ c) ≡ (a ++ (b ++ c))
append_assoc [] b c = refl
append_assoc (x ∷ a) b c = ap (λ l. x ∷ l) (append_assoc a b c)

-- A line of an entry goes to its attribute.
pub read_indented :
    (ns : List FoundNetwork) (s : List Char)
    → parse_line (record { networks = ns; entry = true }) (indented s)
      ≡ attribute_at (record { networks = ns; entry = true }) s (index_colon s)
unfolding parse_line eat
read_indented ns s = let long : leb 1 (length (indented s)) ≡ true = ground arith in rw long refl

pub read_mac :
    (st : Scan) (n : Printed)
    → IsPlain n
    → parse_line st (mac_line n)
      ≡ some (record {
        networks = record { mac = n.found.mac; ssid = []; country = [] } ∷ st.networks;
        entry = true;
      })
unfolding parse_line eat
read_mac st n p =
    let long : leb 21 (length (mac_line n)) ≡ true =
      ground (arith, length-append n.found.mac n.interface, p.mac) in
    rw (long, take-append n.found.mac n.interface 17 p.mac) refl

pub read_ssid :
    (ns : List FoundNetwork) (m n : FoundNetwork)
    → 2 ≤ length n.ssid
    → parse_line (record { networks = m ∷ ns; entry = true }) (ssid_line n)
      ≡ some (record { networks = record m { ssid = n.ssid } ∷ ns; entry = true })
unfolding attribute_at add_attribute index_colon eat
read_ssid ns m n p =
    let line : List Char = chars "SSID: " ++ n.ssid in
    let long : leb (length line) 7 ≡ false = ground (arith, p) in
    let key : leb 4 (length line) ≡ true = ground (arith, p) in
    let value : leb 6 (length line) ≡ true = ground (arith, p) in
    read_indented (m ∷ ns) line ∙ rw (long, key, value) refl

pub read_country :
    (ns : List FoundNetwork) (m : FoundNetwork) (c e : List Char)
    → length c ≡ 2
    → parse_line (record { networks = m ∷ ns; entry = true }) (chars "\tCountry: " ++ (c ++ e))
      ≡ some (record { networks = record m { country = c } ∷ ns; entry = true })
unfolding attribute_at add_attribute index_colon eat
read_country ns m c e p =
    let line : List Char = chars "Country: " ++ (c ++ e) in
    let long : leb (length line) 10 ≡ false = ground (arith, length-append c e, p) in
    let key : leb 7 (length line) ≡ true = ground (arith, length-append c e, p) in
    let value : leb 9 (length line) ≡ true = ground (arith, length-append c e, p) in
    let enough : leb 2 (length (c ++ e)) ≡ true = ground (arith, length-append c e, p) in
    read_indented (m ∷ ns) line ∙ rw (long, key, value, enough, take-append c e 2 p) refl

-- What stands before the first colon is a prefix with it.
has_prefix-index_colon :
    (s : List Char) (p : ℕ) → index_colon s ≡ some p → has_prefix s (take p s ++ chars ":") ≡ true
unfolding index_colon eat
has_prefix-index_colon [] p e = absurd cc
has_prefix-index_colon (c ∷ s) p e = elim (Bool-cases (nat_eq (code c) 58)) [
  | inl colon ↦
      let here : p ≡ 0 = cc (rw colon at e) in
      let flipped : nat_eq 58 (code c) ≡ true = ground arith in rw (here, flipped) refl
  | inr other ↦ elim (Option-cases (index_colon s)) [
    | inl f ↦ absurd (cc (rw (other, f) at e))
    | inr (q, f) ↦
        let here : p ≡ suc q = cc (rw (other, f) at e) in
        let same : nat_eq (code c) (code c) ≡ true = ground arith in
        rw (here, same) (has_prefix-index_colon s q f)
  ]
]

-- The key of another line is neither of the two.
pub other_key :
    (s : List Char) (p : ℕ) (k : String)
    → index_colon s ≡ some p
    → has_prefix s (chars k ++ chars ":") ≡ false
    → (text (take p s) == k) ≡ false
other_key s p k e h = elim (Bool-cases (text (take p s) == k)) [
  | inr other ↦ other
  | inl same ↦
      let key : take p s ≡ chars k =
        sym (chars-text (take p s)) ∙ ap (λ t. chars t) ((eq_iff (text (take p s)) k).0 same) in
      let found : has_prefix s (chars k ++ chars ":") ≡ true =
        subst (λ t. has_prefix s (t ++ chars ":") ≡ true) key (has_prefix-index_colon s p e) in
      absurd cc
]
