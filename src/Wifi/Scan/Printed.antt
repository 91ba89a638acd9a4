-- ===== src/Wifi/Scan/Printed.antt =====
-- pkg/wifi/scaniw.go: networks are read as iw prints them.
use Prim.Native.Char.{Char}
use mathlib.Core.List.{reverse_aux, reverse-reverse}
use kubemate.Base.{
  Option, none, sym, ◌==◌, ◌||◌, ltb, ◌+◌, drop, map, false, inl, inr, Bool-cases, ℕ, ◌≡◌, refl, ap,
  ◌∙◌, true, false, some, List, [], ◌∷◌, ◌++◌, leb, length, take, reverse, select, All, arith,
}
use kubemate.Wifi.Scan.Lines.{
  Printed, indented, ssid_line, country_lines, network_lines, print, IsOther, IsCountry, IsPlain,
  append_assoc, read_indented, read_mac, read_ssid, read_country, other_key,
}
use kubemate.Base.Text.{text}
use kubemate.Wifi.Scan.{
  FoundNetwork, Scan, no_scan, index_colon, add_attribute, attribute_at, then_line, parse_lines,
  is_named, filtered, parse_iw_network_scan_result,
}

add_attribute-other :
    (st : Scan) (key value : List Char)
    → (text key == "SSID") ≡ false
    → (text key == "Country") ≡ false
    → add_attribute st key value ≡ some st
unfolding add_attribute
add_attribute-other st key value a b = rw (add_attribute, a, b) refl

attribute_at-other :
    (st : Scan) (s : List Char) (o : Option ℕ)
    → IsOther s
    → index_colon s ≡ o
    → attribute_at st s o ≡ some st
unfolding attribute_at
attribute_at-other st s none h e = refl
attribute_at-other st s (some p) (a, b) e = elim (Bool-cases (ltb p 1 || leb (length s) (p + 3))) [
  | inl out ↦ rw out refl
  | inr inside ↦
      let key : leb p (length s) ≡ true = ground arith in
      let value : leb (p + 2) (length s) ≡ true = ground arith in
      rw (inside, key, value)
        (add_attribute-other st (take p s) (drop (p + 2) s) (other_key s p "SSID" e a)
          (other_key s p "Country" e b))
]

read_other :
    (ns : List FoundNetwork) (ss ls : List (List Char))
    → All IsOther ss
    → parse_lines (record { networks = ns; entry = true }) (map indented ss ++ ls)
      ≡ parse_lines (record { networks = ns; entry = true }) ls
unfolding parse_lines
read_other ns [] ls h = refl
read_other ns (s ∷ ss) ls h =
    ap (λ o. then_line o (λ t. parse_lines t (map indented ss ++ ls)))
      (read_indented ns s
        ∙ attribute_at-other (record { networks = ns; entry = true }) s (index_colon s) h.0 refl)
    ∙ read_other ns ss ls h.1

read_country_lines :
    (ns : List FoundNetwork) (n : FoundNetwork) (e : Option (List Char)) (ls : List (List Char))
    → IsCountry n.country e
    → parse_lines
        (record {
          networks = record { mac = n.mac; ssid = n.ssid; country = [] } ∷ ns;
          entry = true;
        })
        (country_lines n e ++ ls)
      ≡ parse_lines (record { networks = n ∷ ns; entry = true }) ls
unfolding parse_lines
read_country_lines ns n none ls h =
    ap
      (λ c.
        parse_lines
          (record {
            networks = record { mac = n.mac; ssid = n.ssid; country = c } ∷ ns;
            entry = true;
          })
          ls)
      (sym h)
read_country_lines ns n (some e) ls h =
    ap (λ o. then_line o (λ t. parse_lines t ls))
      (read_country ns (record { mac = n.mac; ssid = n.ssid; country = [] }) n.country e h)

read_network :
    (st : Scan) (n : Printed) (ls : List (List Char))
    → IsPlain n
    → parse_lines st (network_lines n ++ ls)
      ≡ parse_lines (record { networks = n.found ∷ st.networks; entry = true }) ls
unfolding parse_lines
read_network st n ls p =
    let m : FoundNetwork = record { mac = n.found.mac; ssid = []; country = [] } in
    let last : List (List Char) = map indented n.after in
    let late : List (List Char) = country_lines n.found n.environment ++ last in
    let middle : List (List Char) = map indented n.between ++ late in
    let parsed : Scan → List (List Char) → Option Scan = λ t l. parse_lines t l in
    let named : Scan = record {
      networks = record m { ssid = n.found.ssid } ∷ st.networks;
      entry = true;
    } in
    let whole : Scan = record { networks = n.found ∷ st.networks; entry = true } in
    ap
      (λ o.
        then_line o
          (λ t. parse_lines t ((map indented n.before ++ ssid_line n.found ∷ middle) ++ ls)))
      (read_mac st n p)
    ∙ ap (parsed (record { networks = m ∷ st.networks; entry = true }))
        (append_assoc (map indented n.before) (ssid_line n.found ∷ middle) ls)
    ∙ read_other (m ∷ st.networks) n.before (ssid_line n.found ∷ (middle ++ ls)) p.before
    ∙ ap (λ o. then_line o (λ t. parse_lines t (middle ++ ls)))
        (read_ssid st.networks m n.found p.ssid)
    ∙ ap (parsed named) (append_assoc (map indented n.between) late ls)
    ∙ read_other named.networks n.between (late ++ ls) p.between
    ∙ ap (parsed named) (append_assoc (country_lines n.found n.environment) last ls)
    ∙ read_country_lines st.networks n.found n.environment (last ++ ls) p.country
    ∙ read_other whole.networks n.after ls p.after

abbrev pub found : Printed → FoundNetwork
found n = n.found

read_networks :
    (st : Scan) (ns : List Printed)
    → All IsPlain ns
    → (t : Scan) × (parse_lines st (print ns) ≡ some t)
      × (t.networks ≡ reverse_aux (map found ns) st.networks)
unfolding parse_lines
read_networks st [] p = (st, refl, refl)
read_networks st (n ∷ ns) p =
    let (t, e, f) =
      read_networks (record { networks = n.found ∷ st.networks; entry = true }) ns p.1 in
    (t, read_network st n (print ns) p.0 ∙ e, f)

all_named : (ns : List Printed) → All IsPlain ns → select is_named (map found ns) ≡ map found ns
all_named [] p = refl
all_named (n ∷ ns) p =
    let named : is_named n.found ≡ true = ground (arith, p.0.ssid) in
    rw named (ap (λ l. n.found ∷ l) (all_named ns p.1))

-- The networks that iw prints are read again, in their order, if each has an address of 17
-- characters, a name of two characters at least and, where it prints one, a country of two. What
-- follows the address and the country on their lines, and any other indented lines around (whose
-- texts begin neither with `SSID:` nor with `Country:`) change nothing.
pub parse-print :
    (ns : List Printed)
    → All IsPlain ns
    → parse_iw_network_scan_result (print ns) ≡ some (map found ns)
unfolding parse_iw_network_scan_result
parse-print ns p =
    let (t, e, f) = read_networks no_scan ns p in
    ap filtered e
    ∙ ap some (
        ap (λ l. select is_named (reverse l)) f
        ∙ ap (select is_named) (reverse-reverse (map found ns))
        ∙ all_named ns p)
