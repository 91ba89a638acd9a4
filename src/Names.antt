-- ===== src/Names.antt =====
-- pkg/utils/names.go: names of objects made from arbitrary text and a hash. A text is the list of its
-- characters; `strings.ToLower`, the hexadecimal SHA-256 of a text and of an object's JSON are
-- parameters. A slice out of range is a panic (none).
pub mod Valid
pub mod Examples
use Prim.Native.Char.{Char, code}
use kubemate.Base.{
  ℕ, ◌-◌, Bool, true, false, Option, none, some, List, [], ◌∷◌, ◌++◌, ◌&&◌, ◌||◌, not, ltb, leb,
  nat_eq, take, length, if◌then◌else◌,
}

abbrev pub max_resource_name_length : ℕ
max_resource_name_length = 63

abbrev pub dash : Char
dash = "-"

-- What the regular expression `[^a-z0-9]` does not match.
pub is_name_char : Char → Bool
is_name_char c = leb b'a' (code c) && leb (code c) b'z' || leb b'0' (code c) && leb (code c) b'9'

-- Each longest run of other characters is replaced by one dash; `inside` says that a run goes on.
pub replace_invalid : Bool → List Char → List Char
replace_invalid inside [] = []
replace_invalid inside (c ∷ s) =
    let rest = replace_invalid (not (is_name_char c)) s in
    if is_name_char c then c ∷ rest else if inside then rest else dash ∷ rest

abbrev pub is_dash : Char → Bool
is_dash c = nat_eq (code c) b'-'

abbrev pub is_nil : List Char → Bool
is_nil [] = true
is_nil (c ∷ s) = false

-- strings.TrimLeft(s, "-")
pub trim_left : List Char → List Char
trim_left [] = []
trim_left (c ∷ s) = if is_dash c then trim_left s else c ∷ s

pub trim_right : List Char → List Char
trim_right [] = []
trim_right (c ∷ s) = let rest = trim_right s in if is_dash c && is_nil rest then [] else c ∷ rest

-- strings.Trim(s, "-")
pub trim : List Char → List Char
trim s = trim_right (trim_left s)

-- s[:n] where the test `len(s) > n` holds.
abbrev pub cut : ℕ → List Char → List Char
cut n s = if ltb n (length s) then take n s else s

abbrev pub hash_len : ℕ
hash_len = 11

module _ (to_lower : List Char → List Char) where
  unfoldable pub truncate_name : (List Char → List Char) → List Char → ℕ → Option (List Char)
  unfolding replace_invalid trim trim_left trim_right is_name_char
  truncate_name hash name max_len =
      let cleaned = trim (replace_invalid false (to_lower name)) in
      if ltb max_len 12
      then none
      else some
          (trim (cut (max_len - 12) (cut max_len cleaned)) ++ dash ∷ take hash_len (hash name))

  -- `sum` is the hash of the object's JSON, none where it cannot be encoded (an error).
  unfoldable pub generate_object_name : Option (List Char) → List Char → Option (List Char)
  unfolding replace_invalid trim_left is_name_char
  generate_object_name none prefix = none
  generate_object_name (some sum) prefix =
      let hx = take 7 sum in
      some (cut (63 - length hx) (trim_left (replace_invalid false (to_lower prefix))) ++ hx)
