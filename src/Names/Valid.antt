-- ===== src/Names/Valid.antt =====
-- pkg/utils/names.go: the names are short enough and hold no other character than an object's name may.
use Prim.Native.Char.{Char}
use kubemate.Base.{
  ◌∙◌, ap, ℕ, ◌-◌, ◌≤◌, ◌≡◌, refl, inl, inr, Bool, true, false, some, List, [], ◌∷◌, ◌++◌, ◌&&◌,
  ◌||◌, not, ltb, take, length, length-append, length-take, All, All-append, All-take, arith,
  Bool-cases,
}
use kubemate.Names.{
  dash, is_name_char, replace_invalid, is_dash, is_nil, trim_left, trim_right, trim, cut,
  truncate_name, generate_object_name,
}

-- A letter, a digit or a dash.
abbrev pub Valid : Char → Type 0
Valid c = (is_name_char c || is_dash c) ≡ true

replace_invalid-Valid : (b : Bool) (s : List Char) → All Valid (replace_invalid b s)
unfolding replace_invalid
replace_invalid-Valid b [] = tt
replace_invalid-Valid b (c ∷ s) =
    let ih = replace_invalid-Valid (not (is_name_char c)) s in
    elim (Bool-cases (is_name_char c)) [
      | inl e ↦ rw (e, replace_invalid) (rw e refl, rw e at ih)
      | inr e ↦ elim (Bool-cases b) [
        | inl i ↦ rw (e, i, replace_invalid) (rw e at ih)
        | inr i ↦ rw (e, i, replace_invalid) (dash_valid, rw e at ih)
      ]
    ]
  where
    dash_valid : Valid dash
    dash_valid = ground arith

trim_left-All : (P : Char → Type 0) (s : List Char) → All P s → All P (trim_left s)
unfolding trim_left
trim_left-All P [] h = tt
trim_left-All P (c ∷ s) h = elim (Bool-cases (is_dash c)) [
  | inl e ↦ rw (e, trim_left) (trim_left-All P s h.1)
  | inr e ↦ rw (e, trim_left) h
]

trim_right-All : (P : Char → Type 0) (s : List Char) → All P s → All P (trim_right s)
unfolding trim_right
trim_right-All P [] h = tt
trim_right-All P (c ∷ s) h = elim (Bool-cases (is_dash c && is_nil (trim_right s))) [
  | inl e ↦ rw (e, trim_right) tt
  | inr e ↦ rw (e, trim_right) (h.0, trim_right-All P s h.1)
]

trim-All : (P : Char → Type 0) (s : List Char) → All P s → All P (trim s)
unfolding trim
trim-All P s h = trim_right-All P (trim_left s) (trim_left-All P s h)

length-trim_left : (s : List Char) → length (trim_left s) ≤ length s
unfolding trim_left
length-trim_left [] = omega arith
length-trim_left (c ∷ s) = ground (arith, length-trim_left s)

length-trim_right : (s : List Char) → length (trim_right s) ≤ length s
unfolding trim_right
length-trim_right [] = omega arith
length-trim_right (c ∷ s) = ground (arith, length-trim_right s)

length-trim : (s : List Char) → length (trim s) ≤ length s
unfolding trim
length-trim s = omega (arith, length-trim_right (trim_left s), length-trim_left s)

length-cut : (n : ℕ) (s : List Char) → length (cut n s) ≤ n
length-cut n s = ground (arith, length-take n s)

cut-All : (P : Char → Type 0) (n : ℕ) (s : List Char) → All P s → All P (cut n s)
cut-All P n s h = elim (Bool-cases (ltb n (length s))) [
  | inl e ↦ rw e (All-take P n s h)
  | inr e ↦ rw e h
]

module _ (to_lower : List Char → List Char) where
  -- A truncated name is at most as long as is asked for, and holds letters, digits and dashes only, if
  -- room for the hash and its dash is asked for and the hash holds only such characters.
  pub truncate_name-Valid :
      (hash : List Char → List Char) (name : List Char) (max_len : ℕ)
      → 12 ≤ max_len
      → All Valid (hash name)
      → (r : List Char) × (truncate_name to_lower hash name max_len ≡ some r)
        × (length r ≤ max_len)
        × All Valid r
  unfolding truncate_name
  truncate_name-Valid hash name max_len room valid =
      let cleaned = trim (replace_invalid false (to_lower name)) in
      let body = trim (cut (max_len - 12) (cut max_len cleaned)) in
      let short : length body ≤ max_len - 12 = omega (
        arith,
        length-trim (cut (max_len - 12) (cut max_len cleaned)),
        length-cut (max_len - 12) (cut max_len cleaned),
      ) in
      let fits : ltb max_len 12 ≡ false = ground arith in
      (
        body ++ dash ∷ take 11 (hash name),
        rw (fits, truncate_name) refl,
        omega (arith, length-append body (dash ∷ take 11 (hash name)), length-take 11 (hash name)),
        All-append Valid body _
            (trim-All Valid _ (
              cut-All Valid (max_len - 12) _ (
                cut-All Valid max_len cleaned
                  (trim-All Valid _ (replace_invalid-Valid false (to_lower name))))))
            (dash_valid, All-take Valid 11 (hash name) valid),
      )
    where
      dash_valid : Valid dash
      dash_valid = ground arith

  -- A generated name has at most 63 characters, all of them letters, digits and dashes, if the hash
  -- holds only such characters.
  pub generate_object_name-Valid :
      (sum prefix : List Char)
      → All Valid sum
      → (r : List Char) × (generate_object_name to_lower (some sum) prefix ≡ some r)
        × (length r ≤ 63)
        × All Valid r
  unfolding generate_object_name
  generate_object_name-Valid sum prefix valid =
      let hx = take 7 sum in
      let cleaned = trim_left (replace_invalid false (to_lower prefix)) in
      (
        cut (63 - length hx) cleaned ++ hx,
        refl,
        omega (
          arith,
          length-append (cut (63 - length hx) cleaned) hx,
          length-cut (63 - length hx) cleaned,
          length-take 7 sum,
        ),
        All-append Valid (cut (63 - length hx) cleaned) hx
            (cut-All Valid (63 - length hx) cleaned
              (trim_left-All Valid _ (replace_invalid-Valid false (to_lower prefix))))
            (All-take Valid 7 sum valid),
      )

  only_dash :
      (b : Bool) (s : List Char)
      → All (λ c. is_name_char c ≡ false) s
      → trim_left (replace_invalid b s) ≡ []
  unfolding replace_invalid trim_left
  only_dash b [] h = refl
  only_dash true (c ∷ s) h = rw (h.0, replace_invalid) (only_dash true s h.1)
  only_dash false (c ∷ s) h = rw (h.0, replace_invalid, trim_left) (only_dash true s h.1)

  -- A text without a letter or a digit is given a name that starts with a dash, which Kubernetes refuses.
  pub truncate_name_of_other :
      (hash : List Char → List Char) (name : List Char) (max_len : ℕ)
      → 12 ≤ max_len
      → All (λ c. is_name_char c ≡ false) (to_lower name)
      → truncate_name to_lower hash name max_len ≡ some (dash ∷ take 11 (hash name))
  unfolding truncate_name trim trim_left trim_right
  truncate_name_of_other hash name max_len room h =
      let fits : ltb max_len 12 ≡ false = ground arith in
      rw (fits, truncate_name)
        (ap
            (λ s. some (
              trim (cut (max_len - 12) (cut max_len (trim_right s))) ++ dash ∷ take 11 (hash name)))
            (only_dash false (to_lower name) h)
          ∙ ap (λ s. some (trim s ++ dash ∷ take 11 (hash name))) (cut-nil (max_len - 12) max_len))
    where
      cut-nil : (a b : ℕ) → cut a (cut b []) ≡ []
      cut-nil a b = ground arith
