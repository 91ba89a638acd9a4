-- ===== src/Authorizer/Allowed.antt =====
-- pkg/apiserver/authorizer.go: what is allowed.
use mathlib.Core.List.{Memᴰ}
use kubemate.Base.{
  String, ◌≡◌, ◌≢◌, ◌↔◌, refl, sym, inl, inr, Bool, true, false, List, [], ◌∷◌, ◌==◌, ◌&&◌,
  Bool-cases, arith, eq_iff,
}
use kubemate.Authorizer.{
  Attributes, allow, group, admin_group, read_only_verbs, contains, authorize,
}

contains_found : (l : List String) (item : String) → contains l item ≡ true → Memᴰ item l
unfolding contains
contains_found [] item h = cc
contains_found (s ∷ l) item h = elim (Bool-cases (s == item)) [
  | inl e ↦ Memᴰ.head (sym ((eq_iff s item).0 e))
  | inr e ↦ Memᴰ.tail (contains_found l item (rw (contains, e) at h))
]

contains_listed : (l : List String) (item : String) → Memᴰ item l → contains l item ≡ true
unfolding contains
contains_listed [] item d = elim d [ ]
contains_listed (s ∷ l) item (Memᴰ.head e) = rw (contains, (eq_iff s item).1 (sym e)) refl
contains_listed (s ∷ l) item (Memᴰ.tail d) = ground (arith, contains_listed l item d)

-- Who may act by the device's API.
pub data IsAllowed (anonymous : String) (a : Attributes) : Type 0 where
  elsewhere : a.api_group ≢ group → IsAllowed anonymous a
  by_admin : Memᴰ admin_group a.groups → IsAllowed anonymous a
  by_reader :
      a.user ≡ anonymous
      → a.resource ≡ "devicediscovery"
      → Memᴰ a.verb read_only_verbs
      → IsAllowed anonymous a

module _ (anonymous : String) where
  is_reader : Attributes → Bool
  is_reader a =
      a.user == anonymous
      && (a.api_group == group && a.resource == "devicediscovery")
      && contains read_only_verbs a.verb

  authorize-IsAllowed : (a : Attributes) → authorize anonymous a ≡ allow → IsAllowed anonymous a
  unfolding authorize is_reader
  authorize-IsAllowed a h = elim (Bool-cases (a.api_group == group)) [
    | inr other ↦ elsewhere (λ e. ground (arith, eq_iff a.api_group group, e, other))
    | inl own ↦ elim (Bool-cases (contains a.groups admin_group)) [
      | inl admin ↦ by_admin (contains_found a.groups admin_group admin)
      | inr user ↦ elim (Bool-cases (is_reader a)) [
        | inl reads ↦
            by_reader ((eq_iff a.user anonymous).0 (ground arith))
              ((eq_iff a.resource "devicediscovery").0 (ground arith))
              (contains_found read_only_verbs a.verb (ground arith))
        | inr stays ↦ absurd (ground arith)
      ]
    ]
  ]

  authorize_grants : (a : Attributes) → IsAllowed anonymous a → authorize anonymous a ≡ allow
  unfolding authorize
  authorize_grants a (elsewhere n) =
      let other : (a.api_group == group) ≡ false = ground (arith, eq_iff a.api_group group, n) in
      rw (authorize, other) refl
  authorize_grants a (by_admin d) =
      let admin = contains_listed a.groups admin_group d in
      elim (Bool-cases (a.api_group == group)) [
        | inl own ↦ rw (authorize, own, admin) refl
        | inr other ↦ rw (authorize, other) refl
      ]
  authorize_grants a (by_reader u r v) =
      let verb = contains_listed read_only_verbs a.verb v in
      elim (Bool-cases (a.api_group == group)) [
        | inl own ↦ ground (
          arith,
          verb,
          own,
          (eq_iff a.user anonymous).1 u,
          (eq_iff a.resource "devicediscovery").1 r,
        )
        | inr other ↦ rw (authorize, other) refl
      ]

  -- A request is allowed exactly if it is not for the device's API group, or an administrator makes it,
  -- or the anonymous user reads the discovered devices.
  pub authorize_iff : (a : Attributes) → (authorize anonymous a ≡ allow) ↔ IsAllowed anonymous a
  authorize_iff a = (authorize-IsAllowed a, authorize_grants a)
