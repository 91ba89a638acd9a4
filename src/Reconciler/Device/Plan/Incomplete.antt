-- ===== src/Reconciler/Device/Plan/Incomplete.antt =====
-- pkg/reconciler/device/device_reconciler.go: an agent that cannot join.
use kubemate.Base.{arith, String, ◌≡◌, ◌≢◌, arith, inl, inr, false, ◌==◌, Bool-cases, eq_iff}
use kubemate.Resource.{Resource}
use kubemate.Storage.Interface.{StoreOps}
use kubemate.Reconciler.Node.{agent}
use kubemate.Rest.Tokens.{TokenBody}
use kubemate.Reconciler.Device.{DeviceBody, Settings, Library, join_address}
use kubemate.Reconciler.Device.Plan.{Plan, ready, incomplete, plan_join, plan}

-- An agent whose settings do not say which server it joins, or by which token.
pub data CannotJoin (L : Library) (b : DeviceBody) : Type 0 where
  no_server : b.server_address ≡ "" → CannotJoin L b
  itself : b.server_address ≡ b.address → CannotJoin L b
  no_token_name : b.join_token_name ≡ "" → CannotJoin L b
  bad_address : (e : String) → L.hostname b.server_address ≡ inl e → CannotJoin L b

-- The plan is an error.
abbrev pub IsIncomplete : Plan → Type 0
IsIncomplete (ready args) = ⊥
IsIncomplete (incomplete e) = Unit

different : (s t : String) → (s == t) ≡ false → s ≢ t
different s t h e = ground (arith, eq_iff s t)

module _ {K : Type 0} (L : Library) (tokens : StoreOps K TokenBody) (c : Settings)
    (no_token : Resource TokenBody) where
  pub plan-IsIncomplete :
      (k : K) (d : Resource DeviceBody) (ip : String)
      → CannotJoin L d.body
      → IsIncomplete (plan L tokens c no_token k d agent ip)
  unfolding plan plan_join join_address
  plan-IsIncomplete k d ip h = elim (Bool-cases (d.body.server_address == "")) [
    | inl a ↦ rw (plan, a) tt
    | inr a ↦ elim (Bool-cases (d.body.server_address == d.body.address)) [
      | inl b ↦ rw (plan, a, b) tt
      | inr b ↦ elim (Bool-cases (d.body.join_token_name == "")) [
        | inl t ↦ rw (plan, a, b, t) tt
        | inr t ↦ elim h [
          | no_server f ↦ absurd (different _ "" a f)
          | itself f ↦ absurd (different _ d.body.address b f)
          | no_token_name f ↦ absurd (different _ "" t f)
          | bad_address e f ↦ rw (plan, a, b, t, join_address, f) tt
        ]
      ]
    ]
  ]
