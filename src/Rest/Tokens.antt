-- ===== src/Rest/Tokens.antt =====
-- pkg/rest/devicetoken_rest.go: the tokens by which devices join a cluster. The server keeps one of its
-- own, which the API may neither create nor change; a request to delete it replaces it. A random
-- string (pkg/tokengen) is an argument, none where its generation fails.
pub mod Kept
use kubemate.Base.{String, ◌≡◌, Bool, true, false, Option, none, some, ◌==◌, if◌then◌else◌, not}
use kubemate.Resource.{Resource, ResourceType, Error, message, wrap, is_not_found, Outcome}
use kubemate.Storage.Interface.{StoreOps}
use kubemate.Rest.{
  Reply, Validate, UpdateRequest, fresh, refuse, reply, rest_create, rest_update, rest_delete,
}

-- Data.Token and Status.JoinToken of a DeviceToken.
pub record TokenBody : Type 0 where
  pub token : String
  pub join_token : String

abbrev pub token_of : String → TokenBody
token_of t = record { token = t; join_token = "" }

-- The closure by which the token is replaced.
abbrev pub replace_token : String → Resource TokenBody → Resource TokenBody × Option Error
replace_token t r = (record r { body = token_of t }, none)

module _ {S : Type 0} (T : ResourceType TokenBody) (ops : StoreOps S TokenBody)
    (device_name : String) where
  store_token : S → String → Outcome S TokenBody → S × Option Error
  store_token s t o = elim o.err [
    | none ↦ (let u = ops.update o.state device_name o.out (replace_token t) in (u.state, u.err))
    | some e ↦
        if not (is_not_found e)
        then (o.state, some e)
        else (let c =
              ops.create o.state device_name
                (record (o.out) { body = record (o.out.body) { token = t } }) in
            (c.state, c.err))
  ]

  unfoldable pub regenerate_cluster_join_token : S → Option String → S × Option Error
  unfolding store_token
  regenerate_cluster_join_token s none = (s, some (message "random"))
  regenerate_cluster_join_token s (some t) = store_token s t (ops.get s device_name (fresh T ops))

  wrapped : S × Option Error → S × Option Error
  wrapped (s, none) = (s, none)
  wrapped (s, some e) = (s, some (wrap "generate cluster join token" e))

  checked_token : Option String → Outcome S TokenBody → S × Option Error
  unfolding wrapped
  checked_token random o = elim o.err [
    | none ↦
        if o.out.body.token == ""
        then wrapped (regenerate_cluster_join_token o.state random)
        else (o.state, none)
    | some e ↦
        if not (is_not_found e)
        then (o.state, some e)
        else wrapped (regenerate_cluster_join_token o.state random)
  ]

  -- The start, once the store is there.
  unfoldable pub new_device_token_rest : S → Option String → S × Option Error
  unfolding checked_token
  new_device_token_rest s random = checked_token random (ops.get s device_name (fresh T ops))

  unfoldable pub token_update : S → String → UpdateRequest TokenBody → Reply S TokenBody
  token_update s key q =
      if key == device_name
      then refuse s (message "refusing to update cluster join token on the server manually")
      else rest_update T ops s key q

  unfoldable pub token_create :
      (Resource TokenBody → String → Option String)
      → S
      → Resource TokenBody
      → Validate TokenBody
      → Reply S TokenBody
  token_create generate s obj validate =
      if obj.name == device_name
      then refuse s (message "refusing to create cluster join token on the server manually")
      else rest_create T ops generate s obj validate

  -- A failed regeneration is not reported.
  delete_own : Option String → Outcome S TokenBody → Reply S TokenBody
  delete_own random o = elim o.err [
    | some e ↦ refuse (o.state) e
    | none ↦ record {
      state = (regenerate_cluster_join_token o.state random).0;
      object = none;
      err = none;
    }
  ]

  unfoldable pub token_delete : S → String → Validate TokenBody → Option String → Reply S TokenBody
  unfolding delete_own
  token_delete s key validate random =
      if key == device_name
      then delete_own random (ops.get s device_name (fresh T ops))
      else rest_delete T ops s key validate
