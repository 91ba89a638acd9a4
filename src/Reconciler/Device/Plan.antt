-- ===== src/Reconciler/Device/Plan.antt =====
-- pkg/reconciler/device/device_reconciler.go: what the reconciler makes of the device's settings (`fn`),
-- and the join token of a server, which k3s leaves in a file.
pub mod Incomplete
use Prim.Native.Char.{Char, code}
use kubemate.Base.{
  String, ◌⊎◌, inl, inr, Option, none, some, List, [], ◌∷◌, ◌==◌, not, nat_eq, if◌then◌else◌,
}
use kubemate.Base.Text.{cat, chars, text}
use kubemate.Base.Decimal.{decimal}
use kubemate.Resource.{Resource, Error, Outcome}
use kubemate.Storage.Interface.{StoreOps}
use kubemate.Reconciler.Node.{DeviceMode, server, agent}
use kubemate.Rest.Tokens.{TokenBody}
use kubemate.Reconciler.Device.{
  DeviceBody, Settings, Library, join_address, build_k3s_server_args, build_k3s_agent_args,
}

-- What `fn` makes of the device: the arguments, or the message of its error.
pub data Plan : Type 0 where
  ready : List String → Plan
  incomplete : String → Plan

abbrev pub status_message : Plan → String
status_message (ready args) = ""
status_message (incomplete e) = e

abbrev pub plan_args : Plan → List String
plan_args (ready args) = args
plan_args (incomplete e) = []

drop_newline : List Char → List Char
drop_newline [] = []
drop_newline (c ∷ []) = if nat_eq (code c) 10 then [] else c ∷ []
drop_newline (c ∷ d ∷ s) = c ∷ drop_newline (d ∷ s)

-- strings.TrimSuffix(t, "\n")
unfoldable pub trim_newline : String → String
unfolding drop_newline
trim_newline t = text (drop_newline (chars t))

unfoldable pub own_address : Settings → String
own_address c =
    let a = cat "https://" c.device_name in
    if not (nat_eq c.external_port 443) then cat a (cat ":" (decimal c.external_port)) else a

abbrev pub write_join_token :
    Error ⊎ String → Resource TokenBody → Resource TokenBody × Option Error
write_join_token (inl e) t = (t, some e)
write_join_token (inr b) t =
    (record t { body = record (t.body) { join_token = trim_newline b } }, none)

module _ {K : Type 0} (tokens : StoreOps K TokenBody) (c : Settings)
    (no_token : Resource TokenBody) where
  join_token : K → Error ⊎ String → Outcome K TokenBody → K × Option Error
  join_token k file got = elim got.err [
    | some e ↦ (got.state, some e)
    | none ↦
        if not (got.out.body.join_token == "")
        then (got.state, none)
        else (let o = tokens.update got.state c.device_name got.out (write_join_token file) in
            (o.state, o.err))
  ]

  unfoldable pub reconcile_server_token : K → Error ⊎ String → K × Option Error
  unfolding join_token
  reconcile_server_token k file = join_token k file (tokens.get k c.device_name no_token)

module _ {K : Type 0} (L : Library) (tokens : StoreOps K TokenBody) (c : Settings)
    (no_token : Resource TokenBody) where
  plan_join : K → DeviceBody → String → String ⊎ String → Plan
  plan_join k b ip (inl e) = incomplete (cat "join cluster: " e)
  plan_join k b ip (inr join) =
      ready (build_k3s_agent_args tokens c no_token k join b.join_token_name ip)

  -- `fn`, apart from the flag that it sets.
  unfoldable pub plan : K → Resource DeviceBody → DeviceMode → String → Plan
  unfolding plan_join
  plan k d server ip = ready (build_k3s_server_args tokens c no_token k d.name ip)
  plan k d agent ip =
      if d.body.server_address == ""
      then incomplete "no server specified to join"
      else if d.body.server_address == d.body.address
      then incomplete "cannot join itself"
      else if d.body.join_token_name == ""
      then incomplete "cannot join server since no join token name specified"
      else plan_join k d.body ip (join_address L d.body.server_address)
