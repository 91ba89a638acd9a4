-- ===== src/Rest/Devices.antt =====
-- pkg/rest/device_rest.go and pkg/rest/device_shutdown_rest.go: the device's own entry, which is made
-- at the start, changed under the device's name only and never deleted, and the request to shut the
-- device down, which asks for a drain of its node. Whether the cluster's API answers is an argument.
pub mod Own
use kubemate.Base.{String, ◌≡◌, Bool, true, false, Option, none, some, ◌==◌, if◌then◌else◌, not}
use kubemate.Base.Dict.{put}
use kubemate.Resource.{
  Resource, ResourceType, Error, not_found, bad_request, message, wrap, is_not_found, Outcome,
}
use kubemate.Storage.Interface.{StoreOps}
use kubemate.Reconciler.Node.{DeviceMode, server, Node, drain_annotation}
use kubemate.Rest.{Reply, UpdateRequest, fresh, named, refuse, rest_update}

-- The part of a Device that the start sets.
pub record DeviceBody : Type 0 where
  pub mode : DeviceMode
  pub current : Bool
  pub state : String

module _ {S : Type 0} (T : ResourceType DeviceBody) (ops : StoreOps S DeviceBody)
    (device_name : String) where
  abbrev pub default_device : Resource DeviceBody
  default_device =
      named T ops device_name (record (fresh T ops) {
        body = record { mode = server; current = true; state = "unknown" };
      })

  created : S × Option Error → S × Option Error
  created (s, none) = (s, none)
  created (s, some e) = (s, some (wrap "create default device config" e))

  checked_device : Outcome S DeviceBody → S × Option Error
  unfolding created
  checked_device o = elim o.err [
    | none ↦ (o.state, none)
    | some e ↦
        if not (is_not_found e)
        then (o.state, some e)
        else (let c = ops.create o.state device_name default_device in created (c.state, c.err))
  ]

  unfoldable pub new_device_store : S → S × Option Error
  unfolding checked_device
  new_device_store s = checked_device (ops.get s device_name (fresh T ops))

  unfoldable pub device_update : S → String → UpdateRequest DeviceBody → Reply S DeviceBody
  device_update s name q =
      if not (name == device_name)
      then refuse s (not_found T.group_resource name)
      else rest_update T ops s name q

  -- The device store's `Delete`.
  unfoldable pub device_delete : S → String → Reply S DeviceBody
  device_delete s key = refuse s (bad_request "refusing to delete device")

  patch_drain : Node → Bool → Node × Option Error
  patch_drain n patched =
      if patched
      then (record n { annotations = put drain_annotation "true" n.annotations }, none)
      else (n, some (message "patch"))

  request_drain : Outcome S DeviceBody → Node → Bool → Bool → Node × Option Error
  unfolding patch_drain
  request_drain o n client patched = elim o.err [
    | some e ↦ (n, some e)
    | none ↦ if client then patch_drain n patched else (n, some (message "client"))
  ]

  -- `n` is the device's own node. The code refuses the request that names the device itself.
  unfoldable pub shutdown_create : S → Node → String → Bool → Bool → Node × Option Error
  unfolding request_drain
  shutdown_create s n name client patched =
      if name == device_name
      then (n, some (not_found "devices/shutdown" name))
      else request_drain (ops.get s device_name (fresh T ops)) n client patched
