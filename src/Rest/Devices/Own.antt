-- ===== src/Rest/Devices/Own.antt =====
-- pkg/rest/device_rest.go: the device's own entry, over any store that keeps its promises.
use kubemate.Base.{
  String, ◌≡◌, refl, ap, ◌∙◌, inl, inr, Option, none, some, List, [], ◌∷◌, ◌==◌, Option-cases,
  Bool-cases,
}
use kubemate.Resource.{Resource, ResourceType, Error}
use kubemate.Storage.Interface.{StoreOps, StoreLaws, Effect, refused, held}
use kubemate.Rest.{Reply, UpdateRequest, fresh}
use kubemate.Rest.Keeps.{rest_update-present}
use kubemate.Rest.Devices.{
  DeviceBody, default_device, created, checked_device, new_device_store, device_update,
  device_delete,
}

module _ {S : Type 0} (T : ResourceType DeviceBody) (ops : StoreOps S DeviceBody)
    (device_name gr : String) (laws : StoreLaws gr ops) where
  abbrev pub HasDevice : S → Type 0
  HasDevice s = (r : Resource DeviceBody) × (laws.lookup s device_name ≡ some r)

  created-HasDevice :
      (s : S) (c : S × Option Error)
      → Effect
          (laws.lookup s)
          (laws.lookup c.0)
          device_name
          (λ (b : DeviceBody). b ≡ (default_device T ops device_name).body)
          c.1
      → (created T ops device_name c).1 ≡ none
      → HasDevice (created T ops device_name c).0
  unfolding created
  created-HasDevice s (t, none) (refused (e, f, same)) fine = cc
  created-HasDevice s (t, none) (held r e told there elsewhere) fine = (r, there)
  created-HasDevice s (t, some x) h fine = cc

  checked-HasDevice :
      (s : S) (p : S × Option Error)
      → p ≡ checked_device T ops device_name (ops.get s device_name (fresh T ops))
      → p.1 ≡ none
      → HasDevice p.0
  unfolding checked_device
  checked-HasDevice s p e fine = elim (Option-cases (laws.lookup s device_name)) [
    | inl free ↦
        let e' : p
            ≡ created T ops device_name (
              (ops.create s device_name (default_device T ops device_name)).state,
              (ops.create s device_name (default_device T ops device_name)).err,
            ) =
          e
          ∙ ap (checked_device T ops device_name)
              (laws.get_missing s device_name (fresh T ops) free) in
        rw e' (
          created-HasDevice s _
            (laws.create_free s device_name (default_device T ops device_name) free)
            (rw e' at fine))
    | inr (r, used) ↦
        let e' : p ≡ (s, none) =
          e
          ∙ ap (checked_device T ops device_name)
              (laws.get_found s device_name (fresh T ops) r used) in
        rw e' (r, used)
  ]

  pub data Request : Type 0 where
    updates : String → UpdateRequest DeviceBody → Request
    deletes : String → Request

  abbrev pub answer : S → Request → Reply S DeviceBody
  answer s (updates name q) = device_update T ops device_name s name q
  answer s (deletes key) = device_delete T ops device_name s key

  abbrev pub serve : S → List Request → S
  serve s [] = s
  serve s (q ∷ qs) = serve (answer s q).state qs

  answer-HasDevice : (s : S) (q : Request) → HasDevice s → HasDevice (answer s q).state
  unfolding device_update device_delete
  answer-HasDevice s (updates name q) i = elim (Bool-cases (name == device_name)) [
    | inl e ↦ rw (e, device_update) (rest_update-present T ops gr laws s name q device_name i.0 i.1)
    | inr e ↦ rw (e, device_update) i
  ]
  answer-HasDevice s (deletes key) i = i

  serve-HasDevice : (s : S) (qs : List Request) → HasDevice s → HasDevice (serve s qs)
  serve-HasDevice s [] i = i
  serve-HasDevice s (q ∷ qs) i = serve-HasDevice (answer s q).state qs (answer-HasDevice s q i)

  -- Once the device's store was opened without an error, it holds the device's own entry for ever,
  -- whatever requests to update and delete follow and whichever of them fail in the store.
  pub serve_new-HasDevice :
      (s : S) (qs : List Request)
      → (new_device_store T ops device_name s).1 ≡ none
      → HasDevice (serve (new_device_store T ops device_name s).0 qs)
  unfolding new_device_store
  serve_new-HasDevice s qs fine = serve-HasDevice _ qs (checked-HasDevice s _ refl fine)
