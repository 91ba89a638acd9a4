-- ===== src/Rest/Passwords/Present.antt =====
-- pkg/rest/wifipassword_rest.go: the access point's password, over any store that keeps its promises.
use kubemate.Base.{
  String, ◌≡◌, ◌∙◌, inl, inr, Option, none, some, List, [], ◌∷◌, ◌==◌, eq_iff, Option-cases,
  Bool-cases,
}
use kubemate.Resource.{Resource, ResourceType, Error}
use kubemate.Storage.Interface.{StoreOps, StoreLaws, Effect}
use kubemate.Rest.{Reply, Validate, UpdateRequest, fresh, rest_create, rest_update}
use kubemate.Rest.Keeps.{
  rest_create-Same, rest_update-present, rest_delete-elsewhere, Effect-present,
}
use kubemate.Rest.Passwords.{
  access_point_password_key, replace_password, store_password, regenerate_wifi_password, replaced,
  delete_own, password_delete,
}

module _ {S : Type 0} (T : ResourceType String) (ops : StoreOps S String) (gr : String)
    (laws : StoreLaws gr ops) where
  abbrev pub Present : S → Type 0
  Present s = (r : Resource String) × (laws.lookup s access_point_password_key ≡ some r)

  -- A regeneration puts the new password in its place, whether there was one or not, or it reports an
  -- error and has changed nothing.
  pub regenerate_password-Effect :
      (s : S) (p : String)
      → let r = regenerate_wifi_password T ops s (some p) in
        Effect
          (laws.lookup s)
          (laws.lookup r.0)
          access_point_password_key
          (λ (b : String). b ≡ p)
          r.1
  unfolding regenerate_wifi_password store_password
  regenerate_password-Effect s p = elim (Option-cases (laws.lookup s access_point_password_key)) [
    | inl free ↦
        rw (laws.get_missing s access_point_password_key (fresh T ops) free)
          (laws.create_free s access_point_password_key _ free)
    | inr (r, used) ↦
        rw (laws.get_found s access_point_password_key (fresh T ops) r used)
          (laws.update_found s access_point_password_key r r (replace_password p) used)
  ]

  replaced-Effect :
      (s : S) (p : String) (q : S × Option Error)
      → Effect
          (laws.lookup s)
          (laws.lookup q.0)
          access_point_password_key
          (λ (b : String). b ≡ p)
          q.1
      → let r = replaced T ops q in
        Effect
          (laws.lookup s)
          (laws.lookup r.state)
          access_point_password_key
          (λ (b : String). b ≡ p)
          r.err
  unfolding replaced
  replaced-Effect s p (t, e) h = h

  -- A request to delete the access point's password puts the generated one in its place, or it reports
  -- an error and has changed nothing.
  pub delete_own-Effect :
      (s : S) (validate : Validate String) (p : String)
      → Present s
      → let r = password_delete T ops s access_point_password_key validate (some p) in
        Effect
          (laws.lookup s)
          (laws.lookup r.state)
          access_point_password_key
          (λ (b : String). b ≡ p)
          r.err
  unfolding password_delete delete_own
  delete_own-Effect s validate p (r, used) =
      rw (laws.get_found s access_point_password_key (fresh T ops) r used) (
        replaced-Effect s p (regenerate_wifi_password T ops s (some p))
          (regenerate_password-Effect s p))

  pub data Request : Type 0 where
    creates :
        (Resource String → String → Option String) → Resource String → Validate String → Request
    updates : String → UpdateRequest String → Request
    deletes : String → Validate String → Option String → Request

  abbrev pub answer : S → Request → Reply S String
  answer s (creates generate obj validate) = rest_create T ops generate s obj validate
  answer s (updates key q) = rest_update T ops s key q
  answer s (deletes key validate random) = password_delete T ops s key validate random

  abbrev pub serve : S → List Request → S
  serve s [] = s
  serve s (q ∷ qs) = serve (answer s q).state qs

  replaced-Present :
      (s : S) (random : Option String)
      → Present s
      → Present (replaced T ops (regenerate_wifi_password T ops s random)).state
  unfolding regenerate_wifi_password replaced
  replaced-Present s none i = i
  replaced-Present s (some p) i =
      Effect-present T ops gr laws access_point_password_key i.0
        (replaced-Effect s p (regenerate_wifi_password T ops s (some p))
          (regenerate_password-Effect s p))
        i.1

  answer-Present : (s : S) (q : Request) → Present s → Present (answer s q).state
  unfolding password_delete delete_own
  answer-Present s (creates generate obj validate) i = (
    i.0,
    rest_create-Same T ops gr laws generate s obj i.0 validate access_point_password_key i.1 ∙ i.1,
  )
  answer-Present s (updates key q) i =
      rest_update-present T ops gr laws s key q access_point_password_key i.0 i.1
  answer-Present s (deletes key validate random) i =
      elim (Bool-cases (key == access_point_password_key)) [
        | inl e ↦
            rw
              (e, password_delete, laws.get_found s access_point_password_key (fresh T ops) i.0 i.1)
              (replaced-Present s random i)
        | inr e ↦
            rw (e, password_delete)
              (
                i.0,
                rest_delete-elsewhere T ops gr laws s key validate access_point_password_key
                      (λ k. cc ((eq_iff key access_point_password_key).1 k))
                    ∙ i.1,
              )
      ]

  -- No requests to create, update and delete take the access point's password away, whichever of them
  -- fail in the store or in the generator of passwords.
  pub serve-Present : (s : S) (qs : List Request) → Present s → Present (serve s qs)
  serve-Present s [] i = i
  serve-Present s (q ∷ qs) i = serve-Present (answer s q).state qs (answer-Present s q i)
