-- ===== src/Rest/Tokens/Kept.antt =====
-- pkg/rest/devicetoken_rest.go: the server's own join token, over any store that keeps its promises.
use kubemate.Base.{
  String, ◌≡◌, refl, ap, sym, ◌∙◌, ◌≢◌, inl, inr, Option, none, some, List, [], ◌∷◌, All, ◌==◌,
  eq_iff, Option-cases, Bool-cases,
}
use kubemate.Resource.{Resource, ResourceType, Error}
use kubemate.Storage.Interface.{StoreOps, StoreLaws, Effect, refused, held}
use kubemate.Rest.{Reply, Validate, UpdateRequest, fresh}
use kubemate.Rest.Keeps.{rest_create-Same, rest_update-elsewhere, rest_delete-elsewhere}
use kubemate.Rest.Tokens.{
  checked_token, TokenBody, replace_token, store_token, regenerate_cluster_join_token, wrapped,
  new_device_token_rest, token_update, token_create, delete_own, token_delete,
}

module _ {B : Type 0} where
  pub Effect-map :
      {look look' : String → Option (Resource B)} {key : String} {err : Option Error}
      {Told Told' : B → Type 0}
      → ((b : B) → Told b → Told' b)
      → Effect look look' key Told err
      → Effect look look' key Told' err
  Effect-map f (refused u) = refused u
  Effect-map f (held r e told there elsewhere) = held r e (f r.body told) there elsewhere

module _ {S : Type 0} (T : ResourceType TokenBody) (ops : StoreOps S TokenBody)
    (device_name gr : String) (laws : StoreLaws gr ops) where
  -- The token stands under the device's name and is not empty.
  abbrev pub HasToken : S → Type 0
  HasToken s = (r : Resource TokenBody) × (laws.lookup s device_name ≡ some r) × (r.body.token ≢ "")

  abbrev pub Regenerated : S → String → S × Option Error → Type 0
  Regenerated s t r =
      Effect (laws.lookup s) (laws.lookup r.0) device_name (λ (b : TokenBody). b.token ≡ t) r.1

  -- A regeneration puts the new token under the device's name, whether there was one or not, or it
  -- reports an error and has changed nothing.
  pub regenerate-Effect :
      (s : S) (t : String)
      → Regenerated s t (regenerate_cluster_join_token T ops device_name s (some t))
  unfolding regenerate_cluster_join_token store_token
  regenerate-Effect s t = elim (Option-cases (laws.lookup s device_name)) [
    | inl free ↦ rw (laws.get_missing s device_name (fresh T ops) free) (
        Effect-map (λ b e. ap (λ (x : TokenBody). x.token) e)
          (laws.create_free s device_name _ free))
    | inr (r, used) ↦ rw (laws.get_found s device_name (fresh T ops) r used) (
        Effect-map (λ b e. ap (λ (x : TokenBody). x.token) e)
          (laws.update_found s device_name r r (replace_token t) used))
  ]

  Regenerated-HasToken :
      (s : S) (t : String) (r : S × Option Error)
      → t ≢ ""
      → HasToken s
      → Regenerated s t r
      → HasToken r.0
  Regenerated-HasToken s t r ne (q, h, filled) (refused (e, f, same)) =
      (q, same device_name ∙ h, filled)
  Regenerated-HasToken s t r ne i (held q e told there elsewhere) =
      (q, there, λ k. ne (sym told ∙ k))

  -- A request to the API; a deletion comes with the random string that may be needed.
  pub data Request : Type 0 where
    creates :
        (Resource TokenBody → String → Option String)
        → Resource TokenBody
        → Validate TokenBody
        → Request
    updates : String → UpdateRequest TokenBody → Request
    deletes : String → Validate TokenBody → Option String → Request

  abbrev pub answer : S → Request → Reply S TokenBody
  answer s (creates generate obj validate) = token_create T ops device_name generate s obj validate
  answer s (updates key q) = token_update T ops device_name s key q
  answer s (deletes key validate random) = token_delete T ops device_name s key validate random

  abbrev pub serve : S → List Request → S
  serve s [] = s
  serve s (q ∷ qs) = serve (answer s q).state qs

  -- No random string is empty.
  abbrev pub Filled : Request → Type 0
  Filled (deletes key validate random) = random ≢ some ""
  Filled _ = Unit

  keeps :
      (s t : S) → HasToken s → laws.lookup t device_name ≡ laws.lookup s device_name → HasToken t
  keeps s t (r, h, filled) e = (r, e ∙ h, filled)

  regenerate-HasToken :
      (s : S) (random : Option String)
      → random ≢ some ""
      → HasToken s
      → HasToken (regenerate_cluster_join_token T ops device_name s random).0
  unfolding regenerate_cluster_join_token
  regenerate-HasToken s none ne i = i
  regenerate-HasToken s (some t) ne i =
      Regenerated-HasToken s t (regenerate_cluster_join_token T ops device_name s (some t))
        (λ e. ne (ap some e)) i (regenerate-Effect s t)

  answer-HasToken : (s : S) (q : Request) → Filled q → HasToken s → HasToken (answer s q).state
  unfolding token_create token_update token_delete delete_own
  answer-HasToken s (creates generate obj validate) ok i =
      elim (Bool-cases (obj.name == device_name)) [
        | inl e ↦ rw (e, token_create) i
        | inr e ↦
            rw (e, token_create)
              (keeps s _ i
                (rest_create-Same T ops gr laws generate s obj i.0 validate device_name i.1))
      ]
  answer-HasToken s (updates key q) ok i = elim (Bool-cases (key == device_name)) [
    | inl e ↦ rw (e, token_update) i
    | inr e ↦
        rw (e, token_update)
          (keeps s _ i (
            rest_update-elsewhere T ops gr laws s key q device_name
              (λ k. cc ((eq_iff key device_name).1 k))))
  ]
  answer-HasToken s (deletes key validate random) ok i = elim (Bool-cases (key == device_name)) [
    | inl e ↦
        rw (e, token_delete, laws.get_found s device_name (fresh T ops) i.0 i.1)
          (regenerate-HasToken s random ok i)
    | inr e ↦
        rw (e, token_delete)
          (keeps s _ i (
            rest_delete-elsewhere T ops gr laws s key validate device_name
              (λ k. cc ((eq_iff key device_name).1 k))))
  ]

  serve-HasToken : (s : S) (qs : List Request) → All Filled qs → HasToken s → HasToken (serve s qs)
  serve-HasToken s [] ok i = i
  serve-HasToken s (q ∷ qs) ok i =
      serve-HasToken (answer s q).state qs ok.1 (answer-HasToken s q ok.0 i)

  wrapped-fine :
      (p : S × Option Error)
      → (wrapped T ops device_name p).1 ≡ none
      → (p.1 ≡ none) × ((wrapped T ops device_name p).0 ≡ p.0)
  unfolding wrapped
  wrapped-fine (s, none) e = (refl, refl)
  wrapped-fine (s, some x) e = cc

  Regenerated-fine :
      (s : S) (t : String) (r : S × Option Error)
      → t ≢ ""
      → Regenerated s t r
      → r.1 ≡ none
      → HasToken r.0
  Regenerated-fine s t r ne (refused (e, f, same)) fine = cc
  Regenerated-fine s t r ne (held q e told there elsewhere) fine =
      (q, there, λ k. ne (sym told ∙ k))

  start-HasToken :
      (s : S) (t : String)
      → t ≢ ""
      → (wrapped T ops device_name (regenerate_cluster_join_token T ops device_name s (some t))).1
        ≡ none
      → HasToken
          (wrapped T ops device_name (regenerate_cluster_join_token T ops device_name s (some t))).0
  start-HasToken s t ne fine =
      let (e, same) = wrapped-fine _ fine in
      rw same (
        Regenerated-fine s t (regenerate_cluster_join_token T ops device_name s (some t)) ne
          (regenerate-Effect s t) e)

  started-HasToken :
      (s : S) (t : String) (p : S × Option Error)
      → t ≢ ""
      → p ≡ wrapped T ops device_name (regenerate_cluster_join_token T ops device_name s (some t))
      → p.1 ≡ none
      → HasToken p.0
  started-HasToken s t p ne e fine = rw e (start-HasToken s t ne (rw e at fine))

  present-HasToken :
      (s : S) (t : String) (r : Resource TokenBody)
      → laws.lookup s device_name ≡ some r
      → t ≢ ""
      → (p : S × Option Error) → p.1 ≡ none
      → p ≡ checked_token T ops device_name (some t) (record { state = s; out = r; err = none })
      → HasToken p.0
  unfolding checked_token
  present-HasToken s t r used ne p fine e = elim (Bool-cases (r.body.token == "")) [
    | inl empty ↦ started-HasToken s t p ne (rw empty at e) fine
    | inr filled ↦ rw (rw filled at e) (r, used, λ k. cc ((eq_iff r.body.token "").1 k))
  ]

  new-HasToken :
      (s : S) (t : String)
      → t ≢ ""
      → (new_device_token_rest T ops device_name s (some t)).1 ≡ none
      → HasToken (new_device_token_rest T ops device_name s (some t)).0
  unfolding new_device_token_rest checked_token
  new-HasToken s t ne fine = elim (Option-cases (laws.lookup s device_name)) [
    | inl free ↦
        started-HasToken s t _ ne
          (ap (checked_token T ops device_name (some t))
            (laws.get_missing s device_name (fresh T ops) free))
          fine
    | inr (r, used) ↦ present-HasToken s t r used ne _ fine (
        ap (checked_token T ops device_name (some t))
          (laws.get_found s device_name (fresh T ops) r used))
  ]

  -- Once the server has started without an error, it has a join token for ever: whatever requests to
  -- create, update and delete follow, and whichever of them fail in the store, a token that is not
  -- empty stands under the server's name (no random string being empty).
  pub serve_new-HasToken :
      (s : S) (t : String) (qs : List Request)
      → t ≢ ""
      → (new_device_token_rest T ops device_name s (some t)).1 ≡ none
      → All Filled qs
      → HasToken (serve (new_device_token_rest T ops device_name s (some t)).0 qs)
  serve_new-HasToken s t qs ne fine ok = serve-HasToken _ qs ok (new-HasToken s t ne fine)
