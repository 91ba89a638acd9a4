-- ===== src/Rest/Keeps.antt =====
-- pkg/rest/rest.go: which items a request leaves alone, over any store that keeps its promises.
use kubemate.Base.{
  String, ◌≡◌, refl, ap, sym, ◌∙◌, ◌≢◌, ◌⊎◌, inl, inr, Option, none, some, ◌==◌, eq_iff,
  Option-cases, Bool-cases,
}
use kubemate.Resource.{Resource, ResourceType, Error, Outcome}
use kubemate.Storage.Interface.{StoreOps, StoreLaws, Effect, refused, held}
use kubemate.Rest.{
  Validate, UpdateRequest, fresh, named, reply, reply_or_error, modify, rest_create, create_named,
  create_generated, create_validated, rest_update, rest_delete,
}

module _ {S B : Type 0} where
  reply-state : (o : Outcome S B) → (reply o).state ≡ o.state
  unfolding reply reply_or_error
  reply-state o = elim (Option-cases o.err) [
    | inl e ↦ rw (e, reply_or_error) refl
    | inr (x, e) ↦ rw (e, reply_or_error) refl
  ]

module _ {S B : Type 0} (T : ResourceType B) (ops : StoreOps S B) (gr : String)
    (laws : StoreLaws gr ops) where
  -- The two stores have the same item at the key.
  abbrev pub Same : String → S → S → Type 0
  Same k s t = laws.lookup t k ≡ laws.lookup s k

  pub Effect-elsewhere :
      {s t : S} {key : String} {Told : B → Type 0} {err : Option Error} (k : String)
      → Effect (laws.lookup s) (laws.lookup t) key Told err
      → key ≢ k
      → Same k s t
  Effect-elsewhere k (refused (e, f, same)) ne = same k
  Effect-elsewhere k (held r f told there elsewhere) ne = elsewhere k ne

  create-Same :
      (s : S) (key : String) (o r : Resource B) (k : String)
      → laws.lookup s k ≡ some r
      → Same k s (ops.create s key o).state
  create-Same s key o r k h = elim (Option-cases (laws.lookup s key)) [
    | inl free ↦ Effect-elsewhere k (laws.create_free s key o free) (λ e. cc (ap (laws.lookup s) e))
    | inr (q, used) ↦ (laws.create_used s key o q used).2 k
  ]

  create_named-Same :
      (s : S) (o r : Resource B) (k : String)
      → laws.lookup s k ≡ some r
      → Same k s (create_named T ops s o).state
  unfolding create_named reply
  create_named-Same s o r k h = elim (Bool-cases (o.name == "")) [
    | inl e ↦ rw (e, create_named) refl
    | inr e ↦
        rw (e, create_named)
          (ap (λ t. laws.lookup t k) (reply-state (ops.create s o.name o))
            ∙ create-Same s o.name o r k h)
  ]

  create_generated-Same :
      (s : S) (o r : Resource B) (name : Option String) (k : String)
      → laws.lookup s k ≡ some r
      → Same k s (create_generated T ops s o name).state
  unfolding create_generated
  create_generated-Same s o r none k h = refl
  create_generated-Same s o r (some name) k h = create_named-Same s (named T ops name o) r k h

  create_validated-Same :
      (generate : Resource B → String → Option String) (s : S) (o r : Resource B) (e : Option Error)
      (k : String)
      → laws.lookup s k ≡ some r
      → Same k s (create_validated T ops generate s o e).state
  unfolding create_validated
  create_validated-Same generate s o r (some e) k h = refl
  create_validated-Same generate s o r none k h = elim (Bool-cases (o.generate_name == "")) [
    | inl e ↦ rw (e, create_validated) (create_named-Same s o r k h)
    | inr e ↦
        rw (e, create_validated) (create_generated-Same s o r (generate o o.generate_name) k h)
  ]

  -- A request to create leaves every object alone that is there, whatever name it asks for or has
  -- generated.
  pub rest_create-Same :
      (generate : Resource B → String → Option String) (s : S) (o r : Resource B)
      (validate : Validate B) (k : String)
      → laws.lookup s k ≡ some r
      → Same k s (rest_create T ops generate s o validate).state
  unfolding rest_create
  rest_create-Same generate s o r validate k h =
      create_validated-Same generate s o r (validate o) k h

  pub update-elsewhere :
      (s : S) (key : String) (o : Resource B) (f : Resource B → Resource B × Option Error)
      (k : String)
      → key ≢ k
      → Same k s (ops.update s key o f).state
  update-elsewhere s key o f k ne = elim (Option-cases (laws.lookup s key)) [
    | inl free ↦ (laws.update_missing s key o f free).2 k
    | inr (q, used) ↦ Effect-elsewhere k (laws.update_found s key o q f used) ne
  ]

  pub rest_update-elsewhere :
      (s : S) (key : String) (q : UpdateRequest B) (k : String)
      → key ≢ k
      → Same k s (rest_update T ops s key q).state
  unfolding rest_update reply
  rest_update-elsewhere s key q k ne =
      ap (λ t. laws.lookup t k) (reply-state (ops.update s key (fresh T ops) (modify q)))
      ∙ update-elsewhere s key (fresh T ops) (modify q) k ne

  pub Effect-present :
      {s t : S} {key : String} {Told : B → Type 0} {err : Option Error} (k : String)
      (r : Resource B)
      → Effect (laws.lookup s) (laws.lookup t) key Told err
      → laws.lookup s k ≡ some r
      → (q : Resource B) × (laws.lookup t k ≡ some q)
  Effect-present {key = key} k r (refused (e, f, same)) h = (r, same k ∙ h)
  Effect-present {t = t} {key = key} k r (held q f told there elsewhere) h =
      elim (Bool-cases (key == k)) [
        | inl e ↦ (q, ap (laws.lookup t) (sym ((eq_iff key k).0 e)) ∙ there)
        | inr e ↦ (r, elsewhere k (λ p. cc ((eq_iff key k).1 p)) ∙ h)
      ]

  -- A request to update removes no object.
  pub rest_update-present :
      (s : S) (key : String) (q : UpdateRequest B) (k : String) (r : Resource B)
      → laws.lookup s k ≡ some r
      → (r' : Resource B) × (laws.lookup (rest_update T ops s key q).state k ≡ some r')
  unfolding rest_update reply
  rest_update-present s key q k r h = elim (Option-cases (laws.lookup s key)) [
    | inl free ↦ (
      r,
      ap (λ t. laws.lookup t k) (reply-state (ops.update s key (fresh T ops) (modify q)))
          ∙ (laws.update_missing s key (fresh T ops) (modify q) free).2 k
          ∙ h,
    )
    | inr (old, used) ↦
        let (r', e) =
          Effect-present k r (laws.update_found s key (fresh T ops) old (modify q) used) h in
        (
          r',
          ap (λ t. laws.lookup t k) (reply-state (ops.update s key (fresh T ops) (modify q))) ∙ e,
        )
  ]

  pub rest_delete-elsewhere :
      (s : S) (key : String) (validate : Validate B) (k : String)
      → key ≢ k
      → Same k s (rest_delete T ops s key validate).state
  unfolding rest_delete reply
  rest_delete-elsewhere s key validate k ne =
      ap (λ t. laws.lookup t k) (reply-state (ops.delete s key (fresh T ops) validate))
      ∙ laws.delete_elsewhere s key (fresh T ops) validate k ne

  -- Nothing has changed at the key, or an object with the body stands there now.
  abbrev pub Told : B → String → S → S → Type 0
  Told b k s t = Same k s t ⊎ ((r : Resource B) × (laws.lookup t k ≡ some r) × (r.body ≡ b))

  Effect-Told :
      {s t : S} {key : String} {err : Option Error} (b : B) (k : String)
      → Effect (laws.lookup s) (laws.lookup t) key (λ x. x ≡ b) err
      → Told b k s t
  Effect-Told b k (refused (e, f, same)) = inl (same k)
  Effect-Told {t = t} {key = key} b k (held r f told there elsewhere) =
      elim (Bool-cases (key == k)) [
        | inl e ↦ inr (r, ap (laws.lookup t) (sym ((eq_iff key k).0 e)) ∙ there, told)
        | inr e ↦ inl (elsewhere k (λ p. cc ((eq_iff key k).1 p)))
      ]

  create-Told :
      (s : S) (key : String) (o : Resource B) (k : String)
      → Told o.body k s (ops.create s key o).state
  create-Told s key o k = elim (Option-cases (laws.lookup s key)) [
    | inl free ↦ Effect-Told o.body k (laws.create_free s key o free)
    | inr (q, used) ↦ inl ((laws.create_used s key o q used).2 k)
  ]

  create_named-Told :
      (s : S) (o : Resource B) (k : String) → Told o.body k s (create_named T ops s o).state
  unfolding create_named
  create_named-Told s o k = elim (Bool-cases (o.name == "")) [
    | inl e ↦ rw (e, create_named) (inl refl)
    | inr e ↦ rw (e, create_named, reply-state (ops.create s o.name o)) (create-Told s o.name o k)
  ]

  create_generated-Told :
      (s : S) (o : Resource B) (name : Option String) (k : String)
      → Told o.body k s (create_generated T ops s o name).state
  unfolding create_generated
  create_generated-Told s o none k = inl refl
  create_generated-Told s o (some name) k = create_named-Told s (named T ops name o) k

  create_validated-Told :
      (generate : Resource B → String → Option String) (s : S) (o : Resource B) (e : Option Error)
      (k : String)
      → Told o.body k s (create_validated T ops generate s o e).state
  unfolding create_validated
  create_validated-Told generate s o (some e) k = inl refl
  create_validated-Told generate s o none k = elim (Bool-cases (o.generate_name == "")) [
    | inl e ↦ rw (e, create_validated) (create_named-Told s o k)
    | inr e ↦ rw (e, create_validated) (create_generated-Told s o (generate o o.generate_name) k)
  ]

  -- A request to create leaves a key as it is, or puts an object with the requested body there.
  pub rest_create-Told :
      (generate : Resource B → String → Option String) (s : S) (o : Resource B)
      (validate : Validate B) (k : String)
      → Told o.body k s (rest_create T ops generate s o validate).state
  unfolding rest_create
  rest_create-Told generate s o validate k = create_validated-Told generate s o (validate o) k
