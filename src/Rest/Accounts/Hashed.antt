-- ===== src/Rest/Accounts/Hashed.antt =====
-- pkg/rest/useraccount_rest.go: what is stored of passwords, over any store that keeps its promises.
use kubemate.Base.{
  ℕ, zero, suc, String, ◌≡◌, refl, ap, sym, ◌∙◌, ◌⊎◌, inl, inr, Option, none, some, List, [], ◌∷◌,
  ◌==◌, eq_iff, Option-cases, Bool-cases,
}
use kubemate.Resource.{Resource, ResourceType, Error}
use kubemate.Storage.Interface.{StoreOps, StoreLaws}
use kubemate.Rest.{Reply, Validate}
use kubemate.Rest.Keeps.{rest_create-Same, rest_create-Told, rest_delete-elsewhere}
use kubemate.Rest.Accounts.{
  AccountBody, admin_user_account, hashed, bcrypt_account_password, update_validation,
  create_hashed, account_create, account_delete,
}

module _ (bcrypt : String → Option String) where
  -- The body of `r` has no plain password, and its hash is the one that `obj` had, if no plain password
  -- came with it, or the hash of the plain password that came.
  pub record IsHashed (obj r : Resource AccountBody) : Type 0 where
    pub no_plain : r.body.password_string ≡ ""
    pub hash :
        ((obj.body.password_string ≡ "") × (r.body.password ≡ obj.body.password))
        ⊎ (bcrypt obj.body.password_string ≡ some r.body.password)

  bcrypted :
      (a : Resource AccountBody)
      → (bcrypt_account_password bcrypt a).1 ≡ none
      → IsHashed a (bcrypt_account_password bcrypt a).0
  unfolding bcrypt_account_password hashed
  bcrypted a fine = elim (Bool-cases (a.body.password_string == "")) [
    | inl e ↦
        let empty : a.body.password_string ≡ "" = (eq_iff a.body.password_string "").0 e in
        rw (e, bcrypt_account_password) (record { no_plain = empty; hash = inl (empty, refl) })
    | inr e ↦ elim (Option-cases (bcrypt a.body.password_string)) [
      | inl b ↦ absurd (cc (rw (e, b, bcrypt_account_password) at fine))
      | inr (h, b) ↦ rw (e, b, bcrypt_account_password) (record { no_plain = refl; hash = inr b })
    ]
  ]

  told-IsHashed :
      (obj a r : Resource AccountBody) → r.body ≡ a.body → IsHashed obj a → IsHashed obj r
  told-IsHashed obj a r e x = record {
    no_plain = ap (λ (b : AccountBody). b.password_string) e ∙ x.no_plain;
    hash = elim x.hash [
      | inl (none_came, kept) ↦ inl (none_came, ap (λ (b : AccountBody). b.password) e ∙ kept)
      | inr h ↦ inr (h ∙ ap (λ (b : AccountBody). some b.password) (sym e))
    ];
  }

  -- The validation of an update of a user account never returns: no number of steps brings its result,
  -- since it starts by calling itself.
  pub update_validation_endless :
      (fuel : ℕ) (updated old : Resource AccountBody)
      → update_validation bcrypt fuel updated old ≡ none
  unfolding update_validation
  update_validation_endless zero updated old = refl
  update_validation_endless (suc fuel) updated old =
      rw (update_validation_endless fuel updated old) refl

  module _ {S : Type 0} (T : ResourceType AccountBody) (ops : StoreOps S AccountBody) (gr : String)
      (laws : StoreLaws gr ops) where
    -- No stored account holds a plain password.
    pub record NoPlain (s : S) : Type 0 where
      pub hidden :
          (k : String) (r : Resource AccountBody)
          → laws.lookup s k ≡ some r
          → r.body.password_string ≡ ""

    create_hashed-IsHashed :
        (generate : Resource AccountBody → String → Option String) (s : S)
        (validate : Validate AccountBody) (p : Resource AccountBody × Option Error)
        (obj : Resource AccountBody) (k : String) (r : Resource AccountBody)
        → (p.1 ≡ none → IsHashed obj p.0)
        → laws.lookup (create_hashed bcrypt T ops generate s validate p).state k ≡ some r
        → (laws.lookup s k ≡ some r) ⊎ IsHashed obj r
    unfolding create_hashed
    create_hashed-IsHashed generate s validate (a, some e) obj k r h there = inl there
    create_hashed-IsHashed generate s validate (a, none) obj k r h there =
        elim (rest_create-Told T ops gr laws generate s a validate k) [
          | inl same ↦ inl (sym same ∙ there)
          | inr (q, there', told) ↦
              let same : r ≡ q = cc in
              let body : r.body ≡ a.body = ap (λ (x : Resource AccountBody). x.body) same ∙ told in
              inr (told-IsHashed obj a r body (h refl))
        ]

    -- Creating an account stores the hash of its plain password, and no plain password: each account
    -- that is stored afterwards was stored before, or it has no plain password and its hash is
    -- the one that bcrypt makes of the request's plain password (if the request has none, the hash that
    -- it came with). So if no stored account has a plain password before, none has one after, whatever
    -- the request holds and whichever of its steps fail.
    pub account_create-IsHashed :
        (generate : Resource AccountBody → String → Option String) (s : S)
        (obj : Resource AccountBody) (validate : Validate AccountBody) (k : String)
        (r : Resource AccountBody)
        → NoPlain s
        → laws.lookup (account_create bcrypt T ops generate s obj validate).state k ≡ some r
        → NoPlain (account_create bcrypt T ops generate s obj validate).state
          × ((laws.lookup s k ≡ some r) ⊎ IsHashed obj r)
    unfolding account_create
    account_create-IsHashed generate s obj validate k r i there =
        let hashes =
          create_hashed-IsHashed generate s validate (bcrypt_account_password bcrypt obj) obj in
        (
          record {
            hidden = λ k' r' there'. elim (hashes k' r' (bcrypted obj) there') [
              | inl before ↦ i.hidden k' r' before
              | inr x ↦ x.no_plain
            ];
          },
          hashes k r (bcrypted obj) there,
        )

    create_hashed-Same :
        (generate : Resource AccountBody → String → Option String) (s : S)
        (validate : Validate AccountBody) (p : Resource AccountBody × Option Error)
        (r : Resource AccountBody) (k : String)
        → laws.lookup s k ≡ some r
        → laws.lookup (create_hashed bcrypt T ops generate s validate p).state k ≡ laws.lookup s k
    unfolding create_hashed
    create_hashed-Same generate s validate (a, some e) r k h = refl
    create_hashed-Same generate s validate (a, none) r k h =
        rest_create-Same T ops gr laws generate s a r validate k h

    pub data Request : Type 0 where
      creates :
          (Resource AccountBody → String → Option String)
          → Resource AccountBody
          → Validate AccountBody
          → Request
      deletes : String → Validate AccountBody → Request

    abbrev pub answer : S → Request → Reply S AccountBody
    answer s (creates generate obj validate) = account_create bcrypt T ops generate s obj validate
    answer s (deletes key validate) = account_delete bcrypt T ops s key validate

    abbrev pub serve : S → List Request → S
    serve s [] = s
    serve s (q ∷ qs) = serve (answer s q).state qs

    answer-admin :
        (s : S) (q : Request) (r : Resource AccountBody)
        → laws.lookup s admin_user_account ≡ some r
        → laws.lookup (answer s q).state admin_user_account ≡ some r
    unfolding account_create account_delete
    answer-admin s (creates generate obj validate) r h =
        create_hashed-Same generate s validate (bcrypt_account_password bcrypt obj) r
          admin_user_account h
        ∙ h
    answer-admin s (deletes key validate) r h = elim (Bool-cases (key == admin_user_account)) [
      | inl e ↦ rw (e, account_delete) h
      | inr e ↦
          rw (e, account_delete)
            (rest_delete-elsewhere T ops gr laws s key validate admin_user_account
                (λ k. cc ((eq_iff key admin_user_account).1 k))
              ∙ h)
    ]

    -- The admin's account stays as it is under any requests to create and delete accounts.
    pub serve-admin :
        (s : S) (qs : List Request) (r : Resource AccountBody)
        → laws.lookup s admin_user_account ≡ some r
        → laws.lookup (serve s qs) admin_user_account ≡ some r
    serve-admin s [] r h = h
    serve-admin s (q ∷ qs) r h = serve-admin (answer s q).state qs r (answer-admin s q r h)
