-- ===== src/Rest.antt =====
-- pkg/rest/rest.go: the API's storage for a type of resource, over any store of pkg/storage/types.go.
-- The request's validations and its update of an object are closures of the API machinery; the
-- generator of names (pkg/utils/names.go over random numbers) is a parameter.
pub mod Keeps
pub mod Tokens
pub mod Passwords
pub mod Accounts
pub mod Devices
pub mod Examples
use kubemate.Base.{
  String, ◌≡◌, ◌⊎◌, inl, inr, Bool, true, false, Option, none, some, ◌==◌, if◌then◌else◌,
}
use kubemate.Resource.{Meta, Resource, ResourceType, Error, message, wrap, Outcome}
use kubemate.Storage.Interface.{StoreOps}

-- What a request returns: the object, or nil where the code returns nil, and the error.
pub record Reply (S B : Type 0) : Type 0 where
  pub state : S
  pub object : Option (Resource B)
  pub err : Option Error

abbrev pub Validate : Type 0 → Type 0
Validate B = Resource B → Option Error

-- objInfo.UpdatedObject, and the validation of the updated and the old object, which may be nil.
pub record UpdateRequest (B : Type 0) : Type 0 where
  pub updated : Resource B → Error ⊎ Resource B
  pub validate : Option (Resource B → Resource B → Option Error)

module _ {S B : Type 0} where
  reply_or_error : Outcome S B → Option Error → Reply S B
  reply_or_error o none = record { state = o.state; object = some o.out; err = none }
  reply_or_error o (some e) = record { state = o.state; object = none; err = some e }

  unfoldable pub reply : Outcome S B → Reply S B
  unfolding reply_or_error
  reply o = reply_or_error o o.err

  abbrev pub refuse : S → Error → Reply S B
  refuse s e = record { state = s; object = none; err = some e }

module _ {B : Type 0} where
  validated : Resource B → Resource B → Option Error → Resource B × Option Error
  validated obj u none = (u, none)
  validated obj u (some e) = (obj, some e)

  apply_updated :
      Option (Resource B → Resource B → Option Error)
      → Resource B
      → Error ⊎ Resource B
      → Resource B × Option Error
  unfolding validated
  apply_updated v obj (inl e) = (obj, some (wrap "get updated object" e))
  apply_updated none obj (inr u) = (u, none)
  apply_updated (some v) obj (inr u) = validated obj u (v u obj)

  -- The closure that `Update` hands to the store.
  unfoldable pub modify : UpdateRequest B → Resource B → Resource B × Option Error
  unfolding apply_updated
  modify q obj = apply_updated q.validate obj (q.updated obj)

module _ {S B : Type 0} (T : ResourceType B) (ops : StoreOps S B) where
  -- r.resource.New()
  abbrev pub fresh : Resource B
  fresh = record {
    api_version = "";
    kind = "";
    meta = record {
      name = "";
      namespace = "";
      generate_name = "";
      resource_version = "";
      creation_timestamp = none;
    };
    body = T.zero_body;
  }

  abbrev pub named : String → Resource B → Resource B
  named name obj = record obj { meta = record (obj.meta) { name = name } }

  unfoldable pub rest_get : S → String → Reply S B
  unfolding reply
  rest_get s name = reply (ops.get s name fresh)

  -- The end of `Create`, with the name of the object.
  create_named : S → Resource B → Reply S B
  unfolding reply
  create_named s obj =
      if obj.name == ""
      then refuse s (message "no name specified")
      else reply (ops.create s obj.name obj)

  create_generated : S → Resource B → Option String → Reply S B
  unfolding create_named
  create_generated s obj none = refuse s (wrap "generate object name" (message "random"))
  create_generated s obj (some name) = create_named s (named name obj)

  create_validated :
      (Resource B → String → Option String) → S → Resource B → Option Error → Reply S B
  unfolding create_generated
  create_validated generate s obj (some e) = refuse s e
  create_validated generate s obj none =
      if obj.generate_name == ""
      then create_named s obj
      else create_generated s obj (generate obj obj.generate_name)

  unfoldable pub rest_create :
      (Resource B → String → Option String) → S → Resource B → Validate B → Reply S B
  unfolding create_validated
  rest_create generate s obj validate = create_validated generate s obj (validate obj)

  unfoldable pub rest_update : S → String → UpdateRequest B → Reply S B
  unfolding modify reply
  rest_update s key q = reply (ops.update s key fresh (modify q))

  unfoldable pub rest_delete : S → String → Validate B → Reply S B
  unfolding reply
  rest_delete s key validate = reply (ops.delete s key fresh validate)
