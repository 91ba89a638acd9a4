-- ===== src/Resource.antt =====
-- pkg/resource/types.go and the object metadata that the stores read and write.
-- The Kubernetes packages are outside the repository: a resource type brings what the code asks of
-- them (`ResourceType`), and everything else that an object holds is its body.
use kubemate.Base.{false, true, Bool, ℕ, String, Option, some, if◌then◌else◌, ltb, ◌-◌, ◌^◌}
use Prim.Native.String
use kubemate.Base.Decimal.{decimal}
use kubemate.PubSub.{ObjectMeta}

-- metav1.ObjectMeta. The creation timestamp is none where `IsZero` holds.
pub record Meta : Type 0 where
  pub name : String
  pub namespace : String
  pub generate_name : String
  pub resource_version : String
  pub creation_timestamp : Option ℕ

pub record Resource (B : Type 0) : Type 0 where
  pub api_version : String
  pub kind : String
  pub meta : Meta
  pub open meta use {name, namespace, generate_name, resource_version, creation_timestamp}
  pub body : B

-- What a type that implements `resource.Resource` answers, and what the scheme knows of it.
-- `clear_status` is the identity for a type that has no status.
pub record ResourceType (B : Type 0) : Type 0 where
  pub group_resource : String
  pub go_type : String
  pub zero_body : B
  pub clear_status : B → B
  pub object_kind : Option (String × String)

-- The errors of the API machinery that the code tells apart, and `fmt.Errorf` with and without %w.
pub data Error : Type 0 where
  not_found already_exists conflict forbidden : String → String → Error
  gone bad_request message : String → Error
  wrap : String → Error → Error

-- errors.IsNotFound and errors.IsAlreadyExists look through what is wrapped.
abbrev pub is_not_found : Error → Bool
is_not_found (not_found gr k) = true
is_not_found (wrap m e) = is_not_found e
is_not_found _ = false

abbrev pub is_already_exists : Error → Bool
is_already_exists (already_exists gr k) = true
is_already_exists (wrap m e) = is_already_exists e
is_already_exists _ = false

-- The state after a call, the object that the caller handed in by pointer, and the error.
pub record Outcome (S B : Type 0) : Type 0 where
  pub state : S
  pub out : Resource B
  pub err : Option Error

-- The time of a call, and which subscribers take an event in time.
pub record Env : Type 0 where
  pub now : ℕ
  pub ready : ℕ → Bool

-- A sequence number on an int64, in decimal.
unfoldable pub version : ℕ → String
version n = if ltb n (2 ^ 63) then decimal n else Prim.Native.String.◌++◌ "-" (decimal (2 ^ 64 - n))

module _ {B : Type 0} where
  unfoldable pub accessor : Resource B → Option ObjectMeta
  accessor r = some (record { name = r.name; namespace = r.namespace })

  abbrev pub with_version : String → Resource B → Resource B
  with_version v r = record r { meta = record (r.meta) { resource_version = v } }
