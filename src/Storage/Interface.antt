-- ===== src/Storage/Interface.antt =====
-- storage.Interface of pkg/storage/types.go, as its clients see it: the operations, and what they may
-- rely on. A client sees the items of a store by `lookup` only.
pub mod Memory
use kubemate.Base.{String, ◌≡◌, ◌≢◌, Option, none, some}
use kubemate.Resource.{Resource, Error, not_found, Outcome}

pub record StoreOps (S B : Type 0) : Type 0 where
  pub get : S → String → Resource B → Outcome S B
  pub create : S → String → Resource B → Outcome S B
  pub update : S → String → Resource B → (Resource B → Resource B × Option Error) → Outcome S B
  pub delete : S → String → Resource B → (Resource B → Option Error) → Outcome S B

module _ {B : Type 0} (look look' : String → Option (Resource B)) where
  -- The call failed and has changed no item.
  abbrev pub Unchanged : Option Error → Type 0
  Unchanged err = (e : Error) × (err ≡ some e) × ((k : String) → look' k ≡ look k)

  -- The call failed and has changed no item, or an object with a body as told stands at the key.
  pub data Effect (key : String) (Told : B → Type 0) (err : Option Error) : Type 0 where
    refused : Unchanged err → Effect key Told err
    held :
        (r : Resource B)
        → err ≡ none
        → Told r.body
        → look' key ≡ some r
        → ((k : String) → key ≢ k → look' k ≡ look k)
        → Effect key Told err

pub record StoreLaws {S B : Type 0} (group_resource : String) (ops : StoreOps S B) : Type 0 where
  pub lookup : S → String → Option (Resource B)
  pub get_found :
      (s : S) (key : String) (o r : Resource B)
      → lookup s key ≡ some r
      → ops.get s key o ≡ record { state = s; out = r; err = none }
  pub get_missing :
      (s : S) (key : String) (o : Resource B)
      → lookup s key ≡ none
      → ops.get s key o ≡ record { state = s; out = o; err = some (not_found group_resource key) }
  pub create_free :
      (s : S) (key : String) (o : Resource B)
      → lookup s key ≡ none
      → Effect
          (lookup s)
          (lookup (ops.create s key o).state)
          key
          (λ b. b ≡ o.body)
          (ops.create s key o).err
  pub create_used :
      (s : S) (key : String) (o r : Resource B)
      → lookup s key ≡ some r
      → Unchanged (lookup s) (lookup (ops.create s key o).state) (ops.create s key o).err
  pub update_found :
      (s : S) (key : String) (o r : Resource B) (f : Resource B → Resource B × Option Error)
      → lookup s key ≡ some r
      → Effect
          (lookup s)
          (lookup (ops.update s key o f).state)
          key
          (λ b. b ≡ (f r).0.body)
          (ops.update s key o f).err
  pub update_missing :
      (s : S) (key : String) (o : Resource B) (f : Resource B → Resource B × Option Error)
      → lookup s key ≡ none
      → Unchanged (lookup s) (lookup (ops.update s key o f).state) (ops.update s key o f).err
  pub delete_elsewhere :
      (s : S) (key : String) (o : Resource B) (v : Resource B → Option Error) (k : String)
      → key ≢ k
      → lookup (ops.delete s key o v).state k ≡ lookup s k
