-- ===== src/Rest/Accounts.antt =====
-- pkg/rest/useraccount_rest.go: user accounts, whose plain password is replaced by a hash. `bcrypt` is
-- a parameter, none where it fails.
pub mod Hashed
use kubemate.Base.{
  ℕ, zero, suc, String, ◌≡◌, Bool, true, false, Option, none, some, ◌==◌, if◌then◌else◌, not,
}
use kubemate.Resource.{Resource, ResourceType, Error, forbidden, message, Outcome}
use kubemate.Storage.Interface.{StoreOps}
use kubemate.Rest.{Reply, Validate, refuse, rest_create, rest_delete}

-- Data.PasswordString and Data.Password of a UserAccount.
pub record AccountBody : Type 0 where
  pub password_string : String
  pub password : String

abbrev pub admin_user_account : String
admin_user_account = "admin"

module _ (bcrypt : String → Option String) where
  hashed : Resource AccountBody → Option String → Resource AccountBody × Option Error
  hashed a none = (a, some (message "bcrypt"))
  hashed a (some h) = (record a { body = record { password_string = ""; password = h } }, none)

  unfoldable pub bcrypt_account_password :
      Resource AccountBody → Resource AccountBody × Option Error
  unfolding hashed
  bcrypt_account_password a =
      if not (a.body.password_string == "")
      then hashed a (bcrypt a.body.password_string)
      else (a, none)

  -- The closure that `Update` puts in the place of `updateValidation`. It calls the variable that it is
  -- itself assigned to, so its first step is a call of itself; none says that the fuel ran out.
  unfoldable pub update_validation :
      ℕ → Resource AccountBody → Resource AccountBody → Option (Resource AccountBody × Option Error)
  update_validation zero updated old = none
  update_validation (suc fuel) updated old = elim (update_validation fuel updated old) [
    | none ↦ none
    | some (u, some e) ↦ some (u, some e)
    | some (u, none) ↦ some (bcrypt_account_password u)
  ]

  module _ {S : Type 0} (T : ResourceType AccountBody) (ops : StoreOps S AccountBody) where
    create_hashed :
        (Resource AccountBody → String → Option String)
        → S
        → Validate AccountBody
        → Resource AccountBody × Option Error
        → Reply S AccountBody
    create_hashed generate s validate (a, some e) = refuse s e
    create_hashed generate s validate (a, none) = rest_create T ops generate s a validate

    unfoldable pub account_create :
        (Resource AccountBody → String → Option String)
        → S
        → Resource AccountBody
        → Validate AccountBody
        → Reply S AccountBody
    unfolding create_hashed
    account_create generate s obj validate =
        create_hashed generate s validate (bcrypt_account_password obj)

    unfoldable pub account_delete : S → String → Validate AccountBody → Reply S AccountBody
    account_delete s key validate =
        if key == admin_user_account
        then refuse s (forbidden T.group_resource admin_user_account)
        else rest_delete T ops s key validate
