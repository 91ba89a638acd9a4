-- ===== src/Rest/Passwords.antt =====
-- pkg/rest/wifipassword_rest.go: the passwords of WiFi networks. The access point's own is generated
-- at the start, and a request to delete it replaces it. A generated password (pkg/passwordgen) is an
-- argument, none where its generation fails.
pub mod Present
use kubemate.Base.{String, ◌≡◌, Bool, true, false, Option, none, some, ◌==◌, if◌then◌else◌, not}
use kubemate.Resource.{Resource, ResourceType, Error, message, wrap, is_not_found, Outcome}
use kubemate.Storage.Interface.{StoreOps}
use kubemate.Rest.{Reply, Validate, fresh, refuse, rest_delete}

abbrev pub access_point_password_key : String
access_point_password_key = "accesspoint"

-- The closure by which the password is replaced; the body of a WifiPassword is Data.Password.
abbrev pub replace_password : String → Resource String → Resource String × Option Error
replace_password p r = (record r { body = p }, none)

module _ {S : Type 0} (T : ResourceType String) (ops : StoreOps S String) where
  store_password : String → Outcome S String → S × Option Error
  store_password p o = elim o.err [
    | none ↦
        let u = ops.update o.state access_point_password_key o.out (replace_password p) in
        (u.state, u.err)
    | some e ↦
        if not (is_not_found e)
        then (o.state, some e)
        else (let c = ops.create o.state access_point_password_key (record (o.out) { body = p }) in
            (c.state, c.err))
  ]

  unfoldable pub regenerate_wifi_password : S → Option String → S × Option Error
  unfolding store_password
  regenerate_wifi_password s none = (s, some (message "random"))
  regenerate_wifi_password s (some p) =
      store_password p (ops.get s access_point_password_key (fresh T ops))

  wrapped : S × Option Error → S × Option Error
  wrapped (s, none) = (s, none)
  wrapped (s, some e) = (s, some (wrap "generate wifi password" e))

  checked_password : Option String → Outcome S String → S × Option Error
  unfolding wrapped
  checked_password random o = elim o.err [
    | none ↦
        if o.out.body == ""
        then wrapped (regenerate_wifi_password o.state random)
        else (o.state, none)
    | some e ↦
        if not (is_not_found e)
        then (o.state, some e)
        else wrapped (regenerate_wifi_password o.state random)
  ]

  -- The start, once the store is there.
  unfoldable pub new_wifi_password_rest : S → Option String → S × Option Error
  unfolding checked_password
  new_wifi_password_rest s random =
      checked_password random (ops.get s access_point_password_key (fresh T ops))

  replaced : S × Option Error → Reply S String
  replaced (s, e) = record { state = s; object = none; err = e }

  delete_own : Option String → Outcome S String → Reply S String
  unfolding replaced
  delete_own random o = elim o.err [
    | some e ↦ refuse (o.state) e
    | none ↦ replaced (regenerate_wifi_password o.state random)
  ]

  unfoldable pub password_delete : S → String → Validate String → Option String → Reply S String
  unfolding delete_own
  password_delete s key validate random =
      if key == access_point_password_key
      then delete_own random (ops.get s access_point_password_key (fresh T ops))
      else rest_delete T ops s key validate
