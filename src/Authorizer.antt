-- ===== src/Authorizer.antt =====
-- pkg/apiserver/authorizer.go: who may do what by the device's own API. The name of the anonymous user
-- is a parameter, since it is a constant of the API machinery.
pub mod Allowed
pub mod Examples
use kubemate.Base.{String, Bool, true, false, List, [], ◌∷◌, ◌==◌, ◌&&◌, not, if◌then◌else◌}

pub record Attributes : Type 0 where
  pub api_group : String
  pub resource : String
  pub verb : String
  pub user : String
  pub groups : List String

pub data Decision : Type 0 where
  allow deny : Decision

abbrev pub group : String
group = "kubemate.mgoltzsche.github.com"

abbrev pub admin_group : String
admin_group = "admin"

abbrev pub read_only_verbs : List String
read_only_verbs = "get" ∷ "list" ∷ "watch" ∷ []

pub contains : List String → String → Bool
contains [] item = false
contains (s ∷ l) item = let rest = contains l item in if s == item then true else rest

module _ (anonymous : String) where
  unfoldable pub authorize : Attributes → Decision
  unfolding contains
  authorize a =
      if not (a.api_group == group)
      then allow
      else if contains a.groups admin_group
      then allow
      else if a.user == anonymous
          && (a.api_group == group && a.resource == "devicediscovery")
          && contains read_only_verbs a.verb
      then allow
      else deny

-- The resource rule of RulesFor, which is the same for every user: a verb, a group and a resource that
-- the API machinery is told that the user may use.
unfoldable pub is_rule : Attributes → Bool
unfolding contains
is_rule a =
    contains read_only_verbs a.verb
    && contains (group ∷ []) a.api_group
    && contains ("devicediscovery" ∷ []) a.resource
