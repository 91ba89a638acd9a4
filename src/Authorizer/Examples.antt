-- ===== src/Authorizer/Examples.antt =====
-- Concrete cases of what was proved of pkg/apiserver/authorizer.go.
use kubemate.Base.{String, ◌≡◌, ◌↔◌, refl, true, []}
use kubemate.Authorizer.{Attributes, allow, deny, group, authorize, is_rule}
use kubemate.Authorizer.Allowed.{IsAllowed, authorize_iff}

abbrev listing : String → Attributes
listing user = record {
  api_group = group;
  resource = "devicediscovery";
  verb = "list";
  user = user;
  groups = [];
}

authorize_iff_example :
    (authorize "system:anonymous" (listing "joe") ≡ allow)
    ↔ IsAllowed "system:anonymous" (listing "joe")
authorize_iff_example = authorize_iff "system:anonymous" (listing "joe")

-- A user who has logged in may not read what the anonymous user may, though a rule says so.
joe :
    (authorize "system:anonymous" (listing "joe") ≡ deny)
    × (authorize "system:anonymous" (listing "system:anonymous") ≡ allow)
    × (is_rule (listing "joe") ≡ true)
unfolding authorize is_rule
joe = (refl, refl, refl)
