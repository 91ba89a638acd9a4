-- ===== src/Ingress.antt =====
-- pkg/ingress/ingress.go: the routes that are built from the ingresses. The API server's endpoints,
-- `url.Parse`, `url.ParseQuery` and `strings.ToLower` are parameters. A router of the mux package is the
-- list of the routes that were registered on it, in order.
pub mod Watch
pub mod Endpoints
pub mod Registered
pub mod Examples
use Prim.Native.String
use kubemate.Base.Text.{cat}
use kubemate.Base.{
  ℕ, String, ◌≡◌, ◌⊎◌, inl, inr, Bool, true, false, Option, none, some, List, [], ◌∷◌, ◌++◌, ◌==◌,
  ◌&&◌, ◌||◌, not, if◌then◌else◌, ltb, nat_eq, map,
}
use kubemate.Base.Decimal.{decimal}
use kubemate.Base.Dict.{Dict, get, put}
use kubemate.Base.Sort.{sort}
use kubemate.Resource.{Error, message}

pub data PathType : Type 0 where
  exact prefix implementation_specific : PathType
  unsupported : String → PathType

pub record ServicePort : Type 0 where
  pub name : String
  pub number : ℕ

pub record Service : Type 0 where
  pub name : String
  pub port : ServicePort

-- `resource` says whether the backend names a resource in place of a service.
pub record Backend : Type 0 where
  pub resource : Bool
  pub service : Option Service

pub record HttpPath : Type 0 where
  pub path : String
  pub path_type : Option PathType
  pub backend : Backend

pub record Rule : Type 0 where
  pub host : String
  pub paths : List HttpPath

pub record Ingress : Type 0 where
  pub namespace : String
  pub name : String
  pub class_name : Option String
  pub annotations : Dict String
  pub rules : List Rule

pub record EndpointPort : Type 0 where
  pub name : String
  pub port : ℕ

pub record Subset : Type 0 where
  pub ports : List EndpointPort
  pub addresses : List String

-- findPort; none stands for -1.
unfoldable pub find_port : ServicePort → List EndpointPort → Option ℕ
find_port port [] = none
find_port port (p ∷ ps) =
    if nat_eq p.port port.number || p.name == port.name then some p.port else find_port port ps

missing_service : Service → Option Error
missing_service svc =
    if svc.name == ""
    then some (message "ingress resource does not specify a backend service name")
    else if svc.port.name == "" && nat_eq svc.port.number 0
    then some (message "ingress resource does not specify a backend service port")
    else none

unfoldable pub validate_ingress_backend : Backend → Option Error
unfolding missing_service
validate_ingress_backend b =
    if b.resource
    then some (message "ingress resource specifies an unsupported backend resource")
    else elim b.service [
      | none ↦ some (message "ingress resource does not specify a service")
      | some svc ↦ missing_service svc
    ]

-- What the loop over the addresses comes to: the first that is not empty.
unfoldable pub first_address : List String → Option String
first_address [] = none
first_address (a ∷ rest) = if not (a == "") then some a else first_address rest

module _ {U : Type 0} (parse : String → Option U) where
  parsed : Option U → Error ⊎ U
  parsed none = inl (message "parse backend endpoint url")
  parsed (some u) = inr u

  not_found_endpoint : Bool → Error ⊎ U
  not_found_endpoint port_matched =
      inl
        (message (if port_matched then "endpoint is not ready" else "port does not match endpoint"))

  -- The loop over the subsets.
  unfoldable pub search_subsets : String → ServicePort → List Subset → Bool → Error ⊎ U
  unfolding parsed not_found_endpoint
  search_subsets protocol port [] port_matched = not_found_endpoint port_matched
  search_subsets protocol port (s ∷ ss) port_matched = elim (find_port port s.ports) [
    | none ↦ search_subsets protocol port ss port_matched
    | some n ↦
        if ltb 0 n
        then elim (first_address s.addresses) [
          | some ip ↦ parsed (parse (cat protocol (cat "://" (cat ip (cat ":" (decimal n))))))
          | none ↦ search_subsets protocol port ss true
        ]
        else search_subsets protocol port ss port_matched
  ]

  -- `endpoints` is the client's answer for a namespace and a name.
  unfoldable pub endpoint_url :
      (String → String → Error ⊎ List Subset) → String → Service → String → Error ⊎ U
  endpoint_url endpoints protocol svc ns = elim (endpoints ns svc.name) [
    | inl e ↦ inl e
    | inr subsets ↦ search_subsets protocol svc.port subsets false
  ]

-- An ingressBackendHandler with the backend of its proxy.
pub record Handler (U : Type 0) : Type 0 where
  pub backend : U
  pub insecure_tls : Bool
  pub target_path : String
  pub rewrite_target_path : String
  pub headers : Dict (List String)
  pub ingress_name : String
  pub service_name : String

-- What is registered on a router: all requests to a host, a prefix, or a path.
pub data Route (U : Type 0) : Type 0 where
  host_route : String → Route U
  prefix_route exact_route : String → Handler U → Route U

-- The local variables of newRouter: the root router, the routers of the hosts, and the paths in use.
pub record Routes (U : Type 0) : Type 0 where
  pub root : List (Route U)
  pub hosts : Dict (List (Route U))
  pub paths : Dict String

pub record IngressSettings : Type 0 where
  pub rewrite_target_path : String
  pub backend_protocol : String
  pub headers : Dict (List String)

or_empty : Option String → String
or_empty none = ""
or_empty (some v) = v

-- The first of two annotations that is not empty.
annotation : Dict String → String → String → String
unfolding or_empty
annotation a k1 k2 = if or_empty (get k1 a) == "" then or_empty (get k2 a) else or_empty (get k1 a)

module _ (to_lower : String → String) (parse_query : String → Dict (List String)) where
  unfoldable pub settings : Dict String → IngressSettings
  unfolding annotation or_empty
  settings a =
      let p =
        annotation a "kubemate.mgoltzsche.github.com/backend-protocol"
          "nginx.ingress.kubernetes.io/backend-protocol" in
      let h = or_empty (get "kubemate.mgoltzsche.github.com/set-headers" a) in
      record {
        rewrite_target_path =
            annotation a "kubemate.mgoltzsche.github.com/rewrite-target"
              "nginx.ingress.kubernetes.io/rewrite-target";
        backend_protocol = to_lower (if p == "" then "http" else p);
        headers = if h == "" then [] else parse_query h;
      }

module _ {U : Type 0} where
  -- The host's router is made and hung under the root on the first rule for the host. The variable that
  -- holds it is a new one of the inner block, so the paths are registered on the root router.
  unfoldable pub add_host : String → Routes U → Routes U
  add_host host st = if host == "" then st else elim (get host st.hosts) [
    | some m ↦ st
    | none ↦ record st { root = st.root ++ host_route host ∷ []; hosts = put host [] st.hosts }
  ]

  register : Option PathType → String → Handler U → Routes U → Routes U
  register none path h st = record st { root = st.root ++ prefix_route path h ∷ [] }
  register (some prefix) path h st = record st { root = st.root ++ prefix_route path h ∷ [] }
  register (some implementation_specific) path h st = record st {
    root = st.root ++ prefix_route path h ∷ [];
  }
  register (some exact) path h st = record st { root = st.root ++ exact_route path h ∷ [] }
  register (some (unsupported t)) path h st = st

-- What one call of newRouter works with: the client's answers, and the parameters from outside.
pub record World (U : Type 0) : Type 0 where
  pub endpoints : String → String → Error ⊎ List Subset
  pub parse : String → Option U
  pub to_lower : String → String
  pub parse_query : String → Dict (List String)

module _ {U : Type 0} (w : World U) where
  handler : IngressSettings → String → HttpPath → Service → U → Handler U
  handler c key p svc u = record {
    backend = u;
    insecure_tls = c.backend_protocol == "https";
    target_path = p.path;
    rewrite_target_path = c.rewrite_target_path;
    headers = c.headers;
    ingress_name = key;
    service_name = svc.name;
  }

  add_backend :
      IngressSettings → String → HttpPath → Service → Routes U → Error ⊎ U → Error ⊎ Routes U
  unfolding register handler
  add_backend c key p svc st (inl e) = inr st
  add_backend c key p svc st (inr u) = inr (register p.path_type p.path (handler c key p svc u) st)

  -- The path is in use from here on, even if its endpoint is not found.
  add_new : IngressSettings → String → String → String → HttpPath → Routes U → Error ⊎ Routes U
  unfolding add_backend
  add_new c key ns host p st =
      let used : Routes U = record st { paths = put (cat host p.path) key st.paths } in
      elim p.backend.service [
        | none ↦ inr used
        | some svc ↦
            add_backend c key p svc used
              (endpoint_url w.parse w.endpoints c.backend_protocol svc ns)
      ]

  -- One round of the loop over the paths of a rule; an error ends newRouter.
  unfoldable pub add_path :
      IngressSettings → String → String → String → HttpPath → Routes U → Error ⊎ Routes U
  unfolding add_new
  add_path c key ns host p st = elim (validate_ingress_backend p.backend) [
    | some e ↦ inr st
    | none ↦ elim (get (cat host p.path) st.paths) [
      | some other ↦ inl (message "duplicate ingress endpoint")
      | none ↦ add_new c key ns host p st
    ]
  ]

  and_then : (Routes U → Error ⊎ Routes U) → Error ⊎ Routes U → Error ⊎ Routes U
  and_then f (inl e) = inl e
  and_then f (inr st) = f st

  add_paths :
      IngressSettings → String → String → String → List HttpPath → Routes U → Error ⊎ Routes U
  unfolding and_then
  add_paths c key ns host [] st = inr st
  add_paths c key ns host (p ∷ ps) st =
      and_then (add_paths c key ns host ps) (add_path c key ns host p st)

  add_rules : IngressSettings → String → String → List Rule → Routes U → Error ⊎ Routes U
  unfolding and_then
  add_rules c key ns [] st = inr st
  add_rules c key ns (r ∷ rs) st =
      and_then (add_rules c key ns rs) (add_paths c key ns r.host r.paths (add_host r.host st))

  add_ingress : String → Option Ingress → Routes U → Error ⊎ Routes U
  add_ingress key none st = inr st
  add_ingress key (some ing) st =
      add_rules (settings w.to_lower w.parse_query ing.annotations) key ing.namespace ing.rules st

  pub add_ingresses : Dict Ingress → List String → Routes U → Error ⊎ Routes U
  unfolding and_then add_ingress
  add_ingresses m [] st = inr st
  add_ingresses m (k ∷ ks) st = and_then (add_ingresses m ks) (add_ingress k (get k m) st)

  of_class : String → Option String → Bool
  of_class ingress_class none = true
  of_class ingress_class (some c) = c == ingress_class

  ingress_key : Ingress → String
  ingress_key ing = cat ing.namespace (cat "/" ing.name)

  -- The first loop of newRouter: the keys and the map of the ingresses of the class.
  selected : String → List Ingress → List String × Dict Ingress → List String × Dict Ingress
  unfolding of_class ingress_key
  selected ingress_class [] acc = acc
  selected ingress_class (ing ∷ ings) (ks, m) = selected ingress_class ings (
      if of_class ingress_class ing.class_name
      then (ks ++ ingress_key ing ∷ [], put (ingress_key ing) ing m)
      else (ks, m))

  abbrev pub no_routes : Routes U
  no_routes = record { root = []; hosts = []; paths = [] }

  -- `items` is the client's list of ingresses.
  pub new_router : Error ⊎ List Ingress → String → Error ⊎ Routes U
  unfolding selected add_ingresses
  new_router (inl e) ingress_class = inl e
  new_router (inr items) ingress_class =
      let (ks, m) = selected ingress_class items ([], []) in add_ingresses m (sort ks) no_routes
