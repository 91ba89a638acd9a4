-- ===== src/Ingress/Examples.antt =====
-- Concrete cases of pkg/ingress/ingress.go: one ingress with a path on a host, and its service.
use kubemate.Base.{String, ◌≡◌, refl, ◌⊎◌, inl, inr, false, Option, none, some, List, [], ◌∷◌}
use kubemate.Base.Dict.{get, put}
use kubemate.Base.Sort.{sort}
use kubemate.Resource.{Error}
use kubemate.Ingress.{
  add_rules, add_paths, add_path, validate_ingress_backend, search_subsets, first_address, Ingress,
  prefix, Service, Subset, World, Routes, Route, find_port, endpoint_url, add_host, add_ingresses,
  new_router,
}
use kubemate.Ingress.Registered.{new_router-bare}

abbrev web : Service
web = record { name = "web"; port = record { name = ""; number = 80 } }

abbrev ready : List Subset
ready =
    record { ports = record { name = "http"; port = 80 } ∷ []; addresses = "10.0.0.1" ∷ [] } ∷ []

abbrev world : World String
world = record {
  endpoints = λ ns name. inr ready;
  parse = λ u. some u;
  to_lower = λ s. s;
  parse_query = λ q. [];
}

abbrev app : Ingress
app = record {
  namespace = "default";
  name = "app";
  class_name = none;
  annotations = [];
  rules =
      record {
        host = "app.local";
        paths =
            record {
              path = "/";
              path_type = some prefix;
              backend = record { resource = false; service = some web };
            }
            ∷ [];
      }
      ∷ [];
}

-- A service port by number is matched by an unnamed port of another number.
unnamed_port_test :
    find_port
      (record { name = ""; number = 80 })
      (record { name = ""; port = 9000 } ∷ record { name = ""; port = 80 } ∷ [])
    ≡ some 9000
unfolding find_port
unnamed_port_test = refl

abbrev taken : Routes String
taken = record { root = []; hosts = []; paths = ("other.local/", "default/other") ∷ [] }

abbrev owner : Error ⊎ Routes String → Option String
owner (inl e) = none
owner (inr t) = get "other.local/" t.paths

abbrev routes_of : Error ⊎ Routes String → Routes String
routes_of (inl e) = taken
routes_of (inr t) = t

abbrev both : Routes String
both = routes_of (add_ingresses world (("default/app", app) ∷ []) ("default/app" ∷ []) taken)

abbrev built : Routes String
built = routes_of (new_router world (inr (app ∷ [])) "kubemate")

abbrev no_route : List (Route String)
no_route = []

new_router-bare_example : no_route ≡ []
unfolding new_router sort get put add_rules add_paths add_path validate_ingress_backend add_host
    endpoint_url search_subsets find_port first_address
new_router-bare_example =
    new_router-bare world (app ∷ []) "kubemate" built "app.local" no_route refl refl
