-- ===== src/Reconciler/Mdns/Examples.antt =====
-- Concrete cases of what was proved of pkg/reconciler/app/mdns_service_reconciler.go.
use kubemate.Base.{ℕ, ◌≡◌, refl, true, false, some, List, [], ◌∷◌}
use kubemate.Reconciler.Mdns.{
  setup_with_manager, Announcer, Answers, Interface, Service, found, missing, reconcile,
  shutdown_mdns_server, to_mdns_entries, ips_for_network_interfaces, annotation_mdns_service, close,
}
use kubemate.Base.Dict.{get, put}
use kubemate.Reconciler.Mdns.Tracked.{Tracked, Round, run, run-Tracked}

abbrev idle : Announcer
idle = record { device_name = "pi"; network_interfaces = []; servers = []; running = [] }

abbrev player : Service
player = record {
  name = "player";
  annotations = (annotation_mdns_service, "_http._tcp, _snapcast._tcp") ∷ [];
  is_node_port = true;
  ports = 30080 ∷ [];
}

-- One interface with 10.0.0.5/24.
abbrev answers : ℕ → Answers
answers n = record {
  interfaces = some (
      record {
        name = "eth0";
        addrs =
            some
              (record { is_v4 = true; is_special = false; ip = 167772165; mask = 4294967040 } ∷ []);
      }
      ∷ []);
  responder = some n;
  takes = λ c. true;
}

-- A service comes, is seen again, and a second one comes and goes.
abbrev rounds : List Round
rounds =
    record { answers = answers 1; key = "default/player"; service = found player }
    ∷ record { answers = answers 2; key = "default/player"; service = found player }
    ∷ record { answers = answers 3; key = "default/radio"; service = found player }
    ∷ record { answers = answers 4; key = "default/radio"; service = missing }
    ∷ []

run-Tracked_example : Tracked (run idle rounds) × ((close (run idle rounds)).running ≡ [])
run-Tracked_example = run-Tracked idle rounds tt

one_runs : (run idle rounds).running ≡ 1 ∷ []
unfolding reconcile shutdown_mdns_server get to_mdns_entries ips_for_network_interfaces put
one_runs = refl

-- The loopback interface is left out.
abbrev two_interfaces : List Interface
two_interfaces =
    record {
      name = "lo";
      addrs =
          some
            (record { is_v4 = true; is_special = true; ip = 2130706433; mask = 4278190080 } ∷ []);
    }
    ∷ record {
      name = "eth0";
      addrs =
          some
            (record { is_v4 = true; is_special = false; ip = 167772165; mask = 4294967040 } ∷ []);
    }
    ∷ []

abbrev later_rounds : List Round
later_rounds = record { answers = answers 5; key = "default/player"; service = found player } ∷ []

-- A second set-up forgets the responder that runs; the service gets another one, and a close leaves the
-- first.
left_over : (close (run (setup_with_manager (run idle rounds)) later_rounds)).running ≡ 1 ∷ []
unfolding close reconcile get to_mdns_entries ips_for_network_interfaces shutdown_mdns_server put
left_over = refl
