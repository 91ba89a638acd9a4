-- ===== src/Controller/Examples.antt =====
-- Concrete cases of what was proved of pkg/controller.
use kubemate.Base.{true, false, some, none, List, [], ◌∷◌, ◌≡◌, refl}
use kubemate.Controller.{
  Part, new, Attempt, Call, registers, starts, stops, attempts, start, run_controller_manager, stop,
  run,
}
use kubemate.Controller.Managed.{IsManaged, idle, run-IsManaged}

abbrev ingress_part : Part
ingress_part = record { id = 1; is_closer = true; adds_scheme = some true }

abbrev node_part : Part
node_part = record { id = 2; is_closer = false; adds_scheme = none }

abbrev all_well : Attempt
all_well = record { has_config = true; has_manager = true; sets_up = λ p. true }

abbrev a_day : List Call
a_day =
    registers ingress_part
    ∷ registers node_part
    ∷ starts
    ∷ attempts all_well
    ∷ starts
    ∷ attempts all_well
    ∷ stops
    ∷ attempts all_well
    ∷ []

run-IsManaged_example : IsManaged (run new a_day)
run-IsManaged_example = run-IsManaged new a_day (idle refl refl tt tt)

-- The retry has set up the second one twice, which cannot be closed.
still_there : (run new a_day).open_parts ≡ node_part ∷ node_part ∷ []
unfolding start run_controller_manager stop
still_there = refl
