-- ===== src/Controller.antt =====
-- pkg/controller/controllermanager.go: the loop that runs the reconcilers, its start and its stop. The
-- reconcilers and the controller runtime are arguments: what they answer. The wait between two attempts
-- and the log are left out.
pub mod Managed
pub mod Examples
use kubemate.Base.{
  ℕ, ◌+◌, String, Bool, true, false, Option, none, some, List, [], ◌∷◌, ◌++◌, not, nat_eq, ◌&&◌,
  select, if◌then◌else◌,
}
use kubemate.Resource.{Error, message, wrap}

-- A reconciler: whether it is an io.Closer, and how its AddToScheme ends (none where it has none).
pub record Part : Type 0 where
  pub id : ℕ
  pub is_closer : Bool
  pub adds_scheme : Option Bool

-- `cancelable` says whether `cancel` is set, `loops` how many goroutines run the loop. `open_parts` has
-- the reconcilers that were set up and not closed since.
pub record Manager : Type 0 where
  pub parts : List Part
  pub cancelable : Bool
  pub loops : ℕ
  pub open_parts : List Part

abbrev pub new : Manager
new = record { parts = []; cancelable = false; loops = 0; open_parts = [] }

abbrev pub register_reconciler : Manager → Part → Manager
register_reconciler m p = record m { parts = m.parts ++ p ∷ [] }

add_schemes : List Part → Option Error
add_schemes [] = none
add_schemes (p ∷ ps) =
    let rest = add_schemes ps in
    elim p.adds_scheme [
      | none ↦ rest
      | some fine ↦ if fine then rest else some (wrap "add scheme of reconciler" (message "scheme"))
    ]

unfoldable pub start : Manager → Manager × Option Error
unfolding add_schemes
start m = if m.cancelable then (m, none) else elim (add_schemes m.parts) [
  | some e ↦ (m, some e)
  | none ↦ (record m { cancelable = true; loops = m.loops + 1 }, none)
]

-- How one attempt of the loop ends: whether there is a configuration, a manager, and which of the
-- reconcilers set themselves up.
pub record Attempt : Type 0 where
  pub has_config : Bool
  pub has_manager : Bool
  pub sets_up : Part → Bool

-- The first set-up that fails ends the attempt.
set_up : (Part → Bool) → List Part → List Part → List Part
set_up f [] opened = opened
set_up f (p ∷ ps) opened = let rest = set_up f ps (p ∷ opened) in if f p then rest else opened

-- runControllerManager, in a loop that runs.
unfoldable pub run_controller_manager : Manager → Attempt → Manager
unfolding set_up
run_controller_manager m a =
    if not m.cancelable
    then m
    else if a.has_config && a.has_manager
    then record m { open_parts = set_up a.sets_up m.parts m.open_parts }
    else m

abbrev pub is_other : Part → Part → Bool
is_other p q = not (nat_eq p.id q.id)

close_reconcilers : List Part → List Part → List Part
close_reconcilers [] opened = opened
close_reconcilers (p ∷ ps) opened =
    close_reconcilers ps (if p.is_closer then select (is_other p) opened else opened)

-- Stop waits for the loop before it closes the reconcilers; an error of a close is logged.
unfoldable pub stop : Manager → Manager
unfolding close_reconcilers
stop m =
    if m.cancelable
    then record m {
      cancelable = false;
      loops = 0;
      open_parts = close_reconcilers m.parts m.open_parts;
    }
    else m

pub data Call : Type 0 where
  registers : Part → Call
  starts : Call
  stops : Call
  attempts : Attempt → Call

abbrev pub call : Manager → Call → Manager
call m (registers p) = register_reconciler m p
call m starts = (start m).0
call m stops = stop m
call m (attempts a) = run_controller_manager m a

abbrev pub run : Manager → List Call → Manager
run m [] = m
run m (c ∷ cs) = run (call m c) cs
