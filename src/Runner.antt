-- ===== src/Runner.antt =====
-- pkg/runner/runner.go and pkg/runner/process.go: one child process, started, replaced and stopped.
-- A call holds the mutex and is one step; so is what the goroutine of a process does, which comes
-- before or after a call. Which launch succeeds, the time and the exits of processes are arguments, and
-- `strconv.Quote` is a parameter. Times are in nanoseconds since Go's zero time.
pub mod Single
pub mod Spacing
pub mod Log
pub mod Examples
use Prim.Native.Char.{Char, code}
use kubemate.Base.{
  ℕ, ◌+◌, ◌-◌, String, Bool, true, false, Option, none, some, List, [], ◌∷◌, ◌==◌, ◌&&◌, not, ltb,
  nat_eq, any, select, if◌then◌else◌, map,
}
use kubemate.Base.Text.{chars}
use Prim.Native.String

abbrev pub cooldown : ℕ
cooldown = 1000000000

pub record CommandSpec : Type 0 where
  pub command : String
  pub args : List String

pub data ProcessState : Type 0 where
  running failed exited : ProcessState

-- Command with its CommandStatus; the texts of the messages are left out.
pub record Report : Type 0 where
  pub spec : CommandSpec
  pub pid : ℕ
  pub state : ProcessState

pub record Proc : Type 0 where
  pub pid : ℕ
  pub cmd : CommandSpec

-- `alive` has the process IDs that were started and not yet waited for, so a process is running as long
-- as it is there. `fresh` and `watched` are the goroutines that `Start` has left, before and after
-- their report that the process is running.
pub record Runner : Type 0 where
  pub proc : Option Proc
  pub terminated : ℕ
  pub alive : List ℕ
  pub fresh : List Proc
  pub watched : List Proc
  pub reports : List Report

abbrev pub new : Runner
new = record { proc = none; terminated = 0; alive = []; fresh = []; watched = []; reports = [] }

-- How StartProcess ends: with a process, with an error before there is one, or with an error of
-- `Getpgid`, by which time the process is there.
pub data Launch : Type 0 where
  launched lost : ℕ → Launch
  refused : Launch

-- The times that `Start` reads before and after the launch.
pub record Attempt : Type 0 where
  pub now : ℕ
  pub later : ℕ
  pub launch : Launch

-- What `Start` returns; `cooling` is the CooldownError with its duration. On an error of StartProcess
-- there is no process, and asking it for its ID panics.
pub data Started : Type 0 where
  unchanged started panicked : Started
  cooling : ℕ → Started

abbrev pub is_space : Char → Bool
is_space c = nat_eq (code c) b' '

abbrev pub has_space : String → Bool
has_space w = any is_space (chars w)

-- strings.Join(words, " ")
abbrev pub join_words : List String → String
join_words [] = ""
join_words (w ∷ []) = w
join_words (w ∷ v ∷ ws) =
    Prim.Native.String.◌++◌ w (Prim.Native.String.◌++◌ " " (join_words (v ∷ ws)))

abbrev pub has_pid : ℕ → Proc → Bool
has_pid n p = nat_eq n p.pid

abbrev pub is_running : Runner → Proc → Bool
is_running r p = any (nat_eq p.pid) r.alive

abbrev pub without : ℕ → List ℕ → List ℕ
without n ns = select (λ m. not (nat_eq n m)) ns

-- Proc.Stop returns when the process was waited for, after SIGKILL at the latest.
unfoldable pub stop_process : Runner → Proc → Runner
stop_process r p = record r { proc = none; alive = without p.pid r.alive }

unfoldable pub stop : Runner → Runner
unfolding stop_process
stop r = elim r.proc [ none ↦ r | some p ↦ stop_process r p ]

-- Whether SIGHUP was sent; none is the panic of the error's text, which asks for the missing process.
unfoldable pub signal_reload : Runner → Bool → Option Bool
signal_reload r sent = elim r.proc [ none ↦ none | some p ↦ some (sent && is_running r p) ]

launch : Runner → CommandSpec → Launch → Runner × Started
launch r cmd (launched n) =
    let p : Proc = record { pid = n; cmd = cmd } in
    (record r { proc = some p; alive = n ∷ r.alive; fresh = p ∷ r.fresh }, started)
launch r cmd (lost n) = (record r { alive = n ∷ r.alive }, panicked)
launch r cmd refused = (r, panicked)

try_launch : Runner → Attempt → CommandSpec → Runner × Started
unfolding launch
try_launch r a cmd =
    if ltb a.now (r.terminated + cooldown)
    then (r, cooling (r.terminated + cooldown - a.now))
    else launch (record r { terminated = a.later }) cmd a.launch

-- The first goroutine of a process, and the others.
pick : ℕ → List Proc → Option (Proc × List Proc)
pick n [] = none
pick n (p ∷ ps) =
    let rest = pick n ps in
    if has_pid n p
    then some (p, ps)
    else elim rest [ none ↦ none | some (q, qs) ↦ some (q, p ∷ qs) ]

abbrev pub report : Runner → Proc → ProcessState → Runner
report r p state = record r {
  reports = record { spec = p.cmd; pid = p.pid; state = state } ∷ r.reports;
}

-- The goroutine of a process reports that it is running.
unfoldable pub announce : Runner → ℕ → Runner
unfolding pick
announce r n = elim (pick n r.fresh) [
  | none ↦ r
  | some (p, ps) ↦ report (record r { fresh = ps; watched = p ∷ r.watched }) p running
]

-- The goroutine has waited for the process, notes the time and reports; `bad` says whether the wait
-- returned an error. Stopping the process then does nothing more, since it has exited.
unfoldable pub finish : Runner → ℕ → ℕ → Bool → Runner
unfolding pick
finish r n now bad = elim (pick n r.watched) [
  | none ↦ r
  | some (p, ps) ↦
      if is_running r p
      then r
      else report (record r { terminated = now; watched = ps }) p (if bad then failed else exited)
]

-- A process exits, and StartProcess's goroutine has waited for it.
unfoldable pub exit : Runner → ℕ → Runner
exit r n = record r { alive = without n r.alive }

-- What happens to a runner, in the order in which it happens.
pub data Event : Type 0 where
  starts : Attempt → CommandSpec → Event
  stops : Event
  announces : ℕ → Event
  exits : ℕ → Event
  finishes : ℕ → ℕ → Bool → Event

module _ (quote : String → String) where
  unfoldable pub command_string : CommandSpec → String
  command_string c = join_words (map (λ w. if has_space w then quote w else w) (c.command ∷ c.args))

  unfoldable pub start : Runner → Attempt → CommandSpec → Runner × Started
  unfolding try_launch command_string
  start r a cmd = elim r.proc [
    | none ↦ try_launch r a cmd
    | some p ↦
        if is_running r p && command_string p.cmd == command_string cmd
        then (r, unchanged)
        else try_launch (stop_process r p) a cmd
  ]

  abbrev pub step : Runner → Event → Runner
  step r (starts a cmd) = (start r a cmd).0
  step r stops = stop r
  step r (announces n) = announce r n
  step r (exits n) = exit r n
  step r (finishes n now bad) = finish r n now bad

  abbrev pub run : Runner → List Event → Runner
  run r [] = r
  run r (e ∷ es) = run (step r e) es
