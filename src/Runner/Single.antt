-- ===== src/Runner/Single.antt =====
-- pkg/runner/runner.go: how many processes of a runner there are.
use kubemate.Base.{
  false, true, ◌<◌, ◌-◌, ℕ, String, ◌≡◌, refl, ap, ◌∙◌, inl, inr, Bool, none, some, List, [], ◌∷◌,
  ◌==◌, ◌&&◌, ltb, ◌+◌, nat_eq, All, Option-cases, Bool-cases, arith,
}
use kubemate.Runner.{
  Runner, Proc, CommandSpec, Attempt, Launch, launched, lost, refused, cooldown, cooling, without,
  is_running, stop_process, stop, launch, try_launch, command_string, start, pick, announce, finish,
  exit, Event, starts, stops, announces, exits, finishes, step, run,
}

-- At most one process is there, and it is the one that the runner holds.
pub data IsSingle (r : Runner) : Type 0 where
  no_process : r.alive ≡ [] → IsSingle r
  one_process : (p : Proc) → r.proc ≡ some p → r.alive ≡ p.pid ∷ [] → IsSingle r

-- No process gets lost on its start, as where `Getpgid` fails.
abbrev pub NotLost : Launch → Type 0
NotLost l = (n : ℕ) → l ≡ lost n → ⊥

without_self : (n : ℕ) → without n (n ∷ []) ≡ []
without_self n = ground arith

stop_process_alone :
    (r : Runner) (p : Proc) → r.proc ≡ some p → IsSingle r → (stop_process r p).alive ≡ []
unfolding stop_process
stop_process_alone r p e (no_process a) = rw a refl
stop_process_alone r p e (one_process q f a) =
    let same : q ≡ p = cc in rw (a, same) (without_self p.pid)

free_alone : (r : Runner) → r.proc ≡ none → IsSingle r → r.alive ≡ []
free_alone r e (no_process a) = a
free_alone r e (one_process p f a) = cc

pub stop_alone : (r : Runner) → IsSingle r → (stop r).alive ≡ []
unfolding stop
stop_alone r i = elim (Option-cases r.proc) [
  | inl e ↦ rw (stop, e) (free_alone r e i)
  | inr (p, e) ↦ rw (stop, e) (stop_process_alone r p e i)
]

same-IsSingle : (r t : Runner) → t.alive ≡ r.alive → t.proc ≡ r.proc → IsSingle r → IsSingle t
same-IsSingle r t a p (no_process e) = no_process (a ∙ e)
same-IsSingle r t a p (one_process q f e) = one_process q (p ∙ f) (a ∙ e)

launch-IsSingle :
    (r : Runner) (cmd : CommandSpec) (l : Launch)
    → NotLost l
    → r.alive ≡ []
    → IsSingle (launch r cmd l).0
unfolding launch
launch-IsSingle r cmd (launched n) ok a = one_process _ refl (ap (λ ns. n ∷ ns) a)
launch-IsSingle r cmd (lost n) ok a = absurd (ok n refl)
launch-IsSingle r cmd refused ok a = no_process a

try_launch-IsSingle :
    (r : Runner) (a : Attempt) (cmd : CommandSpec)
    → NotLost a.launch
    → r.alive ≡ []
    → IsSingle (try_launch r a cmd).0
unfolding try_launch
try_launch-IsSingle r a cmd ok e = elim (Bool-cases (ltb a.now (r.terminated + cooldown))) [
  | inl early ↦ rw early (no_process e)
  | inr late ↦ rw late (launch-IsSingle _ cmd a.launch ok e)
]

announce-IsSingle : (r : Runner) (n : ℕ) → IsSingle r → IsSingle (announce r n)
unfolding announce
announce-IsSingle r n i = elim (Option-cases (pick n r.fresh)) [
  | inl e ↦ rw (announce, e) i
  | inr (p, e) ↦ rw (announce, e) (same-IsSingle r _ refl refl i)
]

finish-IsSingle : (r : Runner) (n now : ℕ) (bad : Bool) → IsSingle r → IsSingle (finish r n now bad)
unfolding finish
finish-IsSingle r n now bad i = elim (Option-cases (pick n r.watched)) [
  | inl e ↦ rw (finish, e) i
  | inr (p, e) ↦ elim (Bool-cases (is_running r p.0)) [
    | inl there ↦ rw (finish, e, there) i
    | inr gone ↦ rw (finish, e, gone) (same-IsSingle r _ refl refl i)
  ]
]

pub exit-IsSingle : (r : Runner) (n : ℕ) → IsSingle r → IsSingle (exit r n)
unfolding exit
exit-IsSingle r n (no_process a) = no_process (rw a refl)
exit-IsSingle r n (one_process p f a) = elim (Bool-cases (nat_eq n p.pid)) [
  | inl same ↦ no_process (rw (a, same) refl)
  | inr other ↦ one_process p f (rw (a, other) refl)
]

try_launch_of_early :
    (r : Runner) (a : Attempt) (cmd : CommandSpec)
    → r.alive ≡ []
    → a.now < r.terminated + cooldown
    → ((try_launch r a cmd).0.alive ≡ [])
      × ((try_launch r a cmd).1 ≡ cooling (r.terminated + cooldown - a.now))
unfolding try_launch
try_launch_of_early r a cmd e h =
    let early : ltb a.now (r.terminated + cooldown) ≡ true = ground arith in rw early (e, refl)

-- No launch of these events loses its process.
abbrev pub IsKept : Event → Type 0
IsKept (starts a cmd) = NotLost a.launch
IsKept _ = Unit

module _ (quote : String → String) where
  pub start-IsSingle :
      (r : Runner) (a : Attempt) (cmd : CommandSpec)
      → NotLost a.launch
      → IsSingle r
      → IsSingle (start quote r a cmd).0
  unfolding start
  start-IsSingle r a cmd ok i = elim (Option-cases r.proc) [
    | inl e ↦ rw (start, e) (try_launch-IsSingle r a cmd ok (free_alone r e i))
    | inr (p, e) ↦
        elim (Bool-cases
          (is_running r p && command_string quote p.cmd == command_string quote cmd)) [
            | inl same ↦ rw (start, e, same) i
            | inr other ↦
                rw (start, e, other)
                  (try_launch-IsSingle (stop_process r p) a cmd ok (stop_process_alone r p e i))
          ]
  ]

  -- Where no process runs, a start before the cooldown is over is refused and leaves none.
  pub start_of_early :
      (r : Runner) (a : Attempt) (cmd : CommandSpec)
      → r.alive ≡ []
      → a.now < r.terminated + cooldown
      → ((start quote r a cmd).0.alive ≡ [])
        × ((start quote r a cmd).1 ≡ cooling (r.terminated + cooldown - a.now))
  unfolding start stop_process
  start_of_early r a cmd e h = elim (Option-cases r.proc) [
    | inl f ↦ rw (start, f) (try_launch_of_early r a cmd e h)
    | inr (p, f) ↦
        let idle : (is_running r p && command_string quote p.cmd == command_string quote cmd)
            ≡ false =
          rw e refl in
        rw (start, f, idle) (try_launch_of_early (stop_process r p) a cmd (rw e refl) h)
  ]

  step-IsSingle : (r : Runner) (e : Event) → IsKept e → IsSingle r → IsSingle (step quote r e)
  step-IsSingle r (starts a cmd) ok i = start-IsSingle r a cmd ok i
  step-IsSingle r stops ok i = no_process (stop_alone r i)
  step-IsSingle r (announces n) ok i = announce-IsSingle r n i
  step-IsSingle r (exits n) ok i = exit-IsSingle r n i
  step-IsSingle r (finishes n now bad) ok i = finish-IsSingle r n now bad i

  -- However starts with changing commands, stops, exits and reports follow one another, and whichever
  -- launches fail before there is a process: a runner has at most one process, which it holds, and once
  -- it was stopped it has none.
  pub run-IsSingle :
      (r : Runner) (es : List Event)
      → All IsKept es
      → IsSingle r
      → IsSingle (run quote r es) × ((stop (run quote r es)).alive ≡ [])
  run-IsSingle r [] ok i = (i, stop_alone r i)
  run-IsSingle r (e ∷ es) ok i = run-IsSingle (step quote r e) es ok.1 (step-IsSingle r e ok.0 i)
