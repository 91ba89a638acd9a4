-- ===== src/Runner/Spacing.antt =====
-- pkg/runner/runner.go: the time between two launches.
use kubemate.Base.{
  ℕ, String, ◌≡◌, ◌≤◌, ◌+◌, refl, inl, inr, Bool, true, false, List, [], ◌∷◌, ◌==◌, ◌&&◌, ltb,
  Option-cases, Bool-cases, arith, if◌then◌else◌,
}
use kubemate.Runner.{
  Runner, CommandSpec, Attempt, Launch, launched, lost, refused, Started, unchanged, started,
  panicked, cooling, cooldown, is_running, stop_process, stop, launch, try_launch, command_string,
  start, pick, announce, finish, exit, Event, starts, stops, announces, exits, finishes,
}

-- Whether `Start` has come to launch a process, with or without success.
abbrev pub has_launched : Started → Bool
has_launched unchanged = false
has_launched (cooling d) = false
has_launched started = true
has_launched panicked = true

abbrev note : Bool → ℕ → List ℕ → List ℕ
note b t ts = if b then t ∷ ts else ts

-- The clock, which does not go back, stands at `t` before these events.
abbrev pub Clock : ℕ → List Event → Type 0
Clock t [] = Unit
Clock t (starts a cmd ∷ es) = (t ≤ a.now) × (a.now ≤ a.later) × Clock a.later es
Clock t (finishes n now bad ∷ es) = (t ≤ now) × Clock now es
Clock t (stops ∷ es) = Clock t es
Clock t (announces n ∷ es) = Clock t es
Clock t (exits n ∷ es) = Clock t es

-- Each launch comes at least the cooldown after the one before it, the first after `last`.
abbrev pub Cooled : ℕ → List ℕ → Type 0
Cooled last [] = Unit
Cooled last (t ∷ ts) = (last + cooldown ≤ t) × Cooled t ts

module _ (quote : String → String) where
  -- The times at which processes were launched.
  abbrev pub launch_times : Runner → List Event → List ℕ
  launch_times r [] = []
  launch_times r (starts a cmd ∷ es) =
      note (has_launched (start quote r a cmd).1) a.now (launch_times (start quote r a cmd).0 es)
  launch_times r (stops ∷ es) = launch_times (stop r) es
  launch_times r (announces n ∷ es) = launch_times (announce r n) es
  launch_times r (exits n ∷ es) = launch_times (exit r n) es
  launch_times r (finishes n now bad ∷ es) = launch_times (finish r n now bad) es

  -- What an attempt does to the noted time.
  data Tried (base : ℕ) (a : Attempt) (o : Runner × Started) : Type 0 where
    waits : has_launched o.1 ≡ false → o.0.terminated ≡ base → Tried base a o
    launches :
        has_launched o.1 ≡ true
        → base + cooldown ≤ a.now
        → o.0.terminated ≡ a.later
        → Tried base a o

  launch-Tried :
      (r : Runner) (a : Attempt) (cmd : CommandSpec) (l : Launch)
      → r.terminated + cooldown ≤ a.now
      → Tried r.terminated a (launch (record r { terminated = a.later }) cmd l)
  unfolding launch
  launch-Tried r a cmd (launched n) h = launches refl h refl
  launch-Tried r a cmd (lost n) h = launches refl h refl
  launch-Tried r a cmd refused h = launches refl h refl

  try_launch-Tried :
      (r : Runner) (a : Attempt) (cmd : CommandSpec) → Tried r.terminated a (try_launch r a cmd)
  unfolding try_launch
  try_launch-Tried r a cmd = elim (Bool-cases (ltb a.now (r.terminated + cooldown))) [
    | inl early ↦ rw early (waits refl refl)
    | inr late ↦ rw late (launch-Tried r a cmd a.launch (ground arith))
  ]

  start-Tried :
      (r : Runner) (a : Attempt) (cmd : CommandSpec) → Tried r.terminated a (start quote r a cmd)
  unfolding start stop_process
  start-Tried r a cmd = elim (Option-cases r.proc) [
    | inl e ↦ rw (start, e) (try_launch-Tried r a cmd)
    | inr (p, e) ↦
        elim (Bool-cases
          (is_running r p && command_string quote p.cmd == command_string quote cmd)) [
            | inl same ↦ rw (start, e, same) (waits refl refl)
            | inr other ↦ rw (start, e, other) (try_launch-Tried (stop_process r p) a cmd)
          ]
  ]

  stop_terminated : (r : Runner) → (stop r).terminated ≡ r.terminated
  unfolding stop stop_process
  stop_terminated r = elim (Option-cases r.proc) [
    | inl e ↦ rw (stop, e) refl
    | inr (p, e) ↦ rw (stop, e) refl
  ]

  announce_terminated : (r : Runner) (n : ℕ) → (announce r n).terminated ≡ r.terminated
  unfolding announce
  announce_terminated r n = elim (Option-cases (pick n r.fresh)) [
    | inl e ↦ rw (announce, e) refl
    | inr (p, e) ↦ rw (announce, e) refl
  ]

  finish_terminated :
      (r : Runner) (n now : ℕ) (bad : Bool) (last : ℕ)
      → last ≤ r.terminated
      → last ≤ now
      → last ≤ (finish r n now bad).terminated
  unfolding finish
  finish_terminated r n now bad last h k = elim (Option-cases (pick n r.watched)) [
    | inl e ↦ rw (finish, e) h
    | inr (p, e) ↦ elim (Bool-cases (is_running r p.0)) [
      | inl there ↦ rw (finish, e, there) h
      | inr gone ↦ rw (finish, e, gone) k
    ]
  ]

  -- Launches are at least the cooldown apart, also those that fail, however starts with changing
  -- commands, stops, exits and reports follow one another: every launch comes a second or more after
  -- the launch before it (the clock never going back).
  pub launch_times-Cooled :
      (r : Runner) (es : List Event) (last t : ℕ)
      → last ≤ r.terminated
      → last ≤ t
      → Clock t es
      → Cooled last (launch_times r es)
  unfolding exit
  launch_times-Cooled r [] last t h k c = tt
  launch_times-Cooled r (starts a cmd ∷ es) last t h k c = elim (start-Tried r a cmd) [
    | waits no_launch same ↦
        rw no_launch
          (launch_times-Cooled _ es last a.later (rw same h) (omega (arith, k, c.0, c.1)) c.2)
    | launches launch wait later ↦
        rw launch
          (omega (arith, h, wait), launch_times-Cooled _ es a.now a.later (rw later c.1) c.1 c.2)
  ]
  launch_times-Cooled r (stops ∷ es) last t h k c =
      launch_times-Cooled (stop r) es last t (rw (stop_terminated r) h) k c
  launch_times-Cooled r (announces n ∷ es) last t h k c =
      launch_times-Cooled (announce r n) es last t (rw (announce_terminated r n) h) k c
  launch_times-Cooled r (exits n ∷ es) last t h k c = launch_times-Cooled (exit r n) es last t h k c
  launch_times-Cooled r (finishes n now bad ∷ es) last t h k c =
      launch_times-Cooled (finish r n now bad) es last now
        (finish_terminated r n now bad last h (omega (arith, k, c.0))) (omega (arith, k, c.0)) c.1
