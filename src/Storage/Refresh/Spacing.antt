-- ===== src/Storage/Refresh/Spacing.antt =====
-- pkg/storage/refresh.go: how often the refresh is called.
use kubemate.Base.{
  ℕ, ◌+◌, ◌≤◌, ◌≡◌, refl, inl, inr, Bool, true, false, ◌||◌, ltb, List, [], ◌∷◌, All, Bool-cases,
  arith,
}
use kubemate.Storage.Refresh.{RateLimit, begin_refresh, finish_refresh}

-- The steps of any number of callers, in the order in which they get the mutex. `calls` has the times
-- that the call reads.
pub data Event : Type 0 where
  calls : ℕ → ℕ → Event
  finishes : Event

-- What is seen from outside: the refresh starts (at the time that was noted), or it ends.
pub data Seen : Type 0 where
  started : ℕ → Seen
  ended : Seen

abbrev pub note : RateLimit × Bool → ℕ → List Seen → List Seen
note (l, true) t seen = started t ∷ seen
note (l, false) t seen = seen

abbrev pub seen_of : ℕ → RateLimit → List Event → List Seen
seen_of interval l [] = []
seen_of interval l (calls now noted ∷ es) =
    note (begin_refresh interval now noted l) noted
      (seen_of interval (begin_refresh interval now noted l).0 es)
seen_of interval l (finishes ∷ es) = ended ∷ seen_of interval (finish_refresh l) es

-- A refresh starts only when none runs, and not before the interval after the last start has passed.
abbrev pub Spaced : ℕ → Bool → ℕ → List Seen → Type 0
Spaced interval busy last [] = Unit
Spaced interval busy last (started t ∷ seen) =
    (busy ≡ false) × (last + interval ≤ t) × Spaced interval true t seen
Spaced interval busy last (ended ∷ seen) = Spaced interval false last seen

abbrev pub Ordered : Event → Type 0
Ordered (calls now noted) = now ≤ noted
Ordered finishes = Unit

idle : (b c : Bool) → (b || c) ≡ false → (b ≡ false) × (c ≡ false)
idle true c h = cc
idle false c h = (refl, h)

begun :
    (interval now noted : ℕ) (l : RateLimit)
    → (l.refreshing || ltb now (l.last_refresh + interval)) ≡ false
    → now ≤ noted
    → l.last_refresh + interval ≤ noted
begun interval now noted l e le =
    let (i, late) = idle l.refreshing (ltb now (l.last_refresh + interval)) e in ground arith

-- However callers come and refreshes end, no refresh starts while another one runs, and two starts are
-- at least the interval apart (the clock never going back during one call).
pub seen_of-Spaced :
    (interval : ℕ) (l : RateLimit) (es : List Event)
    → All Ordered es
    → Spaced interval l.refreshing l.last_refresh (seen_of interval l es)
unfolding begin_refresh finish_refresh
seen_of-Spaced interval l [] ok = tt
seen_of-Spaced interval l (calls now noted ∷ es) ok =
    elim (Bool-cases (l.refreshing || ltb now (l.last_refresh + interval))) [
      | inl e ↦ rw e (seen_of-Spaced interval l es ok.1)
      | inr e ↦ rw e (
        (idle _ _ e).0,
        begun interval now noted l e ok.0,
        seen_of-Spaced interval (record { refreshing = true; last_refresh = noted }) es ok.1,
      )
    ]
seen_of-Spaced interval l (finishes ∷ es) ok = seen_of-Spaced interval (finish_refresh l) es ok.1
