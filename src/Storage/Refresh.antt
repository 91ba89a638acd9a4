-- ===== src/Storage/Refresh.antt =====
-- pkg/storage/refresh.go: the rate limit of a store that is refreshed while it is used. The two parts
-- of a limited call under the mutex are steps of their own (`begin_refresh`, `finish_refresh`); times
-- are nanoseconds, counted from Go's zero time, and a call reads the clock once for its test and once
-- more for the time that it notes.
pub mod Spacing
pub mod Examples
use kubemate.Base.{ℕ, ◌+◌, Bool, true, false, ◌||◌, ltb, List, [], ◌∷◌, if◌then◌else◌}

pub record RateLimit : Type 0 where
  pub refreshing : Bool
  pub last_refresh : ℕ

abbrev pub rate_limit : RateLimit
rate_limit = record { refreshing = false; last_refresh = 0 }

-- The state after the first part, and whether the call goes on to `fn`.
pub begin_refresh : ℕ → ℕ → ℕ → RateLimit → RateLimit × Bool
begin_refresh interval now noted l =
    if l.refreshing || ltb now (l.last_refresh + interval)
    then (l, false)
    else (record { refreshing = true; last_refresh = noted }, true)

-- What is deferred.
pub finish_refresh : RateLimit → RateLimit
finish_refresh l = record l { refreshing = false }
