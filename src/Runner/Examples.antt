-- ===== src/Runner/Examples.antt =====
-- Concrete cases of what was proved of pkg/runner.
use Prim.Native.Char.{Char}
use kubemate.Base.{inr, ℕ, ◌+◌, String, ◌≡◌, refl, true, Option, none, List, [], ◌∷◌, arith}
use kubemate.Base.Text.{chars, text}
use kubemate.Runner.{
  new, CommandSpec, Attempt, Launch, launched, refused, Event, starts, announces, exits, finishes,
  start, stop, announce, stop_process, finish, run,
}
use kubemate.Runner.Single.{IsSingle, no_process, run-IsSingle}
use kubemate.Runner.Spacing.{Cooled, launch_times, launch_times-Cooled}
use kubemate.Runner.Log.{translate, logged, warn}
use kubemate.Runner.Log.Lines.{Line, logrus, print, warn_word, translate-print}

abbrev quote : String → String
quote w = text ("\"" ∷ chars w)

abbrev sleep : CommandSpec
sleep = record { command = "sleep"; args = "9" ∷ [] }

abbrev ap_config : CommandSpec
ap_config = record { command = "hostapd"; args = "a b" ∷ [] }

abbrev attempt_at : ℕ → Launch → Attempt
attempt_at t l = record { now = t; later = t + 1; launch = l }

-- A process is replaced by another, whose start fails at first, and ends by itself.
abbrev day : List Event
day =
    starts (attempt_at 2000000000 (launched 7)) sleep
    ∷ announces 7
    ∷ starts (attempt_at 2500000000 (launched 8)) ap_config
    ∷ finishes 7 2600000000 true
    ∷ starts (attempt_at 4000000000 refused) ap_config
    ∷ starts (attempt_at 6000000000 (launched 9)) ap_config
    ∷ exits 9
    ∷ []

run-IsSingle_example : IsSingle (run quote new day) × ((stop (run quote new day)).alive ≡ [])
run-IsSingle_example =
    run-IsSingle quote new day
      ((λ n. cc), (tt, ((λ n. cc), (tt, ((λ n. cc), ((λ n. cc), (tt, tt))))))) (no_process refl)

launch_times-Cooled_example : Cooled 0 (launch_times quote new day)
launch_times-Cooled_example = launch_times-Cooled quote new day 0 1 (omega arith) (omega arith) (
  omega arith,
  omega arith,
  (
    omega arith,
    omega arith,
    (omega arith, (omega arith, omega arith, (omega arith, omega arith, tt))),
  ),
)

day_launches : launch_times quote new day ≡ 2000000000 ∷ 4000000000 ∷ 6000000000 ∷ []
unfolding start announce stop_process finish
day_launches = refl

abbrev plain : List Char → Option (List Char)
plain s = none

abbrev opened : Line
opened = logrus (chars "22") warn_word (chars "say \"no\"")

translate-print_example : translate plain (print opened) ≡ logged warn (chars "say \"no\"")
translate-print_example =
    translate-print plain opened (chars "say \"no\"") ((refl, (refl, tt)), tt) (inr (refl, refl))
