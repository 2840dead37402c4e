-- ===== src/Throttler/Tests.antt =====
-- Two calls, the first of which runs at once, and then the timer.
use sendingnetwork_ios.Common.{◌≡◌, refl, [], ◌∷◌}
use sendingnetwork_ios.Throttler.{
  World, init, throttle, run_immediate, run_delayed, Reachable, starts, steps, throttles,
  runs_immediate, runs_delayed,
}
use sendingnetwork_ios.Throttler.Pending.{IsPending, Reachable-IsPending}
use sendingnetwork_ios.Throttler.Order.{Falling, Reachable-Falling}

abbrev first_run : World
first_run = run_immediate 11 (record (throttle 10 (init 5)) { immediate = 0 })

abbrev waiting : World
waiting = throttle 13 first_run

abbrev all_run : World
all_run = run_delayed 18 (record waiting { delayed = 0 })

waiting-Reachable : Reachable 5 waiting
unfolding throttle run_immediate
waiting-Reachable =
    steps (steps (steps starts (throttles 10)) (runs_immediate 11 0 refl)) (throttles 13)

Reachable-IsPending_example : IsPending waiting
Reachable-IsPending_example = Reachable-IsPending 5 waiting waiting-Reachable

all_run-Reachable : Reachable 5 all_run
unfolding throttle run_immediate run_delayed
all_run-Reachable = steps waiting-Reachable (runs_delayed 18 0 refl)

both_ran : all_run.ran ≡ 1 ∷ 0 ∷ []
unfolding throttle run_immediate run_delayed
both_ran = refl

Reachable-Falling_example : Falling all_run.calls all_run.ran
Reachable-Falling_example = Reachable-Falling 5 all_run all_run-Reachable
