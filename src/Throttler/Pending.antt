-- ===== src/Throttler/Pending.antt =====
-- What the queue of MXThrottler.m holds, against its timer and the block that waits.
use sendingnetwork_ios.Common.{
  ℕ, suc, ◌+◌, ◌≤◌, Bool, true, false, ◌≡◌, refl, sym, ap, ◌∙◌, Option, none, some, ◌||◌, is_some,
  arith, eqb,
}
use sendingnetwork_ios.Throttler.{
  World, cancel_all, is_due, schedule, throttle, run_item, run_immediate, run_delayed, Step,
  throttles, cancels, runs_immediate, runs_delayed, Reachable, starts, steps,
}

abbrev pub one_if : Bool → ℕ
one_if true = 1
one_if false = 0

-- The timer is armed for the one block that is in the queue with a delay, and where a block waits
-- to run, a turn for it is in the queue.
pub record IsPending (w : World) : Type 0 where
  pub armed : w.delayed ≡ one_if w.throttler.is_timer_armed
  pub waiting : one_if (is_some w.throttler.work_item) ≤ w.immediate + w.delayed

schedule-IsPending :
    (armed no_delay : Bool) (w : World)
    → w.throttler.is_timer_armed ≡ armed
    → w.delayed ≡ one_if armed
    → IsPending (schedule armed no_delay w)
schedule-IsPending true no_delay w e d = record {
  armed = d ∙ ap one_if (sym e);
  waiting = ground arith;
}
schedule-IsPending false true w e d = record {
  armed = d ∙ ap one_if (sym e);
  waiting = ground arith;
}
schedule-IsPending false false w e d = record { armed = omega arith; waiting = ground arith }

throttle-IsPending : (now : ℕ) (w : World) → IsPending w → IsPending (throttle now w)
unfolding throttle
throttle-IsPending now w v =
    let t = w.throttler in
    schedule-IsPending t.is_timer_armed
      (is_due now t.minimum_delay t.previous_run || eqb t.minimum_delay 0)
      (record w { throttler = record t { work_item = some w.calls }; calls = suc w.calls }) refl
      v.armed

run_item-IsPending :
    (now : ℕ) (o : Option ℕ) (w : World)
    → w.throttler.work_item ≡ o
    → w.delayed ≡ one_if w.throttler.is_timer_armed
    → IsPending (run_item now o w)
run_item-IsPending now none w e a = record { armed = a; waiting = ground (arith, ap is_some e) }
run_item-IsPending now (some block) w e a = record { armed = a; waiting = omega arith }

delayed_turn : (armed : Bool) (delayed n : ℕ) → delayed ≡ one_if armed → delayed ≡ suc n → n ≡ 0
delayed_turn true delayed n a e = omega (arith, a, e)
delayed_turn false delayed n a e = omega (arith, a, e)

Step-IsPending : (w w' : World) → Step w w' → IsPending w → IsPending w'
unfolding cancel_all run_immediate run_delayed
Step-IsPending w w' (throttles now) v = throttle-IsPending now w v
Step-IsPending w w' cancels v = record { armed = v.armed; waiting = omega arith }
Step-IsPending w w' (runs_immediate now n e) v =
    run_item-IsPending now w.throttler.work_item (record w { immediate = n }) refl v.armed
Step-IsPending w w' (runs_delayed now n e) v =
    run_item-IsPending now w.throttler.work_item
      (record w { delayed = n; throttler = record w.throttler { is_timer_armed = false } }) refl
      (delayed_turn w.throttler.is_timer_armed w.delayed n v.armed e)

-- In every state that calls, cancellations and turns of the queue lead to, in any order and at any
-- times, the timer is armed exactly when one delayed block is in the queue, never more, and while
-- a block waits to run some turn for it is in the queue.
pub Reachable-IsPending : (minimum_delay : ℕ) (w : World) → Reachable minimum_delay w → IsPending w
Reachable-IsPending minimum_delay w starts = record { armed = refl; waiting = omega arith }
Reachable-IsPending minimum_delay w (steps {w = u} r s) =
    Step-IsPending u w s (Reachable-IsPending minimum_delay u r)
