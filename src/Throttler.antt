-- ===== src/Throttler.antt =====
-- SDNSDK/Utils/MXThrottler.m: blocks that are handed over run at once or after a delay, and a newer
-- one takes the place of one that waits. The queue is part of the state: how many blocks were
-- dispatched at once and how many after a delay. A block is known by the number of the call that
-- handed it over; none calls the throttler itself. Times are natural numbers of a clock.
pub mod Pending
pub mod Order
mod Tests
use sendingnetwork_ios.Common.{
  ℕ, zero, suc, ◌+◌, ◌≤◌, ◌<◌, Bool, true, false, ◌≡◌, Option, none, some, List, [], ◌∷◌, ◌||◌,
  if◌then◌else◌, ltb, eqb,
}

pub record Throttler : Type 0 where
  pub minimum_delay : ℕ
  pub work_item : Option ℕ
  pub previous_run : Option ℕ  -- none is NSDate.distantPast
  pub is_timer_armed : Bool

-- The throttler with its queue, how many calls there were and which blocks ran, newest first.
pub record World : Type 0 where
  pub throttler : Throttler
  pub immediate : ℕ
  pub delayed : ℕ
  pub calls : ℕ
  pub ran : List ℕ

abbrev pub init : ℕ → World
init minimum_delay = record {
  throttler = record {
    minimum_delay = minimum_delay;
    work_item = none;
    previous_run = none;
    is_timer_armed = false;
  };
  immediate = 0;
  delayed = 0;
  calls = 0;
  ran = [];
}

unfoldable pub cancel_all : World → World
cancel_all w = record w { throttler = record w.throttler { work_item = none } }

-- Whether more than the delay went by since the previous run.
abbrev pub is_due : ℕ → ℕ → Option ℕ → Bool
is_due now minimum_delay none = true
is_due now minimum_delay (some previous_run) = ltb (previous_run + minimum_delay) now

-- A timer that is armed is left alone; else a delay of 0 dispatches at once, and any other one arms
-- the timer.
abbrev pub schedule : Bool → Bool → World → World
schedule true no_delay w = w
schedule false true w = record w { immediate = suc w.immediate }
schedule false false w = record w {
  delayed = suc w.delayed;
  throttler = record w.throttler { is_timer_armed = true };
}

unfoldable pub throttle : ℕ → World → World
throttle now w =
    let t = w.throttler in
    schedule t.is_timer_armed (is_due now t.minimum_delay t.previous_run || eqb t.minimum_delay 0)
      (record w { throttler = record t { work_item = some w.calls }; calls = suc w.calls })

-- `if (self->workItem) self->workItem();`
abbrev pub run_item : ℕ → Option ℕ → World → World
run_item now none w = w
run_item now (some block) w = record w {
  throttler = record w.throttler { work_item = none; previous_run = some now };
  ran = block ∷ w.ran;
}

-- A block that was dispatched at once gets its turn.
unfoldable pub run_immediate : ℕ → World → World
run_immediate now w = run_item now w.throttler.work_item w

-- The block of the timer gets its turn.
unfoldable pub run_delayed : ℕ → World → World
run_delayed now w =
    run_item now w.throttler.work_item
      (record w { throttler = record w.throttler { is_timer_armed = false } })

-- What can happen next: a call at some time, or the turn of a block in the queue, in any order.
pub data Step (w : World) : World → Type 0 where
  throttles : (now : ℕ) → Step w (throttle now w)
  cancels : Step w (cancel_all w)
  runs_immediate :
      (now n : ℕ) → w.immediate ≡ suc n → Step w (run_immediate now (record w { immediate = n }))
  runs_delayed :
      (now n : ℕ) → w.delayed ≡ suc n → Step w (run_delayed now (record w { delayed = n }))

pub data Reachable (minimum_delay : ℕ) : World → Type 0 where
  starts : Reachable minimum_delay (init minimum_delay)
  steps : {w w' : World} → Reachable minimum_delay w → Step w w' → Reachable minimum_delay w'
