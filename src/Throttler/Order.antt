-- ===== src/Throttler/Order.antt =====
-- The order in which the blocks of MXThrottler.m run.
use sendingnetwork_ios.Common.{
  ℕ, suc, ◌≤◌, ◌<◌, Bool, true, false, ◌≡◌, refl, subst, Option, none, some, List, [], ◌∷◌, ◌||◌,
  arith, eqb,
}
use sendingnetwork_ios.Throttler.{
  World, cancel_all, is_due, schedule, throttle, run_item, run_immediate, run_delayed, Step,
  throttles, cancels, runs_immediate, runs_delayed, Reachable, starts, steps,
}

-- Numbers below a bound, each below the one before it.
abbrev pub Falling : ℕ → List ℕ → Type 0
Falling bound [] = Unit
Falling bound (x ∷ xs) = (x < bound) × Falling x xs

-- A block that waits is newer than all that ran.
abbrev Waits : Option ℕ → ℕ → List ℕ → Type 0
Waits none calls ran = Falling calls ran
Waits (some block) calls ran = (block < calls) × Falling block ran

weaken-Falling : (a b : ℕ) (xs : List ℕ) → a ≤ b → Falling a xs → Falling b xs
weaken-Falling a b [] h f = tt
weaken-Falling a b (x ∷ xs) h f = (omega (arith, f.0), f.1)

Waits-Falling : (o : Option ℕ) (calls : ℕ) (ran : List ℕ) → Waits o calls ran → Falling calls ran
Waits-Falling none calls ran h = h
Waits-Falling (some block) calls ran h = weaken-Falling block calls ran (omega (arith, h.0)) h.1

abbrev IsOrdered : World → Type 0
IsOrdered w = Waits w.throttler.work_item w.calls w.ran

schedule-IsOrdered :
    (armed no_delay : Bool) (w : World) → IsOrdered w → IsOrdered (schedule armed no_delay w)
schedule-IsOrdered true no_delay w v = v
schedule-IsOrdered false true w v = v
schedule-IsOrdered false false w v = v

throttle-IsOrdered : (now : ℕ) (w : World) → IsOrdered w → IsOrdered (throttle now w)
unfolding throttle
throttle-IsOrdered now w v =
    let t = w.throttler in
    schedule-IsOrdered t.is_timer_armed
      (is_due now t.minimum_delay t.previous_run || eqb t.minimum_delay 0)
      (record w { throttler = record t { work_item = some w.calls }; calls = suc w.calls })
      (omega arith, Waits-Falling t.work_item w.calls w.ran v)

run_item-IsOrdered :
    (now : ℕ) (o : Option ℕ) (w : World)
    → w.throttler.work_item ≡ o
    → IsOrdered w
    → IsOrdered (run_item now o w)
run_item-IsOrdered now none w e v = v
run_item-IsOrdered now (some block) w e v = subst (λ o. Waits o w.calls w.ran) e v

Step-IsOrdered : (w w' : World) → Step w w' → IsOrdered w → IsOrdered w'
unfolding cancel_all run_immediate run_delayed
Step-IsOrdered w w' (throttles now) v = throttle-IsOrdered now w v
Step-IsOrdered w w' cancels v = Waits-Falling w.throttler.work_item w.calls w.ran v
Step-IsOrdered w w' (runs_immediate now n e) v =
    run_item-IsOrdered now w.throttler.work_item (record w { immediate = n }) refl v
Step-IsOrdered w w' (runs_delayed now n e) v =
    run_item-IsOrdered now w.throttler.work_item
      (record w { delayed = n; throttler = record w.throttler { is_timer_armed = false } }) refl v

ordered : (minimum_delay : ℕ) (w : World) → Reachable minimum_delay w → IsOrdered w
ordered minimum_delay w starts = tt
ordered minimum_delay w (steps {w = u} r s) = Step-IsOrdered u w s (ordered minimum_delay u r)

-- In every state that calls, cancellations and turns of the queue lead to, the blocks that ran are
-- ones that were handed over, each ran once, and in the order of their calls.
pub Reachable-Falling :
    (minimum_delay : ℕ) (w : World) → Reachable minimum_delay w → Falling w.calls w.ran
Reachable-Falling minimum_delay w r =
    Waits-Falling w.throttler.work_item w.calls w.ran (ordered minimum_delay w r)
