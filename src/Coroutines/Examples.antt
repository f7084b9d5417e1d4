-- ===== src/Coroutines/Examples.antt =====
-- Runs of the scheduler: script 1 waits for five ticks each time, script 2 asks for a callback.
use bw_exp.Common.{ℕ, ◌≡◌, ◌<◌, ◌≤◌, refl, arith, List, [], ◌∷◌, none, some, true, is_some}
use bw_exp.Common.Ids.{contains}
use bw_exp.Common.Map.{lookup, insert}
use bw_exp.Coroutines
use bw_exp.Coroutines.{Coroutine, Engine, ExecResult, yielded, ticks, schedule, waiting_for_ticks}
use bw_exp.Coroutines.Scheduler.{
  CoroutineScheduler, enter, wake_tick_waiters, wake_next_frame_waiters,
}
use bw_exp.Coroutines.Loop.{CoroutineTickResult, tick}
use bw_exp.Coroutines.Scheduler
use bw_exp.Coroutines.Loop
use bw_exp.Coroutines.Tracking.{IsTracked}
use bw_exp.Coroutines.Ticks.{SafeState}
use bw_exp.Coroutines.Calls.{
  Call, spawns, spawns_scheduled, ticks_on, notifies, cancels, handle, run_calls,
  run_calls-IsTracked,
}
use bw_exp.Coroutines.Bounds.{tick_bound}
use bw_exp.Coroutines.Waking.{wake_tick_waiters_lem}
use bw_exp.Coroutines.Locks.{no_locks, spawn_scheduled_under}
use bw_exp.Coroutines.Returns.{NeverSchedules, Blocks, tick_returns, tick_never_returns}

abbrev waits : ExecResult ℕ ℕ
waits = yielded (record { yield_type = ticks 5; extra = [] })

abbrev asks : ExecResult ℕ ℕ
asks = yielded (record { yield_type = schedule 3 7; extra = [] })

-- An engine where every script waits, and one where every script asks.
abbrev patient : Engine ℕ ℕ
patient = record {
  has_script = λ path. true;
  call = λ now c. waits;
  from_map = λ m. 0;
  to_ticks = λ x. x;
  new_id = λ now id. 7;
}

abbrev eager : Engine ℕ ℕ
eager = record {
  has_script = λ path. true;
  call = λ now c. asks;
  from_map = λ m. 0;
  to_ticks = λ x. x;
  new_id = λ now id. 7;
}

abbrev calls : List (Call ℕ)
calls =
    spawns 1 8 9 0
    ∷ spawns_scheduled 2 8 9 0 4 none none
    ∷ ticks_on 1
    ∷ notifies 6 []
    ∷ cancels 2
    ∷ []

run_calls-IsTracked_example : SafeState IsTracked (run_calls patient calls Scheduler.new)
run_calls-IsTracked_example = run_calls-IsTracked patient calls

empty-IsTracked : IsTracked {D = ℕ} Scheduler.new
unfolding bw_exp.Coroutines.Tracking.IsTrackedBut run_calls
empty-IsTracked = run_calls-IsTracked patient []

abbrev one_ready : CoroutineScheduler ℕ
one_ready = enter 1 (Coroutines.new 8 9 0) Scheduler.new

one_ready-IsTracked : IsTracked one_ready
unfolding bw_exp.Coroutines.Tracking.IsTrackedBut run_calls handle enter Scheduler.spawn
one_ready-IsTracked = run_calls-IsTracked patient (spawns 1 8 9 0 ∷ [])

abbrev sleeper : Coroutine ℕ
sleeper = record (Coroutines.new 8 9 0) { state = waiting_for_ticks; resume_at = some 4 }

abbrev one_asleep : CoroutineScheduler ℕ
one_asleep = record Scheduler.new {
  coroutines = (2, sleeper) ∷ [];
  tick_waiters = (4, 2 ∷ []) ∷ [];
}

one_asleep-IsTracked : IsTracked one_asleep
unfolding bw_exp.Coroutines.Tracking.IsTrackedBut run_calls handle Scheduler.spawn_scheduled insert
    Scheduler.new Coroutines.new lookup
one_asleep-IsTracked = run_calls-IsTracked patient (spawns_scheduled 2 8 9 0 4 none none ∷ [])

asleep : lookup 2 one_asleep.coroutines ≡ some sleeper
unfolding lookup
asleep = refl

wake_tick_waiters_lem_example :
    ((4 ≤ 4)
      → (lookup 2 (wake_tick_waiters 4 one_asleep).coroutines ≡ some (Scheduler.readied sleeper))
        × (contains (wake_tick_waiters 4 one_asleep).ready_queue 2 ≡ true))
    × ((lookup 2 (wake_tick_waiters 4 one_asleep).coroutines ≡ some sleeper) → 4 < 4)
wake_tick_waiters_lem_example =
    wake_tick_waiters_lem 4 one_asleep 2 4 sleeper one_asleep-IsTracked asleep refl refl

never_asks : NeverSchedules patient
never_asks now c request e = ground (arith, e)

tick_returns_example : is_some (tick patient 1 one_ready) ≡ true
tick_returns_example = tick_returns patient never_asks 1 one_ready

abbrev after_tick : CoroutineScheduler ℕ
after_tick = record Scheduler.new {
  coroutines =
      (1, record (Coroutines.new 8 9 0) { state = waiting_for_ticks; resume_at = some 6 }) ∷ [];
  tick_waiters = (6, 1 ∷ []) ∷ [];
}

abbrev nothing_finished : CoroutineTickResult
nothing_finished = record { completed = []; failed = []; pending_count = 1 }

ticked : tick patient 1 one_ready ≡ some (after_tick, nothing_finished)
unfolding tick Loop.run_ready enter Scheduler.new Scheduler.wake_all Scheduler.frame_waiters
    Scheduler.wake_ticks Scheduler.keys insert Coroutines.new Loop.resume lookup Coroutines.extend
ticked = refl

tick_bound_example : (0 ≤ 100) × (◌≡◌ {A = ℕ} 1 1)
unfolding enter Scheduler.new
tick_bound_example = tick_bound patient 1 one_ready after_tick nothing_finished ticked

-- The same request from a thread that holds no lock spawns the callback.
unblocked :
    spawn_scheduled_under eager no_locks 7 8 9 1 3 none none one_ready
    ≡ some (Scheduler.spawn_scheduled eager 7 8 9 1 3 none none one_ready)
unfolding spawn_scheduled_under
unblocked = refl

blocks : Blocks eager 1 (Coroutines.new 8 9 0)
blocks = (record { yield_type = schedule 3 7; extra = [] }, 3, 7, refl, refl, refl)

tick_never_returns_example : tick eager 1 one_ready ≡ none
unfolding enter Scheduler.new wake_next_frame_waiters Scheduler.wake_all Scheduler.frame_waiters
    wake_tick_waiters Scheduler.wake_ticks Scheduler.keys insert Coroutines.new lookup
tick_never_returns_example =
    tick_never_returns eager 1 1 [] one_ready (Coroutines.new 8 9 0) (omega arith) refl refl blocks
