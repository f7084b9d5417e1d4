-- ===== src/Coroutines/Calls.antt =====
-- scheduler.rs: all calls of the scheduler, one after the other.
use bw_exp.Common.{ℕ, refl, arith, List, [], ◌∷◌, Option, none, some, inl, inr, Bool-cases}
use bw_exp.Common.Map.{Map, lookup}
use bw_exp.Coroutines
use bw_exp.Coroutines.{
  Coroutine, CoroutineState, Engine, YieldType, YieldRequest, ExecResult, ready, running,
  waiting_for_ticks, waiting_for_next_frame, waiting_for_event, add_u64, ticks, seconds, next_frame,
  event, schedule, yielded, extend,
}
use bw_exp.Coroutines.Scheduler.{
  CoroutineScheduler, waiters, enlist, enter, readied, cancel, cancel_for_entity, owned, spawn,
  spawn_with_context, spawn_scheduled, notify_event, wake_tick_waiters, wake_next_frame_waiters,
}
use bw_exp.Coroutines.Loop.{CoroutineTickResult, tick}
use bw_exp.Coroutines.Scheduler
use bw_exp.Coroutines.Tracking.{IsTrackedBut, IsTracked, weaken}
use bw_exp.Coroutines.Lifecycle.{
  enter-IsTracked, park-IsTracked, cancel-IsTracked, cancel_all-IsTracked, notify-IsTracked,
}
use bw_exp.Coroutines.Ticks.{Safe, SafeState, tick-IsTracked}

-- The calls of the scheduler, each with its tick where it has one.
pub data Call (D : Type 0) : Type 0 where
  spawns : (id script_path function_name now : ℕ) → Call D
  spawns_with_context : (id script_path function_name now : ℕ) (owner sector : Option ℕ) → Call D
  spawns_scheduled :
      (id script_path function_name now delay_ticks : ℕ) (owner sector : Option ℕ) → Call D
  cancels : (id : ℕ) → Call D
  cancels_for_entity : (entity : ℕ) → Call D
  notifies : (event_type : ℕ) → Map D → Call D
  ticks_on : (now : ℕ) → Call D

-- The state that is left where a call fails.
abbrev pub or_else {ℓ} : {A : Type ℓ} → A → Option A → A
or_else a none = a
or_else a (some b) = b

abbrev pub state_of {ℓ} : {A R : Type ℓ} → Option (A × R) → Option A
state_of none = none
state_of (some (a, r)) = some a

module _ {F D : Type 0} (engine : Engine F D) where
  -- No state: the call never returns.
  unfoldable pub handle : Call D → CoroutineScheduler D → Option (CoroutineScheduler D)
  handle (spawns id path f now) s = some (or_else s (spawn engine id path f now s))
  handle (spawns_with_context id path f now owner sector) s =
      some (or_else s (spawn_with_context engine id path f now owner sector s))
  handle (spawns_scheduled id path f now delay owner sector) s =
      some (or_else s (spawn_scheduled engine id path f now delay owner sector s))
  handle (cancels id) s = some (cancel id s).0
  handle (cancels_for_entity k) s = some (cancel_for_entity k s)
  handle (notifies e extra) s = some (notify_event engine e extra s)
  handle (ticks_on now) s = state_of (tick engine now s)

  -- Every call keeps it so that no coroutine is lost, if the call returns.
  pub handle-IsTracked :
      (c : Call D) (s : CoroutineScheduler D) → IsTracked s → SafeState IsTracked (handle c s)
  unfolding handle spawn spawn_with_context spawn_scheduled cancel_for_entity Coroutines.new
  handle-IsTracked (spawns id path f now) s h = elim (Bool-cases (engine.has_script path)) [
    | inl x ↦
        rw (x, spawn) (enter-IsTracked id (Coroutines.new path f now) s refl (weaken (id ∷ []) s h))
    | inr x ↦ rw (x, spawn) h
  ]
  handle-IsTracked (spawns_with_context id path f now owner sector) s h =
      elim (Bool-cases (engine.has_script path)) [
        | inl x ↦ rw (x, spawn_with_context) (enter-IsTracked id _ s refl (weaken (id ∷ []) s h))
        | inr x ↦ rw (x, spawn_with_context) h
      ]
  handle-IsTracked (spawns_scheduled id path f now delay owner sector) s h =
      elim (Bool-cases (engine.has_script path)) [
        | inl x ↦ rw (x, spawn_scheduled) (park-IsTracked id _ _ s refl refl (weaken (id ∷ []) s h))
        | inr x ↦ rw (x, spawn_scheduled) h
      ]
  handle-IsTracked (cancels id) s h = cancel-IsTracked id s h
  handle-IsTracked (cancels_for_entity k) s h = cancel_all-IsTracked _ s h
  handle-IsTracked (notifies e extra) s h = notify-IsTracked engine e extra s h
  handle-IsTracked (ticks_on now) s h = of_tick _ (tick-IsTracked engine now s h)
    where
      of_tick :
          (o : Option (CoroutineScheduler D × CoroutineTickResult))
          → Safe IsTracked o
          → SafeState IsTracked (state_of o)
      of_tick none g = tt
      of_tick (some (t, r)) g = g

  -- The calls, one after the other, for as long as they return.
  unfoldable pub run_calls : List (Call D) → CoroutineScheduler D → Option (CoroutineScheduler D)
  run_calls [] s = some s
  run_calls (c ∷ cs) s = elim (handle c s) [ none ↦ none | some t ↦ run_calls cs t ]

  run-IsTracked :
      (cs : List (Call D)) (s : CoroutineScheduler D)
      → IsTracked s
      → SafeState IsTracked (run_calls cs s)
  unfolding run_calls
  run-IsTracked [] s h = h
  run-IsTracked (c ∷ cs) s h = go (handle c s) (handle-IsTracked c s h) (run-IsTracked cs)
    where
      go :
          (o : Option (CoroutineScheduler D))
          → SafeState IsTracked o
          → ((t : CoroutineScheduler D) → IsTracked t → SafeState IsTracked (run_calls cs t))
          → SafeState IsTracked (elim o [ none ↦ none | some t ↦ run_calls cs t ])
      go none g later = tt
      go (some t) g later = later t g

  new-IsTracked : IsTracked {D = D} Scheduler.new
  unfolding IsTrackedBut Scheduler.new lookup
  new-IsTracked id c e o = absurd (ground (arith, e))

  -- Whatever calls a new scheduler gets, with any engine, for as long as they return no coroutine
  -- is lost: each one that it has is ready and queued, or waits for a tick or an event and is
  -- listed there, or waits for the next frame.
  pub run_calls-IsTracked : (cs : List (Call D)) → SafeState IsTracked (run_calls cs Scheduler.new)
  run_calls-IsTracked cs = run-IsTracked cs Scheduler.new new-IsTracked
