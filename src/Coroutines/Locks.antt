-- ===== src/Coroutines/Locks.antt =====
-- scheduler.rs: the locks of the scheduler, of parking_lot, where they decide whether a call returns.
use bw_exp.Common.{ℕ, Option, none, some, Bool, true, false, if◌then◌else◌}
use bw_exp.Coroutines.{Engine}
use bw_exp.Coroutines.Scheduler.{CoroutineScheduler, spawn_scheduled}

-- Which locks the calling thread holds.
pub record Locks : Type 0 where
  pub coroutines : Bool
  pub tick_waiters : Bool
  pub event_waiters : Bool
  pub ready_queue : Bool

abbrev pub no_locks : Locks
no_locks = record {
  coroutines = false;
  tick_waiters = false;
  event_waiters = false;
  ready_queue = false;
}

-- Those that `handle_yield` holds when it calls on, if its caller holds none.
abbrev pub in_handler : Locks
in_handler = record no_locks { coroutines = true }

-- `body`, after a lock is taken. The locks are not reentrant: a thread that takes one that it holds
-- waits for itself, and `body` never runs. No value: the call does not return.
abbrev pub taking {ℓ} : {A : Type ℓ} → (held : Bool) → (body : Option A) → Option A
taking held body = if held then none else body

module _ {F D : Type 0} (engine : Engine F D) where
  -- `spawn_scheduled`, called by a thread that holds the locks `held`. It takes two, one after the
  -- other, once it has found the script. The inner `none` is its error.
  unfoldable pub spawn_scheduled_under :
      (held : Locks) (id script_path function_name now delay_ticks : ℕ) (owner sector : Option ℕ)
      → CoroutineScheduler D
      → Option (Option (CoroutineScheduler D))
  unfolding spawn_scheduled
  spawn_scheduled_under held id script_path function_name now delay_ticks owner sector s =
      if engine.has_script script_path
      then taking held.coroutines (
          taking held.tick_waiters (
            some
              (spawn_scheduled engine id script_path function_name now delay_ticks owner sector s)))
      else some none
