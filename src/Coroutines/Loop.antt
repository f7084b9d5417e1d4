-- ===== src/Coroutines/Loop.antt =====
-- scheduler.rs: what becomes of a coroutine that yields, and the loop of `tick`.
use bw_exp.Common.{ℕ, true, suc, zero, List, [], ◌∷◌, Option, none, some, length, push, unwrap_or}
use bw_exp.Common.Map.{lookup, insert, remove}
use bw_exp.Coroutines.{
  Coroutine, running, waiting_for_ticks, waiting_for_next_frame, waiting_for_event, YieldType,
  YieldRequest, ExecResult, Engine, ticks, seconds, next_frame, event, schedule, yielded, extend,
  add_u64,
}
use bw_exp.Coroutines.Scheduler.{
  CoroutineScheduler, enlist, enter, readied, wake_tick_waiters, wake_next_frame_waiters,
}
use bw_exp.Coroutines.Locks.{Locks, no_locks, taking, spawn_scheduled_under}

pub data ScriptError : Type 0 where
  script_failed : (error : List ℕ) → ScriptError
  coroutine_not_found : ScriptError

pub record CoroutineTickResult : Type 0 where
  pub completed : List ℕ
  pub failed : List (ℕ × ScriptError)
  pub pending_count : ℕ

-- The lists `completed` and `failed` of `tick`.
abbrev pub Finished : Type 0
Finished = List ℕ × List (ℕ × ScriptError)

abbrev pub with_finished {ℓ} : {A : Type ℓ} → Finished → Option A → Option (A × Finished)
with_finished finished none = none
with_finished finished (some a) = some (a, finished)

module _ {F D : Type 0} (engine : Engine F D) where
  abbrev park : ℕ → ℕ → Coroutine D → CoroutineScheduler D → CoroutineScheduler D
  park t id c s = record s {
    coroutines =
        insert id (record c { state = waiting_for_ticks; resume_at = some t }) s.coroutines;
    tick_waiters = enlist t id s.tick_waiters;
  }

  -- What becomes of a coroutine that yields, by a thread that holds the locks `held`. No value: the
  -- call never returns.
  unfoldable pub pause :
      (held : Locks)
      → ℕ
      → ℕ
      → Coroutine D
      → YieldType F
      → CoroutineScheduler D
      → Option (CoroutineScheduler D)
  unfolding enter spawn_scheduled_under
  pause held now id c (ticks n) s = taking held.tick_waiters (some (park (add_u64 now n) id c s))
  pause held now id c (seconds x) s =
      taking held.tick_waiters (some (park (add_u64 now (engine.to_ticks x)) id c s))
  pause held now id c next_frame s = some (record s {
    coroutines = insert id (record c { state = waiting_for_next_frame }) s.coroutines;
  })
  pause held now id c (event e) s = taking held.event_waiters (
      some (record s {
        coroutines = insert id (record c { state = waiting_for_event e }) s.coroutines;
        event_waiters = enlist e id s.event_waiters;
      }))
  pause held now id c (schedule delay_ticks callback) s =
      elim (spawn_scheduled_under engine held (engine.new_id now id) c.script_path callback now
        delay_ticks c.owner_entity_id c.sector_id s) [
          | none ↦ none
          | some spawned ↦
              taking held.ready_queue (some (enter id (readied c) (unwrap_or spawned s)))
        ]

  -- The lock on the coroutines is held to the end.
  unfoldable pub handle_yield :
      (held : Locks)
      → ℕ
      → ℕ
      → YieldRequest F D
      → CoroutineScheduler D
      → Option (CoroutineScheduler D)
  unfolding pause
  handle_yield held now id request s = taking held.coroutines (elim (lookup id s.coroutines) [
    | none ↦ some s
    | some c ↦
        pause (record held { coroutines = true }) now id
          (record c { local_vars = extend c.local_vars request.extra }) request.yield_type s
  ])

  -- What the loop of `tick` makes of the result of a coroutine.
  unfoldable pub settle :
      (held : Locks)
      → ℕ
      → ℕ
      → CoroutineScheduler D
      → Finished
      → ExecResult F D
      → Option (CoroutineScheduler D × Finished)
  unfolding handle_yield
  settle held now id s (done_ids, errors) (ExecResult.completed v) =
      taking held.coroutines
        (some (record s { coroutines = remove id s.coroutines }, (push done_ids id, errors)))
  settle held now id s finished (yielded request) =
      with_finished finished (handle_yield held now id request s)
  settle held now id s (done_ids, errors) (ExecResult.failed e) = taking held.coroutines (
      some (
        record s { coroutines = remove id s.coroutines },
        (done_ids, push errors (id, script_failed e)),
      ))

  -- One turn of the loop of `tick`, for the coroutine that the queue gave. A coroutine that is gone
  -- is an error. One that runs is stored as running, without its resume value, and the lock on the
  -- coroutines is released before the script runs.
  unfoldable pub resume :
      (held : Locks)
      → ℕ
      → ℕ
      → CoroutineScheduler D
      → Finished
      → Option (CoroutineScheduler D × Finished)
  unfolding settle
  resume held now id s finished = taking held.coroutines (elim (lookup id s.coroutines) [
    | none ↦ some (
      record s { coroutines = remove id s.coroutines },
      (finished.0, push finished.1 (id, coroutine_not_found)),
    )
    | some c ↦
        settle held now id
          (record s {
            coroutines = insert id (record c { state = running; resume_value = none }) s.coroutines;
          })
          finished (engine.call now c)
  ])

  -- The loop of `tick`, for at most `n` turns. The lock on the queue is released before a turn.
  unfoldable pub run_ready :
      ℕ → ℕ → CoroutineScheduler D → Finished → Option (CoroutineScheduler D × Finished)
  run_ready now zero s finished = some (s, finished)
  run_ready now (suc n) s finished = elim s.ready_queue [
    | [] ↦ some (s, finished)
    | id ∷ rest ↦ elim (resume no_locks now id (record s { ready_queue = rest }) finished) [
      | none ↦ none
      | some (t, more) ↦ run_ready now n t more
    ]
  ]

module _ {D : Type 0} where
  -- The result of `tick`, from what its loop leaves.
  abbrev pub report :
      Option (CoroutineScheduler D × Finished) → Option (CoroutineScheduler D × CoroutineTickResult)
  report none = none
  report (some (s, (done_ids, errors))) =
      some
        (s, record { completed = done_ids; failed = errors; pending_count = length s.coroutines })

module _ {F D : Type 0} (engine : Engine F D) where
  unfoldable pub tick :
      ℕ → CoroutineScheduler D → Option (CoroutineScheduler D × CoroutineTickResult)
  unfolding wake_tick_waiters wake_next_frame_waiters
  tick now s = report (
      run_ready engine now s.max_per_tick (wake_next_frame_waiters (wake_tick_waiters now s))
        ([], []))
