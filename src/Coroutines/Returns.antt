-- ===== src/Coroutines/Returns.antt =====
-- scheduler.rs: when a tick returns, and when it never does.
use bw_exp.Common.{
  ℕ, zero, suc, ◌<◌, ◌≡◌, refl, ◌∙◌, ap, arith, List, [], ◌∷◌, Option, none, some, Bool, true,
  false, is_some, inl, inr, Option-cases,
}
use bw_exp.Common.Map.{lookup, insert, lookup-insert}
use bw_exp.Coroutines.{
  Coroutine, Engine, YieldType, YieldRequest, ExecResult, running, ticks, seconds, next_frame,
  event, schedule, yielded, extend,
}
use bw_exp.Coroutines.Scheduler.{CoroutineScheduler, wake_tick_waiters, wake_next_frame_waiters}
use bw_exp.Common.{◌&&◌}
use bw_exp.Coroutines.Locks.{no_locks, in_handler, spawn_scheduled_under}
use bw_exp.Coroutines.Loop.{
  Finished, with_finished, settle, pause, handle_yield, resume, run_ready, report, tick,
}

abbrev pub schedules : {F : Type 0} → YieldType F → Bool
schedules (schedule delay callback) = true
schedules _ = false

-- No coroutine of a script that exists ever asks for a callback.
abbrev pub NeverSchedules : {F D : Type 0} → Engine F D → Type 0
NeverSchedules engine =
    (now : ℕ) (c : Coroutine _) (request : YieldRequest _ _)
    → engine.call now c ≡ yielded request
    → schedules request.yield_type && engine.has_script c.script_path ≡ false

is_some-with_finished :
    {A : Type 0} (finished : Finished) (o : Option A)
    → is_some (with_finished finished o) ≡ is_some o
is_some-with_finished finished none = refl
is_some-with_finished finished (some a) = refl

is_some-report :
    {D : Type 0} (o : Option (CoroutineScheduler D × Finished)) → is_some (report o) ≡ is_some o
is_some-report none = refl
is_some-report (some a) = refl

-- `execute_coroutine` stores the coroutine that it runs.
stored :
    {D : Type 0} (id : ℕ) (c : Coroutine D) (s : CoroutineScheduler D)
    → lookup id (insert id (record c { state = running; resume_value = none }) s.coroutines)
      ≡ some (record c { state = running; resume_value = none })
stored id c s =
    ground
      (arith, lookup-insert id id (record c { state = running; resume_value = none }) s.coroutines)

module _ {F D : Type 0} (engine : Engine F D) (never : NeverSchedules engine) where
  pause_returns :
      (now id : ℕ) (c : Coroutine D) (y : YieldType F) (s : CoroutineScheduler D)
      → schedules y && engine.has_script c.script_path ≡ false
      → is_some (pause engine in_handler now id c y s) ≡ true
  unfolding pause spawn_scheduled_under
  pause_returns now id c (ticks n) s h = refl
  pause_returns now id c (seconds x) s h = refl
  pause_returns now id c next_frame s h = refl
  pause_returns now id c (event e) s h = refl
  pause_returns now id c (schedule delay callback) s h = rw (h, pause) refl

  handle_yield_returns :
      (now id : ℕ) (request : YieldRequest F D) (s : CoroutineScheduler D) (c : Coroutine D)
      → lookup id s.coroutines ≡ some c
      → schedules request.yield_type && engine.has_script c.script_path ≡ false
      → is_some (handle_yield engine no_locks now id request s) ≡ true
  unfolding handle_yield
  handle_yield_returns now id request s c there h =
      rw (there, handle_yield)
        (pause_returns now id (record c { local_vars = extend c.local_vars request.extra })
          request.yield_type s h)

  settle_returns :
      (now id : ℕ) (s : CoroutineScheduler D) (finished : Finished) (r : ExecResult F D)
      (c : Coroutine D)
      → lookup id s.coroutines ≡ some c
      → ((request : YieldRequest F D)
          → r ≡ yielded request
          → schedules request.yield_type && engine.has_script c.script_path ≡ false)
      → is_some (settle engine no_locks now id s finished r) ≡ true
  unfolding settle
  settle_returns now id s finished (ExecResult.completed v) c there h = refl
  settle_returns now id s finished (ExecResult.failed e) c there h = refl
  settle_returns now id s finished (yielded request) c there h =
      is_some-with_finished finished (handle_yield engine no_locks now id request s)
      ∙ handle_yield_returns now id request s c there (h request refl)

  resume_returns :
      (now id : ℕ) (s : CoroutineScheduler D) (finished : Finished)
      → is_some (resume engine no_locks now id s finished) ≡ true
  unfolding resume
  resume_returns now id s finished = elim (Option-cases (lookup id s.coroutines)) [
    | inl gone ↦ rw (gone, resume) refl
    | inr (c, there) ↦
        rw (there, resume)
          (settle_returns now id _ finished (engine.call now c)
            (record c { state = running; resume_value = none }) (stored id c s) (never now c))
  ]

  run_ready_returns :
      (now n : ℕ) (s : CoroutineScheduler D) (finished : Finished)
      → is_some (run_ready engine now n s finished) ≡ true
  unfolding run_ready
  run_ready_returns now zero s finished = refl
  run_ready_returns now (suc n) s finished =
      turn s.ready_queue (λ t more. run_ready_returns now n t more)
    where
      Rest : Type 0
      Rest =
          (t : CoroutineScheduler D) (more : Finished)
          → is_some (run_ready engine now n t more) ≡ true

      go :
          (o : Option (CoroutineScheduler D × Finished))
          → Rest
          → is_some o ≡ true
          → is_some {A = CoroutineScheduler D × Finished}
              (elim o [ none ↦ none | some (t, more) ↦ run_ready engine now n t more ])
            ≡ true
      go none later h = h
      go (some (t, more)) later h = later t more

      turn :
          (q : List ℕ)
          → Rest
          → is_some {A = CoroutineScheduler D × Finished} (elim q [
            | [] ↦ some (s, finished)
            | id ∷ rest ↦
                elim (resume engine no_locks now id (record s { ready_queue = rest }) finished) [
                  | none ↦ none
                  | some (t, more) ↦ run_ready engine now n t more
                ]
          ])
            ≡ true
      turn [] later = refl
      turn (id ∷ rest) later =
          go (resume engine no_locks now id (record s { ready_queue = rest }) finished) later
            (resume_returns now id _ finished)

  -- If no coroutine of a script that exists ever asks for a callback to be scheduled, then every
  -- tick returns.
  pub tick_returns : (now : ℕ) (s : CoroutineScheduler D) → is_some (tick engine now s) ≡ true
  unfolding tick
  tick_returns now s = is_some-report _ ∙ run_ready_returns now s.max_per_tick _ ([], [])

module _ {F D : Type 0} (engine : Engine F D) where
  -- The coroutine asks for a callback and its script is there.
  abbrev pub Blocks : ℕ → Coroutine D → Type 0
  Blocks now c =
      (request : YieldRequest F D) × (delay : ℕ) × (callback : ℕ) × (engine.call now c
        ≡ yielded request)
      × (request.yield_type ≡ schedule delay callback)
      × (engine.has_script c.script_path ≡ true)

  handle_yield_blocked :
      (now id delay callback : ℕ) (request : YieldRequest F D) (s : CoroutineScheduler D)
      (c : Coroutine D)
      → lookup id s.coroutines ≡ some c
      → request.yield_type ≡ schedule delay callback
      → engine.has_script c.script_path ≡ true
      → handle_yield engine no_locks now id request s ≡ none
  unfolding handle_yield pause spawn_scheduled_under
  handle_yield_blocked now id delay callback request s c there kind known =
      ground (arith, there, kind, known)

  resume_blocked :
      (now id : ℕ) (s : CoroutineScheduler D) (c : Coroutine D) (finished : Finished)
      → lookup id s.coroutines ≡ some c
      → Blocks now c
      → resume engine no_locks now id s finished ≡ none
  unfolding resume settle handle_yield pause
  resume_blocked now id s c finished there (request, delay, callback, asks, kind, known) =
      rw (there, asks, resume)
        (ap (with_finished finished) (
          handle_yield_blocked now id delay callback request _
            (record c { state = running; resume_value = none }) (stored id c s) kind known))

  run_ready_blocked :
      (now n id : ℕ) (rest : List ℕ) (s : CoroutineScheduler D) (c : Coroutine D)
      (finished : Finished)
      → 0 < n
      → s.ready_queue ≡ id ∷ rest
      → lookup id s.coroutines ≡ some c
      → Blocks now c
      → run_ready engine now n s finished ≡ none
  unfolding run_ready
  run_ready_blocked now zero id rest s c finished some_room first there b =
      absurd (ground (arith, some_room))
  run_ready_blocked now (suc n) id rest s c finished some_room first there b =
      rw (first, run_ready)
        (rw (resume_blocked now id (record s { ready_queue = rest }) c finished there b) refl)

  -- If the first coroutine that a tick runs asks for a callback to be scheduled, and the script
  -- of the coroutine exists, then the tick never returns: the lock on the coroutines is taken
  -- twice.
  pub tick_never_returns :
      (now id : ℕ) (rest : List ℕ) (s : CoroutineScheduler D) (c : Coroutine D)
      → 0 < s.max_per_tick
      → (wake_next_frame_waiters (wake_tick_waiters now s)).ready_queue ≡ id ∷ rest
      → lookup id (wake_next_frame_waiters (wake_tick_waiters now s)).coroutines ≡ some c
      → Blocks now c
      → tick engine now s ≡ none
  unfolding tick
  tick_never_returns now id rest s c room first there b =
      ap report (run_ready_blocked now s.max_per_tick id rest _ c ([], []) room first there b)
