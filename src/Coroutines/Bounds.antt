-- ===== src/Coroutines/Bounds.antt =====
-- scheduler.rs: how many coroutines a tick runs.
use bw_exp.Common.{
  ℕ, zero, suc, ◌+◌, ◌≤◌, ◌≡◌, arith, List, [], ◌∷◌, Option, none, some, length, length-append, inl,
  inr, Option-cases,
}
use bw_exp.Common.Map.{lookup}
use bw_exp.Coroutines.{Engine, ExecResult, yielded}
use bw_exp.Coroutines.Scheduler.{CoroutineScheduler, wake_tick_waiters, wake_next_frame_waiters}
use bw_exp.Coroutines.Locks.{no_locks}
use bw_exp.Coroutines.Loop.{
  CoroutineTickResult, Finished, with_finished, settle, script_failed, coroutine_not_found,
  handle_yield, resume, run_ready, report, tick,
}

-- How many coroutines have completed or failed.
abbrev size : Finished → ℕ
size finished = length finished.0 + length finished.1

abbrev AtMost {ℓ} : {A : Type ℓ} → ℕ → Option (A × Finished) → Type 0
AtMost n none = Unit
AtMost n (some (a, finished)) = size finished ≤ n

module _ {F D : Type 0} (engine : Engine F D) where
  with_finished-AtMost :
      (finished : Finished) (o : Option (CoroutineScheduler D))
      → AtMost (suc (size finished)) (with_finished finished o)
  with_finished-AtMost finished none = tt
  with_finished-AtMost finished (some s) = omega arith

  settle-AtMost :
      (now id : ℕ) (s : CoroutineScheduler D) (finished : Finished) (r : ExecResult F D)
      → AtMost (suc (size finished)) (settle engine no_locks now id s finished r)
  unfolding settle
  settle-AtMost now id s finished (ExecResult.completed v) =
      omega (arith, length-append finished.0 (id ∷ []))
  settle-AtMost now id s finished (yielded request) =
      with_finished-AtMost finished (handle_yield engine no_locks now id request s)
  settle-AtMost now id s finished (ExecResult.failed e) =
      omega (arith, length-append finished.1 ((id, script_failed e) ∷ []))

  resume-AtMost :
      (now id : ℕ) (s : CoroutineScheduler D) (finished : Finished)
      → AtMost (suc (size finished)) (resume engine no_locks now id s finished)
  unfolding resume
  resume-AtMost now id s finished = elim (Option-cases (lookup id s.coroutines)) [
    | inl gone ↦
        rw (gone, resume) (omega (arith, length-append finished.1 ((id, coroutine_not_found) ∷ [])))
    | inr (c, there) ↦ rw (there, resume) (settle-AtMost now id _ finished (engine.call now c))
  ]

  widen : {A : Type 0} (m n : ℕ) → m ≤ n → (o : Option (A × Finished)) → AtMost m o → AtMost n o
  widen m n l none h = tt
  widen m n l (some (a, finished)) h = omega (arith, h, l)

  run_ready-AtMost :
      (now n : ℕ) (s : CoroutineScheduler D) (finished : Finished)
      → AtMost (size finished + n) (run_ready engine now n s finished)
  unfolding run_ready
  run_ready-AtMost now zero s finished = omega arith
  run_ready-AtMost now (suc n) s finished =
      turn s.ready_queue (λ t more. run_ready-AtMost now n t more)
    where
      Rest : Type 0
      Rest =
          (t : CoroutineScheduler D) (more : Finished)
          → AtMost (size more + n) (run_ready engine now n t more)

      go :
          (o : Option (CoroutineScheduler D × Finished))
          → Rest
          → AtMost (suc (size finished)) o
          → AtMost
              (size finished + suc n)
              (elim o [ none ↦ none | some (t, more) ↦ run_ready engine now n t more ])
      go none later h = tt
      go (some (t, more)) later h =
          widen (size more + n) (size finished + suc n) (omega (arith, h))
            (run_ready engine now n t more) (later t more)

      turn :
          (q : List ℕ)
          → Rest
          → AtMost (size finished + suc n) (elim q [
            | [] ↦ some (s, finished)
            | id ∷ rest ↦
                elim (resume engine no_locks now id (record s { ready_queue = rest }) finished) [
                  | none ↦ none
                  | some (t, more) ↦ run_ready engine now n t more
                ]
          ])
      turn [] later = omega arith
      turn (id ∷ rest) later =
          go (resume engine no_locks now id (record s { ready_queue = rest }) finished) later
            (resume-AtMost now id _ finished)

  report-AtMost :
      (n : ℕ) (o : Option (CoroutineScheduler D × Finished)) (t : CoroutineScheduler D)
      (r : CoroutineTickResult)
      → AtMost n o
      → report o ≡ some (t, r)
      → (length r.completed + length r.failed ≤ n) × (r.pending_count ≡ length t.coroutines)
  report-AtMost n none t r h e = absurd (ground (arith, e))
  report-AtMost n (some (s, (done_ids, errors))) t r h e = (ground (arith, h, e), ground (arith, e))

  -- A tick that returns reports no more coroutines as completed or failed than the maximum for
  -- one tick, and counts as pending those that the scheduler then has.
  pub tick_bound :
      (now : ℕ) (s t : CoroutineScheduler D) (r : CoroutineTickResult)
      → tick engine now s ≡ some (t, r)
      → (length r.completed + length r.failed ≤ s.max_per_tick)
        × (r.pending_count ≡ length t.coroutines)
  unfolding tick
  tick_bound now s t r e =
      report-AtMost s.max_per_tick _ t r
        (widen (0 + s.max_per_tick) s.max_per_tick (omega arith) _ (
          run_ready-AtMost now s.max_per_tick (wake_next_frame_waiters (wake_tick_waiters now s))
            ([], [])))
        e
