-- ===== src/Coroutines/Ticks.antt =====
-- scheduler.rs: a tick, turn by turn, and the places where its coroutines are kept.
use bw_exp.Common.{
  ℕ, zero, suc, ◌≡◌, refl, arith, List, [], ◌∷◌, Option, none, some, inl, inr, Option-cases,
  Bool-cases,
}
use bw_exp.Common.Ids.{contains}
use bw_exp.Common.Map.{Map, lookup, insert, remove, lookup-insert, lookup-remove}
use bw_exp.Coroutines.{
  Coroutine, Engine, YieldType, ExecResult, ticks, seconds, next_frame, event, schedule, yielded,
  extend,
}
use bw_exp.Coroutines.Scheduler.{CoroutineScheduler, readied}
use bw_exp.Coroutines.Locks.{no_locks, in_handler, spawn_scheduled_under}
use bw_exp.Coroutines.Loop.{
  Finished, with_finished, settle, pause, handle_yield, resume, run_ready, report, tick,
}
use bw_exp.Coroutines.Tracking.{
  held, tracked, IsTrackedBut, IsTracked, Grows, change-IsTrackedBut, pop-IsTrackedBut,
  drop-IsTrackedBut,
}
use bw_exp.Coroutines.Lifecycle.{
  store-IsTracked, enter-IsTracked, park-IsTracked, enlist_grows, enlist_member,
  wake_tick_waiters-IsTracked, wake_next_frame-IsTracked,
}

-- If a result comes with a state, the state has the property.
abbrev pub Safe {ℓ} : {A R : Type ℓ} → (A → Type ℓ) → Option (A × R) → Type ℓ
Safe P none = Unit
Safe P (some (a, r)) = P a

abbrev pub SafeState {ℓ} : {A : Type ℓ} → (A → Type ℓ) → Option A → Type ℓ
SafeState P none = Unit
SafeState P (some a) = P a

module _ {F D : Type 0} (engine : Engine F D) where
  pause-IsTracked :
      (now id : ℕ) (c : Coroutine D) (y : YieldType F) (s : CoroutineScheduler D)
      → IsTrackedBut (id ∷ []) s
      → SafeState IsTracked (pause engine in_handler now id c y s)
  unfolding pause spawn_scheduled_under tracked held
  pause-IsTracked now id c (ticks n) s h = park-IsTracked id _ _ s refl refl h
  pause-IsTracked now id c (seconds x) s h = park-IsTracked id _ _ s refl refl h
  pause-IsTracked now id c next_frame s h =
      store-IsTracked id _ s _ refl refl
        (λ j. record { queued = λ x. x; on_tick = λ t x. x; on_event = λ t x. x }) h
  pause-IsTracked now id c (event e) s h =
      store-IsTracked id _ s _ refl (enlist_member e id s.event_waiters)
        (λ j. record {
          queued = λ x. x;
          on_tick = λ t x. x;
          on_event = λ u x. enlist_grows e id s.event_waiters u j x;
        })
        h
  pause-IsTracked now id c (schedule delay callback) s h =
      elim (Bool-cases (engine.has_script c.script_path)) [
        | inl x ↦ rw (x, pause) tt
        | inr x ↦ rw (x, pause) (enter-IsTracked id (readied c) s refl h)
      ]

  -- The coroutine that is taken out, or stored as running, is the one that is not found anyway.
  remove-IsTracked :
      (id : ℕ) (s s' : CoroutineScheduler D)
      → s'.coroutines ≡ remove id (s.coroutines)
      → ((j : ℕ) → Grows s s' j)
      → IsTrackedBut (id ∷ []) s
      → IsTracked s'
  remove-IsTracked id s s' q grows h =
      change-IsTrackedBut s s' [] id
        (λ d e. absurd (ground (arith, e, q, lookup-remove id id s.coroutines)))
        (λ j d a e. ground (arith, e, a, q, lookup-remove id j s.coroutines)) (λ j a. grows j) h

  store-IsTrackedBut :
      (id : ℕ) (c : Coroutine D) (s : CoroutineScheduler D)
      → IsTrackedBut (id ∷ []) s
      → IsTrackedBut (id ∷ []) (record s { coroutines = insert id c s.coroutines })
  unfolding IsTrackedBut tracked contains
  store-IsTrackedBut id c s h j d e o =
      h j d (ground (arith, e, o, lookup-insert id j c s.coroutines)) o

  with_finished-Safe :
      (finished : Finished) (o : Option (CoroutineScheduler D))
      → SafeState IsTracked o
      → Safe IsTracked (with_finished finished o)
  with_finished-Safe finished none h = h
  with_finished-Safe finished (some a) h = h

  same-Grows :
      (s : CoroutineScheduler D) (m : Map (Coroutine D)) (j : ℕ)
      → Grows s (record s { coroutines = m }) j
  same-Grows s m j = record { queued = λ x. x; on_tick = λ t x. x; on_event = λ t x. x }

  settle-IsTracked :
      (now id : ℕ) (s : CoroutineScheduler D) (finished : Finished) (r : ExecResult F D)
      → IsTrackedBut (id ∷ []) s
      → Safe IsTracked (settle engine no_locks now id s finished r)
  unfolding settle handle_yield
  settle-IsTracked now id s finished (ExecResult.completed v) h =
      remove-IsTracked id s _ refl (same-Grows s _) h
  settle-IsTracked now id s finished (ExecResult.failed e) h =
      remove-IsTracked id s _ refl (same-Grows s _) h
  settle-IsTracked now id s finished (yielded request) h =
      with_finished-Safe finished (handle_yield engine no_locks now id request s)
        (elim (Option-cases (lookup id s.coroutines)) [
          | inl gone ↦ rw (gone, handle_yield) (drop-IsTrackedBut [] id s gone h)
          | inr (c, there) ↦
              rw (there, handle_yield)
                (pause-IsTracked now id
                  (record c { local_vars = extend c.local_vars request.extra }) request.yield_type s
                  h)
        ])

  resume-IsTracked :
      (now id : ℕ) (s : CoroutineScheduler D) (finished : Finished)
      → IsTrackedBut (id ∷ []) s
      → Safe IsTracked (resume engine no_locks now id s finished)
  unfolding resume
  resume-IsTracked now id s finished h = elim (Option-cases (lookup id s.coroutines)) [
    | inl gone ↦ rw (gone, resume) (remove-IsTracked id s _ refl (same-Grows s _) h)
    | inr (c, there) ↦
        rw (there, resume)
          (settle-IsTracked now id _ finished (engine.call now c) (store-IsTrackedBut id _ s h))
  ]

  run_ready-IsTracked :
      (now n : ℕ) (s : CoroutineScheduler D) (finished : Finished)
      → IsTracked s
      → Safe IsTracked (run_ready engine now n s finished)
  unfolding run_ready
  run_ready-IsTracked now zero s finished h = h
  run_ready-IsTracked now (suc n) s finished h =
      turn s.ready_queue refl (λ t more. run_ready-IsTracked now n t more)
    where
      Rest : Type 0
      Rest =
          (t : CoroutineScheduler D) (more : Finished)
          → IsTracked t
          → Safe IsTracked (run_ready engine now n t more)

      go :
          (o : Option (CoroutineScheduler D × Finished))
          → Rest
          → Safe IsTracked o
          → Safe IsTracked (elim o [ none ↦ none | some (t, more) ↦ run_ready engine now n t more ])
      go none rest g = tt
      go (some (t, more)) rest g = rest t more g

      turn :
          (q : List ℕ)
          → s.ready_queue ≡ q
          → Rest
          → Safe IsTracked (elim q [
            | [] ↦ some (s, finished)
            | id ∷ rest ↦
                elim (resume engine no_locks now id (record s { ready_queue = rest }) finished) [
                  | none ↦ none
                  | some (t, more) ↦ run_ready engine now n t more
                ]
          ])
      turn [] q later = h
      turn (id ∷ rest) q later =
          go (resume engine no_locks now id (record s { ready_queue = rest }) finished) later
            (resume-IsTracked now id _ finished (pop-IsTrackedBut s id rest q h))

  pub tick-IsTracked :
      (now : ℕ) (s : CoroutineScheduler D) → IsTracked s → Safe IsTracked (tick engine now s)
  unfolding tick
  tick-IsTracked now s h = reported _ (
      run_ready-IsTracked now s.max_per_tick _ ([], [])
        (wake_next_frame-IsTracked _ (wake_tick_waiters-IsTracked now s h)))
    where
      reported :
          (o : Option (CoroutineScheduler D × Finished))
          → Safe IsTracked o
          → Safe IsTracked (report o)
      reported none g = tt
      reported (some (t, finished)) g = g
