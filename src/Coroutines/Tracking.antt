-- ===== src/Coroutines/Tracking.antt =====
-- scheduler.rs: no coroutine gets lost. Each one that the scheduler has is where the scheduler will
-- find it when its time comes.
use bw_exp.Common.{
  ℕ, ◌≡◌, refl, arith, List, [], ◌∷◌, Option, none, some, Bool, true, false, ◌==◌, inl, inr,
  Option-cases, Bool-cases,
}
use bw_exp.Common.Ids.{contains, contains-push}
use bw_exp.Common.Map.{Map, lookup, remove, lookup-remove, lookup-modify}
use bw_exp.Coroutines.{
  Coroutine, CoroutineState, ready, running, waiting_for_ticks, waiting_for_next_frame,
  waiting_for_event,
}
use bw_exp.Coroutines.Scheduler.{CoroutineScheduler, waiters, wake, wake_all}

-- Where a coroutine in this state waits, if it waits anywhere.
unfoldable pub held : ℕ → CoroutineState → Option ℕ → Map (List ℕ) → Map (List ℕ) → List ℕ → Bool
held id ready at ticks events queue = contains queue id
held id running at ticks events queue = false
held id waiting_for_ticks none ticks events queue = false
held id waiting_for_ticks (some t) ticks events queue = contains (waiters t ticks) id
held id waiting_for_next_frame at ticks events queue = true
held id CoroutineState.completed at ticks events queue = false
held id (waiting_for_event e) at ticks events queue = contains (waiters e events) id
held id (CoroutineState.failed e) at ticks events queue = false

pub held_ready :
    (id : ℕ) (state : CoroutineState) (at : Option ℕ) (ticks events : Map (List ℕ)) (queue : List ℕ)
    → state ≡ ready
    → contains queue id ≡ true
    → held id state at ticks events queue ≡ true
unfolding held
held_ready id state at ticks events queue e q = rw e q

module _ {D : Type 0} where
  unfoldable pub tracked : CoroutineScheduler D → ℕ → Coroutine D → Bool
  unfolding held
  tracked s id c = held id c.state c.resume_at s.tick_waiters s.event_waiters s.ready_queue

  -- Every coroutine but those of the list is where the scheduler will find it.
  unfoldable pub IsTrackedBut : List ℕ → CoroutineScheduler D → Type 0
  IsTrackedBut ids s =
      (id : ℕ) (c : Coroutine D)
      → lookup id s.coroutines ≡ some c
      → contains ids id ≡ false
      → tracked s id c ≡ true

  abbrev pub IsTracked : CoroutineScheduler D → Type 0
  IsTracked s = IsTrackedBut [] s

-- Who waits or is queued in `s` is so in `s'`, if it is the coroutine `j`.
pub record Grows {D : Type 0} (s s' : CoroutineScheduler D) (j : ℕ) : Type 0 where
  pub queued : contains s.ready_queue j ≡ true → contains s'.ready_queue j ≡ true
  pub on_tick :
      (t : ℕ)
      → contains (waiters t s.tick_waiters) j ≡ true
      → contains (waiters t s'.tick_waiters) j ≡ true
  pub on_event :
      (e : ℕ)
      → contains (waiters e s.event_waiters) j ≡ true
      → contains (waiters e s'.event_waiters) j ≡ true

module _ {D : Type 0} (s s' : CoroutineScheduler D) where
  held-Grows :
      (j : ℕ) (state : CoroutineState) (at : Option ℕ)
      → Grows s s' j
      → held j state at s.tick_waiters s.event_waiters s.ready_queue ≡ true
      → held j state at s'.tick_waiters s'.event_waiters s'.ready_queue ≡ true
  unfolding held
  held-Grows j ready at g h = g.queued h
  held-Grows j running at g h = h
  held-Grows j waiting_for_ticks none g h = h
  held-Grows j waiting_for_ticks (some t) g h = g.on_tick t h
  held-Grows j waiting_for_next_frame at g h = h
  held-Grows j CoroutineState.completed at g h = h
  held-Grows j (waiting_for_event e) at g h = g.on_event e h
  held-Grows j (CoroutineState.failed e) at g h = h

  -- What changes one coroutine takes it off the list of those that are not found.
  pub change-IsTrackedBut :
      (ids : List ℕ) (id : ℕ)
      → ((d : Coroutine D) → lookup id s'.coroutines ≡ some d → tracked s' id d ≡ true)
      → ((j : ℕ) (d : Coroutine D)
          → (id == j) ≡ false
          → lookup j s'.coroutines ≡ some d
          → lookup j s.coroutines ≡ some d)
      → ((j : ℕ) → (id == j) ≡ false → Grows s s' j)
      → IsTrackedBut (id ∷ ids) s
      → IsTrackedBut ids s'
  unfolding IsTrackedBut tracked contains
  change-IsTrackedBut ids id own others grows h j d e o = elim (Bool-cases (id == j)) [
    | inl a ↦ ground (arith, own d)
    | inr a ↦
        held-Grows j d.state d.resume_at (grows j a) (h j d (others j d a e) (ground (arith, o)))
  ]

module _ {D : Type 0} where
  pub weaken : (ids : List ℕ) (s : CoroutineScheduler D) → IsTracked s → IsTrackedBut ids s
  unfolding IsTrackedBut contains
  weaken ids s h j d e o = h j d e refl

  pub pop-IsTrackedBut :
      (s : CoroutineScheduler D) (id : ℕ) (rest : List ℕ)
      → s.ready_queue ≡ id ∷ rest
      → IsTracked s
      → IsTrackedBut (id ∷ []) (record s { ready_queue = rest })
  unfolding IsTrackedBut contains tracked
  pop-IsTrackedBut s id rest q h j d e o =
      held-Grows s (record s { ready_queue = rest }) j d.state d.resume_at
        (record { queued = λ x. ground (arith, x, q, o); on_tick = λ t x. x; on_event = λ t x. x })
        (h j d e refl)

  pub due-IsTrackedBut :
      (s : CoroutineScheduler D) (t : ℕ)
      → IsTracked s
      → IsTrackedBut
          (waiters t s.tick_waiters)
          (record s { tick_waiters = remove t s.tick_waiters })
  unfolding IsTrackedBut contains tracked
  due-IsTrackedBut s t h j d e o =
      held-Grows s (record s { tick_waiters = remove t s.tick_waiters }) j d.state d.resume_at
        (record {
          queued = λ x. x;
          on_tick = λ u x. ground (arith, x, o, lookup-remove t u s.tick_waiters);
          on_event = λ u x. x;
        })
        (h j d e refl)

  pub told-IsTrackedBut :
      (s : CoroutineScheduler D) (t : ℕ)
      → IsTracked s
      → IsTrackedBut
          (waiters t s.event_waiters)
          (record s { event_waiters = remove t s.event_waiters })
  unfolding IsTrackedBut contains tracked
  told-IsTrackedBut s t h j d e o =
      held-Grows s (record s { event_waiters = remove t s.event_waiters }) j d.state d.resume_at
        (record {
          queued = λ x. x;
          on_tick = λ u x. x;
          on_event = λ u x. ground (arith, x, o, lookup-remove t u s.event_waiters);
        })
        (h j d e refl)

  pub drop-IsTrackedBut :
      (ids : List ℕ) (id : ℕ) (s : CoroutineScheduler D)
      → lookup id s.coroutines ≡ none
      → IsTrackedBut (id ∷ ids) s
      → IsTrackedBut ids s
  unfolding IsTrackedBut contains
  drop-IsTrackedBut ids id s gone h j d e o = h j d e (ground (arith, e, gone, o))

  module _ (f : Coroutine D → Coroutine D) (readies : (c : Coroutine D) → (f c).state ≡ ready) where
    wake-IsTrackedBut :
        (ids : List ℕ) (id : ℕ) (s : CoroutineScheduler D)
        → IsTrackedBut (id ∷ ids) s
        → IsTrackedBut ids (wake f id s)
    unfolding wake tracked
    wake-IsTrackedBut ids id s h = elim (Option-cases (lookup id s.coroutines)) [
      | inl gone ↦ rw (gone, wake) (drop-IsTrackedBut ids id s gone h)
      | inr (c, there) ↦
          rw (there, wake)
            (change-IsTrackedBut s _ ids id
              (λ d e.
                held_ready id d.state d.resume_at _ _ _
                  (ground (arith, e, there, lookup-modify id id f s.coroutines, readies c))
                  (ground (arith, contains-push s.ready_queue id id)))
              (λ j d a e. ground (arith, e, a, lookup-modify id j f s.coroutines))
              (λ j a. record {
                queued = λ x. ground (arith, x, contains-push s.ready_queue id j);
                on_tick = λ t x. x;
                on_event = λ t x. x;
              })
              h)
    ]

    pub wake_all-IsTracked :
        (ids : List ℕ) (s : CoroutineScheduler D)
        → IsTrackedBut ids s
        → IsTracked (wake_all f ids s)
    unfolding wake_all
    wake_all-IsTracked [] s h = h
    wake_all-IsTracked (id ∷ ids) s h =
        wake_all-IsTracked ids (wake f id s) (wake-IsTrackedBut ids id s h)
