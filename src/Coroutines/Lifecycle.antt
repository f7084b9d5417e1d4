-- ===== src/Coroutines/Lifecycle.antt =====
-- scheduler.rs: spawning, cancelling, and waking by events or ticks lose no coroutine.
use bw_exp.Common.{
  ℕ, ◌≡◌, refl, arith, List, [], ◌∷◌, Option, none, some, true, false, ◌==◌, push, inl, inr,
  Option-cases,
}
use bw_exp.Common.Ids.{contains, without, contains-push, contains-without}
use bw_exp.Common.Map.{Map, lookup, insert, modify, lookup-insert, lookup-remove, lookup-modify}
use mathlib.Core.Path.{subst}
use bw_exp.Coroutines.{
  Coroutine, CoroutineState, Engine, ready, running, waiting_for_ticks, waiting_for_next_frame,
  waiting_for_event,
}
use bw_exp.Coroutines.Scheduler.{
  CoroutineScheduler, waiters, enlist, enter, readied, leave_ticks, leave_event, cancel, cancel_all,
  notify_event, told, wake_tick, wake_ticks, wake_tick_waiters, wake_next_frame_waiters,
  frame_waiters,
}
use bw_exp.Coroutines.Tracking.{
  held, held_ready, tracked, IsTrackedBut, IsTracked, Grows, change-IsTrackedBut, weaken,
  due-IsTrackedBut, told-IsTrackedBut, wake_all-IsTracked,
}

module _ (k id : ℕ) (m : Map (List ℕ)) where
  pub enlist_grows :
      (t j : ℕ) → contains (waiters t m) j ≡ true → contains (waiters t (enlist k id m)) j ≡ true
  enlist_grows t j h =
      ground
        (arith, h, lookup-insert k t (push (waiters k m) id) m, contains-push (waiters k m) id j)

  pub enlist_member : contains (waiters k (enlist k id m)) id ≡ true
  enlist_member =
      ground (arith, lookup-insert k k (push (waiters k m) id) m, contains-push (waiters k m) id id)

  -- Others stay where one is taken off.
  without_grows :
      (t j : ℕ)
      → (id == j) ≡ false
      → contains (waiters t m) j ≡ true
      → contains (waiters t (modify k (without id) m)) j ≡ true
  unfolding contains
  without_grows t j d h = elim (Option-cases (lookup t m)) [
    | inl e ↦ ground (arith, h, e)
    | inr (ws, e) ↦
        ground (arith, h, e, d, lookup-modify k t (without id) m, contains-without id ws j)
  ]

leave_ticks_grows :
    (id : ℕ) (at : Option ℕ) (m : Map (List ℕ)) (t j : ℕ)
    → (id == j) ≡ false
    → contains (waiters t m) j ≡ true
    → contains (waiters t (leave_ticks id at m)) j ≡ true
leave_ticks_grows id none m t j d h = h
leave_ticks_grows id (some k) m t j d h = without_grows k id m t j d h

leave_event_grows :
    (id : ℕ) (state : CoroutineState) (m : Map (List ℕ)) (t j : ℕ)
    → (id == j) ≡ false
    → contains (waiters t m) j ≡ true
    → contains (waiters t (leave_event id state m)) j ≡ true
leave_event_grows id ready m t j d h = h
leave_event_grows id running m t j d h = h
leave_event_grows id waiting_for_ticks m t j d h = h
leave_event_grows id waiting_for_next_frame m t j d h = h
leave_event_grows id CoroutineState.completed m t j d h = h
leave_event_grows id (waiting_for_event k) m t j d h = without_grows k id m t j d h
leave_event_grows id (CoroutineState.failed e) m t j d h = h

module _ {D : Type 0} where
  -- A coroutine is stored anew, and is where the scheduler will find it.
  pub store-IsTracked :
      (id : ℕ) (c : Coroutine D) (s s' : CoroutineScheduler D)
      → s'.coroutines ≡ insert id c s.coroutines
      → tracked s' id c ≡ true
      → ((j : ℕ) → Grows s s' j)
      → IsTrackedBut (id ∷ []) s
      → IsTracked s'
  store-IsTracked id c s s' q own grows h =
      change-IsTrackedBut s s' [] id
        (λ d e.
          subst (λ x. tracked s' id x ≡ true)
            (ground (arith, e, q, lookup-insert id id c s.coroutines)) own)
        (λ j d a e. ground (arith, e, a, q, lookup-insert id j c s.coroutines)) (λ j a. grows j) h

  pub enter-IsTracked :
      (id : ℕ) (c : Coroutine D) (s : CoroutineScheduler D)
      → c.state ≡ ready
      → IsTrackedBut (id ∷ []) s
      → IsTracked (enter id c s)
  unfolding enter tracked
  enter-IsTracked id c s r h =
      store-IsTracked id c s _ refl
        (held_ready id c.state c.resume_at _ _ _ r
          (ground (arith, contains-push s.ready_queue id id)))
        (λ j. record {
          queued = λ x. ground (arith, x, contains-push s.ready_queue id j);
          on_tick = λ t x. x;
          on_event = λ t x. x;
        })
        h

  pub park-IsTracked :
      (id t : ℕ) (c : Coroutine D) (s : CoroutineScheduler D)
      → c.state ≡ waiting_for_ticks
      → c.resume_at ≡ some t
      → IsTrackedBut (id ∷ []) s
      → IsTracked (record s {
        coroutines = insert id c s.coroutines;
        tick_waiters = enlist t id s.tick_waiters;
      })
  unfolding tracked held
  park-IsTracked id t c s w a h =
      store-IsTracked id c s _ refl (rw (w, a) (enlist_member t id s.tick_waiters))
        (λ j. record {
          queued = λ x. x;
          on_tick = λ u x. enlist_grows t id s.tick_waiters u j x;
          on_event = λ u x. x;
        })
        h

  pub cancel-IsTracked :
      (id : ℕ) (s : CoroutineScheduler D) → IsTracked s → IsTracked (cancel id s).0
  unfolding cancel
  cancel-IsTracked id s h = elim (Option-cases (lookup id s.coroutines)) [
    | inl gone ↦ rw (gone, cancel) h
    | inr (c, there) ↦
        rw (there, cancel)
          (change-IsTrackedBut s _ [] id
            (λ d e. absurd (ground (arith, e, lookup-remove id id s.coroutines)))
            (λ j d a e. ground (arith, e, a, lookup-remove id j s.coroutines))
            (λ j a. record {
              queued = λ x. x;
              on_tick = λ t x. leave_ticks_grows id c.resume_at s.tick_waiters t j a x;
              on_event = λ t x. leave_event_grows id c.state s.event_waiters t j a x;
            })
            (weaken (id ∷ []) s h))
  ]

  pub cancel_all-IsTracked :
      (ids : List ℕ) (s : CoroutineScheduler D) → IsTracked s → IsTracked (cancel_all ids s)
  unfolding cancel_all
  cancel_all-IsTracked [] s h = h
  cancel_all-IsTracked (id ∷ ids) s h =
      cancel_all-IsTracked ids (cancel id s).0 (cancel-IsTracked id s h)

  wake_tick-IsTracked : (t : ℕ) (s : CoroutineScheduler D) → IsTracked s → IsTracked (wake_tick t s)
  unfolding wake_tick
  wake_tick-IsTracked t s h =
      wake_all-IsTracked readied (λ c. refl) (waiters t s.tick_waiters) _ (due-IsTrackedBut s t h)

  wake_ticks-IsTracked :
      (ts : List ℕ) (s : CoroutineScheduler D) → IsTracked s → IsTracked (wake_ticks ts s)
  unfolding wake_ticks
  wake_ticks-IsTracked [] s h = h
  wake_ticks-IsTracked (t ∷ ts) s h =
      wake_ticks-IsTracked ts (wake_tick t s) (wake_tick-IsTracked t s h)

  pub wake_tick_waiters-IsTracked :
      (now : ℕ) (s : CoroutineScheduler D) → IsTracked s → IsTracked (wake_tick_waiters now s)
  unfolding wake_tick_waiters
  wake_tick_waiters-IsTracked now s h = wake_ticks-IsTracked _ s h

  pub wake_next_frame-IsTracked :
      (s : CoroutineScheduler D) → IsTracked s → IsTracked (wake_next_frame_waiters s)
  unfolding wake_next_frame_waiters
  wake_next_frame-IsTracked s h =
      wake_all-IsTracked readied (λ c. refl) (frame_waiters s.coroutines) s (weaken _ s h)

module _ {F D : Type 0} (engine : Engine F D) where
  pub notify-IsTracked :
      (e : ℕ) (extra : Map D) (s : CoroutineScheduler D)
      → IsTracked s
      → IsTracked (notify_event engine e extra s)
  unfolding notify_event
  notify-IsTracked e extra s h =
      wake_all-IsTracked (told engine extra) (λ c. refl) (waiters e s.event_waiters) _
        (told-IsTrackedBut s e h)
