-- ===== src/Coroutines/Waking.antt =====
-- scheduler.rs: whom the waking of a tick makes ready.
use bw_exp.Common.{
  ℕ, ◌≤◌, ◌<◌, ◌≡◌, refl, ◌∙◌, ap, arith, List, [], ◌∷◌, none, some, Bool, true, if◌then◌else◌, leb,
  filter, inl, inr, ◌⊎◌, ◌==◌, Option-cases, Bool-cases,
}
use bw_exp.Common.Ids.{contains}
use bw_exp.Common.Map.{Map, lookup, remove, lookup-remove, contains_key, lookup-modify}
use bw_exp.Coroutines.{Coroutine, waiting_for_ticks}
use bw_exp.Coroutines.Scheduler.{
  CoroutineScheduler, waiters, keys, wake, wake_all, wake_tick, wake_ticks, readied,
  wake_tick_waiters,
}
use bw_exp.Coroutines.Tracking.{held, tracked, IsTrackedBut, IsTracked}
use bw_exp.Coroutines.Lifecycle.{wake_tick_waiters-IsTracked}

module _ {D : Type 0} where
  wake_all-tick_waiters :
      (f : Coroutine D → Coroutine D) (ids : List ℕ) (s : CoroutineScheduler D)
      → (wake_all f ids s).tick_waiters ≡ s.tick_waiters
  unfolding wake_all wake
  wake_all-tick_waiters f [] s = refl
  wake_all-tick_waiters f (id ∷ ids) s = wake_all-tick_waiters f ids (wake f id s) ∙ ground arith

  wake_ticks-lookup :
      (ts : List ℕ) (u : ℕ) (s : CoroutineScheduler D)
      → lookup u (wake_ticks ts s).tick_waiters
        ≡ (if contains ts u then none else lookup u s.tick_waiters)
  unfolding wake_ticks wake_tick contains
  wake_ticks-lookup [] u s = refl
  wake_ticks-lookup (t ∷ ts) u s = ground (
    arith,
    wake_ticks-lookup ts u (wake_tick t s),
    ap (lookup u) (
        wake_all-tick_waiters readied (waiters t s.tick_waiters)
          (record s { tick_waiters = remove t s.tick_waiters })),
    lookup-remove t u s.tick_waiters,
  )

-- A key that holds something and passes a test is among the keys that pass it.
contains-keys :
    {V : Type 0} (p : ℕ → Bool) (m : Map V) (u : ℕ) (v : V)
    → lookup u m ≡ some v
    → p u ≡ true
    → contains (filter p (keys m)) u ≡ true
unfolding lookup keys contains
contains-keys p [] u v e h = absurd (ground (arith, e))
contains-keys p ((k, w) ∷ m) u v e h = ground (arith, e, h, contains-keys p m u v)

module _ {D : Type 0} where
  wake_tick_waiters_due :
      (now : ℕ) (s : CoroutineScheduler D) (id t : ℕ) (c : Coroutine D)
      → IsTracked s
      → lookup id (wake_tick_waiters now s).coroutines ≡ some c
      → c.state ≡ waiting_for_ticks
      → c.resume_at ≡ some t
      → now < t
  unfolding IsTrackedBut tracked held contains wake_tick_waiters
  wake_tick_waiters_due now s id t c h e w a = elim (Bool-cases (leb t now)) [
    | inl due ↦ absurd (ground (arith, nowhere due, found))
    | inr later ↦ ground (arith, later)
  ]
    where
      s' : CoroutineScheduler D
      s' = wake_tick_waiters now s

      found : contains (waiters t s'.tick_waiters) id ≡ true
      found = rw (w, a) at (wake_tick_waiters-IsTracked now s h id c e refl)

      nowhere : leb t now ≡ true → lookup t s'.tick_waiters ≡ none
      nowhere due = elim (Option-cases (lookup t s.tick_waiters)) [
        | inl q ↦
            ground (arith, q, wake_ticks-lookup (filter (λ u. leb u now) (keys s.tick_waiters)) t s)
        | inr (v, q) ↦ ground (
          arith,
          q,
          wake_ticks-lookup (filter (λ u. leb u now) (keys s.tick_waiters)) t s,
          contains-keys (λ u. leb u now) s.tick_waiters t v q due,
        )
      ]

module _ {D : Type 0} where
  -- What waking makes of a coroutine: it stays, or is made ready.
  abbrev AsWas : CoroutineScheduler D → CoroutineScheduler D → Type 0
  AsWas s t =
      (id : ℕ) (c : Coroutine D)
      → lookup id s.coroutines ≡ some c
      → (lookup id t.coroutines ≡ some c) ⊎ (lookup id t.coroutines ≡ some (readied c))

  AsWas-trans : (s t u : CoroutineScheduler D) → AsWas s t → AsWas t u → AsWas s u
  AsWas-trans s t u first then' id c there = elim (first id c there) [
    | inl same ↦ then' id c same
    | inr woken ↦ elim (then' id (readied c) woken) [ inl e ↦ inr e | inr e ↦ inr e ]
  ]

  wake-AsWas : (k : ℕ) (s : CoroutineScheduler D) → AsWas s (wake readied k s)
  unfolding wake
  wake-AsWas k s id c there = elim (Bool-cases (contains_key k s.coroutines)) [
    | inr gone ↦ rw (gone, wake) (inl there)
    | inl here ↦
        rw (here, wake)
          (elim (Bool-cases (k == id)) [
            | inl same ↦ inr (lookup-modify k id readied s.coroutines ∙ rw (same, there) refl)
            | inr other ↦ inl (lookup-modify k id readied s.coroutines ∙ rw (other, there) refl)
          ])
  ]

  wake_all-AsWas : (ids : List ℕ) (s : CoroutineScheduler D) → AsWas s (wake_all readied ids s)
  unfolding wake_all
  wake_all-AsWas [] s id c there = inl there
  wake_all-AsWas (k ∷ ids) s id c there =
      AsWas-trans s (wake readied k s) (wake_all readied ids (wake readied k s)) (wake-AsWas k s)
        (wake_all-AsWas ids (wake readied k s)) id c there

  wake_ticks-AsWas : (ts : List ℕ) (s : CoroutineScheduler D) → AsWas s (wake_ticks ts s)
  unfolding wake_ticks wake_tick
  wake_ticks-AsWas [] s id c there = inl there
  wake_ticks-AsWas (t ∷ ts) s id c there =
      AsWas-trans s (wake_tick t s) (wake_ticks ts (wake_tick t s))
        (wake_all-AsWas (waiters t s.tick_waiters)
          (record s { tick_waiters = remove t s.tick_waiters }))
        (wake_ticks-AsWas ts (wake_tick t s)) id c there

  -- Let no coroutine be lost. A coroutine that waits for a tick which is due is there after the
  -- waking, otherwise unchanged, but ready, and is in the queue; one that is left as it was waits
  -- for a later tick.
  pub wake_tick_waiters_lem :
      (now : ℕ) (s : CoroutineScheduler D) (id t : ℕ) (c : Coroutine D)
      → IsTracked s
      → lookup id s.coroutines ≡ some c
      → c.state ≡ waiting_for_ticks
      → c.resume_at ≡ some t
      → ((t ≤ now)
          → (lookup id (wake_tick_waiters now s).coroutines ≡ some (readied c))
            × (contains (wake_tick_waiters now s).ready_queue id ≡ true))
        × ((lookup id (wake_tick_waiters now s).coroutines ≡ some c) → now < t)
  unfolding wake_tick_waiters IsTrackedBut tracked held contains
  wake_tick_waiters_lem now s id t c h there w a = elim outcome [
    | inl same ↦ (λ due. absurd (ground (arith, later same, due)), later)
    | inr woken ↦
        (λ due. (woken, wake_tick_waiters-IsTracked now s h id (readied c) woken refl), later)
  ]
    where
      outcome :
          (lookup id (wake_tick_waiters now s).coroutines ≡ some c)
          ⊎ (lookup id (wake_tick_waiters now s).coroutines ≡ some (readied c))
      outcome = wake_ticks-AsWas (filter (λ u. leb u now) (keys s.tick_waiters)) s id c there

      later : lookup id (wake_tick_waiters now s).coroutines ≡ some c → now < t
      later same = wake_tick_waiters_due now s id t c h same w a
