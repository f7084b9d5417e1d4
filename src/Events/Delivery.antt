-- ===== src/Events/Delivery.antt =====
-- events/dispatcher.rs: who gets an event, in which order, and what becomes of the outcomes.
use bw_exp.Common.{
  Bool, true, ◌==◌, fun_ext, ℕ, suc, ◌+◌, ◌≡◌, refl, sym, ap, ◌∙◌, arith, List, [], ◌∷◌, ◌++◌,
  append_assoc, append-nil, Option, none, some, ◌&&◌, length, filter, Bool-cases, inl, inr,
}
use bw_exp.Common.Int.{ℤ}
use bw_exp.State.Changes.{StateMutation}
use bw_exp.Events.{EventSubscription, matches}
use bw_exp.Events.Registry.{sort_by_priority, get_handlers_sorted, get_handlers}
use bw_exp.Events.Views.{handlers_of}
use bw_exp.Events.Calls.{Reached, Reached-get_handlers}
use bw_exp.Events.Dispatch.{
  GameEvent, DispatchResult, World, Engine, execute_handler, accepts, counted, run_handlers,
  dispatch, result_new,
}
use bw_exp.Events.Sorting.{
  IsOrdered, has_priority, sort-IsOrdered, filter-IsOrdered, filter-sort, filter-filter,
}

abbrev pub Outcome : Type 0 → Type 0 → Type 0
Outcome F D = Option (List (StateMutation F D))

module _ {F D W : Type 0} (engine : Engine F D W) (event : GameEvent) where
  -- One handler after the other, with what came of each.
  unfoldable pub run_each :
      List EventSubscription → World F D W → World F D W × List (EventSubscription × Outcome F D)
  run_each [] w = (w, [])
  run_each (h ∷ hs) w =
      let (w', outcome) = execute_handler engine event h w in
      let (w'', rest) = run_each hs w' in (w'', (h, outcome) ∷ rest)

add_zero : (n : ℕ) → n + 0 ≡ n
add_zero n = omega arith

add_suc : (n m : ℕ) → suc n + m ≡ n + suc m
add_suc n m = omega arith

module _ {F D : Type 0} where
  abbrev pub succeeded : List (EventSubscription × Outcome F D) → ℕ
  succeeded [] = 0
  succeeded ((h, none) ∷ os) = succeeded os
  succeeded ((h, some ms) ∷ os) = suc (succeeded os)

  abbrev pub failed : List (EventSubscription × Outcome F D) → List ℕ
  failed [] = []
  failed ((h, none) ∷ os) = h.id ∷ failed os
  failed ((h, some ms) ∷ os) = failed os

  abbrev pub queued : List (EventSubscription × Outcome F D) → List (StateMutation F D)
  queued [] = []
  queued ((h, none) ∷ os) = queued os
  queued ((h, some ms) ∷ os) = ms ++ queued os

  abbrev pub add_up :
      DispatchResult F D → List (EventSubscription × Outcome F D) → DispatchResult F D
  add_up r os = record {
    event_type = r.event_type;
    handlers_called = r.handlers_called + length os;
    successes = r.successes + succeeded os;
    failures = r.failures ++ failed os;
    mutations = r.mutations ++ queued os;
  }

  nothing_more : (r : DispatchResult F D) → r ≡ add_up r []
  nothing_more r =
      rw
        (
          append-nil r.failures,
          append-nil r.mutations,
          add_zero r.handlers_called,
          add_zero r.successes,
        )
        refl

  add_counted :
      (h : EventSubscription) (o : Outcome F D) (r : DispatchResult F D)
      (os : List (EventSubscription × Outcome F D))
      → add_up (counted h o r) os ≡ add_up r ((h, o) ∷ os)
  add_counted h none r os =
      rw (append_assoc r.failures (h.id ∷ []) (failed os), add_suc r.handlers_called (length os))
        refl
  add_counted h (some ms) r os =
      rw
        (
          append_assoc r.mutations ms (queued os),
          add_suc r.handlers_called (length os),
          add_suc r.successes (succeeded os),
        )
        refl

module _ (event : GameEvent) where
  -- Whether a subscription is for the event.
  abbrev pub wanted : EventSubscription → Bool
  wanted h =
      h.enabled
      && elim h.sector_id [ none ↦ true | some sector ↦ event.sector_id == sector ]
      && elim h.filter [
        | none ↦ true
        | some f ↦ matches f event.sector_id event.actor_id event.target_id
      ]

  accepts-wanted : (h : EventSubscription) → accepts event h ≡ wanted h
  unfolding accepts
  accepts-wanted h = ground arith

module _ {F D W : Type 0} (engine : Engine F D W) (event : GameEvent) where
  run_handlers-run_each :
      (hs : List EventSubscription) (w : World F D W) (r : DispatchResult F D)
      → run_handlers engine event hs w r ≡ (
        (run_each engine event (filter (accepts event) hs) w).0,
        add_up r (run_each engine event (filter (accepts event) hs) w).1,
      )
  unfolding run_handlers run_each
  run_handlers-run_each [] w r = ap (λ x. (w, x)) (nothing_more r)
  run_handlers-run_each (h ∷ hs) w r = elim (Bool-cases (accepts event h)) [
    | inr skip ↦ rw (skip, run_handlers) (run_handlers-run_each hs w r)
    | inl call ↦
        rw (call, run_handlers, run_each)
          (run_handlers-run_each hs (execute_handler engine event h w).0
              (counted h (execute_handler engine event h w).1 r)
            ∙ ap
                (λ x. (
                  (run_each engine event (filter (accepts event) hs)
                      (execute_handler engine event h w).0).0,
                  x,
                ))
                (add_counted h (execute_handler engine event h w).1 r
                  (run_each engine event (filter (accepts event) hs)
                    (execute_handler engine event h w).0).1))
  ]

  -- If calls have made the registry from a new one, each subscription with a fresh id, then an
  -- event is handled by the subscriptions to its type that are enabled and whose sector and
  -- filter fit, as they were at the start: in the order of their priorities and, for one
  -- priority, of subscription. Each of these runs whether or not others fail, and the result
  -- counts them, names those that failed, and has in order what the others queued.
  pub dispatch_lem :
      (w : World F D W)
      → Reached w.registry
      → (called : List EventSubscription) × IsOrdered called
        × ((p : ℤ)
            → filter (has_priority p) called
              ≡ filter
                  (has_priority p)
                  (filter (wanted event) (handlers_of event.event_type w.registry.by_id)))
        × (dispatch engine event w ≡ (
          (run_each engine event called w).0,
          add_up (result_new event.event_type) (run_each engine event called w).1,
        ))
  unfolding dispatch get_handlers_sorted
  dispatch_lem w reached =
      let hs = get_handlers event.event_type w.registry in
      (
        filter (accepts event) (sort_by_priority hs),
        filter-IsOrdered (accepts event) (sort_by_priority hs) (sort-IsOrdered hs),
        λ p.
            filter-filter (has_priority p) (accepts event) (sort_by_priority hs)
            ∙ filter-sort p (λ s. accepts event s && has_priority p s) (λ s h. ground arith) hs
            ∙ sym (filter-filter (has_priority p) (accepts event) hs)
            ∙ ap (λ xs. filter (has_priority p) (filter (accepts event) xs))
                ((Reached-get_handlers w.registry reached).0 event.event_type)
            ∙ ap
                (λ f.
                  filter (has_priority p)
                    (filter f (handlers_of event.event_type w.registry.by_id)))
                (fun_ext (accepts-wanted event)),
        run_handlers-run_each (sort_by_priority hs) w (result_new event.event_type),
      )
