-- ===== src/Events/Examples.antt =====
-- Runs of the registry and the dispatcher: two handlers of an event, one of which fails.
use bw_exp.Common.{ℕ, suc, ◌≡◌, refl, List, [], ◌∷◌, none, true, ◌==◌, not, filter, length}
use bw_exp.Common.Int.{ℤ, pos}
use bw_exp.Common.Map.{lookup, insert}
use bw_exp.Events.{EventSubscription, EventRegistry, subscription_new, with_owner, with_priority}
use bw_exp.Events.Registry.{new, unsubscribe_for_entity, get_handlers, count_for_entity}
use bw_exp.Events.Views.{handlers_of, owned_by}
use bw_exp.Events.Calls.{subscribes, handle, Reached, start, next, Reached-get_handlers}
use bw_exp.Events.Dispatch.{GameEvent, World, Engine, dispatch, result_new}
use bw_exp.Events.Sorting.{IsOrdered, has_priority}
use bw_exp.Events.Delivery.{dispatch_lem, wanted, run_each, add_up}

-- The second handler has the lower priority, so it runs first.
abbrev late : EventSubscription
late = with_priority (subscription_new 1 10 20 (3 ∷ [])) (pos 5)

abbrev early : EventSubscription
early = with_owner (with_priority (subscription_new 2 11 21 (3 ∷ 4 ∷ [])) (pos 1)) 9

abbrev one : EventRegistry
one = handle (subscribes late) new

abbrev two : EventRegistry
two = handle (subscribes early) one

one-Reached : Reached one
unfolding new lookup
one-Reached = next (subscribes late) new refl start

two-Reached : Reached two
unfolding handle lookup insert new subscription_new with_priority with_owner
two-Reached = next (subscribes early) one refl one-Reached

Reached-get_handlers_example :
    ((t : ℕ) → get_handlers t two ≡ handlers_of t two.by_id)
    × ((entity : ℕ) → count_for_entity entity two ≡ length (owned_by entity two.by_id))
Reached-get_handlers_example = Reached-get_handlers two two-Reached

-- Handler 1 fails; the scripts count the calls.
abbrev counting : Engine ℤ ℕ ℕ
counting = record {
  has_script = λ script w. true;
  call_function = λ h event w. (record w { scripts = suc w.scripts }, not (h.id == 1));
}

abbrev event : GameEvent
event = record { event_type = 3; sector_id = 0; actor_id = none; target_id = none; event_data = 0 }

abbrev world : World ℤ ℕ ℕ
world = record { registry = two; state_accessor = none; scripts = 0 }

dispatch_lem_example :
    (called : List EventSubscription) × IsOrdered called
    × ((p : ℤ)
        → filter (has_priority p) called
          ≡ filter (has_priority p) (filter (wanted event) (handlers_of 3 two.by_id)))
    × (dispatch counting event world ≡ (
      (run_each counting event called world).0,
      add_up (result_new 3) (run_each counting event called world).1,
    ))
dispatch_lem_example = dispatch_lem counting event world two-Reached

-- Both are called, the first one in spite of the failure of the other.
both_called : (dispatch counting event world).1 ≡ record {
  event_type = 3;
  handlers_called = 2;
  successes = 1;
  failures = 1 ∷ [];
  mutations = [];
}
unfolding dispatch handle lookup insert new subscription_new with_priority with_owner
    bw_exp.Events.Registry.get_handlers_sorted
both_called = refl
