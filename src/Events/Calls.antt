-- ===== src/Events/Calls.antt =====
-- events/mod.rs: sequences of calls of the registry.
use bw_exp.Common.{ℕ, ◌≡◌, ap, none, Bool, length}
use bw_exp.Common.Map.{lookup}
use bw_exp.Events.{EventSubscription, EventRegistry}
use bw_exp.Events.Registry.{
  new, subscribe, unsubscribe, unsubscribe_for_entity, set_enabled, get_handlers, count_for_entity,
}
use bw_exp.Events.Views.{handlers_of, owned_by}
use bw_exp.Events.Consistency.{
  IsConsistent, new-IsConsistent, subscribe-IsConsistent, unsubscribe-IsConsistent,
  unsubscribe_for_entity_lem, set_enabled-IsConsistent,
}

pub data EventCall : Type 0 where
  subscribes : EventSubscription → EventCall
  unsubscribes leaves : ℕ → EventCall
  enables : ℕ → Bool → EventCall

unfoldable pub handle : EventCall → EventRegistry → EventRegistry
unfolding subscribe unsubscribe unsubscribe_for_entity set_enabled
handle (subscribes s) r = (subscribe s r).0
handle (unsubscribes id) r = (unsubscribe id r).0
handle (leaves entity) r = unsubscribe_for_entity entity r
handle (enables id b) r = set_enabled id b r

abbrev pub IsFresh : EventCall → EventRegistry → Type 0
IsFresh (subscribes s) r = lookup s.id r.by_id ≡ none
IsFresh _ r = Unit {0}

-- What calls make of a new registry, when each subscription brings a fresh id.
pub data Reached : EventRegistry → Type 0 where
  start : Reached new
  next : (c : EventCall) (r : EventRegistry) → IsFresh c r → Reached r → Reached (handle c r)

handle-IsConsistent :
    (c : EventCall) (r : EventRegistry) → IsFresh c r → IsConsistent r → IsConsistent (handle c r)
unfolding handle
handle-IsConsistent (subscribes s) r fresh h = subscribe-IsConsistent s r fresh h
handle-IsConsistent (unsubscribes id) r fresh h = unsubscribe-IsConsistent id r h
handle-IsConsistent (leaves entity) r fresh h = (unsubscribe_for_entity_lem entity r h).0
handle-IsConsistent (enables id b) r fresh h = set_enabled-IsConsistent id b r h

pub Reached-IsConsistent : (r : EventRegistry) → Reached r → IsConsistent r
Reached-IsConsistent r start = new-IsConsistent
Reached-IsConsistent r (next c r' fresh before) =
    handle-IsConsistent c r' fresh (Reached-IsConsistent r' before)

-- Whatever calls a new registry gets, each subscription with a fresh id, the handlers of a type
-- are the stored subscriptions that name it, as they are stored, in order and as often as they
-- name it; and the count for an entity is the number of the subscriptions that it owns.
pub Reached-get_handlers :
    (r : EventRegistry)
    → Reached r
    → ((t : ℕ) → get_handlers t r ≡ handlers_of t r.by_id)
      × ((entity : ℕ) → count_for_entity entity r ≡ length (owned_by entity r.by_id))
unfolding get_handlers count_for_entity
Reached-get_handlers r reached =
    let h = Reached-IsConsistent r reached in (h.types, λ entity. ap length (h.owners entity))
