-- ===== src/Events.antt =====
-- crates/bw-scripting/src/events: the registry of subscriptions (mod.rs) and the dispatch of an
-- event to the handlers (dispatcher.rs). A type of events, a script and a function are only
-- compared: a number stands for each. A handler's arguments are left out.
pub mod Registry
pub mod Views
pub mod Switching
pub mod Lists
pub mod Consistency
pub mod Calls
pub mod Dispatch
pub mod Sorting
pub mod Delivery
mod Examples
use bw_exp.Common.{ℕ, Option, none, some, List, Bool, true, false, ◌==◌, if◌then◌else◌}
use bw_exp.Common.Int.{ℤ, pos}
use bw_exp.Common.Map.{Map}

-- The constructors are `SectorId`, `ActorId`, `TargetId` and `Custom`.
pub data EventFilter : Type 0 where
  of_sector of_actor of_target custom : ℕ → EventFilter

pub record EventSubscription : Type 0 where
  pub id : ℕ
  pub script_path : ℕ
  pub handler_function : ℕ
  pub event_types : List ℕ
  pub filter : Option EventFilter
  pub priority : ℤ  -- i32
  pub enabled : Bool
  pub owner_entity_id : Option ℕ
  pub sector_id : Option ℕ

unfoldable pub subscription_new : ℕ → ℕ → ℕ → List ℕ → EventSubscription
subscription_new id script_path handler_function event_types = record {
  id = id;
  script_path = script_path;
  handler_function = handler_function;
  event_types = event_types;
  filter = none;
  priority = pos 0;
  enabled = true;
  owner_entity_id = none;
  sector_id = none;
}

unfoldable pub with_owner : EventSubscription → ℕ → EventSubscription
with_owner s entity = record s { owner_entity_id = some entity }

unfoldable pub with_sector : EventSubscription → ℕ → EventSubscription
with_sector s sector = record s { sector_id = some sector }

unfoldable pub with_priority : EventSubscription → ℤ → EventSubscription
with_priority s priority = record s { priority = priority }

unfoldable pub with_filter : EventSubscription → EventFilter → EventSubscription
with_filter s filter = record s { filter = some filter }

abbrev pub is_value : Option ℕ → ℕ → Bool
is_value none id = false
is_value (some x) id = x == id

unfoldable pub matches : EventFilter → ℕ → Option ℕ → Option ℕ → Bool
matches (of_sector id) sector actor target = sector == id
matches (of_actor id) sector actor target = is_value actor id
matches (of_target id) sector actor target = is_value target id
matches (custom function) sector actor target = true

pub record EventRegistry : Type 0 where
  pub by_event_type : Map (List EventSubscription)
  pub by_id : Map EventSubscription
  pub by_owner : Map (List ℕ)
