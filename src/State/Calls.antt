-- ===== src/State/Calls.antt =====
-- accessor.rs: the calls that change a ship, a player or the world, with their arguments.
use Prim.Native.String.{String}
use bw_exp.Common.{ℕ, List, Option}
use bw_exp.State.Changes.{ShipChanges, PlayerChanges, ShipSpawnConfig, EntityType, ChoiceOption}

pub data Call (F D : Type 0) : Type 0 where
  modify_ship : ℕ → ShipChanges F → Call F D
  modify_player : ℕ → PlayerChanges → Call F D
  spawn_ship : ShipSpawnConfig F → Call F D
  destroy_entity : ℕ → EntityType → Call F D
  emit_event : String → D → Option ℕ → Option ℕ → Call F D
  send_notification : ℕ → String → String → Call F D
  send_choice : ℕ → String → String → List ChoiceOption → Call F D
  broadcast_to_sector : ℕ → String → String → Call F D
