-- ===== src/State/Accessor.antt =====
-- accessor.rs: permissions, and the queue of mutations beside the overlay. The locks are left out:
-- each call runs on its own.
use Prim.Native.String.{String}
use bw_exp.Common.{
  ℕ, List, [], ◌∷◌, Option, none, some, Bool, true, false, not, ◌==◌, ◌&&◌, if◌then◌else◌, length,
  push, take, ltb,
}
use bw_exp.Common.Ids.{contains}
use bw_exp.State.Changes.{
  ShipChanges, PlayerChanges, ShipSpawnConfig, EntityType, ChoiceOption, StateMutation,
  ship_is_empty, player_is_empty,
}
use bw_exp.State.Overlay.{
  MutationOverlay, ShipSnapshot, PlayerSnapshot, record_ship_change, record_player_change,
  record_destroy, is_destroyed, apply_to_ship, apply_to_player,
}
use bw_exp.State.Overlay

pub data AccessError : Type 0 where
  permission_denied : AccessError

pub data Result {ℓ} (A : Type ℓ) : Type ℓ where
  ok : A → Result A
  err : AccessError → Result A

pub record AccessPermissions : Type 0 where
  pub can_read_ships : Bool
  pub can_write_ships : Bool
  pub can_read_players : Bool
  pub can_write_players : Bool
  pub can_spawn_entities : Bool
  pub can_destroy_entities : Bool
  pub can_emit_events : Bool
  pub allowed_sectors : Option (List ℕ)
  pub owner_entity_id : Option ℕ

unfoldable pub read_only : AccessPermissions
read_only = record {
  can_read_ships = true;
  can_write_ships = false;
  can_read_players = true;
  can_write_players = false;
  can_spawn_entities = false;
  can_destroy_entities = false;
  can_emit_events = false;
  allowed_sectors = none;
  owner_entity_id = none;
}

unfoldable pub trusted : AccessPermissions
trusted = record {
  can_read_ships = true;
  can_write_ships = true;
  can_read_players = true;
  can_write_players = false;
  can_spawn_entities = true;
  can_destroy_entities = true;
  can_emit_events = true;
  allowed_sectors = none;
  owner_entity_id = none;
}

unfoldable pub npc_behavior : ℕ → ℕ → AccessPermissions
npc_behavior entity_id sector_id = record {
  can_read_ships = true;
  can_write_ships = true;
  can_read_players = true;
  can_write_players = false;
  can_spawn_entities = false;
  can_destroy_entities = false;
  can_emit_events = true;
  allowed_sectors = some (sector_id ∷ []);
  owner_entity_id = some entity_id;
}

unfoldable pub can_access_sector : AccessPermissions → ℕ → Bool
can_access_sector perms x = elim perms.allowed_sectors [ none ↦ true | some xs ↦ contains xs x ]

-- `perms.owner_entity_id == Some(id)`.
abbrev pub owns : AccessPermissions → ℕ → Bool
owns perms k = elim perms.owner_entity_id [ none ↦ false | some j ↦ j == k ]

pub record StateAccessor (F D : Type 0) : Type 0 where
  pub permissions : AccessPermissions
  pub pending_mutations : List (StateMutation F D)
  pub context_sector_id : Option ℕ
  pub overlay : MutationOverlay F

module _ {F : Type 0} where
  -- `filter_map`.
  unfoldable pub overlay_ships : MutationOverlay F → List (ShipSnapshot F) → List (ShipSnapshot F)
  overlay_ships o [] = []
  overlay_ships o (s ∷ ss) =
      let rest = overlay_ships o ss in elim (apply_to_ship o s) [ none ↦ rest | some t ↦ t ∷ rest ]

module _ {F D : Type 0} where
  unfoldable pub new : StateAccessor F D
  unfolding read_only
  new = record {
    permissions = read_only;
    pending_mutations = [];
    context_sector_id = none;
    overlay = Overlay.new;
  }

  unfoldable pub set_permissions : StateAccessor F D → AccessPermissions → StateAccessor F D
  set_permissions a perms = record a { permissions = perms }

  unfoldable pub set_context_sector : StateAccessor F D → ℕ → StateAccessor F D
  set_context_sector a x = record a { context_sector_id = some x }

  -- `snapshot` is what the provider answers for the ship.
  unfoldable pub get_ship :
      StateAccessor F D → ℕ → Option (ShipSnapshot F) → Result (Option (ShipSnapshot F))
  get_ship a k snapshot =
      if is_destroyed a.overlay k
      then ok none
      else if not a.permissions.can_read_ships
      then err permission_denied
      else elim snapshot [
        | none ↦ ok none
        | some s ↦
            if not (can_access_sector a.permissions s.sector_id)
            then err permission_denied
            else ok (apply_to_ship a.overlay s)
      ]

  -- `ships` is what the provider answers for the sector.
  unfoldable pub get_ships_in_sector :
      StateAccessor F D → ℕ → List (ShipSnapshot F) → Result (List (ShipSnapshot F))
  get_ships_in_sector a x ships =
      if not a.permissions.can_read_ships
      then err permission_denied
      else if not (can_access_sector a.permissions x)
      then err permission_denied
      else ok (overlay_ships a.overlay ships)

  unfoldable pub get_player :
      StateAccessor F D → ℕ → Option PlayerSnapshot → Result (Option PlayerSnapshot)
  get_player a k snapshot =
      if not a.permissions.can_read_players
      then err permission_denied
      else elim snapshot [ none ↦ ok none | some p ↦ ok (apply_to_player a.overlay p) ]

  abbrev queue : StateAccessor F D → StateMutation F D → StateAccessor F D
  queue a m = record a { pending_mutations = push a.pending_mutations m }

  -- A call that fails leaves the accessor as it was.
  unfoldable pub modify_ship : StateAccessor F D → ℕ → ShipChanges F → Result (StateAccessor F D)
  modify_ship a k changes =
      if not a.permissions.can_write_ships && not (owns a.permissions k)
      then err permission_denied
      else if ship_is_empty changes
      then ok a
      else ok (record (queue a (StateMutation.modify_ship k changes)) {
        overlay = record_ship_change a.overlay k changes;
      })

  unfoldable pub modify_player : StateAccessor F D → ℕ → PlayerChanges → Result (StateAccessor F D)
  modify_player a k changes =
      if not a.permissions.can_write_players
      then err permission_denied
      else if player_is_empty changes
      then ok a
      else ok (record (queue a (StateMutation.modify_player k changes)) {
        overlay = record_player_change a.overlay k changes;
      })

  unfoldable pub spawn_ship : StateAccessor F D → ShipSpawnConfig F → Result (StateAccessor F D)
  spawn_ship a config =
      if not a.permissions.can_spawn_entities
      then err permission_denied
      else if not (can_access_sector a.permissions config.sector_id)
      then err permission_denied
      else ok (queue a (StateMutation.spawn_ship config))

  unfoldable pub destroy_entity : StateAccessor F D → ℕ → EntityType → Result (StateAccessor F D)
  destroy_entity a k kind =
      if not a.permissions.can_destroy_entities
      then err permission_denied
      else ok (record (queue a (StateMutation.destroy_entity k kind)) {
        overlay = record_destroy a.overlay k;
      })

  unfoldable pub emit_event :
      StateAccessor F D → String → D → Option ℕ → Option ℕ → Result (StateAccessor F D)
  emit_event a event_type data' actor_id target_id =
      if not a.permissions.can_emit_events
      then err permission_denied
      else ok (queue a (StateMutation.emit_event event_type data' actor_id target_id))

  unfoldable pub send_notification :
      StateAccessor F D → ℕ → String → String → Result (StateAccessor F D)
  send_notification a p message kind = ok (queue a (StateMutation.send_notification p message kind))

  unfoldable pub send_choice :
      StateAccessor F D → ℕ → String → String → List ChoiceOption → Result (StateAccessor F D)
  send_choice a p choice_id description choices =
      ok (queue a (StateMutation.send_choice p choice_id description choices))

  unfoldable pub broadcast_to_sector :
      StateAccessor F D → ℕ → String → String → Result (StateAccessor F D)
  broadcast_to_sector a x message kind =
      if not (can_access_sector a.permissions x)
      then err permission_denied
      else ok (queue a (StateMutation.broadcast_to_sector x message kind))

  unfoldable pub take_mutations : StateAccessor F D → StateAccessor F D × List (StateMutation F D)
  take_mutations a =
      (record a { overlay = Overlay.clear a.overlay; pending_mutations = [] }, a.pending_mutations)

  unfoldable pub clear_mutations : StateAccessor F D → StateAccessor F D
  clear_mutations a = record a { overlay = Overlay.clear a.overlay; pending_mutations = [] }

  unfoldable pub begin_transaction : StateAccessor F D → ℕ
  begin_transaction a = length a.pending_mutations

  unfoldable pub rollback_to_checkpoint : StateAccessor F D → ℕ → StateAccessor F D
  rollback_to_checkpoint a checkpoint =
      if ltb checkpoint (length a.pending_mutations)
      then record a { pending_mutations = take checkpoint a.pending_mutations }
      else a
