-- ===== src/State/Overlay.antt =====
-- overlay.rs: the pending changes, merged into reads.
use Prim.Native.String.{String}
use bw_exp.Common.{
  ℕ, ◌+◌, List, [], ◌∷◌, Option, none, some, Bool, if◌then◌else◌, unwrap_or, length,
}
use bw_exp.Common.Ids.{contains}
use bw_exp.Common.Map.{Map, lookup, insert, contains_key}
use bw_exp.State.Changes.{
  Position, ShipStatusChange, idle, disabled, in_transit, ShipChanges, PlayerChanges,
  no_ship_changes, no_player_changes, merge_ship, merge_player, add_i32, add_i64,
}

-- The fields of bw-shared's `dto::Ship` that the overlay or the accessor reads or writes.
pub record ShipSnapshot (F : Type 0) : Type 0 where
  pub id : ℕ
  pub sector_id : ℕ
  pub hull : F
  pub shields : F
  pub ammunition : F
  pub fuel : F
  pub morale : F
  pub experience : ℕ
  pub position : Position F
  pub status : String
  pub combat_stance : String
  pub locked_target : Option ℕ

-- The fields of bw-shared's `dto::Player` that the overlay reads or writes.
pub record PlayerSnapshot : Type 0 where
  pub id : ℕ
  pub reputation : ℕ  -- i32
  pub fame : ℕ  -- i32
  pub credits : ℕ  -- i64

pub record MutationOverlay (F : Type 0) : Type 0 where
  pub ship_changes : Map (ShipChanges F)
  pub player_changes : Map PlayerChanges
  pub pending_destroys : List ℕ  -- a `HashSet`

-- `delta` added where there is one.
abbrev pub plus : (ℕ → ℕ → ℕ) → ℕ → Option ℕ → ℕ
plus add v none = v
plus add v (some delta) = add v delta

unfoldable pub change_player : PlayerChanges → PlayerSnapshot → PlayerSnapshot
change_player c p = record p {
  reputation = plus add_i32 (unwrap_or c.reputation p.reputation) c.reputation_delta;
  fame = plus add_i32 (unwrap_or c.fame p.fame) c.fame_delta;
  credits = plus add_i64 (unwrap_or c.credits p.credits) c.credits_delta;
}

module _ {F : Type 0} where
  abbrev pub status_text : ShipStatusChange F → String
  status_text idle = "idle"
  status_text (in_transit _ _) = "in_transit"
  status_text disabled = "disabled"

  abbrev pub new_status : Option (ShipStatusChange F) → String → String
  new_status none old = old
  new_status (some c) old = status_text c

  unfoldable pub new : MutationOverlay F
  new = record { ship_changes = []; player_changes = []; pending_destroys = [] }

  unfoldable pub record_ship_change : MutationOverlay F → ℕ → ShipChanges F → MutationOverlay F
  record_ship_change o k changes = record o {
    ship_changes =
        insert k (merge_ship (unwrap_or (lookup k o.ship_changes) no_ship_changes) changes)
          o.ship_changes;
  }

  unfoldable pub record_player_change : MutationOverlay F → ℕ → PlayerChanges → MutationOverlay F
  record_player_change o k changes = record o {
    player_changes =
        insert k (merge_player (unwrap_or (lookup k o.player_changes) no_player_changes) changes)
          o.player_changes;
  }

  unfoldable pub is_destroyed : MutationOverlay F → ℕ → Bool
  is_destroyed o k = contains o.pending_destroys k

  -- `HashSet::insert`.
  unfoldable pub record_destroy : MutationOverlay F → ℕ → MutationOverlay F
  record_destroy o k = record o {
    pending_destroys =
        if contains o.pending_destroys k then o.pending_destroys else k ∷ o.pending_destroys;
  }

  unfoldable pub change_ship : ShipChanges F → ShipSnapshot F → ShipSnapshot F
  change_ship c s = record s {
    hull = unwrap_or c.hull s.hull;
    shields = unwrap_or c.shields s.shields;
    ammunition = unwrap_or c.ammunition s.ammunition;
    fuel = unwrap_or c.fuel s.fuel;
    morale = unwrap_or c.morale s.morale;
    experience = unwrap_or c.experience s.experience;
    position = unwrap_or c.position s.position;
    status = new_status c.status s.status;
    combat_stance = unwrap_or c.combat_stance s.combat_stance;
    locked_target = unwrap_or c.locked_target s.locked_target;
  }

  unfoldable pub apply_to_ship : MutationOverlay F → ShipSnapshot F → Option (ShipSnapshot F)
  apply_to_ship o s =
      if contains o.pending_destroys s.id
      then none
      else elim (lookup s.id o.ship_changes) [ none ↦ some s | some c ↦ some (change_ship c s) ]

  unfoldable pub apply_to_player : MutationOverlay F → PlayerSnapshot → Option PlayerSnapshot
  unfolding change_player
  apply_to_player o p =
      if contains o.pending_destroys p.id
      then none
      else elim (lookup p.id o.player_changes) [ none ↦ some p | some c ↦ some (change_player c p) ]

  unfoldable pub has_ship_changes : MutationOverlay F → ℕ → Bool
  has_ship_changes o k = contains_key k o.ship_changes

  unfoldable pub has_player_changes : MutationOverlay F → ℕ → Bool
  has_player_changes o k = contains_key k o.player_changes

  unfoldable pub clear : MutationOverlay F → MutationOverlay F
  clear o = record { ship_changes = []; player_changes = []; pending_destroys = [] }

  unfoldable pub tracked_count : MutationOverlay F → ℕ
  tracked_count o = length o.ship_changes + length o.player_changes + length o.pending_destroys
