-- ===== src/State/Changes.antt =====
-- mutations.rs (the change sets and the mutations) and `merge` of overlay.rs.
use Prim.Native.String.{String}
use bw_exp.Common.{ℕ, ◌+◌, ◌%◌, ◌^◌, List, Option, none, some, Bool, ◌&&◌, is_none, unwrap_or}

pub record Position (F : Type 0) : Type 0 where
  pub x : F
  pub y : F
  pub z : F

pub data ShipStatusChange (F : Type 0) : Type 0 where
  idle disabled : ShipStatusChange F
  in_transit : (destination : Position F) (target_id : Option ℕ) → ShipStatusChange F

pub record CargoChange : Type 0 where
  pub cargo_type : String
  pub quantity : ℕ  -- u32
  pub purchase_price : ℕ  -- i64

pub record UpgradeInstall : Type 0 where
  pub upgrade_id : String
  pub slot : String

pub record ShipChanges (F : Type 0) : Type 0 where
  pub hull : Option F
  pub shields : Option F
  pub ammunition : Option F
  pub fuel : Option F
  pub morale : Option F
  pub experience : Option ℕ
  pub position : Option (Position F)
  pub status : Option (ShipStatusChange F)
  pub combat_stance : Option String
  pub locked_target : Option (Option ℕ)
  pub add_cargo : Option CargoChange
  pub remove_cargo : Option CargoChange
  pub install_upgrade : Option UpgradeInstall
  pub remove_upgrade_slot : Option String

pub record PlayerChanges : Type 0 where
  pub reputation : Option ℕ  -- i32
  pub fame : Option ℕ  -- i32
  pub reputation_delta : Option ℕ  -- i32
  pub fame_delta : Option ℕ  -- i32
  pub credits : Option ℕ  -- i64
  pub credits_delta : Option ℕ  -- i64

abbrev pub add_i32 : ℕ → ℕ → ℕ
add_i32 a b = (a + b) % 2 ^ 32

abbrev pub add_i64 : ℕ → ℕ → ℕ
add_i64 a b = (a + b) % 2 ^ 64

module _ {F : Type 0} where
  -- `ShipChanges::default()`.
  unfoldable pub no_ship_changes : ShipChanges F
  no_ship_changes = record {
    hull = none;
    shields = none;
    ammunition = none;
    fuel = none;
    morale = none;
    experience = none;
    position = none;
    status = none;
    combat_stance = none;
    locked_target = none;
    add_cargo = none;
    remove_cargo = none;
    install_upgrade = none;
    remove_upgrade_slot = none;
  }

  unfoldable pub ship_is_empty : ShipChanges F → Bool
  ship_is_empty c =
      is_none c.hull
      && is_none c.shields
      && is_none c.ammunition
      && is_none c.fuel
      && is_none c.morale
      && is_none c.experience
      && is_none c.position
      && is_none c.status
      && is_none c.combat_stance
      && is_none c.locked_target
      && is_none c.add_cargo
      && is_none c.remove_cargo
      && is_none c.install_upgrade
      && is_none c.remove_upgrade_slot

-- `if other.f.is_some() { self.f = other.f }`.
abbrev pub override {ℓ} : {A : Type ℓ} → Option A → Option A → Option A
override old none = old
override old (some v) = some v

-- `if let Some(delta) = other.d { self.d = Some(self.d.unwrap_or(0) + delta) }`.
abbrev pub accumulate : (ℕ → ℕ → ℕ) → Option ℕ → Option ℕ → Option ℕ
accumulate add old none = old
accumulate add old (some delta) = some (add (unwrap_or old 0) delta)

module _ {F : Type 0} where
  unfoldable pub merge_ship : ShipChanges F → ShipChanges F → ShipChanges F
  merge_ship self other = record {
    hull = override self.hull other.hull;
    shields = override self.shields other.shields;
    ammunition = override self.ammunition other.ammunition;
    fuel = override self.fuel other.fuel;
    morale = override self.morale other.morale;
    experience = override self.experience other.experience;
    position = override self.position other.position;
    status = override self.status other.status;
    combat_stance = override self.combat_stance other.combat_stance;
    locked_target = override self.locked_target other.locked_target;
    add_cargo = override self.add_cargo other.add_cargo;
    remove_cargo = override self.remove_cargo other.remove_cargo;
    install_upgrade = override self.install_upgrade other.install_upgrade;
    remove_upgrade_slot = override self.remove_upgrade_slot other.remove_upgrade_slot;
  }

-- `PlayerChanges::default()`.
unfoldable pub no_player_changes : PlayerChanges
no_player_changes = record {
  reputation = none;
  fame = none;
  reputation_delta = none;
  fame_delta = none;
  credits = none;
  credits_delta = none;
}

unfoldable pub player_is_empty : PlayerChanges → Bool
player_is_empty c =
    is_none c.reputation
    && is_none c.fame
    && is_none c.reputation_delta
    && is_none c.fame_delta
    && is_none c.credits
    && is_none c.credits_delta

unfoldable pub merge_player : PlayerChanges → PlayerChanges → PlayerChanges
merge_player self other = record {
  reputation = override self.reputation other.reputation;
  fame = override self.fame other.fame;
  credits = override self.credits other.credits;
  reputation_delta = accumulate add_i32 self.reputation_delta other.reputation_delta;
  fame_delta = accumulate add_i32 self.fame_delta other.fame_delta;
  credits_delta = accumulate add_i64 self.credits_delta other.credits_delta;
}

pub data EntityType : Type 0 where
  ship mission station : EntityType

-- The fields of `ShipSpawnConfig` that the accessor reads, and the class and name that it copies.
pub record ShipSpawnConfig (F : Type 0) : Type 0 where
  pub name : String
  pub ship_class : String
  pub sector_id : ℕ
  pub position : Position F
  pub faction_id : Option ℕ
  pub behavior_script : Option String

pub record ChoiceOption : Type 0 where
  pub id : String
  pub text : String
  pub is_available : Bool
  pub requirement_text : Option String

pub data StateMutation (F D : Type 0) : Type 0 where
  modify_ship : (ship_id : ℕ) → ShipChanges F → StateMutation F D
  modify_player : (player_id : ℕ) → PlayerChanges → StateMutation F D
  spawn_ship : ShipSpawnConfig F → StateMutation F D
  destroy_entity : (entity_id : ℕ) → EntityType → StateMutation F D
  emit_event : (event_type : String) → D → (actor_id target_id : Option ℕ) → StateMutation F D
  send_notification : (player_id : ℕ) → (message notification_type : String) → StateMutation F D
  send_choice :
      (player_id : ℕ) → (choice_id description : String) → List ChoiceOption → StateMutation F D
  broadcast_to_sector : (sector_id : ℕ) → (message notification_type : String) → StateMutation F D
