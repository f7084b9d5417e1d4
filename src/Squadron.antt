-- ===== src/Squadron.antt =====
-- crates/bw-core/src/models/squadron.rs and the `SquadronRank` of player.rs.
-- A text is the list of its UTF-8 bytes, an identifier and a time a number, an integer a ℤ.
pub mod Roster
pub mod Diplomacy
mod Examples
use bw_exp.Common.{
  ℕ, List, [], ◌∷◌, Option, none, Bool, false, true, ◌&&◌, ◌||◌, length, push, ◌==◌, if◌then◌else◌,
  not,
}
use bw_exp.Common.Int.{ℤ, pos}
use bw_exp.Common.Float.{Float}
use bw_exp.Common.Ids.{contains, without}

pub data SquadronRank : Type 0 where
  member officer leader : SquadronRank

pub record SquadronSettings (F : Type 0) : Type 0 where
  pub auto_accept : Bool
  pub min_reputation_to_join : ℤ
  pub members_can_invite : Bool
  pub tax_rate : F

pub record SquadronStats : Type 0 where
  pub total_missions : ℤ
  pub total_reputation_earned : ℤ
  pub sectors_controlled : ℤ
  pub wars_won : ℤ
  pub wars_lost : ℤ

pub record Squadron (F : Type 0) : Type 0 where
  pub id : ℕ
  pub name : List ℕ
  pub tag : List ℕ
  pub motto : Option (List ℕ)
  pub description : List ℕ
  pub founded_at : ℕ
  pub leader_id : ℕ
  pub officers : List ℕ
  pub members : List ℕ
  pub patrol_sectors : List ℕ
  pub owned_stations : List ℕ
  pub owned_ships : List ℕ
  pub treasury : ℤ
  pub reputation_bonus : F
  pub fame_bonus : F
  pub allied_squadrons : List ℕ
  pub hostile_squadrons : List ℕ
  pub wargames_enabled : Bool
  pub privateering_enabled : Bool
  pub settings : SquadronSettings F
  pub stats : SquadronStats

pub data SquadronBuildingType : Type 0 where
  outpost station shipyard patrol_ship defense_ship : SquadronBuildingType

unfoldable pub build_cost : SquadronBuildingType → ℤ
build_cost outpost = pos 100
build_cost station = pos 500
build_cost shipyard = pos 1000
build_cost patrol_ship = pos 50
build_cost defense_ship = pos 150

module _ {F : Type 0} where
  unfoldable pub member_count : Squadron F → ℕ
  member_count s = length s.members

  unfoldable pub is_leader : Squadron F → ℕ → Bool
  is_leader s p = s.leader_id == p

  unfoldable pub is_officer : Squadron F → ℕ → Bool
  is_officer s p = contains s.officers p

  unfoldable pub is_member : Squadron F → ℕ → Bool
  is_member s p = contains s.members p

  unfoldable pub can_manage : Squadron F → ℕ → Bool
  unfolding is_leader is_officer
  can_manage s p = is_leader s p || is_officer s p

  unfoldable pub promote_to_officer : Squadron F → ℕ → Squadron F
  unfolding is_member is_officer is_leader
  promote_to_officer s p =
      if is_member s p && not (is_officer s p) && not (is_leader s p)
      then record s { officers = push s.officers p }
      else s

  unfoldable pub demote_officer : Squadron F → ℕ → Squadron F
  demote_officer s p = record s { officers = without p s.officers }

  -- The old leader becomes an officer, unless it is one.
  old_leader_officer : Squadron F → List ℕ
  old_leader_officer s =
      if contains s.officers s.leader_id then s.officers else push s.officers s.leader_id

  unfoldable pub transfer_leadership : Squadron F → ℕ → Squadron F
  unfolding is_member old_leader_officer
  transfer_leadership s p =
      if is_member s p
      then record s { leader_id = p; officers = without p (old_leader_officer s) }
      else s

  unfoldable pub is_hostile_with : Squadron F → ℕ → Bool
  is_hostile_with s q = contains s.hostile_squadrons q

  unfoldable pub is_allied_with : Squadron F → ℕ → Bool
  is_allied_with s q = contains s.allied_squadrons q

  unfoldable pub declare_war : Squadron F → ℕ → Squadron F
  declare_war s q = record s {
    hostile_squadrons =
        if contains s.hostile_squadrons q then s.hostile_squadrons else push s.hostile_squadrons q;
    allied_squadrons = without q s.allied_squadrons;
  }

  unfoldable pub make_peace : Squadron F → ℕ → Squadron F
  make_peace s q = record s { hostile_squadrons = without q s.hostile_squadrons }

  unfoldable pub form_alliance : Squadron F → ℕ → Squadron F
  form_alliance s q = record s {
    allied_squadrons =
        if contains s.allied_squadrons q then s.allied_squadrons else push s.allied_squadrons q;
    hostile_squadrons = without q s.hostile_squadrons;
  }

  unfoldable pub break_alliance : Squadron F → ℕ → Squadron F
  break_alliance s q = record s { allied_squadrons = without q s.allied_squadrons }

module _ {F : Type 0} ⦃fl : Float F⦄ where
  unfoldable pub recalculate_bonuses : Squadron F → Squadron F
  unfolding member_count
  recalculate_bonuses s =
      let root = fl.sqrt (fl.of_usize (member_count s)) in
      record s {
        reputation_bonus = fl.smaller (fl.mul root (fl.decimal 2 0)) (fl.decimal 10 0);
        fame_bonus = fl.smaller (fl.mul root (fl.decimal 15 1)) (fl.decimal 8 0);
      }

  unfoldable pub add_member : Squadron F → ℕ → Squadron F
  unfolding recalculate_bonuses
  add_member s p =
      if contains s.members p
      then s
      else recalculate_bonuses (record s { members = push s.members p })

  unfoldable pub remove_member : Squadron F → ℕ → Squadron F
  unfolding recalculate_bonuses
  remove_member s p =
      if p == s.leader_id
      then s
      else recalculate_bonuses
          (record s { members = without p s.members; officers = without p s.officers })

  -- `Squadron::new`; the identifier and the time are drawn outside.
  unfoldable pub new : ℕ → ℕ → List ℕ → List ℕ → ℕ → Squadron F
  new id now name tag leader_id = record {
    id = id;
    name = name;
    tag = tag;
    motto = none;
    description = [];
    founded_at = now;
    leader_id = leader_id;
    officers = [];
    members = leader_id ∷ [];
    patrol_sectors = [];
    owned_stations = [];
    owned_ships = [];
    treasury = pos 0;
    reputation_bonus = fl.decimal 0 0;
    fame_bonus = fl.decimal 0 0;
    allied_squadrons = [];
    hostile_squadrons = [];
    wargames_enabled = false;
    privateering_enabled = false;
    settings = record {
      auto_accept = false;
      min_reputation_to_join = pos 0;
      members_can_invite = false;
      tax_rate = fl.decimal 0 0;
    };
    stats = record {
      total_missions = pos 0;
      total_reputation_earned = pos 0;
      sectors_controlled = pos 0;
      wars_won = pos 0;
      wars_lost = pos 0;
    };
  }
