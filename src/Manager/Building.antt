-- ===== src/Manager/Building.antt =====
-- squadron_manager.rs: building stations and ships for a squadron.
use bw_exp.Common.{ℕ, [], ◌∷◌, none, some, Bool, true, false, if◌then◌else◌, not, ◌&&◌, push}
use bw_exp.Common.Int.{ℤ}
use bw_exp.Common.Map.{lookup, insert, modify}
use bw_exp.Squadron.{
  SquadronBuildingType, outpost, station, shipyard, patrol_ship, defense_ship, build_cost,
  can_manage,
}
use bw_exp.Location
use bw_exp.Location.{Location, LocationType, StationService, refuel, rearm, repair, trade}
use bw_exp.Manager.{
  GameState, Player, Sector, Outcome, done, refused, Notice, Refusal, spend_reputation,
}
use bw_exp.Manager.Sectors.{held_by}

abbrev pub requires_sector_control : SquadronBuildingType → Bool
requires_sector_control patrol_ship = false
requires_sector_control defense_ship = false
requires_sector_control _ = true

abbrev placed : Location → Sector → Sector
placed l s = record s { locations = push s.locations l }

abbrev arrived : ℕ → Sector → Sector
arrived id s = record s { ship_ids = push s.ship_ids id }

module _ {F : Type 0} where
  abbrev place : ℕ → Location → GameState F → GameState F
  place x l g = record g { sectors = modify x (placed l) g.sectors }

  -- An NPC ship, which no player owns.
  abbrev launch : ℕ → ℕ → GameState F → GameState F
  launch x id g = record g {
    ships = insert id (record { owner_id = none }) g.ships;
    sectors = modify x (arrived id) g.sectors;
  }

  -- What is built in the sector `x`, with the identifier `id`.
  unfoldable pub raise : ℕ → ℕ → SquadronBuildingType → GameState F → GameState F
  unfolding Location.new
  raise id x outpost g =
      place x
        (record (Location.new id LocationType.civilian_station) { services = refuel ∷ repair ∷ [] })
        g
  raise id x station g =
      place x
        (record (Location.new id LocationType.civilian_station) {
          services = refuel ∷ rearm ∷ repair ∷ trade ∷ [];
        })
        g
  raise id x shipyard g = place x (Location.new id LocationType.shipyard) g
  raise id x patrol_ship g = launch x id g
  raise id x defense_ship g = launch x id g

  abbrev pub pay : ℕ → Player → ℤ → GameState F → GameState F
  pay p player reputation g = record g {
    player_data = insert p (record player { reputation = reputation }) g.player_data;
  }

  unfoldable pub build :
      GameState F → ℕ → ℕ → Player → SquadronBuildingType → ℕ → GameState F × Outcome
  unfolding raise spend_reputation build_cost
  build g id p player kind x =
      let (reputation, afforded) = spend_reputation player.reputation (build_cost kind) in
      if afforded
      then (raise id x kind (pay p player reputation g), done Notice.built)
      else (g, refused Refusal.insufficient_reputation)

  unfoldable pub build_structure :
      GameState F → ℕ → ℕ → SquadronBuildingType → ℕ → GameState F × Outcome
  unfolding build
  build_structure g id p kind x = elim (lookup p g.player_data) [
    | none ↦ (g, refused Refusal.player_not_found)
    | some player ↦ elim player.squadron_id [
      | none ↦ (g, refused Refusal.not_in_squadron)
      | some k ↦ elim (lookup k g.squadrons) [
        | none ↦ (g, refused Refusal.squadron_not_found)
        | some s ↦
            if not (can_manage s p)
            then (g, refused Refusal.only_officers)
            else elim (lookup x g.sectors) [
              | none ↦ (g, refused Refusal.sector_not_found)
              | some sector ↦
                  if requires_sector_control kind && not (held_by k sector)
                  then (g, refused Refusal.not_controlled)
                  else build g id p player kind x
            ]
      ]
    ]
  ]
