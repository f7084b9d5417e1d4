-- ===== src/Location.antt =====
-- crates/bw-core/src/models/sector.rs: the locations of a sector, with what each offers.
use bw_exp.Common.{ℕ, Option, none, List, [], ◌∷◌, Bool, true}

pub data LocationType : Type 0 where
  naval_station civilian_station mining_facility processing_plant orbital_factory : LocationType
  jumpgate asteroid_field debris_field anomaly graveyard free_port archive shipyard : LocationType

pub data StationService : Type 0 where
  refuel rearm repair trade black_market shore_leave ship_upgrade ship_purchase : StationService
  mission_board jumpgate_access information : StationService

unfoldable pub default_services : LocationType → List StationService
default_services naval_station = refuel ∷ rearm ∷ repair ∷ mission_board ∷ shore_leave ∷ []
default_services civilian_station = refuel ∷ trade ∷ repair ∷ []
default_services mining_facility = refuel ∷ trade ∷ []
default_services processing_plant = trade ∷ []
default_services orbital_factory = trade ∷ ship_upgrade ∷ []
default_services jumpgate = jumpgate_access ∷ []
default_services free_port = refuel ∷ rearm ∷ repair ∷ trade ∷ black_market ∷ []
default_services shipyard = repair ∷ ship_upgrade ∷ ship_purchase ∷ []
default_services archive = trade ∷ information ∷ []
default_services _ = []

-- Names, descriptions and positions are left out.
pub record Location : Type 0 where
  pub id : ℕ
  pub location_type : LocationType
  pub faction_id : Option ℕ
  pub services : List StationService
  pub is_active : Bool

unfoldable pub new : ℕ → LocationType → Location
unfolding default_services
new id location_type = record {
  id = id;
  location_type = location_type;
  faction_id = none;
  services = default_services location_type;
  is_active = true;
}
