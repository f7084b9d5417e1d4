-- ===== src/Missions.antt =====
-- crates/bw-core/src/models/mission.rs: a mission and its states, and crates/bw-runtime/src/simulation:
-- the handlers of a mission (mission_executor.rs) and its expiry (game_loop.rs). `F` stands for the
-- floats. Titles, descriptions and rewards are left out, and a state of a script is a number.
pub mod Executor
pub mod Taken
pub mod Calls
pub mod Lifecycle
mod Examples
use bw_exp.Common.{ℕ, Option, none, some, Bool, true, false, ◌==◌, if◌then◌else◌, ltb}

-- The constructors are those of `MissionAvailability`.
pub data MissionAvailability (F : Type 0) : Type 0 where
  sector_wide : MissionAvailability F
  range_restricted : F → MissionAvailability F
  assigned squadron_only : ℕ → MissionAvailability F

pub data MissionStatus : Type 0 where
  available in_progress : MissionStatus
  completed : Bool → MissionStatus
  expired abandoned : MissionStatus

-- `target_position` is a position in the sector, `P`; `half` and `whole` are the values of progress.
pub record Mission (F P : Type 0) : Type 0 where
  pub id : ℕ
  pub script_path : ℕ
  pub current_state : ℕ
  pub target_position : Option P
  pub assigned_to : Option ℕ
  pub availability : MissionAvailability F
  pub expires_at : Option ℕ
  pub status : MissionStatus
  pub progress : ℕ  -- in halves

module _ {F P : Type 0} where
  unfoldable pub is_expired : ℕ → Mission F P → Bool
  is_expired now m = elim m.expires_at [ none ↦ false | some expires ↦ ltb expires now ]

  unfoldable pub can_accept : Mission F P → ℕ → Option ℕ → Bool
  can_accept m player squadron = elim m.status [
    | available ↦ elim m.availability [
      | sector_wide ↦ true
      | assigned id ↦ id == player
      | squadron_only sid ↦ elim squadron [ none ↦ false | some s ↦ s == sid ]
      | range_restricted range ↦ true
    ]
    | in_progress ↦ false
    | completed success ↦ false
    | expired ↦ false
    | abandoned ↦ false
  ]

  unfoldable pub accept : ℕ → Mission F P → Mission F P
  accept player m = record m { assigned_to = some player; status = in_progress }

  unfoldable pub complete : Bool → Mission F P → Mission F P
  complete success m = record m { status = completed success; progress = 2 }

  unfoldable pub abandon : Mission F P → Mission F P
  abandon m = record m { status = abandoned }
