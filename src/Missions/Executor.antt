-- ===== src/Missions/Executor.antt =====
-- mission_executor.rs: the handlers of a mission; game_loop.rs: the expiry of missions. What the
-- handlers hand back for the player is left out but for the changes of resources.
use bw_exp.Common.{ℕ, [], ◌∷◌, Option, none, some, Bool, false, ◌==◌, if◌then◌else◌, not}
use bw_exp.Common.Map.{Map, lookup, modify}
use bw_exp.Missions.{
  Mission, available, in_progress, completed, expired, abandoned, can_accept, accept, is_expired,
}

pub data Refusal : Type 0 where
  player_not_found ship_not_found sector_not_found mission_not_found cannot_accept : Refusal
  too_far not_assigned script_failed : Refusal

pub data Result {ℓ} (A : Type ℓ) : Type ℓ where
  ok : A → Result A
  err : Refusal → Result A

pub record Session : Type 0 where
  pub ship_id : ℕ
  pub sector_id : ℕ

-- The parts of `GameState` that the handlers read. `S` stands for ships.
pub record GameState (F P S : Type 0) : Type 0 where
  pub players : Map Session
  pub ships : Map S
  pub sectors : Map (Map (Mission F P))

-- The fields of `MissionOutcome` that the handlers read; `R` stands for the changes of resources.
pub record MissionOutcome (R : Type 0) : Type 0 where
  pub new_state : ℕ
  pub is_complete : Bool
  pub success : Bool
  pub resource_changes : R

-- The scripts of missions, which get the state, the mission, the ship and the player; no value is
-- an error. `near` is the test of the distance to the target.
pub record Runner (F P S R : Type 0) : Type 0 where
  pub start_mission : GameState F P S → Mission F P → S → ℕ → Option (MissionOutcome R)
  pub process_choice : GameState F P S → Mission F P → S → ℕ → ℕ → Option (MissionOutcome R)
  pub process_combat_result :
      GameState F P S → Mission F P → S → ℕ → Bool → Bool → Option (MissionOutcome R)
  pub near : S → P → Bool

-- The changes of resources, whether the mission is complete and whether it succeeded.
pub record MissionExecutionResult (R : Type 0) : Type 0 where
  pub changes : R
  pub is_complete : Bool
  pub success : Bool

abbrev pub result_of : {R : Type 0} → MissionOutcome R → MissionExecutionResult R
result_of o = record {
  changes = o.resource_changes;
  is_complete = o.is_complete;
  success = o.success;
}

-- What the handlers find first.
pub record Found (F P S : Type 0) : Type 0 where
  pub sector_id : ℕ
  pub ship : S
  pub mission : Mission F P

abbrev pub among : {F P : Type 0} → ℕ → Option (Map (Mission F P)) → Option (Mission F P)
among id none = none
among id (some missions) = lookup id missions

module _ {F P S : Type 0} where
  unfoldable pub mission_in : GameState F P S → ℕ → ℕ → Option (Mission F P)
  mission_in g sector id = among id (lookup sector g.sectors)

  unfoldable pub find : GameState F P S → ℕ → ℕ → Result (Found F P S)
  find g player id = elim (lookup player g.players) [
    | none ↦ err player_not_found
    | some session ↦ elim (lookup session.ship_id g.ships) [
      | none ↦ err ship_not_found
      | some ship ↦ elim (lookup session.sector_id g.sectors) [
        | none ↦ err sector_not_found
        | some missions ↦ elim (lookup id missions) [
          | none ↦ err mission_not_found
          | some mission ↦
              ok (record { sector_id = session.sector_id; ship = ship; mission = mission })
        ]
      ]
    ]
  ]

  -- The mission is changed where it stands.
  unfoldable pub change_mission :
      ℕ → ℕ → (Mission F P → Mission F P) → GameState F P S → GameState F P S
  change_mission sector id f g = record g { sectors = modify sector (modify id f) g.sectors }

module _ {F P : Type 0} where
  abbrev pub started : ℕ → ℕ → Mission F P → Mission F P
  started player state m = record (accept player (record m { status = in_progress })) {
    current_state = state;
  }

  abbrev pub finish : Bool → Bool → Mission F P → Mission F P
  finish is_complete success m =
      if is_complete then record m { status = completed success; progress = 2 } else m

  abbrev pub chosen : {R : Type 0} → MissionOutcome R → Mission F P → Mission F P
  chosen o m =
      finish o.is_complete o.success (record m { current_state = o.new_state; progress = 1 })

  abbrev pub fought : {R : Type 0} → MissionOutcome R → Mission F P → Mission F P
  fought o m = finish o.is_complete o.success (record m { current_state = o.new_state })

abbrev pub is_assigned : ℕ → Option ℕ → Bool
is_assigned player none = false
is_assigned player (some p) = p == player

abbrev pub is_far : {P S : Type 0} → (S → P → Bool) → S → Option P → Bool
is_far near ship none = false
is_far near ship (some target) = not (near ship target)

module _ {F P S R : Type 0} (runner : Runner F P S R) where
  -- What follows once all is found.
  unfoldable pub start_found :
      GameState F P S → ℕ → ℕ → Found F P S → GameState F P S × Result (MissionExecutionResult R)
  unfolding change_mission can_accept accept
  start_found g player id found =
      if not (can_accept found.mission player none)
      then (g, err cannot_accept)
      else if is_far runner.near found.ship found.mission.target_position
      then (g, err too_far)
      else elim (runner.start_mission g found.mission found.ship player) [
        | none ↦ (g, err script_failed)
        | some o ↦
            (change_mission found.sector_id id (started player o.new_state) g, ok (result_of o))
      ]

  unfoldable pub start_mission :
      GameState F P S → ℕ → ℕ → GameState F P S × Result (MissionExecutionResult R)
  unfolding find start_found
  start_mission g player id = elim (find g player id) [
    | err e ↦ (g, err e)
    | ok found ↦ start_found g player id found
  ]

  unfoldable pub choose_found :
      GameState F P S
      → ℕ
      → ℕ
      → ℕ
      → Found F P S
      → GameState F P S × Result (MissionExecutionResult R)
  unfolding change_mission
  choose_found g player id choice found =
      if not (is_assigned player found.mission.assigned_to)
      then (g, err not_assigned)
      else elim (runner.process_choice g found.mission found.ship player choice) [
        | none ↦ (g, err script_failed)
        | some o ↦ (change_mission found.sector_id id (chosen o) g, ok (result_of o))
      ]

  unfoldable pub process_mission_choice :
      GameState F P S → ℕ → ℕ → ℕ → GameState F P S × Result (MissionExecutionResult R)
  unfolding find choose_found
  process_mission_choice g player id choice = elim (find g player id) [
    | err e ↦ (g, err e)
    | ok found ↦ choose_found g player id choice found
  ]

  unfoldable pub fight_found :
      GameState F P S
      → ℕ
      → ℕ
      → Bool
      → Bool
      → Found F P S
      → GameState F P S × Result (MissionExecutionResult R)
  unfolding change_mission
  fight_found g player id player_won enemy_fled found =
      elim (runner.process_combat_result g found.mission found.ship player player_won enemy_fled) [
        | none ↦ (g, err script_failed)
        | some o ↦ (change_mission found.sector_id id (fought o) g, ok (result_of o))
      ]

  unfoldable pub process_mission_combat_result :
      GameState F P S → ℕ → ℕ → Bool → Bool → GameState F P S × Result (MissionExecutionResult R)
  unfolding find fight_found
  process_mission_combat_result g player id player_won enemy_fled = elim (find g player id) [
    | err e ↦ (g, err e)
    | ok found ↦ fight_found g player id player_won enemy_fled found
  ]

module _ {F P : Type 0} where
  abbrev pub expire : ℕ → Mission F P → Mission F P
  expire now m = elim m.status [
    | available ↦ if is_expired now m then record m { status = expired } else m
    | in_progress ↦ m
    | completed success ↦ m
    | expired ↦ m
    | abandoned ↦ m
  ]

  unfoldable pub expire_in : ℕ → Map (Mission F P) → Map (Mission F P)
  unfolding is_expired
  expire_in now [] = []
  expire_in now (e ∷ m) = (e.0, expire now e.1) ∷ expire_in now m

module _ {F P S : Type 0} where
  -- The expiry of the missions of a sector, in a tick.
  unfoldable pub expire_missions : ℕ → ℕ → GameState F P S → GameState F P S
  unfolding expire_in
  expire_missions now sector g = record g { sectors = modify sector (expire_in now) g.sectors }
