-- ===== src/Missions/Examples.antt =====
-- Runs of mission_executor.rs: a mission that one player starts and fails.
use bw_exp.Common.{ℕ, ◌≡◌, refl, [], ◌∷◌, Option, none, some, Bool, true, false, ◌==◌}
use bw_exp.Common.Map.{lookup}
use bw_exp.Missions.{Mission, sector_wide, available, completed, can_accept}
use bw_exp.Missions.Executor.{
  GameState, Runner, Found, MissionOutcome, ok, find, mission_in, start_mission,
  process_mission_choice, result_of,
}
use bw_exp.Missions.Calls.{starts, chooses, run_calls}
use bw_exp.Missions.Lifecycle.{accepted_once, completed_again}

abbrev patrol : Mission ℕ ℕ
patrol = record {
  id = 8;
  script_path = 0;
  current_state = 0;
  target_position = some 40;
  assigned_to = none;
  availability = sector_wide;
  expires_at = none;
  status = available;
  progress = 0;
}

-- Two players in one sector.
abbrev world : Mission ℕ ℕ → GameState ℕ ℕ ℕ
world m = record {
  players =
      (1, record { ship_id = 5; sector_id = 3 }) ∷ (2, record { ship_id = 6; sector_id = 3 }) ∷ [];
  ships = (5, 0) ∷ (6, 0) ∷ [];
  sectors = (3, (8, m) ∷ []) ∷ [];
}

abbrev outcome : ℕ → Bool → Bool → MissionOutcome ℕ
outcome state is_complete success = record {
  new_state = state;
  is_complete = is_complete;
  success = success;
  resource_changes = 20;
}

-- A choice completes the mission, the choice 1 with success.
abbrev scripts : Runner ℕ ℕ ℕ ℕ
scripts = record {
  start_mission = λ g m ship player. some (outcome 1 false false);
  process_choice = λ g m ship player choice. some (outcome 2 true (choice == 1));
  process_combat_result = λ g m ship player won fled. some (outcome 3 true won);
  near = λ ship target. true;
}

abbrev at_patrol : Mission ℕ ℕ → Found ℕ ℕ ℕ
at_patrol m = record { sector_id = 3; ship = 0; mission = m }

-- The other player tries to start the mission, too.
accepted_once_example :
    (m : Mission ℕ ℕ) × (mission_in
        (run_calls scripts
          (starts 2 8 ∷ chooses 1 8 0 ∷ [])
          (start_mission scripts (world patrol) 1 8).0)
        3
        8
      ≡ some m)
    × (m.assigned_to ≡ some 1)
    × ((q : ℕ) (k : Option ℕ) → can_accept m q k ≡ false)
unfolding start_mission find lookup
accepted_once_example =
    accepted_once scripts 1 8 (world patrol) (at_patrol patrol) (result_of (outcome 1 false false))
      refl refl (starts 2 8 ∷ chooses 1 8 0 ∷ [])

abbrev lost : Mission ℕ ℕ
lost = record patrol { assigned_to = some 1; status = completed false }

completed_again_example :
    (m : Mission ℕ ℕ) × (mission_in (process_mission_choice scripts (world lost) 1 8 1).0 3 8
      ≡ some m)
    × (m.status ≡ completed true)
    × ((process_mission_choice scripts (world lost) 1 8 1).1 ≡ ok (result_of (outcome 2 true true)))
unfolding find lookup
completed_again_example =
    completed_again scripts 1 8 1 (world lost) (at_patrol lost) (outcome 2 true true) refl refl refl
      refl refl
