-- ===== src/Missions/Lifecycle.antt =====
-- mission_executor.rs: a mission from its start on.
use bw_exp.Common.{
  ℕ, ◌≡◌, refl, sym, ap, ◌∙◌, List, Option, none, some, true, false, Bool-cases, Option-cases, inl,
  inr, ==_refl,
}
use mathlib.Core.Path.{subst}
use bw_exp.Common.Map.{Map, lookup, modify, lookup-modify, map_option}
use bw_exp.Missions.{Mission, completed, can_accept}
use bw_exp.Missions.Executor.{
  GameState, Runner, ok, err, Found, find, among, mission_in, change_mission, start_mission,
  process_mission_choice, started, chosen, MissionExecutionResult, result_of, MissionOutcome,
  Refusal, is_far, is_assigned, start_found, choose_found,
}
use bw_exp.Missions.Taken.{IsTaken, can_accept-Taken, find_found}
use bw_exp.Missions.Calls.{MissionCall, run_calls, run_calls-IsTaken}

err_not_ok : {A : Type 0} (e : Refusal) (a : A) → err e ≡ ok a → ⊥
err_not_ok e a h = cc

among_same :
    {F P : Type 0} (id : ℕ) (f : Mission F P → Mission F P) (o : Option (Map (Mission F P)))
    (m : Mission F P)
    → among id o ≡ some m
    → among id (map_option (modify id f) o) ≡ some (f m)
among_same id f none m there = absurd cc
among_same id f (some ms) m there = rw (lookup-modify id id f ms, ==_refl id, there) refl

change_found :
    {F P S : Type 0} (g : GameState F P S) (sector id : ℕ) (f : Mission F P → Mission F P)
    (m : Mission F P)
    → mission_in g sector id ≡ some m
    → mission_in (change_mission sector id f g) sector id ≡ some (f m)
unfolding mission_in change_mission
change_found g sector id f m there =
    ap (among id) (lookup-modify sector sector (modify id f) g.sectors)
    ∙ rw (==_refl sector) (among_same id f (lookup sector g.sectors) m there)

taken :
    {F P : Type 0} (player : ℕ) (o : Option (Mission F P))
    → IsTaken player o
    → (m : Mission F P) × (o ≡ some m)
      × (m.assigned_to ≡ some player)
      × ((q : ℕ) (k : Option ℕ) → can_accept m q k ≡ false)
taken player none h = absurd h
taken player (some m) h = (m, refl, h.0, can_accept-Taken player m h)

module _ {F P S R : Type 0} (runner : Runner F P S R) where
  start_takes :
      (p id : ℕ) (g : GameState F P S) (found : Found F P S) (result : MissionExecutionResult R)
      → find g p id ≡ ok found
      → (start_mission runner g p id).1 ≡ ok result
      → IsTaken p (mission_in (start_mission runner g p id).0 found.sector_id id)
  unfolding start_mission start_found
  start_takes p id g found result good done = elim (Bool-cases (can_accept found.mission p none)) [
    | inr refused ↦
        absurd (err_not_ok _ result (rw (good, start_mission, refused, start_found) at done))
    | inl free ↦ elim (Bool-cases (is_far runner.near found.ship found.mission.target_position)) [
      | inl far ↦
          absurd (err_not_ok _ result (rw (good, start_mission, free, far, start_found) at done))
      | inr close ↦ elim (Option-cases (runner.start_mission g found.mission found.ship p)) [
        | inl failed ↦ absurd (
            err_not_ok _ result
              (rw (good, start_mission, free, close, failed, start_found) at done))
        | inr (o, made) ↦
            rw (good, start_mission, free, close, made, start_found)
              (subst (λ m. IsTaken p m)
                (sym (
                  change_found g found.sector_id id (started p o.new_state) found.mission
                    (find_found g p id found good)))
                (refl, refl))
      ]
    ]
  ]

  -- Once a player has started a mission with success, then whatever starts, choices, results of
  -- combat and expiries of missions follow, by any players and with any scripts, the mission is
  -- there and assigned to that player, and no player of any squadron can accept it.
  pub accepted_once :
      (p id : ℕ) (g : GameState F P S) (found : Found F P S) (result : MissionExecutionResult R)
      → find g p id ≡ ok found
      → (start_mission runner g p id).1 ≡ ok result
      → (cs : List MissionCall)
      → (m : Mission F P) × (mission_in
            (run_calls runner cs (start_mission runner g p id).0)
            found.sector_id
            id
          ≡ some m)
        × (m.assigned_to ≡ some p)
        × ((q : ℕ) (k : Option ℕ) → can_accept m q k ≡ false)
  accepted_once p id g found result good done cs =
      taken p (mission_in (run_calls runner cs (start_mission runner g p id).0) found.sector_id id)
        (run_calls-IsTaken runner p found.sector_id id cs (start_mission runner g p id).0
          (start_takes p id g found result good done))

  -- A mission that is completed as failed still takes choices: if it is assigned to the player
  -- and its script answers the choice with an outcome that completes it, then the mission is
  -- completed as that outcome says, and the result hands over the changes of resources again.
  pub completed_again :
      (p id choice : ℕ) (g : GameState F P S) (found : Found F P S) (o : MissionOutcome R)
      → find g p id ≡ ok found
      → found.mission.assigned_to ≡ some p
      → found.mission.status ≡ completed false
      → runner.process_choice g found.mission found.ship p choice ≡ some o
      → o.is_complete ≡ true
      → (m : Mission F P) × (mission_in
            (process_mission_choice runner g p id choice).0
            found.sector_id
            id
          ≡ some m)
        × (m.status ≡ completed o.success)
        × ((process_mission_choice runner g p id choice).1 ≡ ok (result_of o))
  unfolding process_mission_choice choose_found
  completed_again p id choice g found o good own over made complete =
      let assigned = subst (λ a. is_assigned p a ≡ true) (sym own) (==_refl p) in
      (
        chosen o found.mission,
        rw (good, process_mission_choice, assigned, made, choose_found)
            (change_found g found.sector_id id (chosen o) found.mission
              (find_found g p id found good)),
        rw complete refl,
        rw (good, process_mission_choice, assigned, made, choose_found) refl,
      )
