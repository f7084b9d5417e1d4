-- ===== src/Missions/Calls.antt =====
-- mission_executor.rs: the calls leave an accepted mission with its player.
use bw_exp.Common.{
  ℕ, ◌≡◌, refl, sym, ap, ◌∙◌, arith, List, [], ◌∷◌, Option, none, some, Bool, true, false, ◌==◌,
  if◌then◌else◌, Bool-cases, Option-cases, inl, inr, ◌⊎◌,
}
use mathlib.Core.Path.{subst}
use bw_exp.Common.Map.{Map, lookup, modify, lookup-modify, map_option}
use bw_exp.Missions.{Mission, can_accept}
use bw_exp.Missions.Executor.{
  GameState, Runner, Result, ok, err, Found, find, among, mission_in, change_mission, start_mission,
  process_mission_choice, process_mission_combat_result, expire_missions, started, chosen, fought,
  Refusal, is_far, is_assigned, start_found, choose_found, fight_found,
}
use bw_exp.Missions.Taken.{
  IsTaken, finish-Taken, can_accept-Taken, change_mission-IsTaken, expire_missions-IsTaken,
  find_found,
}

Result-cases : {A : Type 0} (r : Result A) → ((e : Refusal) × (r ≡ err e)) ⊎ ((a : A) × (r ≡ ok a))
Result-cases (ok a) = inr (a, refl)
Result-cases (err e) = inl (e, refl)

module _ {F P : Type 0} where
  among_other :
      (id j : ℕ) (f : Mission F P → Mission F P) (o : Option (Map (Mission F P)))
      → id == j ≡ false
      → among j (map_option (modify id f) o) ≡ among j o
  among_other id j f none apart = refl
  among_other id j f (some m) apart = rw (lookup-modify id j f m, apart) refl

module _ {F P S : Type 0} where
  change_other :
      (sector s id j : ℕ) (f : Mission F P → Mission F P) (g : GameState F P S)
      → (if sector == s then id == j else false) ≡ false
      → mission_in (change_mission sector id f g) s j ≡ mission_in g s j
  unfolding mission_in change_mission
  change_other sector s id j f g apart =
      ap (among j) (lookup-modify sector s (modify id f) g.sectors)
      ∙ elim (Bool-cases (sector == s)) [
        | inr other ↦ rw other refl
        | inl same ↦ rw same (among_other id j f (lookup s g.sectors) (rw same at apart))
      ]

pub data MissionCall : Type 0 where
  starts : ℕ → ℕ → MissionCall
  chooses : ℕ → ℕ → ℕ → MissionCall
  fights : ℕ → ℕ → Bool → Bool → MissionCall
  expires : ℕ → ℕ → MissionCall

module _ {F P S R : Type 0} (runner : Runner F P S R) where
  unfoldable pub handle : MissionCall → GameState F P S → GameState F P S
  unfolding start_mission process_mission_choice process_mission_combat_result expire_missions
  handle (starts player id) g = (start_mission runner g player id).0
  handle (chooses player id choice) g = (process_mission_choice runner g player id choice).0
  handle (fights player id won fled) g =
      (process_mission_combat_result runner g player id won fled).0
  handle (expires now sector) g = expire_missions now sector g

  unfoldable pub run_calls : List MissionCall → GameState F P S → GameState F P S
  unfolding handle
  run_calls [] g = g
  run_calls (c ∷ cs) g = run_calls cs (handle c g)

module _ {F P S R : Type 0} (runner : Runner F P S R) (player s j : ℕ) where
  here :
      (g : GameState F P S) (sector id : ℕ) (m : Mission F P)
      → (if sector == s then id == j else false) ≡ true
      → mission_in g sector id ≡ some m
      → mission_in g s j ≡ some m
  here g sector id m same there =
      let e : sector ≡ s = ground (arith, same) in
      let d : id ≡ j = ground (arith, same) in
      subst (λ k. mission_in g s k ≡ some m) d (subst (λ k. mission_in g k id ≡ some m) e there)

  start_found-IsTaken :
      (p id : ℕ) (g : GameState F P S) (found : Found F P S)
      → mission_in g found.sector_id id ≡ some found.mission
      → IsTaken player (mission_in g s j)
      → IsTaken player (mission_in (start_found runner g p id found).0 s j)
  unfolding start_found
  start_found-IsTaken p id g found there h = elim (Bool-cases (can_accept found.mission p none)) [
    | inr refused ↦ rw (refused, start_found) h
    | inl accepted ↦ elim (Bool-cases (if found.sector_id == s then id == j else false)) [
      | inl same ↦ absurd (
          ground (
            arith,
            accepted,
            can_accept-Taken player found.mission
                (subst (λ o. IsTaken player o) (here g found.sector_id id found.mission same there)
                  h)
                p none,
          ))
      | inr apart ↦
          elim (Bool-cases (is_far runner.near found.ship found.mission.target_position)) [
            | inl far ↦ rw (accepted, far, start_found) h
            | inr close ↦ elim (Option-cases (runner.start_mission g found.mission found.ship p)) [
              | inl failed ↦ rw (accepted, close, failed, start_found) h
              | inr (o, made) ↦
                  rw (accepted, close, made, start_found)
                    (subst (λ m. IsTaken player m)
                      (sym (change_other found.sector_id s id j (started p o.new_state) g apart)) h)
            ]
          ]
    ]
  ]

  start_mission-IsTaken :
      (p id : ℕ) (g : GameState F P S)
      → IsTaken player (mission_in g s j)
      → IsTaken player (mission_in (start_mission runner g p id).0 s j)
  unfolding start_mission
  start_mission-IsTaken p id g h = elim (Result-cases (find g p id)) [
    | inl (e, bad) ↦ rw (bad, start_mission) h
    | inr (found, good) ↦
        rw (good, start_mission) (start_found-IsTaken p id g found (find_found g p id found good) h)
  ]

  choose_found-IsTaken :
      (p id choice : ℕ) (g : GameState F P S) (found : Found F P S)
      → IsTaken player (mission_in g s j)
      → IsTaken player (mission_in (choose_found runner g p id choice found).0 s j)
  unfolding choose_found
  choose_found-IsTaken p id choice g found h =
      elim (Bool-cases (is_assigned p found.mission.assigned_to)) [
        | inr other ↦ rw (other, choose_found) h
        | inl own ↦
            elim (Option-cases (runner.process_choice g found.mission found.ship p choice)) [
              | inl failed ↦ rw (own, failed, choose_found) h
              | inr (o, made) ↦
                  rw (own, made, choose_found)
                    (change_mission-IsTaken player s j found.sector_id id (chosen o) g
                      (λ m there. finish-Taken player o.is_complete o.success _ there) h)
            ]
      ]

  choice-IsTaken :
      (p id choice : ℕ) (g : GameState F P S)
      → IsTaken player (mission_in g s j)
      → IsTaken player (mission_in (process_mission_choice runner g p id choice).0 s j)
  unfolding process_mission_choice
  choice-IsTaken p id choice g h = elim (Result-cases (find g p id)) [
    | inl (e, bad) ↦ rw (bad, process_mission_choice) h
    | inr (found, good) ↦
        rw (good, process_mission_choice) (choose_found-IsTaken p id choice g found h)
  ]

  combat-IsTaken :
      (p id : ℕ) (won fled : Bool) (g : GameState F P S)
      → IsTaken player (mission_in g s j)
      → IsTaken player (mission_in (process_mission_combat_result runner g p id won fled).0 s j)
  unfolding process_mission_combat_result fight_found
  combat-IsTaken p id won fled g h = elim (Result-cases (find g p id)) [
    | inl (e, bad) ↦ rw (bad, process_mission_combat_result) h
    | inr (found, good) ↦
        elim (Option-cases (runner.process_combat_result g found.mission found.ship p won fled)) [
          | inl failed ↦ rw (good, process_mission_combat_result, failed, fight_found) h
          | inr (o, made) ↦
              rw (good, process_mission_combat_result, made, fight_found)
                (change_mission-IsTaken player s j found.sector_id id (fought o) g
                  (λ m there. finish-Taken player o.is_complete o.success _ there) h)
        ]
  ]

  handle-IsTaken :
      (c : MissionCall) (g : GameState F P S)
      → IsTaken player (mission_in g s j)
      → IsTaken player (mission_in (handle runner c g) s j)
  unfolding handle
  handle-IsTaken (starts p id) g h = start_mission-IsTaken p id g h
  handle-IsTaken (chooses p id choice) g h = choice-IsTaken p id choice g h
  handle-IsTaken (fights p id won fled) g h = combat-IsTaken p id won fled g h
  handle-IsTaken (expires now sector) g h = expire_missions-IsTaken player s j now sector g h

  pub run_calls-IsTaken :
      (cs : List MissionCall) (g : GameState F P S)
      → IsTaken player (mission_in g s j)
      → IsTaken player (mission_in (run_calls runner cs g) s j)
  unfolding run_calls
  run_calls-IsTaken [] g h = h
  run_calls-IsTaken (c ∷ cs) g h = run_calls-IsTaken cs (handle runner c g) (handle-IsTaken c g h)
