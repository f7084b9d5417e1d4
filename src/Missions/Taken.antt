-- ===== src/Missions/Taken.antt =====
-- mission_executor.rs: a mission that a player has accepted, and what keeps it so.
use bw_exp.Common.{
  ℕ, ◌≡◌, refl, sym, arith, [], ◌∷◌, Option, none, some, Bool, true, false, ◌==◌, Bool-cases, inl,
  inr,
}
use mathlib.Core.Path.{subst}
use bw_exp.Common.Map.{Map, lookup, modify, lookup-modify, map_option}
use bw_exp.Missions.{Mission, MissionStatus, available, can_accept, is_expired}
use bw_exp.Missions.Executor.{
  GameState, ok, Found, find, among, mission_in, change_mission, expire, expire_in, expire_missions,
  finish,
}

abbrev pub is_available : MissionStatus → Bool
is_available available = true
is_available _ = false

module _ {F P : Type 0} where
  -- The player has accepted the mission.
  abbrev pub Taken : ℕ → Mission F P → Type 0
  Taken player m = (m.assigned_to ≡ some player) × (is_available m.status ≡ false)

  abbrev pub IsTaken : ℕ → Option (Mission F P) → Type 0
  IsTaken player none = ⊥
  IsTaken player (some m) = Taken player m

  pub finish-Taken :
      (player : ℕ) (a b : Bool) (m : Mission F P) → Taken player m → Taken player (finish a b m)
  finish-Taken player true b m h = (h.0, refl)
  finish-Taken player false b m h = h

  expire-Taken : (player now : ℕ) (m : Mission F P) → Taken player m → Taken player (expire now m)
  expire-Taken player now m h = elim (Bool-cases (is_expired now m)) [
    | inl late ↦ ground (arith, late, h)
    | inr early ↦ ground (arith, early, h)
  ]

  pub can_accept-Taken :
      (player : ℕ) (m : Mission F P)
      → Taken player m
      → (p : ℕ) (q : Option ℕ) → can_accept m p q ≡ false
  unfolding can_accept
  can_accept-Taken player m h p q = ground (arith, h)

  map_option-IsTaken :
      (player : ℕ) (f : Mission F P → Mission F P) (o : Option (Mission F P))
      → ((m : Mission F P) → Taken player m → Taken player (f m))
      → IsTaken player o
      → IsTaken player (map_option f o)
  map_option-IsTaken player f none keeps h = h
  map_option-IsTaken player f (some m) keeps h = keeps m h

  among-IsTaken :
      (player j : ℕ) (f : Map (Mission F P) → Map (Mission F P)) (o : Option (Map (Mission F P)))
      → ((m : Map (Mission F P)) → IsTaken player (lookup j m) → IsTaken player (lookup j (f m)))
      → IsTaken player (among j o)
      → IsTaken player (among j (map_option f o))
  among-IsTaken player j f none keeps h = h
  among-IsTaken player j f (some m) keeps h = keeps m h

  lookup-expire_in :
      (j now : ℕ) (m : Map (Mission F P))
      → lookup j (expire_in now m) ≡ map_option (expire now) (lookup j m)
  unfolding lookup expire_in
  lookup-expire_in j now [] = refl
  lookup-expire_in j now (e ∷ m) = elim (Bool-cases (e.0 == j)) [
    | inl same ↦ rw same refl
    | inr other ↦ rw other (lookup-expire_in j now m)
  ]

module _ {F P S : Type 0} (player s j : ℕ) where
  in_sector-IsTaken :
      (sector : ℕ) (f : Map (Mission F P) → Map (Mission F P)) (g : GameState F P S)
      → ((m : Map (Mission F P)) → IsTaken player (lookup j m) → IsTaken player (lookup j (f m)))
      → IsTaken player (mission_in g s j)
      → IsTaken player (mission_in (record g { sectors = modify sector f g.sectors }) s j)
  unfolding mission_in
  in_sector-IsTaken sector f g keeps h =
      subst (λ o. IsTaken player (among j o)) (sym (lookup-modify sector s f g.sectors))
        (elim (Bool-cases (sector == s)) [
          | inr other ↦ rw other h
          | inl same ↦ rw same (among-IsTaken player j f (lookup s g.sectors) keeps h)
        ])

  pub change_mission-IsTaken :
      (sector id : ℕ) (f : Mission F P → Mission F P) (g : GameState F P S)
      → ((m : Mission F P) → Taken player m → Taken player (f m))
      → IsTaken player (mission_in g s j)
      → IsTaken player (mission_in (change_mission sector id f g) s j)
  unfolding change_mission
  change_mission-IsTaken sector id f g keeps h =
      in_sector-IsTaken sector (modify id f) g
        (λ m there. rw (lookup-modify id j f m) (elim (Bool-cases (id == j)) [
          | inr other ↦ rw other there
          | inl same ↦ rw same (map_option-IsTaken player f (lookup j m) keeps there)
        ]))
        h

  pub expire_missions-IsTaken :
      (now sector : ℕ) (g : GameState F P S)
      → IsTaken player (mission_in g s j)
      → IsTaken player (mission_in (expire_missions now sector g) s j)
  unfolding expire_missions
  expire_missions-IsTaken now sector g h =
      in_sector-IsTaken sector (expire_in now) g
        (λ m there.
          rw (lookup-expire_in j now m)
            (map_option-IsTaken player (expire now) (lookup j m) (expire-Taken player now) there))
        h

module _ {F P S : Type 0} where
  pub find_found :
      (g : GameState F P S) (p id : ℕ) (found : Found F P S)
      → find g p id ≡ ok found
      → mission_in g found.sector_id id ≡ some found.mission
  unfolding find mission_in
  find_found g p id found e = ground (arith, e)
