-- ===== src/Manager/Sectors.antt =====
-- squadron_manager.rs: claiming, contesting and releasing sectors.
use bw_exp.Common.{
  ℕ, ◌+◌, ◌%◌, ◌^◌, List, Option, none, some, Bool, false, if◌then◌else◌, not, ◌==◌, ltb, leb,
  length, push, filter,
}
use bw_exp.Common.Int.{ℤ, pos, sub_ℕ}
use bw_exp.Common.Ids.{contains, without}
use bw_exp.Common.Map.{lookup, insert, remove, modify}
use bw_exp.Squadron.{Squadron, is_leader, can_manage, is_hostile_with}
use bw_exp.Manager.{
  GameState, Player, Sector, ContestedSector, Outcome, done, refused, Notice, Refusal,
}

-- `n as i32` of a `usize`.
unfoldable pub as_i32 : ℕ → ℤ
as_i32 n = let r = n % 2 ^ 32 in if ltb r (2 ^ 31) then pos r else sub_ℕ r (2 ^ 32)

module _ {F : Type 0} where
  abbrev pub counted : Squadron F → List ℕ → Squadron F
  counted s sectors = record s {
    patrol_sectors = sectors;
    stats = record (s.stats) { sectors_controlled = as_i32 (length sectors) };
  }

  -- A sector that is already on the list leaves the statistics alone.
  unfoldable pub gain_sector : ℕ → Squadron F → Squadron F
  gain_sector x s = if contains s.patrol_sectors x then s else counted s (push s.patrol_sectors x)

  unfoldable pub lose_sector : ℕ → Squadron F → Squadron F
  lose_sector x s = counted s (without x s.patrol_sectors)

abbrev pub controlled : Option ℕ → Sector → Sector
controlled k s = record s { controlling_squadron = k }

-- `sector.controlling_squadron == Some(k)`.
abbrev pub held_by : ℕ → Sector → Bool
held_by k sector = elim sector.controlling_squadron [ none ↦ false | some j ↦ j == k ]

-- `player.squadron_id == Some(k)`.
abbrev pub belongs_to : ℕ → Option Player → Bool
belongs_to k none = false
belongs_to k (some player) = elim player.squadron_id [ none ↦ false | some j ↦ j == k ]

module _ {F : Type 0} where
  unfoldable pub flies_for : GameState F → ℕ → ℕ → Bool
  flies_for g k ship_id = elim (lookup ship_id g.ships) [
    | none ↦ false
    | some ship ↦ elim ship.owner_id [
      | none ↦ false
      | some owner ↦ belongs_to k (lookup owner g.player_data)
    ]
  ]

  unfoldable pub count_squadron_ships_in_sector : GameState F → ℕ → ℕ → ℕ
  unfolding flies_for
  count_squadron_ships_in_sector g k x = elim (lookup x g.sectors) [
    | none ↦ 0
    | some sector ↦ length (filter (flies_for g k) sector.ship_ids)
  ]

  -- Control changes hands: the defender that the contest names loses the sector, the caller gains it.
  unfoldable pub capture : GameState F → ℕ → ℕ → ContestedSector → GameState F
  capture g k x contest = record g {
    sectors = modify x (controlled (some k)) g.sectors;
    squadrons =
        modify k (gain_sector x) (modify contest.defending_squadron_id (lose_sector x) g.squadrons);
    contested_sectors = remove x g.contested_sectors;
  }

  -- A claim on a sector that is already contested. Influence is a `u32`.
  unfoldable pub press : GameState F → ℕ → ℕ → ContestedSector → GameState F × Outcome
  unfolding capture
  press g k x contest =
      let influence =
        (contest.attacker_influence + count_squadron_ships_in_sector g k x) % 2 ^ 32 in
      if leb 100 influence then (capture g k x contest, done Notice.sector_captured) else (
        record g {
          contested_sectors =
              insert x (record contest { attacker_influence = influence }) g.contested_sectors;
        },
        done (Notice.contest_continues influence),
      )

  -- A claim on a sector that the squadron `holder` controls.
  unfoldable pub contest_sector : GameState F → ℕ → ℕ → ℕ → GameState F × Outcome
  unfolding press
  contest_sector g k x holder = elim (lookup x g.contested_sectors) [
    | some contest ↦ press g k x contest
    | none ↦ (
      record g {
        contested_sectors =
            insert x
              (record {
                sector_id = x;
                defending_squadron_id = holder;
                attacking_squadron_id = k;
                defender_influence = 50;
                attacker_influence = 10;
                started_at = g.tick;
              })
              g.contested_sectors;
      },
      done Notice.contest_initiated,
    )
  ]

  unfoldable pub claim : GameState F → ℕ → ℕ → Squadron F → Sector → GameState F × Outcome
  unfolding contest_sector
  claim g k x s sector = elim sector.controlling_squadron [
    | some holder ↦
        if holder == k
        then (g, refused Refusal.already_controlled)
        else if not (is_hostile_with s holder)
        then (g, refused Refusal.not_hostile)
        else contest_sector g k x holder
    | none ↦ (
      record g {
        sectors = modify x (controlled (some k)) g.sectors;
        squadrons = modify k (gain_sector x) g.squadrons;
      },
      done Notice.sector_claimed,
    )
  ]

  unfoldable pub claim_sector_control : GameState F → ℕ → ℕ → GameState F × Outcome
  unfolding claim
  claim_sector_control g p x = elim (lookup p g.player_data) [
    | none ↦ (g, refused Refusal.player_not_found)
    | some player ↦ elim player.squadron_id [
      | none ↦ (g, refused Refusal.not_in_squadron)
      | some k ↦ elim (lookup k g.squadrons) [
        | none ↦ (g, refused Refusal.squadron_not_found)
        | some s ↦
            if not (can_manage s p)
            then (g, refused Refusal.only_officers)
            else elim (lookup x g.sectors) [
              | none ↦ (g, refused Refusal.sector_not_found)
              | some sector ↦ claim g k x s sector
            ]
      ]
    ]
  ]

  unfoldable pub release_sector_control : GameState F → ℕ → ℕ → GameState F × Outcome
  release_sector_control g p x = elim (lookup p g.player_data) [
    | none ↦ (g, refused Refusal.player_not_found)
    | some player ↦ elim player.squadron_id [
      | none ↦ (g, refused Refusal.not_in_squadron)
      | some k ↦ elim (lookup k g.squadrons) [
        | none ↦ (g, refused Refusal.squadron_not_found)
        | some s ↦
            if not (is_leader s p)
            then (g, refused Refusal.only_leader)
            else elim (lookup x g.sectors) [
              | none ↦ (g, refused Refusal.sector_not_found)
              | some sector ↦
                  if not (held_by k sector) then (g, refused Refusal.not_controlled) else (
                    record g {
                      sectors = modify x (controlled none) g.sectors;
                      squadrons = modify k (lose_sector x) g.squadrons;
                    },
                    done Notice.sector_released,
                  )
            ]
      ]
    ]
  ]
