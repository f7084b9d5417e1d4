-- ===== src/Manager/Consistency/Sectors.antt =====
-- Claims on sectors leave rosters and records alone.
use bw_exp.Common.{ℕ, refl, arith, ◌==◌, Option-cases, Bool-cases, inl, inr, leb, ◌+◌, ◌%◌, ◌^◌}
use bw_exp.Common.Map.{lookup}
use bw_exp.Squadron.{Squadron, is_leader, can_manage, is_hostile_with}
use bw_exp.Manager.{GameState, ContestedSector, Sector}
use bw_exp.Manager.Sectors.{
  gain_sector, lose_sector, capture, press, contest_sector, claim, claim_sector_control,
  release_sector_control, held_by, count_squadron_ships_in_sector,
}
use bw_exp.Manager.Consistency.{IsSound}
use bw_exp.Manager.Consistency.Kept.{SameRoster, modify-IsConsistent}

module _ {F : Type 0} where
  gain-SameRoster : (x : ℕ) (s : Squadron F) → SameRoster s (gain_sector x s)
  unfolding gain_sector
  gain-SameRoster x s = ground arith

module _ {F : Type 0} (g : GameState F) (h : IsSound g) where
  capture-IsSound : (k x : ℕ) (c : ContestedSector) → IsSound (capture g k x c)
  unfolding capture lose_sector
  capture-IsSound k x c = modify-IsConsistent g.player_data _ k _ (gain-SameRoster x) (
      modify-IsConsistent g.player_data g.squadrons c.defending_squadron_id _
        (λ t. (refl, refl, refl)) h)

  press-IsSound : (k x : ℕ) (c : ContestedSector) → IsSound (press g k x c).0
  unfolding press
  press-IsSound k x c =
      let influence = (c.attacker_influence + count_squadron_ships_in_sector g k x) % 2 ^ 32 in
      elim (Bool-cases (leb 100 influence)) [
        | inl won ↦ rw won (capture-IsSound k x c)
        | inr on ↦ rw on h
      ]

  contest-IsSound : (k x holder : ℕ) → IsSound (contest_sector g k x holder).0
  unfolding contest_sector
  contest-IsSound k x holder = elim (Option-cases (lookup x g.contested_sectors)) [
    | inl e ↦ rw (e, contest_sector) h
    | inr (c, e) ↦ rw (e, contest_sector) (press-IsSound k x c)
  ]

  claim-IsSound : (k x : ℕ) (s : Squadron F) (sector : Sector) → IsSound (claim g k x s sector).0
  unfolding claim
  claim-IsSound k x s sector = elim (Option-cases sector.controlling_squadron) [
    | inl e ↦
        rw (e, claim) (modify-IsConsistent g.player_data g.squadrons k _ (gain-SameRoster x) h)
    | inr (holder, e) ↦ elim (Bool-cases (holder == k)) [
      | inl a ↦ rw (e, a, claim) h
      | inr a ↦ elim (Bool-cases (is_hostile_with s holder)) [
        | inr b ↦ rw (e, a, b, claim) h
        | inl b ↦ rw (e, a, b, claim) (contest-IsSound k x holder)
      ]
    ]
  ]

  pub claim_sector-IsSound : (p x : ℕ) → IsSound (claim_sector_control g p x).0
  unfolding claim_sector_control
  claim_sector-IsSound p x = elim (Option-cases (lookup p g.player_data)) [
    | inl e ↦ rw (e, claim_sector_control) h
    | inr (player, e) ↦ elim (Option-cases player.squadron_id) [
      | inl free ↦ rw (e, free, claim_sector_control) h
      | inr (k, own) ↦ elim (Option-cases (lookup k g.squadrons)) [
        | inl gone ↦ rw (e, own, gone, claim_sector_control) h
        | inr (s, y) ↦ elim (Bool-cases (can_manage s p)) [
          | inr a ↦ rw (e, own, y, a, claim_sector_control) h
          | inl a ↦ elim (Option-cases (lookup x g.sectors)) [
            | inl b ↦ rw (e, own, y, a, b, claim_sector_control) h
            | inr (sector, b) ↦
                rw (e, own, y, a, b, claim_sector_control) (claim-IsSound k x s sector)
          ]
        ]
      ]
    ]
  ]

  pub release_sector-IsSound : (p x : ℕ) → IsSound (release_sector_control g p x).0
  unfolding release_sector_control lose_sector
  release_sector-IsSound p x = elim (Option-cases (lookup p g.player_data)) [
    | inl e ↦ rw (e, release_sector_control) h
    | inr (player, e) ↦ elim (Option-cases player.squadron_id) [
      | inl free ↦ rw (e, free, release_sector_control) h
      | inr (k, own) ↦ elim (Option-cases (lookup k g.squadrons)) [
        | inl gone ↦ rw (e, own, gone, release_sector_control) h
        | inr (s, y) ↦ elim (Bool-cases (is_leader s p)) [
          | inr a ↦ rw (e, own, y, a, release_sector_control) h
          | inl a ↦ elim (Option-cases (lookup x g.sectors)) [
            | inl b ↦ rw (e, own, y, a, b, release_sector_control) h
            | inr (sector, b) ↦ elim (Bool-cases (held_by k sector)) [
              | inr c ↦ rw (e, own, y, a, b, release_sector_control) (rw c h)
              | inl c ↦
                  rw (e, own, y, a, b, release_sector_control)
                    (rw c (
                      modify-IsConsistent g.player_data g.squadrons k _ (λ t. (refl, refl, refl))
                        h))
            ]
          ]
        ]
      ]
    ]
  ]
