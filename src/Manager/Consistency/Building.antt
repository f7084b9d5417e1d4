-- ===== src/Manager/Consistency/Building.antt =====
-- Building costs reputation, and leaves rosters and seats alone.
use bw_exp.Common.{ℕ, ◌≡◌, arith, some, Option-cases, Bool-cases, inl, inr, not, ◌&&◌}
use bw_exp.Common.Int.{ℤ}
use bw_exp.Common.Map.{lookup, lookup-insert}
use bw_exp.Squadron.{
  SquadronBuildingType, outpost, station, shipyard, patrol_ship, defense_ship, build_cost,
  can_manage,
}
use bw_exp.Manager.{Player, GameState, can_afford, spend_reputation}
use bw_exp.Manager.Sectors.{held_by}
use bw_exp.Manager.Building.{raise, pay, build, build_structure, requires_sector_control}
use bw_exp.Manager.Consistency.{IsSound, players-IsConsistent}

module _ {F : Type 0} (g : GameState F) where
  raise-IsSound : (id x : ℕ) (kind : SquadronBuildingType) → IsSound g → IsSound (raise id x kind g)
  unfolding raise
  raise-IsSound id x outpost h = h
  raise-IsSound id x station h = h
  raise-IsSound id x shipyard h = h
  raise-IsSound id x patrol_ship h = h
  raise-IsSound id x defense_ship h = h

module _ {F : Type 0} (g : GameState F) (h : IsSound g) where
  pay-IsSound :
      (p : ℕ) (player : Player) (reputation : ℤ)
      → lookup p g.player_data ≡ some player
      → IsSound (pay p player reputation g)
  pay-IsSound p player reputation e =
      players-IsConsistent g.player_data _ g.squadrons h (λ j q t x m.
        ground (arith, lookup-insert p q (record player { reputation = reputation }) g.player_data))

  build-IsSound :
      (id p x : ℕ) (player : Player) (kind : SquadronBuildingType)
      → lookup p g.player_data ≡ some player
      → IsSound (build g id p player kind x).0
  unfolding build spend_reputation
  build-IsSound id p x player kind e =
      elim (Bool-cases (can_afford player.reputation (build_cost kind))) [
        | inl rich ↦ rw rich (raise-IsSound _ id x kind (pay-IsSound p player _ e))
        | inr poor ↦ rw poor h
      ]

  pub build_structure-IsSound :
      (id p x : ℕ) (kind : SquadronBuildingType) → IsSound (build_structure g id p kind x).0
  unfolding build_structure
  build_structure-IsSound id p x kind = elim (Option-cases (lookup p g.player_data)) [
    | inl e ↦ rw (e, build_structure) h
    | inr (player, e) ↦ elim (Option-cases player.squadron_id) [
      | inl free ↦ rw (e, free, build_structure) h
      | inr (k, own) ↦ elim (Option-cases (lookup k g.squadrons)) [
        | inl gone ↦ rw (e, own, gone, build_structure) h
        | inr (s, y) ↦ elim (Bool-cases (can_manage s p)) [
          | inr a ↦ rw (e, own, y, a, build_structure) h
          | inl a ↦ elim (Option-cases (lookup x g.sectors)) [
            | inl b ↦ rw (e, own, y, a, b, build_structure) h
            | inr (sector, b) ↦
                elim (Bool-cases (requires_sector_control kind && not (held_by k sector))) [
                  | inl c ↦ rw (e, own, y, a, b, build_structure) (rw c h)
                  | inr c ↦
                      rw (e, own, y, a, b, build_structure)
                        (rw c (build-IsSound id p x player kind e))
                ]
          ]
        ]
      ]
    ]
  ]
