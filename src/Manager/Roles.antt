-- ===== src/Manager/Roles.antt =====
-- squadron_manager.rs: promotion, demotion, kicking and the transfer of leadership.
use bw_exp.Common.{ℕ, none, some, Bool, if◌then◌else◌, not}
use bw_exp.Common.Float.{Float}
use bw_exp.Common.Map.{lookup, insert, modify}
use bw_exp.Squadron
use bw_exp.Squadron.{
  Squadron, is_leader, is_officer, is_member, can_manage, member, officer, leader,
}
use bw_exp.Manager.{GameState, Outcome, done, refused, Notice, Refusal, ranked, unseated}

module _ {F : Type 0} where
  unfoldable pub promote_to_officer : GameState F → ℕ → ℕ → ℕ → GameState F × Outcome
  promote_to_officer g actor k target = elim (lookup k g.squadrons) [
    | none ↦ (g, refused Refusal.squadron_not_found)
    | some s ↦
        if not (is_leader s actor)
        then (g, refused Refusal.only_leader)
        else if not (is_member s target)
        then (g, refused Refusal.target_not_member)
        else (
          record g {
            squadrons = insert k (Squadron.promote_to_officer s target) g.squadrons;
            player_data = modify target (ranked officer) g.player_data;
          },
          done Notice.promoted,
        )
  ]

  unfoldable pub demote_officer : GameState F → ℕ → ℕ → ℕ → GameState F × Outcome
  demote_officer g actor k target = elim (lookup k g.squadrons) [
    | none ↦ (g, refused Refusal.squadron_not_found)
    | some s ↦ if not (is_leader s actor) then (g, refused Refusal.only_leader) else (
      record g {
        squadrons = insert k (Squadron.demote_officer s target) g.squadrons;
        player_data = modify target (ranked member) g.player_data;
      },
      done Notice.demoted,
    )
  ]

  unfoldable pub can_kick : Squadron F → ℕ → ℕ → Bool
  can_kick s actor target = if is_officer s target then is_leader s actor else can_manage s actor

  unfoldable pub transfer_leadership : GameState F → ℕ → ℕ → ℕ → GameState F × Outcome
  transfer_leadership g actor k target = elim (lookup k g.squadrons) [
    | none ↦ (g, refused Refusal.squadron_not_found)
    | some s ↦
        if not (is_leader s actor)
        then (g, refused Refusal.only_leader)
        else if not (is_member s target)
        then (g, refused Refusal.target_not_member)
        else (
          record g {
            squadrons = insert k (Squadron.transfer_leadership s target) g.squadrons;
            player_data =
                modify target (ranked leader) (modify actor (ranked officer) g.player_data);
          },
          done Notice.transferred,
        )
  ]

module _ {F : Type 0} ⦃fl : Float F⦄ where
  unfoldable pub kick_member : GameState F → ℕ → ℕ → ℕ → GameState F × Outcome
  unfolding can_kick
  kick_member g actor k target = elim (lookup k g.squadrons) [
    | none ↦ (g, refused Refusal.squadron_not_found)
    | some s ↦
        if is_leader s target
        then (g, refused Refusal.cannot_kick_leader)
        else if not (can_kick s actor target)
        then (g, refused Refusal.no_permission_to_kick)
        else (
          record g {
            squadrons = insert k (Squadron.remove_member s target) g.squadrons;
            player_data = modify target unseated g.player_data;
          },
          done Notice.kicked,
        )
  ]
