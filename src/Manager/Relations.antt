-- ===== src/Manager/Relations.antt =====
-- squadron_manager.rs: war, peace and alliances between squadrons.
use bw_exp.Common.{ℕ, none, some, if◌then◌else◌, not, ◌==◌}
use bw_exp.Common.Map.{lookup, insert, remove, modify, contains_key}
use bw_exp.Squadron
use bw_exp.Squadron.{Squadron, is_leader, is_hostile_with, is_allied_with}
use bw_exp.Manager.{GameState, AllianceProposal, Outcome, done, refused, Notice, Refusal}

module _ {F : Type 0} where
  unfoldable pub declare_war : GameState F → ℕ → ℕ → ℕ → GameState F × Outcome
  declare_war g actor k target =
      if k == target then (g, refused Refusal.own_squadron) else elim (lookup k g.squadrons) [
        | none ↦ (g, refused Refusal.squadron_not_found)
        | some s ↦
            if not (is_leader s actor)
            then (g, refused Refusal.only_leader)
            else if not (contains_key target g.squadrons)
            then (g, refused Refusal.target_squadron_not_found)
            else (
              record g { squadrons = insert k (Squadron.declare_war s target) g.squadrons },
              done Notice.war_declared,
            )
      ]

  unfoldable pub make_peace : GameState F → ℕ → ℕ → ℕ → GameState F × Outcome
  make_peace g actor k target = elim (lookup k g.squadrons) [
    | none ↦ (g, refused Refusal.squadron_not_found)
    | some s ↦
        if not (is_leader s actor)
        then (g, refused Refusal.only_leader)
        else if not (is_hostile_with s target)
        then (g, refused Refusal.not_at_war)
        else (
          record g { squadrons = insert k (Squadron.make_peace s target) g.squadrons },
          done Notice.peace_made,
        )
  ]

  -- `id` stands for `Uuid::new_v4()`.
  unfoldable pub form_alliance : GameState F → ℕ → ℕ → ℕ → ℕ → GameState F × Outcome
  form_alliance g id actor k target =
      if k == target then (g, refused Refusal.own_squadron) else elim (lookup k g.squadrons) [
        | none ↦ (g, refused Refusal.squadron_not_found)
        | some s ↦
            if not (is_leader s actor)
            then (g, refused Refusal.only_leader)
            else if not (contains_key target g.squadrons)
            then (g, refused Refusal.target_squadron_not_found)
            else if is_allied_with s target
            then (g, refused Refusal.already_allied)
            else if contains_key target g.pending_alliances
            then (g, refused Refusal.proposal_pending)
            else (
              record g {
                pending_alliances =
                    insert target
                      (record {
                        id = id;
                        from_squadron_id = k;
                        from_squadron_name = s.name;
                        to_squadron_id = target;
                        created_at = g.tick;
                      })
                      g.pending_alliances;
              },
              done Notice.alliance_proposed,
            )
      ]

  -- What accepting and declining have in common: the player must lead its squadron, and the
  -- proposal that waits for the squadron is removed before its identifier is compared.
  unfoldable pub answer_proposal :
      GameState F
      → ℕ
      → ℕ
      → (GameState F → ℕ → AllianceProposal → GameState F × Outcome)
      → GameState F × Outcome
  answer_proposal g p proposal_id answer = elim (lookup p g.player_data) [
    | none ↦ (g, refused Refusal.player_not_found)
    | some player ↦ elim player.squadron_id [
      | none ↦ (g, refused Refusal.not_in_squadron)
      | some k ↦ elim (lookup k g.squadrons) [
        | none ↦ (g, refused Refusal.squadron_not_found)
        | some s ↦
            if not (is_leader s p)
            then (g, refused Refusal.only_leader)
            else let g' : GameState F = record g {
              pending_alliances = remove k g.pending_alliances;
            } in
              elim (lookup k g.pending_alliances) [
                | none ↦ (g', refused Refusal.proposal_not_found)
                | some proposal ↦
                    if proposal.id == proposal_id
                    then answer g' k proposal
                    else (g', refused Refusal.proposal_not_found)
              ]
      ]
    ]
  ]

  -- The alliance is entered on both sides.
  unfoldable pub ally_both : GameState F → ℕ → AllianceProposal → GameState F × Outcome
  ally_both g k proposal =
      let from_k = proposal.from_squadron_id in
      (
        record g {
          squadrons =
              modify k (λ s. Squadron.form_alliance s from_k)
                (modify from_k (λ s. Squadron.form_alliance s k) g.squadrons);
        },
        done Notice.alliance_formed,
      )

  unfoldable pub accept_alliance : GameState F → ℕ → ℕ → GameState F × Outcome
  unfolding answer_proposal ally_both
  accept_alliance g p proposal_id = answer_proposal g p proposal_id ally_both

  unfoldable pub decline_alliance : GameState F → ℕ → ℕ → GameState F × Outcome
  unfolding answer_proposal
  decline_alliance g p proposal_id =
      answer_proposal g p proposal_id (λ g' k proposal. (g', done Notice.alliance_declined))
