-- ===== src/Manager/Consistency/Relations.antt =====
-- War, peace and alliances leave rosters and records alone.
use bw_exp.Common.{ℕ, ◌≡◌, refl, arith, ◌==◌, Option-cases, Bool-cases, inl, inr}
use bw_exp.Common.Map.{lookup, contains_key}
use bw_exp.Squadron
use bw_exp.Squadron.{Squadron, is_leader, can_manage, is_hostile_with, is_allied_with}
use bw_exp.Manager.{GameState, AllianceProposal, Outcome, done, Notice}
use bw_exp.Manager.Relations
use bw_exp.Manager.Relations.{answer_proposal, ally_both}
use bw_exp.Manager.Consistency.{IsSound}
use bw_exp.Manager.Consistency.Kept.{modify-IsConsistent, recast-IsConsistent}

module _ {F : Type 0} (g : GameState F) (h : IsSound g) where
  pub declare_war-IsSound : (actor k t : ℕ) → IsSound (Relations.declare_war g actor k t).0
  unfolding Relations.declare_war Squadron.declare_war
  declare_war-IsSound actor k t = elim (Bool-cases (k == t)) [
    | inl a ↦ rw (a, Relations.declare_war) h
    | inr a ↦ elim (Option-cases (lookup k g.squadrons)) [
      | inl e ↦ rw (a, e, Relations.declare_war) h
      | inr (s, e) ↦ elim (Bool-cases (is_leader s actor)) [
        | inr b ↦ rw (a, e, b, Relations.declare_war) h
        | inl b ↦ elim (Bool-cases (contains_key t g.squadrons)) [
          | inr c ↦ rw (a, e, b, Relations.declare_war) (rw c h)
          | inl c ↦
              rw (a, e, b, Relations.declare_war)
                (rw c (recast-IsConsistent g.player_data g.squadrons k s _ (refl, refl, refl) e h))
        ]
      ]
    ]
  ]

  pub make_peace-IsSound : (actor k t : ℕ) → IsSound (Relations.make_peace g actor k t).0
  unfolding Relations.make_peace Squadron.make_peace
  make_peace-IsSound actor k t = elim (Option-cases (lookup k g.squadrons)) [
    | inl e ↦ rw (e, Relations.make_peace) h
    | inr (s, e) ↦ elim (Bool-cases (is_leader s actor)) [
      | inr b ↦ rw (e, b, Relations.make_peace) h
      | inl b ↦ elim (Bool-cases (is_hostile_with s t)) [
        | inr c ↦ rw (e, b, c, Relations.make_peace) h
        | inl c ↦
            rw (e, b, c, Relations.make_peace)
              (recast-IsConsistent g.player_data g.squadrons k s _ (refl, refl, refl) e h)
      ]
    ]
  ]

  form_alliance_keeps :
      (id actor k t : ℕ)
      → let g' = (Relations.form_alliance g id actor k t).0 in
        (g'.player_data ≡ g.player_data) × (g'.squadrons ≡ g.squadrons)
  unfolding Relations.form_alliance
  form_alliance_keeps id actor k t = ground arith

  pub form_alliance-IsSound :
      (id actor k t : ℕ) → IsSound (Relations.form_alliance g id actor k t).0
  form_alliance-IsSound id actor k t =
      let (same_players, same_squadrons) = form_alliance_keeps id actor k t in
      rw (same_players, same_squadrons) h

  ally_both-IsSound : (k : ℕ) (proposal : AllianceProposal) → IsSound (ally_both g k proposal).0
  unfolding ally_both Squadron.form_alliance
  ally_both-IsSound k proposal =
      modify-IsConsistent g.player_data _ k _ (λ s. (refl, refl, refl))
        (modify-IsConsistent g.player_data g.squadrons proposal.from_squadron_id _
          (λ s. (refl, refl, refl)) h)

module _ {F : Type 0} (g : GameState F) (h : IsSound g) where
  -- An answer that is sound where it is given makes the handler sound.
  answer-IsSound :
      (p i : ℕ) (answer : GameState F → ℕ → AllianceProposal → GameState F × Outcome)
      → ((g' : GameState F) (k : ℕ) (a : AllianceProposal) → IsSound g' → IsSound (answer g' k a).0)
      → IsSound (answer_proposal g p i answer).0
  unfolding answer_proposal
  answer-IsSound p i answer sound = elim (Option-cases (lookup p g.player_data)) [
    | inl e ↦ rw (e, answer_proposal) h
    | inr (player, e) ↦ elim (Option-cases player.squadron_id) [
      | inl free ↦ rw (e, free, answer_proposal) h
      | inr (k, own) ↦ elim (Option-cases (lookup k g.squadrons)) [
        | inl gone ↦ rw (e, own, gone, answer_proposal) h
        | inr (s, x) ↦ elim (Bool-cases (is_leader s p)) [
          | inr a ↦ rw (e, own, x, a, answer_proposal) h
          | inl a ↦ elim (Option-cases (lookup k g.pending_alliances)) [
            | inl b ↦ rw (e, own, x, a, b, answer_proposal) h
            | inr (proposal, b) ↦ elim (Bool-cases (proposal.id == i)) [
              | inr c ↦ rw (e, own, x, a, b, c, answer_proposal) h
              | inl c ↦ rw (e, own, x, a, b, c, answer_proposal) (sound _ k proposal h)
            ]
          ]
        ]
      ]
    ]
  ]

  pub accept_alliance-IsSound : (p i : ℕ) → IsSound (Relations.accept_alliance g p i).0
  unfolding Relations.accept_alliance
  accept_alliance-IsSound p i =
      answer-IsSound p i ally_both (λ g' k a s. ally_both-IsSound g' s k a)

  pub decline_alliance-IsSound : (p i : ℕ) → IsSound (Relations.decline_alliance g p i).0
  unfolding Relations.decline_alliance
  decline_alliance-IsSound p i =
      answer-IsSound p i (λ g' k a. (g', done Notice.alliance_declined)) (λ g' k a s. s)
