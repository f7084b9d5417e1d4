-- ===== src/Manager/Consistency/Roles.antt =====
-- Promotion, demotion, kicking and the transfer of leadership keep rosters and records in step,
-- for targets that the squadron has in the role that the handler presumes.
use bw_exp.Common.{
  ℕ, ◌≡◌, ◌≢◌, arith, Option, some, true, false, ◌==◌, ==_iff, Option-cases, Bool-cases, inl, inr,
  ap,
}
use mathlib.Core.Path.{subst}
use bw_exp.Common.Float.{Float}
use bw_exp.Common.Ids.{contains, contains-push, contains-without}
use bw_exp.Common.Map.{Map, lookup, insert, modify, lookup-modify, map_option}
use bw_exp.Squadron
use bw_exp.Squadron.{Squadron, SquadronRank, member, officer, leader, is_leader, is_member}
use bw_exp.Squadron.Roster.{
  rank, change, change-IsRoster, rank-change, change_ranks, promote, demote, leave, hand_over,
  transfer-members,
}
use bw_exp.Manager.{Player, seat, GameState, ranked, unseated}
use bw_exp.Manager.Roles.{
  can_kick, promote_to_officer, demote_officer, kick_member, transfer_leadership,
}
use bw_exp.Manager.Consistency.{IsConsistent, IsSound, insert-IsConsistent}

-- A changed record of one player leaves the record of another.
modify_other :
    (players : Map Player) (t : ℕ) (f : Player → Player) (k j p : ℕ) (r r' : Option SquadronRank)
    → j ≢ k
    → map_option seat (lookup t players) ≡ some (some k, r')
    → map_option seat (lookup p players) ≡ some (some j, r)
    → map_option seat (lookup p (modify t f players)) ≡ some (some j, r)
modify_other players t f k j p r r' d a e = ground (arith, lookup-modify t p f players)

module _ {F : Type 0} ⦃fl : Float F⦄ where
  -- What a handler presumes of the squadron, if it exists.
  abbrev pub Presumes : GameState F → ℕ → (Squadron F → Type 0) → Type 0
  Presumes g k P = (s : Squadron F) → lookup k g.squadrons ≡ some s → P s

module _ {F : Type 0} ⦃fl : Float F⦄ (g : GameState F) (k t : ℕ) (s : Squadron F) (h : IsSound g)
    (e : lookup k g.squadrons ≡ some s) where
  promoted :
      contains s.members t ≡ true
      → s.leader_id ≢ t
      → IsConsistent
          (modify t (ranked officer) g.player_data)
          (insert k (Squadron.promote_to_officer s t) g.squadrons)
  unfolding change rank Squadron.promote_to_officer
  promoted m d =
      let roster = h.rosters k s e in
      insert-IsConsistent g.player_data _ g.squadrons k _ h (change-IsRoster (promote t) s roster)
        (λ p q. ground (
          arith,
          lookup-modify t p (ranked officer) g.player_data,
          h.seats k s p e,
          contains-push s.officers t p,
        ))
        (λ j p r x y.
          modify_other g.player_data t (ranked officer) k j p r _ x (h.seats k s t e m) y)

  demoted :
      contains s.members t ≡ true
      → s.leader_id ≢ t
      → IsConsistent
          (modify t (ranked member) g.player_data)
          (insert k (Squadron.demote_officer s t) g.squadrons)
  unfolding change rank Squadron.demote_officer
  demoted m d =
      let roster = h.rosters k s e in
      insert-IsConsistent g.player_data _ g.squadrons k _ h (change-IsRoster (demote t) s roster)
        (λ p q. ground (
          arith,
          lookup-modify t p (ranked member) g.player_data,
          h.seats k s p e,
          contains-without t s.officers p,
        ))
        (λ j p r x y.
          modify_other g.player_data t (ranked member) k j p r _ x (h.seats k s t e m) y)

  kicked :
      contains s.members t ≡ true
      → (s.leader_id == t) ≡ false
      → IsConsistent
          (modify t unseated g.player_data)
          (insert k (Squadron.remove_member s t) g.squadrons)
  unfolding change rank Squadron.remove_member
  kicked m d =
      let roster = h.rosters k s e in
      insert-IsConsistent g.player_data _ g.squadrons k _ h (change-IsRoster (leave t) s roster)
        (λ p q. ground (
          arith,
          lookup-modify t p unseated g.player_data,
          h.seats k s p e,
          contains-without t s.officers p,
          contains-without t s.members p,
        ))
        (λ j p r x y. modify_other g.player_data t unseated k j p r _ x (h.seats k s t e m) y)

  transferred_seat :
      contains s.members t ≡ true
      → (p : ℕ) → contains s.members p ≡ true
      → map_option seat
          (lookup p (modify t (ranked leader) (modify s.leader_id (ranked officer) g.player_data)))
        ≡ some (some k, rank (Squadron.transfer_leadership s t) p)
  unfolding change change_ranks rank
  transferred_seat m p q = ground (
    arith,
    lookup-modify t p (ranked leader) (modify s.leader_id (ranked officer) g.player_data),
    lookup-modify s.leader_id p (ranked officer) g.player_data,
    h.seats k s p e q,
    rank-change (hand_over t) s p (h.rosters k s e),
  )

  transferred :
      contains s.members t ≡ true
      → IsConsistent
          (modify t (ranked leader) (modify s.leader_id (ranked officer) g.player_data))
          (insert k (Squadron.transfer_leadership s t) g.squadrons)
  unfolding change
  transferred m =
      let roster = h.rosters k s e in
      let actor = s.leader_id in
      insert-IsConsistent g.player_data _ g.squadrons k _ h (change-IsRoster (hand_over t) s roster)
        (λ p q.
          transferred_seat m p (ground (arith, ap (λ l. contains l p) (transfer-members s t))))
        (λ j p r x y. ground (
          arith,
          lookup-modify t p (ranked leader) (modify actor (ranked officer) g.player_data),
          lookup-modify actor p (ranked officer) g.player_data,
          h.seats k s t e m,
          h.seats k s actor e roster.leader_member,
        ))

module _ {F : Type 0} ⦃fl : Float F⦄ (g : GameState F) (actor k t : ℕ) (h : IsSound g) where
  pub promote-IsSound :
      Presumes g k (λ s. s.leader_id ≢ t) → IsSound (promote_to_officer g actor k t).0
  unfolding promote_to_officer is_leader is_member
  promote-IsSound d = elim (Option-cases (lookup k g.squadrons)) [
    | inl e ↦ rw (e, promote_to_officer) h
    | inr (s, e) ↦ elim (Bool-cases (s.leader_id == actor)) [
      | inr x ↦ rw (e, promote_to_officer) (rw x h)
      | inl x ↦ elim (Bool-cases (contains s.members t)) [
        | inr y ↦ rw (e, promote_to_officer) (rw (x, y) h)
        | inl y ↦ rw (e, promote_to_officer) (rw (x, y) (promoted g k t s h e y (d s e)))
      ]
    ]
  ]

  pub demote-IsSound :
      Presumes g k (λ s. (contains s.members t ≡ true) × (s.leader_id ≢ t))
      → IsSound (demote_officer g actor k t).0
  unfolding demote_officer is_leader
  demote-IsSound d = elim (Option-cases (lookup k g.squadrons)) [
    | inl e ↦ rw (e, demote_officer) h
    | inr (s, e) ↦ elim (Bool-cases (s.leader_id == actor)) [
      | inr x ↦ rw (e, demote_officer) (rw x h)
      | inl x ↦ rw (e, demote_officer) (rw x (demoted g k t s h e (d s e).0 (d s e).1))
    ]
  ]

  pub kick-IsSound :
      Presumes g k (λ s. contains s.members t ≡ true) → IsSound (kick_member g actor k t).0
  unfolding kick_member is_leader
  kick-IsSound d = elim (Option-cases (lookup k g.squadrons)) [
    | inl e ↦ rw (e, kick_member) h
    | inr (s, e) ↦ elim (Bool-cases (s.leader_id == t)) [
      | inl x ↦ rw (e, kick_member) (rw x h)
      | inr x ↦ elim (Bool-cases (can_kick s actor t)) [
        | inr y ↦ rw (e, kick_member) (rw (x, y) h)
        | inl y ↦ rw (e, kick_member) (rw (x, y) (kicked g k t s h e (d s e) x))
      ]
    ]
  ]

  pub transfer-IsSound : IsSound (transfer_leadership g actor k t).0
  unfolding transfer_leadership is_leader is_member
  transfer-IsSound = elim (Option-cases (lookup k g.squadrons)) [
    | inl e ↦ rw (e, transfer_leadership) h
    | inr (s, e) ↦ elim (Bool-cases (s.leader_id == actor)) [
      | inr x ↦ rw (e, transfer_leadership) (rw x h)
      | inl x ↦ elim (Bool-cases (contains s.members t)) [
        | inr y ↦ rw (e, transfer_leadership) (rw (x, y) h)
        | inl y ↦
            rw (e, transfer_leadership)
              (rw (x, y)
                (subst
                  (λ a.
                    IsConsistent
                      (modify t (ranked leader) (modify a (ranked officer) g.player_data))
                      (insert k (Squadron.transfer_leadership s t) g.squadrons))
                  ((==_iff s.leader_id actor).0 x) (transferred g k t s h e y)))
      ]
    ]
  ]
