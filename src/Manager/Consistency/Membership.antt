-- ===== src/Manager/Consistency/Membership.antt =====
-- Founding, joining and leaving a squadron keep rosters and records in step.
use bw_exp.Common.{
  ℕ, ◌≡◌, ◌≢◌, arith, List, none, some, false, ◌==◌, Option-cases, Bool-cases, inl, inr,
}
use bw_exp.Common.Float.{Float}
use bw_exp.Common.Int.{ℤ}
use bw_exp.Common.Ids.{contains, contains-push, contains-without}
use bw_exp.Common.Map.{lookup, insert, lookup-insert, remove, lookup-remove}
use bw_exp.Squadron
use bw_exp.Squadron.{
  Squadron, SquadronRank, member, leader, is_leader, member_count, add_member, remove_member,
}
use bw_exp.Squadron.Roster.{rank, change, change-IsRoster, new-IsRoster, join, leave}
use bw_exp.Manager.{
  Player, GameState, SquadronInvite, seated, unseated, can_afford, spend_reputation,
}
use bw_exp.Manager.Membership.{
  found, create_squadron, join_squadron, accept_invite, accept_squadron_invite,
  decline_squadron_invite, leave_from, leave_squadron, valid_tag, valid_name, tag_taken,
  creation_cost,
}
use bw_exp.Manager.Consistency.{
  IsConsistent, IsSound, insert-IsConsistent, players-IsConsistent, remove-IsConsistent,
}

module _ {F : Type 0} ⦃fl : Float F⦄ (g : GameState F) (h : IsSound g) where
  found-IsSound :
      (p : ℕ) (player : Player) (id now : ℕ) (name tag : List ℕ) (reputation : ℤ)
      → lookup p g.player_data ≡ some player
      → player.squadron_id ≡ none
      → IsSound (found g p player id now name tag reputation)
  unfolding found rank Squadron.new contains
  found-IsSound p player id now name tag reputation e free =
      insert-IsConsistent g.player_data _ g.squadrons id _ h (new-IsRoster id now name tag p)
        (λ q m. ground (
          arith,
          lookup-insert p q (seated id leader (record player { reputation = reputation }))
              g.player_data,
        ))
        (λ j q r x y. ground (
          arith,
          lookup-insert p q (seated id leader (record player { reputation = reputation }))
              g.player_data,
        ))

  -- A player whose record names no squadron, or a squadron that is gone, is on no roster.
  moves_alone :
      (p : ℕ) (player player' : Player)
      → lookup p g.player_data ≡ some player
      → ((j : ℕ) (t : Squadron F) → lookup j g.squadrons ≡ some t → player.squadron_id ≢ some j)
      → IsConsistent (insert p player' g.player_data) g.squadrons
  moves_alone p player player' e d =
      players-IsConsistent g.player_data _ g.squadrons h (λ j q t x m.
        ground (arith, lookup-insert p q player' g.player_data, d j t x, h.seats j t q x m))

  joined :
      (p k : ℕ) (player : Player) (s : Squadron F)
      → lookup p g.player_data ≡ some player
      → player.squadron_id ≡ none
      → lookup k g.squadrons ≡ some s
      → IsConsistent
          (insert p (seated k member player) g.player_data)
          (insert k (add_member s p) g.squadrons)
  unfolding change rank add_member
  joined p k player s e free x =
      let roster = h.rosters k s x in
      insert-IsConsistent g.player_data _ g.squadrons k _ h (change-IsRoster (join p) s roster)
        (λ q m. ground (
          arith,
          lookup-insert p q (seated k member player) g.player_data,
          contains-push s.members p q,
          h.seats k s q x,
          h.seats k s p x,
          roster.leader_member,
          roster.officers_members p,
        ))
        (λ j q r y z. ground (arith, lookup-insert p q (seated k member player) g.player_data))

  left :
      (p k : ℕ) (player : Player) (s : Squadron F)
      → lookup p g.player_data ≡ some player
      → player.squadron_id ≡ some k
      → lookup k g.squadrons ≡ some s
      → (s.leader_id == p) ≡ false
      → IsConsistent
          (insert p (unseated player) g.player_data)
          (insert k (remove_member s p) g.squadrons)
  unfolding change rank remove_member
  left p k player s e own x d =
      let roster = h.rosters k s x in
      insert-IsConsistent g.player_data _ g.squadrons k _ h (change-IsRoster (leave p) s roster)
        (λ q m. ground (
          arith,
          lookup-insert p q (unseated player) g.player_data,
          contains-without p s.members q,
          contains-without p s.officers q,
          h.seats k s q x,
        ))
        (λ j q r y z. ground (arith, lookup-insert p q (unseated player) g.player_data))

  disbanded :
      (p k : ℕ) (player : Player)
      → lookup p g.player_data ≡ some player
      → player.squadron_id ≡ some k
      → IsConsistent (insert p (unseated player) g.player_data) (remove k g.squadrons)
  disbanded p k player e own =
      players-IsConsistent g.player_data _ _ (remove-IsConsistent g.player_data g.squadrons k h)
        (λ j q t x m. ground (
          arith,
          lookup-insert p q (unseated player) g.player_data,
          lookup-remove k j g.squadrons,
          h.seats j t q,
        ))

  pub create-IsSound :
      (id now p : ℕ) (name tag : List ℕ) → IsSound (create_squadron g id now p name tag).0
  unfolding create_squadron spend_reputation
  create-IsSound id now p name tag = elim (Bool-cases (valid_tag tag)) [
    | inr a ↦ rw (a, create_squadron) h
    | inl a ↦ elim (Bool-cases (valid_name name)) [
      | inr b ↦ rw (a, b, create_squadron) h
      | inl b ↦ elim (Option-cases (lookup p g.player_data)) [
        | inl e ↦ rw (a, b, e, create_squadron) h
        | inr (player, e) ↦ elim (Option-cases player.squadron_id) [
          | inr (k, own) ↦ rw (a, b, e, own, create_squadron) h
          | inl free ↦ elim (Bool-cases (tag_taken tag g.squadrons)) [
            | inl c ↦ rw (a, b, e, free, c, create_squadron) h
            | inr c ↦ elim (Bool-cases (can_afford player.reputation creation_cost)) [
              | inr d ↦ rw (a, b, e, free, c, d, create_squadron) h
              | inl d ↦
                  rw (a, b, e, free, c, d, create_squadron)
                    (found-IsSound p player id now name tag _ e free)
            ]
          ]
        ]
      ]
    ]
  ]

  pub leave-IsSound : (p : ℕ) → IsSound (leave_squadron g p).0
  unfolding leave_squadron leave_from is_leader
  leave-IsSound p = elim (Option-cases (lookup p g.player_data)) [
    | inl e ↦ rw (e, leave_squadron) h
    | inr (player, e) ↦ elim (Option-cases player.squadron_id) [
      | inl free ↦ rw (e, free, leave_squadron) h
      | inr (k, own) ↦ elim (Option-cases (lookup k g.squadrons)) [
        | inl gone ↦
            rw (e, own, gone, leave_squadron)
              (moves_alone p player (unseated player) e (λ j t x y. ground arith))
        | inr (s, x) ↦ elim (Bool-cases (s.leader_id == p)) [
          | inr a ↦ rw (e, own, x, a, leave_squadron) (left p k player s e own x a)
          | inl a ↦ elim (Bool-cases (member_count s == 1)) [
            | inl b ↦ rw (e, own, x, a, b, leave_squadron) (disbanded p k player e own)
            | inr b ↦ rw (e, own, x, a, b, leave_squadron) h
          ]
        ]
      ]
    ]
  ]

  join-IsSound :
      (p k : ℕ) (player : Player)
      → lookup p g.player_data ≡ some player
      → player.squadron_id ≡ none
      → IsSound (join_squadron g p player k).0
  unfolding join_squadron
  join-IsSound p k player e free = elim (Option-cases (lookup k g.squadrons)) [
    | inl gone ↦
        rw (gone, join_squadron)
          (moves_alone p player (seated k member player) e (λ j t x y. ground arith))
    | inr (s, x) ↦ rw (x, join_squadron) (joined p k player s e free x)
  ]

  accept_invite-IsSound : (p : ℕ) (invite : SquadronInvite) → IsSound (accept_invite g p invite).0
  unfolding accept_invite
  accept_invite-IsSound p invite = elim (Option-cases (lookup p g.player_data)) [
    | inl e ↦ rw (e, accept_invite) h
    | inr (player, e) ↦ elim (Option-cases player.squadron_id) [
      | inl free ↦ rw (e, free, accept_invite) (join-IsSound p invite.squadron_id player e free)
      | inr (k, own) ↦ rw (e, own, accept_invite) h
    ]
  ]

module _ {F : Type 0} ⦃fl : Float F⦄ (g : GameState F) (h : IsSound g) where
  pub accept-IsSound : (p i : ℕ) → IsSound (accept_squadron_invite g p i).0
  unfolding accept_squadron_invite
  accept-IsSound p i = elim (Option-cases (lookup p g.pending_squadron_invites)) [
    | inl e ↦ rw (e, accept_squadron_invite) h
    | inr (invite, e) ↦ elim (Bool-cases (invite.id == i)) [
      | inr a ↦ rw (e, a, accept_squadron_invite) h
      | inl a ↦
          rw (e, a, accept_squadron_invite)
            (accept_invite-IsSound
              (record g { pending_squadron_invites = remove p g.pending_squadron_invites }) h p
              invite)
    ]
  ]

  pub decline-IsSound : (p i : ℕ) → IsSound (decline_squadron_invite g p i).0
  unfolding decline_squadron_invite
  decline-IsSound p i = elim (Option-cases (lookup p g.pending_squadron_invites)) [
    | inl e ↦ rw (e, decline_squadron_invite) h
    | inr (invite, e) ↦ elim (Bool-cases (invite.id == i)) [
      | inr a ↦ rw (e, a, decline_squadron_invite) h
      | inl a ↦ rw (e, a, decline_squadron_invite) h
    ]
  ]
