-- ===== src/Manager/Membership.antt =====
-- squadron_manager.rs: founding a squadron, invitations, and leaving.
use bw_exp.Common.{
  ℕ, ◌+◌, none, some, List, [], ◌∷◌, Bool, true, false, ◌&&◌, ◌||◌, not, if◌then◌else◌, ◌==◌, leb,
  length, is_some,
}
use bw_exp.Common.Int.{ℤ, pos}
use bw_exp.Common.Float.{Float}
use bw_exp.Common.Map.{Map, lookup, insert, remove, contains_key}
use bw_exp.Squadron
use bw_exp.Squadron.{
  Squadron, is_leader, can_manage, member_count, add_member, remove_member, leader, member,
}
use bw_exp.Manager.{
  Player, SquadronInvite, GameState, Outcome, done, refused, spend_reputation, seated, unseated,
  Notice, Refusal,
}

-- `u8::is_ascii_uppercase` and `to_ascii_lowercase`.
abbrev is_upper : ℕ → Bool
is_upper c = leb b'A' c && leb c b'Z'

abbrev to_lower : ℕ → ℕ
to_lower c = if is_upper c then c + 32 else c

unfoldable pub all_upper : List ℕ → Bool
all_upper [] = true
all_upper (c ∷ cs) = is_upper c && all_upper cs

unfoldable pub eq_ignore_ascii_case : List ℕ → List ℕ → Bool
eq_ignore_ascii_case [] [] = true
eq_ignore_ascii_case (a ∷ as') (b ∷ bs) = (to_lower a == to_lower b) && eq_ignore_ascii_case as' bs
eq_ignore_ascii_case _ _ = false

unfoldable pub valid_tag : List ℕ → Bool
unfolding all_upper
valid_tag tag = leb 2 (length tag) && leb (length tag) 5 && all_upper tag

unfoldable pub valid_name : List ℕ → Bool
valid_name name = leb 3 (length name) && leb (length name) 32

module _ {F : Type 0} where
  -- The loop over `state.squadrons` that looks for the tag.
  unfoldable pub tag_taken : List ℕ → Map (Squadron F) → Bool
  tag_taken tag [] = false
  tag_taken tag ((k, s) ∷ m) = if eq_ignore_ascii_case s.tag tag then true else tag_taken tag m

abbrev pub creation_cost : ℤ
creation_cost = pos 50

module _ {F : Type 0} ⦃fl : Float F⦄ where
  unfoldable pub found : GameState F → ℕ → Player → ℕ → ℕ → List ℕ → List ℕ → ℤ → GameState F
  found g p player id now name tag reputation = record g {
    player_data =
        insert p (seated id leader (record player { reputation = reputation })) g.player_data;
    squadrons = insert id (Squadron.new id now name tag p) g.squadrons;
  }

  -- `id` and `now` stand for `Uuid::new_v4()` and `Utc::now()` in `Squadron::new`.
  unfoldable pub create_squadron : GameState F → ℕ → ℕ → ℕ → List ℕ → List ℕ → GameState F × Outcome
  unfolding found
  create_squadron g id now p name tag =
      if not (valid_tag tag)
      then (g, refused Refusal.bad_tag)
      else if not (valid_name name)
      then (g, refused Refusal.bad_name)
      else elim (lookup p g.player_data) [
        | none ↦ (g, refused Refusal.player_not_found)
        | some player ↦
            if is_some player.squadron_id
            then (g, refused Refusal.already_in_squadron)
            else if tag_taken tag g.squadrons
            then (g, refused Refusal.tag_in_use)
            else let (left, paid) = spend_reputation player.reputation creation_cost in
              if paid
              then (found g p player id now name tag left, done Notice.created)
              else (g, refused Refusal.insufficient_reputation)
      ]

  -- `id` stands for `Uuid::new_v4()`.
  unfoldable pub invite_to_squadron : GameState F → ℕ → ℕ → ℕ → GameState F × Outcome
  invite_to_squadron g id inviter_id invitee_id = elim (lookup inviter_id g.player_data) [
    | none ↦ (g, refused Refusal.player_not_found)
    | some inviter ↦ elim inviter.squadron_id [
      | none ↦ (g, refused Refusal.not_in_squadron)
      | some k ↦ elim (lookup k g.squadrons) [
        | none ↦ (g, refused Refusal.squadron_not_found)
        | some s ↦
            if not (can_manage s inviter_id || s.settings.members_can_invite)
            then (g, refused Refusal.no_permission_to_invite)
            else elim (lookup invitee_id g.player_data) [
              | none ↦ (g, refused Refusal.target_player_not_found)
              | some invitee ↦
                  if is_some invitee.squadron_id
                  then (g, refused Refusal.target_in_squadron)
                  else if contains_key invitee_id g.pending_squadron_invites
                  then (g, refused Refusal.invite_pending)
                  else (
                    record g {
                      pending_squadron_invites =
                          insert invitee_id
                            (record {
                              id = id;
                              squadron_id = k;
                              squadron_name = s.name;
                              inviter_id = inviter_id;
                              inviter_name = inviter.username;
                              invitee_id = invitee_id;
                              created_at = g.tick;
                            })
                            g.pending_squadron_invites;
                    },
                    done Notice.invited,
                  )
            ]
      ]
    ]
  ]

  unfoldable pub join_squadron : GameState F → ℕ → Player → ℕ → GameState F × Outcome
  join_squadron g p player k =
      let g' : GameState F = record g {
        player_data = insert p (seated k member player) g.player_data;
      } in
      elim (lookup k g.squadrons) [
        | none ↦ (g', refused Refusal.squadron_gone)
        | some s ↦
            (record g' { squadrons = insert k (add_member s p) g.squadrons }, done Notice.welcome)
      ]

  unfoldable pub accept_invite : GameState F → ℕ → SquadronInvite → GameState F × Outcome
  unfolding join_squadron
  accept_invite g p invite = elim (lookup p g.player_data) [
    | none ↦ (g, refused Refusal.player_not_found)
    | some player ↦
        if is_some player.squadron_id
        then (g, refused Refusal.already_in_squadron)
        else join_squadron g p player invite.squadron_id
  ]

  -- The pending invitation is removed before its identifier is compared.
  unfoldable pub accept_squadron_invite : GameState F → ℕ → ℕ → GameState F × Outcome
  unfolding accept_invite
  accept_squadron_invite g p invite_id =
      let g' : GameState F = record g {
        pending_squadron_invites = remove p g.pending_squadron_invites;
      } in
      elim (lookup p g.pending_squadron_invites) [
        | none ↦ (g', refused Refusal.invitation_not_found)
        | some invite ↦
            if invite.id == invite_id
            then accept_invite g' p invite
            else (g', refused Refusal.invitation_not_found)
      ]

  unfoldable pub decline_squadron_invite : GameState F → ℕ → ℕ → GameState F × Outcome
  decline_squadron_invite g p invite_id =
      let g' : GameState F = record g {
        pending_squadron_invites = remove p g.pending_squadron_invites;
      } in
      elim (lookup p g.pending_squadron_invites) [
        | none ↦ (g', refused Refusal.invitation_not_found)
        | some invite ↦
            if invite.id == invite_id
            then (g', done Notice.declined)
            else (g', refused Refusal.invitation_not_found)
      ]

  unfoldable pub leave_from : GameState F → ℕ → Player → ℕ → Squadron F → GameState F × Outcome
  leave_from g p player k s =
      let players : Map Player = insert p (unseated player) g.player_data in
      if is_leader s p
      then if member_count s == 1
        then (
          record g { squadrons = remove k g.squadrons; player_data = players },
          done Notice.disbanded,
        )
        else (g, refused Refusal.must_transfer)
      else (
        record g { squadrons = insert k (remove_member s p) g.squadrons; player_data = players },
        done Notice.left,
      )

  unfoldable pub leave_squadron : GameState F → ℕ → GameState F × Outcome
  unfolding leave_from
  leave_squadron g p = elim (lookup p g.player_data) [
    | none ↦ (g, refused Refusal.player_not_found)
    | some player ↦ elim player.squadron_id [
      | none ↦ (g, refused Refusal.not_in_squadron)
      | some k ↦ elim (lookup k g.squadrons) [
        | none ↦ (
          record g { player_data = insert p (unseated player) g.player_data },
          done Notice.left_gone,
        )
        | some s ↦ leave_from g p player k s
      ]
    ]
  ]
