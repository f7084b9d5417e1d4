-- ===== src/Manager/Consistency/Calls.antt =====
-- Every function of squadron_manager.rs that changes the state, as a call, and the states that calls
-- reach.
use bw_exp.Common.{ℕ, ◌≡◌, ◌≢◌, arith, List, [], some, true, Option-cases, inl, inr}
use bw_exp.Common.Float.{Float}
use bw_exp.Common.Ids.{contains}
use bw_exp.Common.Map.{lookup, map_option}
use bw_exp.Squadron.{Squadron, SquadronBuildingType}
use bw_exp.Squadron.Roster.{rank}
use bw_exp.Manager.{Player, GameState, Outcome, seat}
use bw_exp.Manager.Membership.{
  create_squadron, invite_to_squadron, accept_squadron_invite, decline_squadron_invite,
  leave_squadron,
}
use bw_exp.Manager.Relations.{accept_alliance, decline_alliance}
use bw_exp.Manager.Sectors.{claim_sector_control, release_sector_control}
use bw_exp.Manager.Building.{build_structure}
use bw_exp.Manager.Actions.{
  SquadronAction, promote_to_officer, demote_officer as demote, kick_member as kick,
  transfer_leadership, set_motto, enable_wargames, enable_privateering, declare_war, make_peace,
  form_alliance, dispatch, process_squadron_action,
}
use bw_exp.Manager.Consistency.{IsSound}
use bw_exp.Manager.Consistency.Roles.{
  promote-IsSound, demote-IsSound, kick-IsSound, transfer-IsSound, Presumes,
}
use bw_exp.Manager.Consistency.Membership.{
  create-IsSound, accept-IsSound, decline-IsSound, leave-IsSound,
}
use bw_exp.Manager.Consistency.Policy.{set_motto-IsSound, wargames-IsSound, privateering-IsSound}
use bw_exp.Manager.Consistency.Relations.{
  declare_war-IsSound, make_peace-IsSound, form_alliance-IsSound, accept_alliance-IsSound,
  decline_alliance-IsSound,
}
use bw_exp.Manager.Consistency.Building.{build_structure-IsSound}
use bw_exp.Manager.Consistency.Sectors.{claim_sector-IsSound, release_sector-IsSound}

pub data Call : Type 0 where
  create : (id now player : ℕ) (name tag : List ℕ) → Call
  invite : (id inviter invitee : ℕ) → Call
  accept_invite decline_invite : (player invite_id : ℕ) → Call
  leave : (player : ℕ) → Call
  act : (id player : ℕ) → SquadronAction → Call
  accept_proposal decline_proposal : (player proposal_id : ℕ) → Call
  claim_sector release_sector : (player sector : ℕ) → Call
  build : (id player : ℕ) → SquadronBuildingType → (sector : ℕ) → Call

module _ {F : Type 0} ⦃fl : Float F⦄ where
  unfoldable pub handle : Call → GameState F → GameState F × Outcome
  handle (create id now p name tag) g = create_squadron g id now p name tag
  handle (invite id p q) g = invite_to_squadron g id p q
  handle (accept_invite p i) g = accept_squadron_invite g p i
  handle (decline_invite p i) g = decline_squadron_invite g p i
  handle (leave p) g = leave_squadron g p
  handle (act id p action) g = process_squadron_action g id p action
  handle (accept_proposal p i) g = accept_alliance g p i
  handle (decline_proposal p i) g = decline_alliance g p i
  handle (claim_sector p x) g = claim_sector_control g p x
  handle (release_sector p x) g = release_sector_control g p x
  handle (build id p kind x) g = build_structure g id p kind x

  -- What an action must meet in the actor's squadron: the target of a promotion or a demotion does
  -- not lead it, and the target of a demotion or a kick is a member of it.
  abbrev pub Fits : SquadronAction → Squadron F → Type 0
  Fits (promote_to_officer t) s = s.leader_id ≢ t
  Fits (demote t) s = (contains s.members t ≡ true) × (s.leader_id ≢ t)
  Fits (kick t) s = contains s.members t ≡ true
  Fits _ s = Unit {0}

  abbrev pub Permitted : Call → GameState F → Type 0
  Permitted (act id p action) g =
      (player : Player) (k : ℕ)
      → lookup p g.player_data ≡ some player
      → player.squadron_id ≡ some k
      → Presumes g k (Fits action)
  Permitted _ g = Unit {0}

  dispatch-IsSound :
      (action : SquadronAction) (g : GameState F) (id p k : ℕ)
      → IsSound g
      → Presumes g k (Fits action)
      → IsSound (dispatch action g id p k).0
  unfolding dispatch
  dispatch-IsSound (promote_to_officer t) g id p k h d = promote-IsSound g p k t h d
  dispatch-IsSound (demote t) g id p k h d = demote-IsSound g p k t h d
  dispatch-IsSound (kick t) g id p k h d = kick-IsSound g p k t h d
  dispatch-IsSound (transfer_leadership t) g id p k h d = transfer-IsSound g p k t h
  dispatch-IsSound (set_motto motto) g id p k h d = set_motto-IsSound g h p k motto
  dispatch-IsSound (enable_wargames on) g id p k h d = wargames-IsSound g h p k on
  dispatch-IsSound (enable_privateering on) g id p k h d = privateering-IsSound g h p k on
  dispatch-IsSound (declare_war q) g id p k h d = declare_war-IsSound g h p k q
  dispatch-IsSound (make_peace q) g id p k h d = make_peace-IsSound g h p k q
  dispatch-IsSound (form_alliance q) g id p k h d = form_alliance-IsSound g h id p k q

  process-IsSound :
      (action : SquadronAction) (g : GameState F) (id p : ℕ)
      → IsSound g
      → Permitted (act id p action) g
      → IsSound (process_squadron_action g id p action).0
  unfolding process_squadron_action
  process-IsSound action g id p h d = elim (Option-cases (lookup p g.player_data)) [
    | inl e ↦ rw (e, process_squadron_action) h
    | inr (player, e) ↦ elim (Option-cases player.squadron_id) [
      | inl free ↦ rw (e, free, process_squadron_action) h
      | inr (k, own) ↦
          rw (e, own, process_squadron_action)
            (dispatch-IsSound action g id p k h (d player k e own))
    ]
  ]

  invite_keeps :
      (g : GameState F) (id p q : ℕ)
      → let g' = (invite_to_squadron g id p q).0 in
        (g'.player_data ≡ g.player_data) × (g'.squadrons ≡ g.squadrons)
  unfolding invite_to_squadron
  invite_keeps g id p q = ground arith

  -- Let every stored roster be well formed, and let each player on a roster be on record with
  -- that squadron and with the rank that the roster gives it. Then every public function of the
  -- squadron manager that changes the state keeps this, successful or refused: founding,
  -- invitations, leaving, the actions, answers to alliances, claims and releases of sectors, and
  -- building. The target of a promotion or demotion must not lead the actor's squadron, and the
  -- target of a demotion or kick must be a member of it.
  pub handle-IsSound :
      (c : Call) (g : GameState F) → IsSound g → Permitted c g → IsSound (handle c g).0
  unfolding handle
  handle-IsSound (create id now p name tag) g h d = create-IsSound g h id now p name tag
  handle-IsSound (invite id p q) g h d =
      let (same_players, same_squadrons) = invite_keeps g id p q in
      rw (same_players, same_squadrons) h
  handle-IsSound (accept_invite p i) g h d = accept-IsSound g h p i
  handle-IsSound (decline_invite p i) g h d = decline-IsSound g h p i
  handle-IsSound (leave p) g h d = leave-IsSound g h p
  handle-IsSound (act id p action) g h d = process-IsSound action g id p h d
  handle-IsSound (accept_proposal p i) g h d = accept_alliance-IsSound g h p i
  handle-IsSound (decline_proposal p i) g h d = decline_alliance-IsSound g h p i
  handle-IsSound (claim_sector p x) g h d = claim_sector-IsSound g h p x
  handle-IsSound (release_sector p x) g h d = release_sector-IsSound g h p x
  handle-IsSound (build id p kind x) g h d = build_structure-IsSound g h id p x kind

  -- The states that permitted calls reach from one without squadrons.
  pub data Reach : GameState F → Type 0 where
    start : (g : GameState F) → g.squadrons ≡ [] → Reach g
    next : {g : GameState F} (c : Call) → Permitted c g → Reach g → Reach (handle c g).0

  -- In every state that permitted calls reach from one without squadrons, rosters are well formed
  -- and agree with the players' own records.
  pub Reach-IsSound : {g : GameState F} → Reach g → IsSound g
  unfolding lookup
  Reach-IsSound (start g e) = rw e (record { rosters = λ k s x. cc; seats = λ k s p x m. cc })
  Reach-IsSound (next c d r) = handle-IsSound c _ (Reach-IsSound r) d

  -- In every state that permitted calls reach from one without squadrons, a player is on the
  -- roster of one squadron at most, and its own record names that squadron and the rank that the
  -- roster gives it.
  pub Reach-one_squadron :
      {g : GameState F} (p j k : ℕ) (s t : Squadron F)
      → Reach g
      → lookup j g.squadrons ≡ some s
      → lookup k g.squadrons ≡ some t
      → contains s.members p ≡ true
      → contains t.members p ≡ true
      → (j ≡ k) × (map_option seat (lookup p g.player_data) ≡ some (some k, rank t p))
  Reach-one_squadron p j k s t r x y m n =
      let h = Reach-IsSound r in ground (arith, h.seats j s p x m, h.seats k t p y n)
