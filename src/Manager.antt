-- ===== src/Manager.antt =====
-- crates/bw-runtime/src/simulation/squadron_manager.rs: the state that it works on (state.rs) and
-- the helpers of all handlers. A handler returns the new state and the outcome of its
-- `SquadronResult`: `done` for success, `refused` otherwise, with a constructor for each message.
pub mod Membership
pub mod Roles
pub mod Policy
pub mod Relations
pub mod Sectors
pub mod Building
pub mod Actions
pub mod Pvp
pub mod Contests
pub mod Consistency
mod Examples
use bw_exp.Common.{ℕ, Option, none, some, List, Bool, true, false, if◌then◌else◌}
use bw_exp.Common.Int.{ℤ, ◌-ℤ◌, leb_ℤ}
use bw_exp.Common.Map.{Map}
use bw_exp.Location.{Location}
use bw_exp.Squadron.{Squadron, SquadronRank}

-- The fields of `Player` that the manager reads or writes.
pub record Player : Type 0 where
  pub id : ℕ
  pub username : List ℕ
  pub reputation : ℤ
  pub squadron_id : Option ℕ
  pub squadron_rank : Option SquadronRank

pub record SquadronInvite : Type 0 where
  pub id : ℕ
  pub squadron_id : ℕ
  pub squadron_name : List ℕ
  pub inviter_id : ℕ
  pub inviter_name : List ℕ
  pub invitee_id : ℕ
  pub created_at : ℕ

pub record AllianceProposal : Type 0 where
  pub id : ℕ
  pub from_squadron_id : ℕ
  pub from_squadron_name : List ℕ
  pub to_squadron_id : ℕ
  pub created_at : ℕ

pub record ContestedSector : Type 0 where
  pub sector_id : ℕ
  pub defending_squadron_id : ℕ
  pub attacking_squadron_id : ℕ
  pub defender_influence : ℕ  -- u32
  pub attacker_influence : ℕ  -- u32
  pub started_at : ℕ

-- The fields of `Sector` and of its `SectorInstance` that the manager reads or writes.
pub record Sector : Type 0 where
  pub name : List ℕ
  pub controlling_squadron : Option ℕ
  pub ship_ids : List ℕ
  pub locations : List Location

-- The field of `Ship` that the manager reads.
pub record Ship : Type 0 where
  pub owner_id : Option ℕ

pub record GameState (F : Type 0) : Type 0 where
  pub tick : ℕ
  pub player_data : Map Player
  pub squadrons : Map (Squadron F)
  pub pending_squadron_invites : Map SquadronInvite
  pub pending_alliances : Map AllianceProposal
  pub sectors : Map Sector
  pub contested_sectors : Map ContestedSector
  pub ships : Map Ship

pub data Refusal : Type 0 where
  bad_tag bad_name player_not_found already_in_squadron tag_in_use insufficient_reputation : Refusal
  not_in_squadron squadron_not_found no_permission_to_invite target_player_not_found : Refusal
  target_in_squadron invite_pending invitation_not_found squadron_gone must_transfer : Refusal
  only_leader only_officers target_not_member cannot_kick_leader no_permission_to_kick : Refusal
  motto_too_long own_squadron target_squadron_not_found not_at_war already_allied : Refusal
  proposal_pending proposal_not_found sector_not_found already_controlled not_hostile : Refusal
  not_controlled : Refusal

pub data Notice : Type 0 where
  created invited welcome declined left left_gone disbanded promoted demoted kicked : Notice
  transferred motto_updated wargames_toggled privateering_toggled war_declared peace_made : Notice
  alliance_proposed alliance_formed alliance_declined contest_initiated : Notice
  sector_captured sector_claimed sector_released built : Notice
  contest_continues : ℕ → Notice

pub data Outcome : Type 0 where
  done : Notice → Outcome
  refused : Refusal → Outcome

-- systems/reputation.rs: `can_afford` and `spend_reputation`.
unfoldable pub can_afford : ℤ → ℤ → Bool
can_afford reputation cost = leb_ℤ cost reputation

unfoldable pub spend_reputation : ℤ → ℤ → ℤ × Bool
unfolding can_afford
spend_reputation reputation cost =
    if can_afford reputation cost then (reputation -ℤ cost, true) else (reputation, false)

-- Where a player says that it sits.
abbrev pub seat : Player → Option ℕ × Option SquadronRank
seat p = (p.squadron_id, p.squadron_rank)

abbrev pub seated : ℕ → SquadronRank → Player → Player
seated k r p = record p { squadron_id = some k; squadron_rank = some r }

abbrev pub unseated : Player → Player
unseated p = record p { squadron_id = none; squadron_rank = none }

abbrev pub ranked : SquadronRank → Player → Player
ranked r p = record p { squadron_rank = some r }
