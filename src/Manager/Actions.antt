-- ===== src/Manager/Actions.antt =====
-- squadron_manager.rs: `process_squadron_action` (bw-shared's `SquadronAction`).
use bw_exp.Common.{ℕ, List, none, some, Bool}
use bw_exp.Common.Float.{Float}
use bw_exp.Common.Map.{lookup}
use bw_exp.Manager.{GameState, Outcome, refused, Refusal}
use bw_exp.Manager.Roles
use bw_exp.Manager.Policy
use bw_exp.Manager.Relations

pub data SquadronAction : Type 0 where
  promote_to_officer demote_officer kick_member transfer_leadership : ℕ → SquadronAction
  set_motto : List ℕ → SquadronAction
  enable_wargames enable_privateering : Bool → SquadronAction
  declare_war make_peace form_alliance : ℕ → SquadronAction

module _ {F : Type 0} ⦃fl : Float F⦄ where
  -- The `match` on the action. `id` is the identifier that a new proposal draws.
  unfoldable pub dispatch : SquadronAction → GameState F → ℕ → ℕ → ℕ → GameState F × Outcome
  dispatch (promote_to_officer t) g id p k = Roles.promote_to_officer g p k t
  dispatch (demote_officer t) g id p k = Roles.demote_officer g p k t
  dispatch (kick_member t) g id p k = Roles.kick_member g p k t
  dispatch (transfer_leadership t) g id p k = Roles.transfer_leadership g p k t
  dispatch (set_motto motto) g id p k = Policy.set_motto g p k motto
  dispatch (enable_wargames on) g id p k = Policy.toggle_wargames g p k on
  dispatch (enable_privateering on) g id p k = Policy.toggle_privateering g p k on
  dispatch (declare_war q) g id p k = Relations.declare_war g p k q
  dispatch (make_peace q) g id p k = Relations.make_peace g p k q
  dispatch (form_alliance q) g id p k = Relations.form_alliance g id p k q

  unfoldable pub process_squadron_action :
      GameState F → ℕ → ℕ → SquadronAction → GameState F × Outcome
  unfolding dispatch
  process_squadron_action g id p action = elim (lookup p g.player_data) [
    | none ↦ (g, refused Refusal.player_not_found)
    | some player ↦ elim player.squadron_id [
      | none ↦ (g, refused Refusal.not_in_squadron)
      | some k ↦ dispatch action g id p k
    ]
  ]
