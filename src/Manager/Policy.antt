-- ===== src/Manager/Policy.antt =====
-- squadron_manager.rs: the motto and the two switches for fights between players.
use bw_exp.Common.{ℕ, List, [], ◌∷◌, Option, none, some, Bool, if◌then◌else◌, not, length, ltb}
use bw_exp.Common.Map.{lookup, insert}
use bw_exp.Squadron.{is_leader, can_manage}
use bw_exp.Manager.{GameState, Outcome, done, refused, Notice, Refusal}

-- `if motto.is_empty() { None } else { Some(motto) }`.
abbrev stored_motto : List ℕ → Option (List ℕ)
stored_motto [] = none
stored_motto (c ∷ cs) = some (c ∷ cs)

module _ {F : Type 0} where
  unfoldable pub set_motto : GameState F → ℕ → ℕ → List ℕ → GameState F × Outcome
  set_motto g actor k motto = elim (lookup k g.squadrons) [
    | none ↦ (g, refused Refusal.squadron_not_found)
    | some s ↦
        if not (can_manage s actor)
        then (g, refused Refusal.only_officers)
        else if ltb 128 (length motto)
        then (g, refused Refusal.motto_too_long)
        else (
          record g { squadrons = insert k (record s { motto = stored_motto motto }) g.squadrons },
          done Notice.motto_updated,
        )
  ]

  unfoldable pub toggle_wargames : GameState F → ℕ → ℕ → Bool → GameState F × Outcome
  toggle_wargames g actor k enabled = elim (lookup k g.squadrons) [
    | none ↦ (g, refused Refusal.squadron_not_found)
    | some s ↦ if not (is_leader s actor) then (g, refused Refusal.only_leader) else (
      record g { squadrons = insert k (record s { wargames_enabled = enabled }) g.squadrons },
      done Notice.wargames_toggled,
    )
  ]

  unfoldable pub toggle_privateering : GameState F → ℕ → ℕ → Bool → GameState F × Outcome
  toggle_privateering g actor k enabled = elim (lookup k g.squadrons) [
    | none ↦ (g, refused Refusal.squadron_not_found)
    | some s ↦ if not (is_leader s actor) then (g, refused Refusal.only_leader) else (
      record g { squadrons = insert k (record s { privateering_enabled = enabled }) g.squadrons },
      done Notice.privateering_toggled,
    )
  ]
