-- ===== src/Manager/Consistency/Policy.antt =====
-- The motto and the switches leave rosters and records alone.
use bw_exp.Common.{ℕ, refl, List, Bool, Option-cases, Bool-cases, inl, inr, ltb, length}
use bw_exp.Common.Map.{lookup}
use bw_exp.Squadron.{is_leader, can_manage}
use bw_exp.Manager.{GameState}
use bw_exp.Manager.Policy
use bw_exp.Manager.Consistency.{IsSound}
use bw_exp.Manager.Consistency.Kept.{recast-IsConsistent}

module _ {F : Type 0} (g : GameState F) (h : IsSound g) (actor k : ℕ) where
  pub set_motto-IsSound : (motto : List ℕ) → IsSound (Policy.set_motto g actor k motto).0
  unfolding Policy.set_motto
  set_motto-IsSound motto = elim (Option-cases (lookup k g.squadrons)) [
    | inl e ↦ rw (e, Policy.set_motto) h
    | inr (s, e) ↦ elim (Bool-cases (can_manage s actor)) [
      | inr a ↦ rw (e, a, Policy.set_motto) h
      | inl a ↦ elim (Bool-cases (ltb 128 (length motto))) [
        | inl b ↦ rw (e, a, b, Policy.set_motto) h
        | inr b ↦
            rw (e, a, b, Policy.set_motto)
              (recast-IsConsistent g.player_data g.squadrons k s _ (refl, refl, refl) e h)
      ]
    ]
  ]

  pub wargames-IsSound : (on : Bool) → IsSound (Policy.toggle_wargames g actor k on).0
  unfolding Policy.toggle_wargames
  wargames-IsSound on = elim (Option-cases (lookup k g.squadrons)) [
    | inl e ↦ rw (e, Policy.toggle_wargames) h
    | inr (s, e) ↦ elim (Bool-cases (is_leader s actor)) [
      | inr a ↦ rw (e, a, Policy.toggle_wargames) h
      | inl a ↦
          rw (e, a, Policy.toggle_wargames)
            (recast-IsConsistent g.player_data g.squadrons k s _ (refl, refl, refl) e h)
    ]
  ]

  pub privateering-IsSound : (on : Bool) → IsSound (Policy.toggle_privateering g actor k on).0
  unfolding Policy.toggle_privateering
  privateering-IsSound on = elim (Option-cases (lookup k g.squadrons)) [
    | inl e ↦ rw (e, Policy.toggle_privateering) h
    | inr (s, e) ↦ elim (Bool-cases (is_leader s actor)) [
      | inr a ↦ rw (e, a, Policy.toggle_privateering) h
      | inl a ↦
          rw (e, a, Policy.toggle_privateering)
            (recast-IsConsistent g.player_data g.squadrons k s _ (refl, refl, refl) e h)
    ]
  ]
