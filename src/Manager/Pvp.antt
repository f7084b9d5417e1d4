-- ===== src/Manager/Pvp.antt =====
-- squadron_manager.rs: which players may fight each other.
use bw_exp.Common.{
  sym, ℕ, ◌≡◌, arith, Option, none, some, Bool, true, false, not, ◌&&◌, ◌||◌, ◌==◌, if◌then◌else◌,
  is_some,
}
use bw_exp.Common.Map.{lookup}
use bw_exp.Squadron.{Squadron, is_hostile_with}
use bw_exp.Manager.{GameState, Player}

pub data PvpEngagementType : Type 0 where
  wargames privateering war : PvpEngagementType

abbrev pub squadron_of : Option Player → Option ℕ
squadron_of none = none
squadron_of (some player) = player.squadron_id

module _ {F : Type 0} where
  -- `map(|s| s.wargames_enabled).unwrap_or(false)`.
  abbrev wargames_on : Option (Squadron F) → Bool
  wargames_on none = false
  wargames_on (some s) = s.wargames_enabled

  abbrev rivals_engage : ℕ → ℕ → Option (Squadron F) → Option (Squadron F) → Bool
  rivals_engage a t (some s) (some u) =
      if is_hostile_with s t || is_hostile_with u a
      then true
      else s.privateering_enabled && u.privateering_enabled
  rivals_engage a t _ _ = false

  unfoldable pub can_engage_pvp : GameState F → ℕ → ℕ → Bool
  can_engage_pvp g attacker target = elim (squadron_of (lookup attacker g.player_data)) [
    | none ↦ false
    | some a ↦ elim (squadron_of (lookup target g.player_data)) [
      | none ↦ false
      | some t ↦
          if a == t
          then wargames_on (lookup a g.squadrons)
          else rivals_engage a t (lookup a g.squadrons) (lookup t g.squadrons)
    ]
  ]

  abbrev rivals_type : ℕ → ℕ → Option (Squadron F) → Option (Squadron F) → Option PvpEngagementType
  rivals_type a t (some s) (some u) =
      if is_hostile_with s t || is_hostile_with u a
      then some war
      else if s.privateering_enabled && u.privateering_enabled
      then some privateering
      else none
  rivals_type a t _ _ = none

  unfoldable pub get_pvp_engagement_type : GameState F → ℕ → ℕ → Option PvpEngagementType
  get_pvp_engagement_type g attacker target = elim (squadron_of (lookup attacker g.player_data)) [
    | none ↦ none
    | some a ↦ elim (squadron_of (lookup target g.player_data)) [
      | none ↦ none
      | some t ↦
          if a == t
          then some wargames
          else rivals_type a t (lookup a g.squadrons) (lookup t g.squadrons)
    ]
  ]

module _ {F : Type 0} (g : GameState F) (a t : ℕ) where
  -- Who attacks makes no difference, to the permission nor to the kind of engagement.
  pub can_engage_symmetric :
      (can_engage_pvp g a t ≡ can_engage_pvp g t a)
      × (get_pvp_engagement_type g a t ≡ get_pvp_engagement_type g t a)
  unfolding can_engage_pvp get_pvp_engagement_type
  can_engage_symmetric = (ground arith, ground arith)

  -- Both are in one squadron, which has wargames switched off or is not there.
  abbrev pub in_peace : Bool
  in_peace = elim (squadron_of (lookup a g.player_data)) [
    | none ↦ false
    | some j ↦ elim (squadron_of (lookup t g.player_data)) [
      | none ↦ false
      | some k ↦ elim (lookup j g.squadrons) [
        | none ↦ j == k
        | some s ↦ (j == k) && not s.wargames_enabled
      ]
    ]
  ]

  -- Two players may fight exactly if there is a kind of engagement for them and they are not in
  -- one squadron that has wargames switched off or is gone. Who attacks makes no difference, to
  -- the permission nor to the kind of engagement.
  pub can_engage_unless_in_peace :
      (can_engage_pvp g a t ≡ is_some (get_pvp_engagement_type g a t) && not in_peace)
      × (can_engage_pvp g t a ≡ can_engage_pvp g a t)
      × (get_pvp_engagement_type g t a ≡ get_pvp_engagement_type g a t)
  unfolding can_engage_pvp get_pvp_engagement_type
  can_engage_unless_in_peace =
      (ground arith, sym can_engage_symmetric.0, sym can_engage_symmetric.1)
