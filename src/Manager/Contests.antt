-- ===== src/Manager/Contests.antt =====
-- Sector contests: stored influence, and who wins.
use bw_exp.Common.{
  ℕ, ◌≡◌, ◌≢◌, ◌+◌, ◌%◌, ◌^◌, ◌≤◌, ◌<◌, arith, none, some, Bool, true, false, ◌==◌, if◌then◌else◌,
  Option-cases, Bool-cases, inl, inr, leb,
}
use bw_exp.Common.Ids.{contains, contains-push, contains-without}
use bw_exp.Common.Map.{Map, lookup, insert, lookup-insert, lookup-remove, modify, lookup-modify}
use bw_exp.Squadron.{Squadron, can_manage, is_hostile_with}
use bw_exp.Manager.{GameState, Player, Sector, ContestedSector, done, Notice}
use bw_exp.Manager.Sectors.{
  gain_sector, lose_sector, capture, press, contest_sector, claim, claim_sector_control,
  count_squadron_ships_in_sector, controlled,
}

-- No stored contest is one that its attacker has won.
abbrev pub IsUndecided : Map ContestedSector → Type 0
IsUndecided contests =
    (x : ℕ) (c : ContestedSector) → lookup x contests ≡ some c → c.attacker_influence < 100

-- A stored contest is replaced by one that is open.
insert-IsUndecided :
    (contests : Map ContestedSector) (x : ℕ) (c : ContestedSector)
    → IsUndecided contests
    → c.attacker_influence < 100
    → IsUndecided (insert x c contests)
insert-IsUndecided contests x c h open_c y d e = elim (Bool-cases (x == y)) [
  | inl a ↦ ground (arith, lookup-insert x y c contests)
  | inr a ↦ h y d (ground (arith, lookup-insert x y c contests))
]

module _ {F : Type 0} (g : GameState F) (h : IsUndecided g.contested_sectors) where
  press-IsUndecided :
      (k x : ℕ) (c : ContestedSector) → IsUndecided (press g k x c).0.contested_sectors
  unfolding press capture
  press-IsUndecided k x c =
      let influence = (c.attacker_influence + count_squadron_ships_in_sector g k x) % 2 ^ 32 in
      elim (Bool-cases (leb 100 influence)) [
        | inl won ↦ rw won (λ y d e. h y d (ground (arith, lookup-remove x y g.contested_sectors)))
        | inr on ↦ rw on (insert-IsUndecided g.contested_sectors x _ h (ground arith))
      ]

  contest-IsUndecided :
      (k x holder : ℕ) → IsUndecided (contest_sector g k x holder).0.contested_sectors
  unfolding contest_sector
  contest-IsUndecided k x holder = elim (Option-cases (lookup x g.contested_sectors)) [
    | inl e ↦ rw (e, contest_sector) (insert-IsUndecided g.contested_sectors x _ h (omega arith))
    | inr (c, e) ↦ rw (e, contest_sector) (press-IsUndecided k x c)
  ]

  claim-IsUndecided :
      (k x : ℕ) (s : Squadron F) (sector : Sector)
      → IsUndecided (claim g k x s sector).0.contested_sectors
  unfolding claim
  claim-IsUndecided k x s sector = elim (Option-cases sector.controlling_squadron) [
    | inl e ↦ rw (e, claim) h
    | inr (holder, e) ↦ elim (Bool-cases (holder == k)) [
      | inl a ↦ rw (e, a, claim) h
      | inr a ↦ elim (Bool-cases (is_hostile_with s holder)) [
        | inr b ↦ rw (e, a, b, claim) h
        | inl b ↦ rw (e, a, b, claim) (contest-IsUndecided k x holder)
      ]
    ]
  ]

  -- If every stored contest is below 100 points for its attacker, then so it is after a claim,
  -- whatever the claim does.
  pub claim_sector-IsUndecided :
      (p x : ℕ) → IsUndecided (claim_sector_control g p x).0.contested_sectors
  unfolding claim_sector_control
  claim_sector-IsUndecided p x = elim (Option-cases (lookup p g.player_data)) [
    | inl e ↦ rw (e, claim_sector_control) h
    | inr (player, e) ↦ elim (Option-cases player.squadron_id) [
      | inl free ↦ rw (e, free, claim_sector_control) h
      | inr (k, own) ↦ elim (Option-cases (lookup k g.squadrons)) [
        | inl gone ↦ rw (e, own, gone, claim_sector_control) h
        | inr (s, y) ↦ elim (Bool-cases (can_manage s p)) [
          | inr a ↦ rw (e, own, y, a, claim_sector_control) h
          | inl a ↦ elim (Option-cases (lookup x g.sectors)) [
            | inl b ↦ rw (e, own, y, a, b, claim_sector_control) h
            | inr (sector, b) ↦
                rw (e, own, y, a, b, claim_sector_control) (claim-IsUndecided k x s sector)
          ]
        ]
      ]
    ]
  ]

module _ {F : Type 0} where
  -- The squadron of an identifier has the sector on its list.
  unfoldable pub patrols : GameState F → ℕ → ℕ → Bool
  patrols g k x = elim (lookup k g.squadrons) [
    | none ↦ false
    | some s ↦ contains s.patrol_sectors x
  ]

module _ {F : Type 0} (x y : ℕ) (s : Squadron F) where
  contains-gain :
      contains (gain_sector x s).patrol_sectors y
      ≡ (if x == y then true else contains s.patrol_sectors y)
  unfolding gain_sector
  contains-gain = ground (arith, contains-push s.patrol_sectors x y)

  contains-lose :
      contains (lose_sector x s).patrol_sectors y
      ≡ (if x == y then false else contains s.patrol_sectors y)
  unfolding lose_sector
  contains-lose = ground (arith, contains-without x s.patrol_sectors y)

-- The lists of sectors after a capture, for every squadron and sector.
patrols-capture :
    {F : Type 0} (g : GameState F) (k x : ℕ) (c : ContestedSector) (s : Squadron F) (j y : ℕ)
    → lookup k g.squadrons ≡ some s
    → patrols (capture g k x c) j y ≡ (
        if x == y
        then if k == j then true else if c.defending_squadron_id == j then false else patrols g j y
        else patrols g j y)
unfolding capture patrols
patrols-capture g k x c s j y e = elim (Option-cases (lookup j g.squadrons)) [
  | inl gone ↦ ground (
    arith,
    lookup-modify k j (gain_sector x) (modify c.defending_squadron_id (lose_sector x) g.squadrons),
    lookup-modify c.defending_squadron_id j (lose_sector x) g.squadrons,
  )
  | inr (u, f) ↦ ground (
    arith,
    lookup-modify k j (gain_sector x) (modify c.defending_squadron_id (lose_sector x) g.squadrons),
    lookup-modify c.defending_squadron_id j (lose_sector x) g.squadrons,
    contains-gain x y u,
    contains-gain x y (lose_sector x u),
    contains-lose x y u,
  )
]

module _ {F : Type 0} (g : GameState F) (p x k holder : ℕ) (player : Player) (s : Squadron F)
    (sector : Sector) (c : ContestedSector)
    (officer : (lookup p g.player_data ≡ some player)
      × (player.squadron_id ≡ some k)
      × (lookup k g.squadrons ≡ some s)
      × (can_manage s p ≡ true))
    (held : (lookup x g.sectors ≡ some sector)
      × (sector.controlling_squadron ≡ some holder)
      × (holder ≢ k)
      × (is_hostile_with s holder ≡ true))
    (contested : lookup x g.contested_sectors ≡ some c)
    (won : 100 ≤ (c.attacker_influence + count_squadron_ships_in_sector g k x) % 2 ^ 32) where
  claim_sector-captured :
      claim_sector_control g p x ≡ (capture g k x c, done Notice.sector_captured)
  unfolding claim_sector_control claim contest_sector press
  claim_sector-captured = ground arith

  -- An officer of a squadron that is at war with the holder takes a contested sector once the
  -- ships of its squadron bring the attack to 100 points, whichever squadron gathered them so
  -- far. If the contest names another defender than the holder, and the holder lists the sector,
  -- then both squadrons list it afterwards, the sector is under the new one, and the contest is
  -- gone.
  pub claim_sector-two_holders :
      c.defending_squadron_id ≢ holder
      → patrols g holder x ≡ true
      → let g' = (claim_sector_control g p x).0 in
        (patrols g' k x ≡ true)
        × (patrols g' holder x ≡ true)
        × (lookup x g'.sectors ≡ some (controlled (some k) sector))
        × (lookup x g'.contested_sectors ≡ none)
  unfolding capture
  claim_sector-two_holders stale listed = rw claim_sector-captured (
    ground (arith, patrols-capture g k x c s k x),
    ground (arith, patrols-capture g k x c s holder x),
    ground (arith, lookup-modify x x (controlled (some k)) g.sectors),
    ground (arith, lookup-remove x x g.contested_sectors),
  )
