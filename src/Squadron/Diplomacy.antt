-- ===== src/Squadron/Diplomacy.antt =====
-- Wars and alliances of a squadron, against a stance towards each other squadron.
use bw_exp.Common.{ℕ, ◌≡◌, arith, ◌==◌, if◌then◌else◌}
use bw_exp.Common.Ids.{contains, contains-push, contains-without}
use bw_exp.Squadron.{Squadron, declare_war, make_peace, form_alliance, break_alliance}

-- `torn`: an ally and an enemy.
pub data Stance : Type 0 where
  allied hostile neutral torn : Stance

pub data Move : Type 0 where
  war peace alliance parting : ℕ → Move

-- What a move makes of the stance towards the squadron that it names.
abbrev pub moved : Move → Stance → Stance
moved (war q) r = hostile
moved (peace q) hostile = neutral
moved (peace q) torn = allied
moved (peace q) r = r
moved (alliance q) r = allied
moved (parting q) allied = neutral
moved (parting q) torn = hostile
moved (parting q) r = r

abbrev pub target : Move → ℕ
target (war q) = q
target (peace q) = q
target (alliance q) = q
target (parting q) = q

module _ {F : Type 0} where
  unfoldable pub stance : Squadron F → ℕ → Stance
  stance s q =
      if contains s.hostile_squadrons q
      then if contains s.allied_squadrons q then torn else hostile
      else if contains s.allied_squadrons q
      then allied
      else neutral

  unfoldable pub move : Move → Squadron F → Squadron F
  move (war q) s = declare_war s q
  move (peace q) s = make_peace s q
  move (alliance q) s = form_alliance s q
  move (parting q) s = break_alliance s q

  -- A declaration of war, peace, an alliance or its end changes the stance towards the squadron
  -- that it names as the table says, and no other stance. The stance tells allies, enemies, both
  -- at once and neither apart: war and an alliance leave no trace of the other, peace and the end
  -- of an alliance take one of them away.
  pub stance-move :
      (m : Move) (s : Squadron F) (p : ℕ)
      → stance (move m s) p ≡ (if target m == p then moved m (stance s p) else stance s p)
  unfolding stance move declare_war make_peace form_alliance break_alliance
  stance-move (war q) s p =
      ground (arith, contains-push s.hostile_squadrons q p, contains-without q s.allied_squadrons p)
  stance-move (peace q) s p = ground (arith, contains-without q s.hostile_squadrons p)
  stance-move (alliance q) s p =
      ground (arith, contains-push s.allied_squadrons q p, contains-without q s.hostile_squadrons p)
  stance-move (parting q) s p = ground (arith, contains-without q s.allied_squadrons p)
