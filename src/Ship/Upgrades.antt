-- ===== src/Ship/Upgrades.antt =====
-- ship.rs: the upgrades of a ship.
use bw_exp.Common.{
  ℕ, ◌≡◌, refl, arith, List, [], ◌∷◌, some, Bool, true, false, ◌==◌, ==_refl, any, push, Bool-cases,
  inl, inr,
}
use bw_exp.Ship.{Ship, InstalledUpgrade, install_upgrade, remove_upgrade, has_upgrade, pull}

-- Something is in the slot.
abbrev pub taken : ℕ → List InstalledUpgrade → Bool
taken slot us = any (λ u. u.slot == slot) us

pull_pushed :
    (slot upgrade_id : ℕ) (us : List InstalledUpgrade)
    → taken slot us ≡ false
    → pull slot (push us (record { upgrade_id = upgrade_id; slot = slot })) ≡ some (upgrade_id, us)
unfolding pull
pull_pushed slot upgrade_id [] free = rw (==_refl slot) refl
pull_pushed slot upgrade_id (u ∷ us) free =
    let other : (u.slot == slot) ≡ false = ground (arith, free) in
    rw (other, pull_pushed slot upgrade_id us (ground (arith, free))) refl

any_pushed :
    (p : InstalledUpgrade → Bool) (us : List InstalledUpgrade) (u : InstalledUpgrade)
    → p u ≡ true
    → any p (push us u) ≡ true
any_pushed p [] u h = rw h refl
any_pushed p (w ∷ us) u h = elim (Bool-cases (p w)) [
  | inl x ↦ rw x refl
  | inr x ↦ rw x (any_pushed p us u h)
]

-- An upgrade can be installed in a free slot; the ship then has it, and removing what is in the
-- slot gives the upgrade and the ship as it was.
pub install_upgrade-remove_upgrade :
    (s : Ship) (upgrade_id slot : ℕ)
    → taken slot s.upgrades ≡ false
    → ((install_upgrade s upgrade_id slot).1 ≡ true)
      × (has_upgrade (install_upgrade s upgrade_id slot).0 upgrade_id ≡ true)
      × (remove_upgrade (install_upgrade s upgrade_id slot).0 slot ≡ (s, some upgrade_id))
unfolding install_upgrade remove_upgrade has_upgrade
install_upgrade-remove_upgrade s upgrade_id slot free =
    rw (free, install_upgrade)
      (
        refl,
        any_pushed (λ u. u.upgrade_id == upgrade_id) s.upgrades _ (==_refl upgrade_id),
        rw (pull_pushed slot upgrade_id s.upgrades free, remove_upgrade) refl,
      )
