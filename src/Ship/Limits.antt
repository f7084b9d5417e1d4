-- ===== src/Ship/Limits.antt =====
-- ship.rs: cargo on the edges of u32, amounts that wrap and amounts of none.
use bw_exp.Common.{ℕ, ◌+◌, ◌%◌, ◌^◌, ◌≤◌, ◌≡◌, refl, arith, List, none, some, true, false, leb}
use bw_exp.Common.Int.{ℤ}
use bw_exp.Common.Ids.{contains}
use bw_exp.Ship.{
  Ship, CargoItem, class_capacity, cargo_capacity, weight, cargo_used, can_add_cargo,
  get_cargo_quantity, add_cargo,
}
use bw_exp.Ship.Stowing.{types, stow_new, stow_zero}
use bw_exp.Ship.Hold.{IsStowed, class_capacity_bound}

-- A quantity of a new type that makes the sum of all quantities wrap (modulo 2^32) to one that
-- fits is taken in whole, however large it is.
pub add_cargo_wraps :
    (s : Ship) (t quantity : ℕ) (price : ℤ)
    → contains (types s.cargo) t ≡ false
    → (weight s.cargo + quantity) % 2 ^ 32 ≤ cargo_capacity s
    → (s' : Ship) × (add_cargo s t quantity price ≡ some (s', true))
      × (get_cargo_quantity s' t ≡ quantity)
unfolding add_cargo can_add_cargo cargo_used cargo_capacity get_cargo_quantity
add_cargo_wraps s t quantity price fresh wrapped =
    let (ds, made, amount, heavier, there) = stow_new t quantity price s.cargo fresh in
    (record s { cargo = ds }, rw (allowed, made, add_cargo) refl, amount)
  where
    allowed :
        leb ((weight s.cargo % 2 ^ 32 + quantity) % 2 ^ 32) (class_capacity s.ship_class) ≡ true
    allowed = ground (arith, wrapped)

module _ (s : Ship) (t : ℕ) (price price' : ℤ) where
  -- On a hold that is in order, adding none of a new type succeeds, and adding none of it again
  -- panics with a division by zero.
  pub add_cargo_panics :
      IsStowed s
      → contains (types s.cargo) t ≡ false
      → (s' : Ship) × (add_cargo s t 0 price ≡ some (s', true)) × (add_cargo s' t 0 price' ≡ none)
  unfolding add_cargo can_add_cargo cargo_used cargo_capacity
  add_cargo_panics h fresh =
      let (ds, made, amount, heavier, there) = stow_new t 0 price s.cargo fresh in
      (
        record s { cargo = ds },
        rw (fits s.cargo h.fits, made, add_cargo) refl,
        rw (fits ds (omega (arith, heavier, h.fits)), stow_zero t price' ds there amount, add_cargo)
            refl,
      )
    where
      fits :
          (cs : List CargoItem)
          → weight cs ≤ class_capacity s.ship_class
          → leb ((weight cs % 2 ^ 32 + 0) % 2 ^ 32) (class_capacity s.ship_class) ≡ true
      fits cs small = ground (arith, small, class_capacity_bound s.ship_class)
