-- ===== src/Ship/Examples.antt =====
-- Runs of ship.rs on a corvette with ten units of cargo 1.
use bw_exp.Common.{
  ℕ, ◌+◌, ◌-◌, ◌%◌, ◌^◌, ◌≡◌, ◌≤◌, ◌<◌, refl, arith, [], ◌∷◌, none, some, true, false, ◌==◌, ◌&&◌,
  if◌then◌else◌,
}
use bw_exp.Common.Int.{pos}
use bw_exp.Common.Ids.{contains}
use bw_exp.Ship.{
  Ship, patrol_corvette, weight, cargo_capacity, add_cargo, remove_cargo, get_cargo_quantity,
  quantity_of, install_upgrade, remove_upgrade, has_upgrade,
}
use bw_exp.Ship.Stowing.{types}
use bw_exp.Ship.Hold.{IsStowed, add_cargo_stows, remove_cargo_takes, has}
use bw_exp.Ship.Limits.{add_cargo_wraps, add_cargo_panics}

abbrev corvette : Ship
corvette = record {
  ship_class = patrol_corvette;
  cargo = record { cargo_type = 1; quantity = 10; purchase_price = pos 5 } ∷ [];
  upgrades = [];
}

carried : weight corvette.cargo ≡ 10
unfolding weight
carried = refl

capacity : cargo_capacity corvette ≡ 50
unfolding cargo_capacity bw_exp.Ship.class_capacity
capacity = refl

corvette-IsStowed : IsStowed corvette
unfolding types contains get_cargo_quantity quantity_of
corvette-IsStowed = record {
  fits = omega (arith, carried, capacity);
  distinct = (refl, tt);
  stocked = λ u there. ground (arith, there);
}

has_room : weight corvette.cargo + 20 ≤ cargo_capacity corvette
has_room = omega (arith, carried, capacity)

add_cargo_stows_example :
    (s' : Ship) × (add_cargo corvette 1 20 (pos 8) ≡ some (s', true))
    × IsStowed s'
    × ((u : ℕ)
        → get_cargo_quantity s' u
          ≡ (if 1 == u then get_cargo_quantity corvette 1 + 20 else get_cargo_quantity corvette u))
add_cargo_stows_example =
    add_cargo_stows corvette 1 20 (pos 8) corvette-IsStowed (omega arith) has_room

small_sum : weight corvette.cargo + 41 < 2 ^ 32
unfolding weight
small_sum = omega (arith, carried, capacity)

too_much : cargo_capacity corvette < weight corvette.cargo + 41
unfolding cargo_capacity weight bw_exp.Ship.class_capacity
too_much = omega (arith, carried, capacity)

remove_cargo_takes_example :
    ((remove_cargo corvette 1 10).1 ≡ has corvette 1 10)
    × IsStowed (remove_cargo corvette 1 10).0
    × ((u : ℕ)
        → get_cargo_quantity (remove_cargo corvette 1 10).0 u ≡ (
            if has corvette 1 10 && (1 == u)
            then get_cargo_quantity corvette 1 - 10
            else get_cargo_quantity corvette u))
remove_cargo_takes_example = remove_cargo_takes corvette 1 10 corvette-IsStowed

is_new : contains (types corvette.cargo) 2 ≡ false
unfolding contains types
is_new = refl

wraps_to_fit : (weight corvette.cargo + 4294967290) % 2 ^ 32 ≤ cargo_capacity corvette
unfolding weight cargo_capacity bw_exp.Ship.class_capacity
wraps_to_fit = omega (arith, carried, capacity)

add_cargo_wraps_example :
    (s' : Ship) × (add_cargo corvette 2 4294967290 (pos 0) ≡ some (s', true))
    × (get_cargo_quantity s' 2 ≡ 4294967290)
add_cargo_wraps_example = add_cargo_wraps corvette 2 4294967290 (pos 0) is_new wraps_to_fit

add_cargo_panics_example :
    (s' : Ship) × (add_cargo corvette 2 0 (pos 0) ≡ some (s', true))
    × (add_cargo s' 2 0 (pos 0) ≡ none)
add_cargo_panics_example = add_cargo_panics corvette 2 (pos 0) (pos 0) corvette-IsStowed is_new
