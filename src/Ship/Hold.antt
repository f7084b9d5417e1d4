-- ===== src/Ship/Hold.antt =====
-- ship.rs: the hold of a ship.
use bw_exp.Common.{
  ℕ, ◌+◌, ◌-◌, ◌%◌, ◌^◌, ◌≤◌, ◌<◌, ◌≡◌, refl, ap, ◌∙◌, arith, List, some, Bool, true, false, ◌==◌,
  ◌&&◌, if◌then◌else◌, leb, Bool-cases, inl, inr,
}
use bw_exp.Common.Int.{ℤ}
use bw_exp.Common.Ids.{
  contains, without, IsDistinct, push-IsDistinct, without-IsDistinct, contains-push,
  contains-without,
}
use bw_exp.Ship.{
  Ship, ShipClass, CargoItem, class_capacity, cargo_capacity, weight, cargo_used, can_add_cargo,
  quantity_of, get_cargo_quantity, add_cargo, remove_cargo, discard,
}
use bw_exp.Ship.Stowing.{
  types, contains-types, IsStowing, IsTaking, stow_fits, take_out_fits, take_out_fails,
  weight-discard, quantity_of-discard, types-discard,
}

pub record IsStowed (s : Ship) : Type 0 where
  pub fits : weight s.cargo ≤ cargo_capacity s
  pub distinct : IsDistinct (types s.cargo)
  pub stocked : (u : ℕ) → contains (types s.cargo) u ≡ true → 0 < get_cargo_quantity s u

pub class_capacity_bound : (k : ShipClass) → class_capacity k ≤ 2000
unfolding class_capacity
class_capacity_bound k = ground arith

-- The hold of a ship after something went in.
stowing-IsStowed :
    (s : Ship) (t quantity : ℕ) (ds : List CargoItem)
    → IsStowed s
    → 0 < quantity
    → weight s.cargo + quantity ≤ cargo_capacity s
    → IsStowing t quantity s.cargo ds
    → IsStowed (record s { cargo = ds })
unfolding get_cargo_quantity cargo_capacity
stowing-IsStowed s t quantity ds h some_more room stowing = record {
  fits = ground (arith, stowing.heavier, room);
  distinct = elim (Bool-cases (contains (types s.cargo) t)) [
    | inl x ↦ rw (stowing.named, x) h.distinct
    | inr x ↦ rw (stowing.named, x) (push-IsDistinct (types s.cargo) t x h.distinct)
  ];
  stocked = λ u there. ground (
    arith,
    there,
    some_more,
    stowing.named,
    contains-push (types s.cargo) t u,
    stowing.amounts u,
    h.stocked u,
  );
}

module _ (s : Ship) (t quantity : ℕ) (price : ℤ) where
  -- If a hold is in order (within the capacity, no type twice, no empty item), then a positive
  -- quantity that fits is taken in: the call returns and succeeds, the hold is in order, the
  -- amount of the type has grown by the quantity, and the amounts of the other types are as
  -- before.
  pub add_cargo_stows :
      IsStowed s
      → 0 < quantity
      → weight s.cargo + quantity ≤ cargo_capacity s
      → (s' : Ship) × (add_cargo s t quantity price ≡ some (s', true))
        × IsStowed s'
        × ((u : ℕ)
            → get_cargo_quantity s' u
              ≡ (if t == u then get_cargo_quantity s t + quantity else get_cargo_quantity s u))
  unfolding add_cargo can_add_cargo cargo_used cargo_capacity get_cargo_quantity
  add_cargo_stows h some_more room =
      let (ds, made, stowing) =
        stow_fits t quantity price s.cargo some_more
          (omega (arith, room, class_capacity_bound s.ship_class)) in
      (
        record s { cargo = ds },
        rw (allowed, made, add_cargo) refl,
        stowing-IsStowed s t quantity ds h some_more room stowing,
        stowing.amounts,
      )
    where
      allowed :
          leb ((weight s.cargo % 2 ^ 32 + quantity) % 2 ^ 32) (class_capacity s.ship_class) ≡ true
      allowed = ground (arith, room, class_capacity_bound s.ship_class)

  -- A quantity that does not fit leaves the ship as it is, and the call returns false, if the sum
  -- of all quantities does not wrap.
  pub add_cargo_refuses :
      cargo_capacity s < weight s.cargo + quantity
      → weight s.cargo + quantity < 2 ^ 32
      → add_cargo s t quantity price ≡ some (s, false)
  unfolding add_cargo can_add_cargo cargo_used cargo_capacity
  add_cargo_refuses full small = rw (refused, add_cargo) refl
    where
      refused :
          leb ((weight s.cargo % 2 ^ 32 + quantity) % 2 ^ 32) (class_capacity s.ship_class) ≡ false
      refused = ground (arith, full, small)

module _ (s : Ship) (t quantity : ℕ) where
  taking-IsStowed :
      (ds : List CargoItem)
      → IsStowed s
      → 0 < quantity_of t ds
      → IsTaking t quantity s.cargo ds
      → IsStowed (record s { cargo = ds })
  unfolding get_cargo_quantity cargo_capacity
  taking-IsStowed ds h left taking = record {
    fits = ground (arith, taking.lighter, h.fits);
    distinct = rw taking.named h.distinct;
    stocked = λ u there.
        ground (arith, there, left, taking.named, taking.amounts u, taking.amounts t, h.stocked u);
  }

  emptied-IsStowed :
      (ds : List CargoItem)
      → IsStowed s
      → quantity_of t ds ≡ 0
      → IsTaking t quantity s.cargo ds
      → IsStowed (record s { cargo = discard t ds })
  unfolding get_cargo_quantity cargo_capacity
  emptied-IsStowed ds h none_left taking = record {
    fits = ground (arith, taking.lighter, h.fits, weight-discard t ds all_different none_left);
    distinct =
        rw (types-discard t ds, taking.named) (without-IsDistinct t (types s.cargo) h.distinct);
    stocked = λ u there. ground (
      arith,
      there,
      types-discard t ds,
      taking.named,
      contains-without t (types s.cargo) u,
      quantity_of-discard t u ds,
      taking.amounts u,
      h.stocked u,
      ap (λ xs. contains xs u) (types-discard t ds),
      ap (λ xs. contains (without t xs) u) taking.named,
    );
  }
    where
      all_different : IsDistinct (types ds)
      all_different = rw taking.named h.distinct

  -- There is enough of the cargo.
  abbrev pub has : Bool
  has = contains (types s.cargo) t && leb quantity (get_cargo_quantity s t)

  -- On a hold that is in order, a removal succeeds exactly if the type is there with at least
  -- that quantity. Either way the hold stays in order. After a success the amount of the type is
  -- smaller by the quantity, and all other amounts are as before.
  pub remove_cargo_takes :
      IsStowed s
      → ((remove_cargo s t quantity).1 ≡ has)
        × IsStowed (remove_cargo s t quantity).0
        × ((u : ℕ)
            → get_cargo_quantity (remove_cargo s t quantity).0 u ≡ (
                if has && (t == u)
                then get_cargo_quantity s t - quantity
                else get_cargo_quantity s u))
  unfolding remove_cargo get_cargo_quantity
  remove_cargo_takes h = elim (Bool-cases has) [
    | inr lacking ↦
        rw (lacking, take_out_fails t quantity s.cargo lacking, remove_cargo) (refl, h, λ u. refl)
    | inl enough ↦
        let (ds, made, taking) =
          take_out_fits t quantity s.cargo (ground (arith, enough)) (ground (arith, enough)) in
        elim (Bool-cases (quantity_of t ds == 0)) [
          | inl none_left ↦
              rw (enough, made, none_left, remove_cargo)
                (
                  refl,
                  emptied-IsStowed ds h (ground (arith, none_left)) taking,
                  λ u. ground (
                    arith,
                    none_left,
                    quantity_of-discard t u ds,
                    taking.amounts u,
                    taking.amounts t,
                  ),
                )
          | inr left ↦
              rw (enough, made, left, remove_cargo)
                (
                  refl,
                  taking-IsStowed ds h (ground (arith, left)) taking,
                  λ u. ground (arith, taking.amounts u),
                )
        ]
  ]

-- On a hold that is in order, a positive quantity that fits can be added and removed again, and
-- every amount is then as it was.
pub add_cargo-remove_cargo :
    (s : Ship) (t quantity : ℕ) (price : ℤ)
    → IsStowed s
    → 0 < quantity
    → weight s.cargo + quantity ≤ cargo_capacity s
    → (s' : Ship) × (add_cargo s t quantity price ≡ some (s', true))
      × ((remove_cargo s' t quantity).1 ≡ true)
      × ((u : ℕ) → get_cargo_quantity (remove_cargo s' t quantity).0 u ≡ get_cargo_quantity s u)
unfolding get_cargo_quantity
add_cargo-remove_cargo s t quantity price h some_more room =
    let (s', made, h', amounts) = add_cargo_stows s t quantity price h some_more room in
    let (done, h'', left) = remove_cargo_takes s' t quantity h' in
    let now_has : has s' t quantity ≡ true =
      ground (arith, some_more, amounts t, contains-types t s'.cargo) in
    (s', made, done ∙ now_has, λ u. ground (arith, left u, now_has, amounts u, amounts t))
