-- ===== src/Ship/Stowing.antt =====
-- ship.rs: what goes into a list of cargo, and out of it.
use bw_exp.Common.{
  ℕ, ◌+◌, ◌-◌, ◌%◌, ◌^◌, ◌≤◌, ◌<◌, ◌≡◌, refl, ap, ◌&&◌, arith, List, [], ◌∷◌, none, some, true,
  false, ◌==◌, if◌then◌else◌, leb, push, Bool-cases, inl, inr,
}
use bw_exp.Common.Int.{ℤ}
use bw_exp.Common.Ids.{contains, without, IsDistinct}
use bw_exp.Ship.{CargoItem, weight, quantity_of, top_up, stow, take_out, discard}

-- The types of cargo, in order.
unfoldable pub types : List CargoItem → List ℕ
types [] = []
types (c ∷ cs) = c.cargo_type ∷ types cs

-- What stowing promises of the new list.
pub record IsStowing (t quantity : ℕ) (cs ds : List CargoItem) : Type 0 where
  pub heavier : weight ds ≡ weight cs + quantity
  pub amounts :
      (u : ℕ)
      → quantity_of u ds ≡ (if t == u then quantity_of t cs + quantity else quantity_of u cs)
  pub named : types ds ≡ (if contains (types cs) t then types cs else push (types cs) t)

top_up_fits :
    (quantity : ℕ) (price : ℤ) (c : CargoItem)
    → 0 < quantity
    → c.quantity + quantity < 2 ^ 32
    → (d : CargoItem) × (top_up quantity price c ≡ some d)
      × (d.quantity ≡ c.quantity + quantity)
      × (d.cargo_type ≡ c.cargo_type)
unfolding top_up
top_up_fits quantity price c some_more small =
    elim (Bool-cases ((c.quantity + quantity) % 2 ^ 32 == 0)) [
      | inl x ↦ absurd (ground (arith, x))
      | inr x ↦ rw (x, top_up) (_, refl, ground arith, refl)
    ]

pub stow_fits :
    (t quantity : ℕ) (price : ℤ) (cs : List CargoItem)
    → 0 < quantity
    → weight cs + quantity < 2 ^ 32
    → (ds : List CargoItem) × (stow t quantity price cs ≡ some ds) × IsStowing t quantity cs ds
unfolding stow weight quantity_of types contains
stow_fits t quantity price [] some_more small =
    (_, refl, record { heavier = ground arith; amounts = λ u. ground arith; named = refl })
stow_fits t quantity price (c ∷ cs) some_more small = elim (Bool-cases (c.cargo_type == t)) [
  | inl x ↦
      let (d, made, amount, kind) = top_up_fits quantity price c some_more (omega arith) in
      (
        d ∷ cs,
        rw (x, made) refl,
        record {
          heavier = ground (arith, amount);
          amounts = λ u. ground (arith, amount, kind, x);
          named = ground (arith, x, kind);
        },
      )
  | inr x ↦
      let (ds, made, rest) = stow_fits t quantity price cs some_more (omega arith) in
      (
        c ∷ ds,
        rw (x, made) refl,
        record {
          heavier = ground (arith, rest.heavier);
          amounts = λ u. ground (arith, x, rest.amounts u);
          named = ground (arith, x, rest.named);
        },
      )
]

-- What taking out promises of the new list.
pub record IsTaking (t quantity : ℕ) (cs ds : List CargoItem) : Type 0 where
  pub lighter : weight ds + quantity ≡ weight cs
  pub amounts :
      (u : ℕ)
      → quantity_of u ds ≡ (if t == u then quantity_of t cs - quantity else quantity_of u cs)
  pub named : types ds ≡ types cs

pub take_out_fits :
    (t quantity : ℕ) (cs : List CargoItem)
    → contains (types cs) t ≡ true
    → quantity ≤ quantity_of t cs
    → (ds : List CargoItem) × (take_out t quantity cs ≡ some ds) × IsTaking t quantity cs ds
unfolding take_out weight quantity_of types contains
take_out_fits t quantity [] there enough = absurd (ground (arith, there))
take_out_fits t quantity (c ∷ cs) there enough = elim (Bool-cases (c.cargo_type == t)) [
  | inl x ↦ (
    record c { quantity = c.quantity - quantity } ∷ cs,
    rw (x, enough_here x) refl,
    record {
      lighter = ground (arith, x, enough);
      amounts = λ u. ground (arith, x, enough);
      named = refl;
    },
  )
  | inr x ↦
      let (ds, made, rest) =
        take_out_fits t quantity cs (ground (arith, there, x)) (ground (arith, enough, x)) in
      (
        c ∷ ds,
        rw (x, made) refl,
        record {
          lighter = ground (arith, rest.lighter);
          amounts = λ u. ground (arith, x, rest.amounts u);
          named = ap (◌∷◌ c.cargo_type) rest.named;
        },
      )
]
  where
    enough_here : (c.cargo_type == t) ≡ true → leb quantity c.quantity ≡ true
    enough_here x = ground (arith, x, enough)

-- What is not there, or not enough of it, is not taken out.
pub take_out_fails :
    (t quantity : ℕ) (cs : List CargoItem)
    → (contains (types cs) t && leb quantity (quantity_of t cs)) ≡ false
    → take_out t quantity cs ≡ none
unfolding take_out quantity_of types contains
take_out_fails t quantity [] lacking = refl
take_out_fails t quantity (c ∷ cs) lacking = elim (Bool-cases (c.cargo_type == t)) [
  | inl x ↦ ground (arith, x, lacking)
  | inr x ↦ ground (arith, x, take_out_fails t quantity cs (ground (arith, x, lacking)))
]

module _ (t : ℕ) where
  discard_absent : (cs : List CargoItem) → contains (types cs) t ≡ false → discard t cs ≡ cs
  unfolding discard types contains
  discard_absent [] h = refl
  discard_absent (c ∷ cs) h = ground (arith, h, discard_absent cs)

  pub weight-discard :
      (cs : List CargoItem)
      → IsDistinct (types cs)
      → quantity_of t cs ≡ 0
      → weight (discard t cs) ≡ weight cs
  unfolding discard types contains weight quantity_of
  weight-discard [] d z = refl
  weight-discard (c ∷ cs) d z = elim (Bool-cases (c.cargo_type == t)) [
    | inl x ↦ ground (arith, z, x, ap weight (discard_absent cs (ground (arith, d.0, x))))
    | inr x ↦ ground (arith, z, x, weight-discard cs d.1)
  ]

  pub quantity_of-discard :
      (u : ℕ) (cs : List CargoItem)
      → quantity_of u (discard t cs) ≡ (if t == u then 0 else quantity_of u cs)
  unfolding discard quantity_of
  quantity_of-discard u [] = ground arith
  quantity_of-discard u (c ∷ cs) = ground (arith, quantity_of-discard u cs)

  pub types-discard : (cs : List CargoItem) → types (discard t cs) ≡ without t (types cs)
  unfolding discard types without
  types-discard [] = refl
  types-discard (c ∷ cs) = ground (arith, types-discard cs)

pub contains-types :
    (t : ℕ) (cs : List CargoItem) → 0 < quantity_of t cs → contains (types cs) t ≡ true
unfolding types contains quantity_of
contains-types t [] h = absurd (ground (arith, h))
contains-types t (c ∷ cs) h = ground (arith, h, contains-types t cs)

-- The first of a new type goes in whole, whatever its quantity.
pub stow_new :
    (t quantity : ℕ) (price : ℤ) (cs : List CargoItem)
    → contains (types cs) t ≡ false
    → (ds : List CargoItem) × (stow t quantity price cs ≡ some ds)
      × (quantity_of t ds ≡ quantity)
      × (weight ds ≡ weight cs + quantity)
      × (contains (types ds) t ≡ true)
unfolding stow types contains quantity_of weight
stow_new t quantity price [] fresh = (_, refl, ground arith, ground arith, ground arith)
stow_new t quantity price (c ∷ cs) fresh =
    let (ds, made, amount, heavier, there) = stow_new t quantity price cs (ground (arith, fresh)) in
    let other : (c.cargo_type == t) ≡ false = ground (arith, fresh) in
    (
      c ∷ ds,
      rw (other, made) refl,
      ground (arith, other, amount),
      ground (arith, heavier),
      ground (arith, there),
    )

-- None of it, where there is none of it, divides by zero.
pub stow_zero :
    (t : ℕ) (price : ℤ) (cs : List CargoItem)
    → contains (types cs) t ≡ true
    → quantity_of t cs ≡ 0
    → stow t 0 price cs ≡ none
unfolding stow types contains quantity_of top_up
stow_zero t price [] there nothing = absurd (ground (arith, there))
stow_zero t price (c ∷ cs) there nothing = elim (Bool-cases (c.cargo_type == t)) [
  | inl x ↦
      let zero_total : ((c.quantity + 0) % 2 ^ 32 == 0) ≡ true = ground (arith, x, nothing) in
      rw (x, zero_total) refl
  | inr x ↦
      rw (x, stow_zero t price cs (ground (arith, there, x)) (ground (arith, nothing, x))) refl
]
