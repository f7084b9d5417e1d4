-- ===== src/Ship.antt =====
-- crates/bw-core/src/models/ship.rs: the hold and the upgrades of a ship. The names of cargo, slots
-- and upgrades are only compared: a number stands for each. Quantities are u32 and wrap as in a
-- release build; a price is an i64.
pub mod Stowing
pub mod Hold
pub mod Limits
pub mod Upgrades
mod Examples
use bw_exp.Common.{
  ℕ, suc, ◌+◌, ◌-◌, ◌*◌, ◌/◌, ◌%◌, ◌^◌, List, [], ◌∷◌, Option, none, some, Bool, true, false, not,
  ◌==◌, if◌then◌else◌, leb, ltb, filter, any, push,
}
use bw_exp.Common.Int.{ℤ, pos, negsuc, sub_ℕ, ◌+ℤ◌}
use bw_exp.Common.Map.{map_option}

pub data ShipClass : Type 0 where
  patrol_corvette frigate destroyer cruiser carrier : ShipClass
  freighter transport mining_vessel : ShipClass
  pirate_raider pirate_frigate terrorist_bomber : ShipClass
  sera_swarm sera_hunter drone_harvester drone_swarm : ShipClass

pub record CargoItem : Type 0 where
  pub cargo_type : ℕ
  pub quantity : ℕ
  pub purchase_price : ℤ

pub record InstalledUpgrade : Type 0 where
  pub upgrade_id : ℕ
  pub slot : ℕ

-- The fields of `Ship` that its hold and its upgrades need.
pub record Ship : Type 0 where
  pub ship_class : ShipClass
  pub cargo : List CargoItem
  pub upgrades : List InstalledUpgrade

-- `base_stats().cargo_capacity`.
unfoldable pub class_capacity : ShipClass → ℕ
class_capacity patrol_corvette = 50
class_capacity frigate = 100
class_capacity destroyer = 150
class_capacity cruiser = 300
class_capacity carrier = 500
class_capacity freighter = 1000
class_capacity transport = 500
class_capacity mining_vessel = 800
class_capacity pirate_raider = 100
class_capacity pirate_frigate = 200
class_capacity terrorist_bomber = 50
class_capacity sera_swarm = 0
class_capacity sera_hunter = 0
class_capacity drone_harvester = 2000
class_capacity drone_swarm = 0

unfoldable pub cargo_capacity : Ship → ℕ
cargo_capacity s = class_capacity s.ship_class

-- The sum of the quantities, before it wraps.
unfoldable pub weight : List CargoItem → ℕ
weight [] = 0
weight (c ∷ cs) = c.quantity + weight cs

unfoldable pub cargo_used : Ship → ℕ
cargo_used s = weight s.cargo % 2 ^ 32

unfoldable pub can_add_cargo : Ship → ℕ → Bool
unfolding cargo_used cargo_capacity
can_add_cargo s quantity = leb ((cargo_used s + quantity) % 2 ^ 32) (cargo_capacity s)

-- The 64 bits of an integer, and the i64 that has them.
abbrev pub bits : ℤ → ℕ
bits (pos n) = n % 2 ^ 64
bits (negsuc n) = 2 ^ 64 - 1 - n % 2 ^ 64

abbrev pub as_i64 : ℤ → ℤ
as_i64 z = let r = bits z in if ltb r (2 ^ 63) then pos r else sub_ℕ r (2 ^ 64)

-- `a * n as i64`, and `a / n as i64` for a positive `n`, which rounds towards zero.
abbrev pub times : ℤ → ℕ → ℤ
times (pos a) n = as_i64 (pos (a * n))
times (negsuc a) n = as_i64 (sub_ℕ 0 (suc a * n))

abbrev pub over : ℤ → ℕ → ℤ
over (pos a) n = pos (a / n)
over (negsuc a) n = sub_ℕ 0 (suc a / n)

-- More of a cargo that is there, at the average price. No value: a division by zero panics.
unfoldable pub top_up : ℕ → ℤ → CargoItem → Option CargoItem
top_up quantity price c =
    let total = (c.quantity + quantity) % 2 ^ 32 in
    if total == 0
    then none
    else some (record c {
      quantity = total;
      purchase_price =
          over (as_i64 (times c.purchase_price c.quantity +ℤ times price quantity)) total;
    })

-- The first item of the type is topped up, or a new one is pushed.
unfoldable pub stow : ℕ → ℕ → ℤ → List CargoItem → Option (List CargoItem)
unfolding top_up
stow t quantity price [] =
    some (record { cargo_type = t; quantity = quantity; purchase_price = price } ∷ [])
stow t quantity price (c ∷ cs) =
    let rest = stow t quantity price cs in
    if c.cargo_type == t
    then map_option (λ d. d ∷ cs) (top_up quantity price c)
    else map_option (λ ds. c ∷ ds) rest

-- No value: the call panics.
unfoldable pub add_cargo : Ship → ℕ → ℕ → ℤ → Option (Ship × Bool)
unfolding can_add_cargo stow
add_cargo s t quantity price =
    if not (can_add_cargo s quantity)
    then some (s, false)
    else map_option (λ cargo. (record s { cargo = cargo }, true)) (stow t quantity price s.cargo)

-- The first item of the type gives up the quantity, if it has it.
unfoldable pub take_out : ℕ → ℕ → List CargoItem → Option (List CargoItem)
take_out t quantity [] = none
take_out t quantity (c ∷ cs) =
    let rest = take_out t quantity cs in
    if c.cargo_type == t
    then if leb quantity c.quantity
      then some (record c { quantity = c.quantity - quantity } ∷ cs)
      else none
    else map_option (λ ds. c ∷ ds) rest

unfoldable pub quantity_of : ℕ → List CargoItem → ℕ
quantity_of t [] = 0
quantity_of t (c ∷ cs) = if c.cargo_type == t then c.quantity else quantity_of t cs

-- `retain(|c| c.cargo_type != t)`.
unfoldable pub discard : ℕ → List CargoItem → List CargoItem
discard t [] = []
discard t (c ∷ cs) = if c.cargo_type == t then discard t cs else c ∷ discard t cs

unfoldable pub get_cargo_quantity : Ship → ℕ → ℕ
get_cargo_quantity s t = quantity_of t s.cargo

unfoldable pub remove_cargo : Ship → ℕ → ℕ → Ship × Bool
remove_cargo s t quantity = elim (take_out t quantity s.cargo) [
  | none ↦ (s, false)
  | some cargo ↦
      (record s { cargo = if quantity_of t cargo == 0 then discard t cargo else cargo }, true)
]

unfoldable pub install_upgrade : Ship → ℕ → ℕ → Ship × Bool
install_upgrade s upgrade_id slot = if any (λ u. u.slot == slot) s.upgrades then (s, false) else (
  record s { upgrades = push s.upgrades (record { upgrade_id = upgrade_id; slot = slot }) },
  true,
)

-- The first upgrade in the slot, and the rest.
unfoldable pub pull : ℕ → List InstalledUpgrade → Option (ℕ × List InstalledUpgrade)
pull slot [] = none
pull slot (u ∷ us) =
    let rest = pull slot us in
    if u.slot == slot
    then some (u.upgrade_id, us)
    else map_option (λ found. (found.0, u ∷ found.1)) rest

unfoldable pub remove_upgrade : Ship → ℕ → Ship × Option ℕ
unfolding pull
remove_upgrade s slot = elim (pull slot s.upgrades) [
  | none ↦ (s, none)
  | some (upgrade_id, upgrades) ↦ (record s { upgrades = upgrades }, some upgrade_id)
]

unfoldable pub has_upgrade : Ship → ℕ → Bool
has_upgrade s upgrade_id = any (λ u. u.upgrade_id == upgrade_id) s.upgrades
