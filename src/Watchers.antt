-- ===== src/Watchers.antt =====
-- crates/bw-game/src/state/watchers.rs: watches on the properties of entities. The name of a
-- property, of a callback or of a script is only compared: a number stands for each. What draws an
-- id and reads the clock are arguments.
pub mod Registry
pub mod Index
pub mod Consistency
pub mod Sweeps
pub mod Calls
mod Examples
use bw_exp.Common.{
  ℕ, ◌+◌, ◌%◌, ◌^◌, List, [], ◌∷◌, Option, none, some, Bool, true, false, not, ◌&&◌, ◌||◌, ◌==◌,
  if◌then◌else◌, length, push, unwrap_or,
}
use bw_exp.Common.Float.{F64}
use bw_exp.Common.Ids.{contains, without}
use bw_exp.Common.Int.{ℤ, pos, negsuc, leb_ℤ}
use bw_exp.Common.Map.{Map, lookup, insert, remove, modify}

pub data WatchValue (F : Type 0) : Type 0 where
  float : F → WatchValue F
  int : ℤ → WatchValue F
  bool : Bool → WatchValue F
  string : ℕ → WatchValue F
  uuid : ℕ → WatchValue F
  unit : WatchValue F

pub data WatchCondition (F : Type 0) : Type 0 where
  changed : WatchCondition F
  less_than : F → WatchCondition F
  greater_than : F → WatchCondition F
  equals : WatchValue F → WatchCondition F
  not_equals : WatchValue F → WatchCondition F
  crossed_threshold : F → WatchCondition F
  in_range : F → F → WatchCondition F
  out_of_range : F → F → WatchCondition F

pub record PropertyWatch (F : Type 0) : Type 0 where
  pub id : ℕ
  pub entity_id : ℕ
  pub property : ℕ
  pub condition : WatchCondition F
  pub callback : ℕ
  pub is_one_shot : Bool
  pub owner_script : ℕ
  pub sector_id : Option ℕ
  pub last_value : Option (WatchValue F)
  pub active : Bool
  pub trigger_count : ℕ
  pub created_at : ℕ

pub record WatchTriggerEvent (F : Type 0) : Type 0 where
  pub watch_id : ℕ
  pub entity_id : ℕ
  pub property : ℕ
  pub old_value : Option (WatchValue F)
  pub new_value : WatchValue F
  pub callback : ℕ
  pub owner_script : ℕ

pub record WatchRegistry (F : Type 0) : Type 0 where
  pub watches : Map (PropertyWatch F)
  pub by_entity : Map (List ℕ)
  pub by_script : Map (List ℕ)

abbrev ltb_ℤ : ℤ → ℤ → Bool
ltb_ℤ a b = not (leb_ℤ b a)

abbrev eqb_ℤ : ℤ → ℤ → Bool
eqb_ℤ a b = leb_ℤ a b && leb_ℤ b a

abbrev eqb : Bool → Bool → Bool
eqb true b = b
eqb false b = not b

module _ {F : Type 0} where
  unfoldable pub watch_new : ℕ → ℕ → ℕ → ℕ → WatchCondition F → ℕ → ℕ → PropertyWatch F
  watch_new fresh now entity_id property condition callback owner_script = record {
    id = fresh;
    entity_id = entity_id;
    property = property;
    condition = condition;
    callback = callback;
    is_one_shot = false;
    owner_script = owner_script;
    sector_id = none;
    last_value = none;
    active = true;
    trigger_count = 0;
    created_at = now;
  }

  unfoldable pub one_shot : PropertyWatch F → PropertyWatch F
  one_shot w = record w { is_one_shot = true }

  unfoldable pub in_sector : ℕ → PropertyWatch F → PropertyWatch F
  in_sector sector w = record w { sector_id = some sector }

module _ {F : Type 0} ⦃f : F64 F⦄ where
  unfoldable pub eq_value : WatchValue F → WatchValue F → Bool
  eq_value (float a) (float b) = f.eq a b
  eq_value (int a) (int b) = eqb_ℤ a b
  eq_value (bool a) (bool b) = eqb a b
  eq_value (string a) (string b) = a == b
  eq_value (uuid a) (uuid b) = a == b
  eq_value unit unit = true
  eq_value _ _ = false

  unfoldable pub eq_last : Option (WatchValue F) → WatchValue F → Bool
  unfolding eq_value
  eq_last none v = false
  eq_last (some u) v = eq_value u v

  -- A number as `f64`, if it is one.
  abbrev number : WatchValue F → Option F
  number (float v) = some v
  number (int v) = some (f.of_i64 v)
  number _ = none

  unfoldable pub crossed : F → Option (WatchValue F) → WatchValue F → Bool
  crossed t (some (float old)) (float new) =
      f.less old t && f.le t new || f.le t old && f.less new t
  crossed t (some (int old)) (int new) =
      let k = f.to_i64 t in ltb_ℤ old k && leb_ℤ k new || leb_ℤ k old && ltb_ℤ new k
  crossed _ _ _ = false

  unfoldable pub triggered : WatchCondition F → Option (WatchValue F) → WatchValue F → Bool
  unfolding eq_last crossed
  triggered changed last v = not (eq_last last v)
  triggered (less_than t) last v = elim (number v) [ none ↦ false | some x ↦ f.less x t ]
  triggered (greater_than t) last v = elim (number v) [ none ↦ false | some x ↦ f.less t x ]
  triggered (equals e) last v = eq_value v e
  triggered (not_equals e) last v = not (eq_value v e)
  triggered (crossed_threshold t) last v = crossed t last v
  triggered (in_range lo hi) last v = elim (number v) [
    | none ↦ false
    | some x ↦ f.le lo x && f.le x hi
  ]
  triggered (out_of_range lo hi) last v = elim (number v) [
    | none ↦ false
    | some x ↦ f.less x lo || f.less hi x
  ]

  unfoldable pub should_trigger : PropertyWatch F → WatchValue F → PropertyWatch F × Bool
  unfolding triggered
  should_trigger w new_value =
      if not w.active
      then (w, false)
      else let w' = record w { last_value = some new_value } in
        if triggered w.condition w.last_value new_value
        then (
          record w' {
            trigger_count = (w.trigger_count + 1) % 2 ^ 32;
            active = if w.is_one_shot then false else w.active;
          },
          true,
        )
        else (w', false)
