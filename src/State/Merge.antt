-- ===== src/State/Merge.antt =====
-- overlay.rs: a read through merged changes is the read through one change after the other.
use Prim.Native.String.{String}
use bw_exp.Common.{ℕ, ◌≡◌, refl, arith, Option, none, some, unwrap_or, inl, inr, ◌⊎◌}
use bw_exp.State.Changes.{
  ShipChanges, PlayerChanges, merge_ship, merge_player, override, accumulate, add_i32, add_i64,
  ShipStatusChange,
}
use bw_exp.State.Overlay.{
  ShipSnapshot, PlayerSnapshot, change_ship, change_player, new_status, plus,
}

unwrap_or-override :
    {A : Type 0} (old new : Option A) (v : A)
    → unwrap_or (override old new) v ≡ unwrap_or new (unwrap_or old v)
unwrap_or-override old none v = refl
unwrap_or-override old (some w) v = refl

module _ {F : Type 0} where
  new_status-override :
      (old new : Option (ShipStatusChange F)) (v : String)
      → new_status (override old new) v ≡ new_status new (new_status old v)
  new_status-override old none v = refl
  new_status-override old (some w) v = refl

  -- Reading a ship through two merged change sets gives what reading through the first and then
  -- the second gives.
  pub change_ship-merge_ship :
      (a b : ShipChanges F) (s : ShipSnapshot F)
      → change_ship (merge_ship a b) s ≡ change_ship b (change_ship a s)
  unfolding change_ship merge_ship
  change_ship-merge_ship a b s = simp (unwrap_or-override, new_status-override)

-- One field of a player: set to `x` where there is one, then moved by `d`.
abbrev field : (ℕ → ℕ → ℕ) → Option ℕ → Option ℕ → ℕ → ℕ
field add x d v = plus add (unwrap_or x v) d

-- A later change does not set a field that an earlier one moved.
abbrev Ordered : Option ℕ → Option ℕ → Type 0
Ordered delta later = (delta ≡ none) ⊎ (later ≡ none)

add_i32_assoc : (a b c : ℕ) → add_i32 a (add_i32 b c) ≡ add_i32 (add_i32 a b) c
add_i32_assoc a b c = omega arith

add_i32-zero : (a b : ℕ) → add_i32 a (add_i32 0 b) ≡ add_i32 a b
add_i32-zero a b = omega arith

add_i64_assoc : (a b c : ℕ) → add_i64 a (add_i64 b c) ≡ add_i64 (add_i64 a b) c
add_i64_assoc a b c = omega arith

add_i64-zero : (a b : ℕ) → add_i64 a (add_i64 0 b) ≡ add_i64 a b
add_i64-zero a b = omega arith

module _ (add : ℕ → ℕ → ℕ) (assoc : (a b c : ℕ) → add a (add b c) ≡ add (add a b) c)
    (from_zero : (a b : ℕ) → add a (add 0 b) ≡ add a b) where
  field-override :
      (x x' d d' : Option ℕ) (v : ℕ)
      → Ordered d x'
      → field add (override x x') (accumulate add d d') v ≡ field add x' d' (field add x d v)
  field-override x none none none v o = refl
  field-override x none none (some e) v o = from_zero (unwrap_or x v) e
  field-override x none (some d) none v o = refl
  field-override x none (some d) (some e) v o = assoc (unwrap_or x v) d e
  field-override x (some y) none none v o = refl
  field-override x (some y) none (some e) v o = from_zero y e
  field-override x (some y) (some d) e v o = elim o [
    | inl q ↦ absurd (ground arith)
    | inr q ↦ absurd (ground arith)
  ]

pub record IsOrdered (a b : PlayerChanges) : Type 0 where
  pub for_reputation : Ordered a.reputation_delta b.reputation
  pub for_fame : Ordered a.fame_delta b.fame
  pub for_credits : Ordered a.credits_delta b.credits

-- Reading a player through two merged change sets gives what reading through the first and then
-- the second gives, with wrapping sums, if the second sets no field absolutely that the first
-- moves by a delta.
pub change_player-merge_player :
    (a b : PlayerChanges) (p : PlayerSnapshot)
    → IsOrdered a b
    → change_player (merge_player a b) p ≡ change_player b (change_player a p)
unfolding change_player merge_player
change_player-merge_player a b p o =
    rw
      (
        field-override add_i32 add_i32_assoc add_i32-zero a.reputation b.reputation
            a.reputation_delta b.reputation_delta p.reputation o.for_reputation,
        field-override add_i32 add_i32_assoc add_i32-zero a.fame b.fame a.fame_delta b.fame_delta
            p.fame o.for_fame,
        field-override add_i64 add_i64_assoc add_i64-zero a.credits b.credits a.credits_delta
            b.credits_delta p.credits o.for_credits,
      )
      refl
