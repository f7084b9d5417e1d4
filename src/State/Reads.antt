-- ===== src/State/Reads.antt =====
-- What a script reads against what it wrote: a ship with the pending mutations applied in turn.
use bw_exp.Common.{
  ℕ, ◌≡◌, refl, sym, ◌∙◌, ap, arith, List, [], ◌∷◌, Option, none, some, if◌then◌else◌, ◌==◌, push,
  unwrap_or, inl, inr, Option-cases,
}
use bw_exp.Common.Ids.{contains}
use bw_exp.Common.Map.{lookup, lookup-insert}
use bw_exp.State.Changes.{ShipChanges, EntityType, StateMutation, no_ship_changes, merge_ship}
use bw_exp.State.Overlay.{
  MutationOverlay, ShipSnapshot, change_ship, apply_to_ship, record_ship_change, record_destroy,
}
use bw_exp.State.Merge.{change_ship-merge_ship}

-- `Option::and_then`.
abbrev pub and_then {ℓ κ} : {A : Type ℓ} {B : Type κ} → Option A → (A → Option B) → Option B
and_then none f = none
and_then (some a) f = f a

module _ {F D : Type 0} where
  -- One mutation, applied to a ship.
  unfoldable pub apply_one : StateMutation F D → ShipSnapshot F → Option (ShipSnapshot F)
  apply_one (StateMutation.modify_ship k c) s = if k == s.id then some (change_ship c s) else some s
  apply_one (StateMutation.destroy_entity k kind) s = if k == s.id then none else some s
  apply_one m s = some s

  -- The mutations, applied to a ship in turn.
  unfoldable pub apply_all : List (StateMutation F D) → ShipSnapshot F → Option (ShipSnapshot F)
  apply_all [] s = some s
  apply_all (m ∷ ms) s = and_then (apply_one m s) (apply_all ms)

  apply_all-push :
      (ms : List (StateMutation F D)) (m : StateMutation F D) (s : ShipSnapshot F)
      → apply_all (push ms m) s ≡ and_then (apply_all ms s) (apply_one m)
  unfolding apply_all
  apply_all-push [] m s = some_right (apply_one m s)
    where
      some_right : (o : Option (ShipSnapshot F)) → and_then o some ≡ o
      some_right none = refl
      some_right (some t) = refl
  apply_all-push (n ∷ ms) m s = step (apply_one n s) (apply_all-push ms m)
    where
      step :
          (o : Option (ShipSnapshot F))
          → ((t : ShipSnapshot F)
              → apply_all (push ms m) t ≡ and_then (apply_all ms t) (apply_one m))
          → and_then o (apply_all (push ms m)) ≡ and_then (and_then o (apply_all ms)) (apply_one m)
      step none rest = refl
      step (some t) rest = rest t

module _ {F : Type 0} where
  change_ship_none : (s : ShipSnapshot F) → change_ship no_ship_changes s ≡ s
  unfolding change_ship no_ship_changes
  change_ship_none s = refl

  change_ship-id : (c : ShipChanges F) (s : ShipSnapshot F) → (change_ship c s).id ≡ s.id
  unfolding change_ship
  change_ship-id c s = refl

  change_ship-unwrap_or :
      (o : Option (ShipChanges F)) (c : ShipChanges F) (s : ShipSnapshot F)
      → change_ship (merge_ship (unwrap_or o no_ship_changes) c) s
        ≡ change_ship c (elim o [ none ↦ s | some b ↦ change_ship b s ])
  change_ship-unwrap_or none c s =
      change_ship-merge_ship no_ship_changes c s ∙ ap (change_ship c) (change_ship_none s)
  change_ship-unwrap_or (some b) c s = change_ship-merge_ship b c s

module _ {F : Type 0} (D : Type 0) where
  pub apply_to_ship-record_ship_change :
      (o : MutationOverlay F) (k : ℕ) (c : ShipChanges F) (s : ShipSnapshot F)
      → apply_to_ship (record_ship_change o k c) s
        ≡ and_then (apply_to_ship o s) (apply_one {D = D} (StateMutation.modify_ship k c))
  unfolding apply_to_ship record_ship_change apply_one
  apply_to_ship-record_ship_change o k c s = elim (Option-cases (lookup s.id o.ship_changes)) [
    | inl q ↦ ground (
      arith,
      lookup-insert k s.id (merge_ship (unwrap_or (lookup k o.ship_changes) no_ship_changes) c)
          o.ship_changes,
      change_ship-unwrap_or none c s,
    )
    | inr (b, q) ↦ ground (
      arith,
      lookup-insert k s.id (merge_ship (unwrap_or (lookup k o.ship_changes) no_ship_changes) c)
          o.ship_changes,
      change_ship-unwrap_or (some b) c s,
      change_ship-id b s,
    )
  ]

  pub apply_to_ship-record_destroy :
      (o : MutationOverlay F) (k : ℕ) (kind : EntityType) (s : ShipSnapshot F)
      → apply_to_ship (record_destroy o k) s
        ≡ and_then (apply_to_ship o s) (apply_one {D = D} (StateMutation.destroy_entity k kind))
  unfolding apply_to_ship record_destroy contains apply_one
  apply_to_ship-record_destroy o k kind s = elim (Option-cases (lookup s.id o.ship_changes)) [
    | inl q ↦ ground arith
    | inr (b, q) ↦ ground (arith, change_ship-id b s)
  ]

module _ {F D : Type 0} where
  -- What a script reads of a ship is what the pending mutations make of it.
  unfoldable pub Mirrors : MutationOverlay F → List (StateMutation F D) → Type 0
  Mirrors o ms = (s : ShipSnapshot F) → apply_to_ship o s ≡ apply_all ms s

  -- A mutation is queued, and the overlay records it.
  pub push-Mirrors :
      (o p : MutationOverlay F) (ms : List (StateMutation F D)) (m : StateMutation F D)
      → Mirrors o ms
      → ((s : ShipSnapshot F) → apply_to_ship p s ≡ and_then (apply_to_ship o s) (apply_one m))
      → Mirrors p (push ms m)
  unfolding Mirrors
  push-Mirrors o p ms m before step s = rw (step s, before s) (sym (apply_all-push ms m s))

  -- A mutation that says nothing of ships.
  pub silent-Mirrors :
      (o : MutationOverlay F) (ms : List (StateMutation F D)) (m : StateMutation F D)
      → Mirrors o ms
      → ((t : ShipSnapshot F) → apply_one m t ≡ some t)
      → Mirrors o (push ms m)
  unfolding Mirrors
  silent-Mirrors o ms m before silent s =
      rw (before s, apply_all-push ms m s) (keeps (apply_all ms s))
    where
      keeps : (x : Option (ShipSnapshot F)) → x ≡ and_then x (apply_one m)
      keeps none = refl
      keeps (some t) = sym (silent t)
