-- ===== src/Common/Map.antt =====
-- Maps from identifiers (`HashMap<Uuid, V>`, `DashMap<Uuid, V>`), as association lists.
use bw_exp.Common.Tests.{◌==◌, if◌then◌else◌, is_some, Bool-cases, Option-cases}
use mathlib.Core.Logic.{◌⊎◌, inl, inr}
use Prim.Native.Nat.{ℕ}
use mathlib.Core.Path.{◌≡◌, refl}
use mathlib.Core.Bool.{Bool}
use mathlib.Core.Option.{Option, none, some}
use mathlib.Core.List.{List, [], ◌∷◌}
use native.Mathlib.Omega.{arith}

abbrev pub Map {ℓ} : Type ℓ → Type ℓ
Map V = List (ℕ × V)

module _ {ℓ} {V : Type ℓ} where
  -- `HashMap::get`.
  unfoldable pub lookup : ℕ → Map V → Option V
  lookup key [] = none
  lookup key (entry ∷ rest) = if entry.0 == key then some entry.1 else lookup key rest

  abbrev pub contains_key : ℕ → Map V → Bool
  contains_key key m = is_some (lookup key m)

  -- `HashMap::remove`, which takes all entries of the key.
  unfoldable pub remove : ℕ → Map V → Map V
  remove key [] = []
  remove key (entry ∷ rest) = if entry.0 == key then remove key rest else entry ∷ remove key rest

  pub lookup-remove :
      (k j : ℕ) (m : Map V) → lookup j (remove k m) ≡ (if k == j then none else lookup j m)
  unfolding lookup remove
  lookup-remove k j [] = ground arith
  lookup-remove k j ((i, w) ∷ m) = ground (arith, lookup-remove k j m)

  -- `HashMap::insert`: an entry of the key is replaced where it stands.
  unfoldable pub insert : ℕ → V → Map V → Map V
  insert key value [] = (key, value) ∷ []
  insert key value (entry ∷ rest) =
      if entry.0 == key then (key, value) ∷ rest else entry ∷ insert key value rest

  pub lookup-insert :
      (key other : ℕ) (value : V) (entries : Map V)
      → lookup other (insert key value entries)
        ≡ (if key == other then some value else lookup other entries)
  unfolding insert lookup
  lookup-insert key other value [] = refl
  lookup-insert key other value (entry ∷ rest) = ground (arith, lookup-insert key other value rest)

-- `if let Some(v) = map.get_mut(&k) { *v = f(v) }`.
unfoldable pub modify {ℓ} : {V : Type ℓ} → ℕ → (V → V) → Map V → Map V
modify k f [] = []
modify k f ((j, w) ∷ m) = if j == k then (j, f w) ∷ m else (j, w) ∷ modify k f m

abbrev pub map_option {ℓ κ} : {A : Type ℓ} {B : Type κ} → (A → B) → Option A → Option B
map_option f none = none
map_option f (some a) = some (f a)

pub lookup-modify {ℓ} :
    {V : Type ℓ} (k j : ℕ) (f : V → V) (m : Map V)
    → lookup j (modify k f m) ≡ (if k == j then map_option f (lookup j m) else lookup j m)
unfolding lookup modify
lookup-modify k j f [] = ground arith
lookup-modify k j f ((i, w) ∷ m) = ground (arith, lookup-modify k j f m)

-- What a modified map holds was there before, and is as it was or as the change made it.
pub modify-eq_some {ℓ} :
    {V : Type ℓ} (k j : ℕ) (f : V → V) (m : Map V) {w : V}
    → lookup j (modify k f m) ≡ some w
    → (v : V) × (lookup j m ≡ some v) × ((w ≡ v) ⊎ (w ≡ f v))
modify-eq_some k j f m e = elim (Option-cases (lookup j m)) [
  | inl x ↦ absurd (ground (arith, lookup-modify k j f m))
  | inr (v, x) ↦ (
    v,
    x,
    elim (Bool-cases (k == j)) [
      | inl a ↦ inr (ground (arith, lookup-modify k j f m))
      | inr a ↦ inl (ground (arith, lookup-modify k j f m))
    ],
  )
]
