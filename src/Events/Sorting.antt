-- ===== src/Events/Sorting.antt =====
-- events/mod.rs: the order of the handlers.
use bw_exp.Common.{
  ◌≡◌, refl, ap, ◌∙◌, arith, List, [], ◌∷◌, Bool, true, false, ◌&&◌, if◌then◌else◌, filter,
  Bool-cases, inl, inr,
}
use bw_exp.Common.Int.{ℤ, leb_ℤ}
use bw_exp.Events.{EventSubscription}
use bw_exp.Events.Registry.{place, sort_by_priority}

-- No subscription of the list has a lower priority.
abbrev pub Leads : EventSubscription → List EventSubscription → Type 0
Leads x [] = Unit {0}
Leads x (y ∷ ys) = (leb_ℤ x.priority y.priority ≡ true) × Leads x ys

abbrev pub IsOrdered : List EventSubscription → Type 0
IsOrdered [] = Unit {0}
IsOrdered (x ∷ xs) = Leads x xs × IsOrdered xs

abbrev pub has_priority : ℤ → EventSubscription → Bool
has_priority p s = leb_ℤ s.priority p && leb_ℤ p s.priority

leb_ℤ_trans : (a b c : ℤ) → leb_ℤ a b ≡ true → leb_ℤ b c ≡ true → leb_ℤ a c ≡ true
leb_ℤ_trans a b c h k = ground arith

leb_ℤ_total : (a b : ℤ) → leb_ℤ a b ≡ false → leb_ℤ b a ≡ true
leb_ℤ_total a b h = ground arith

apart :
    (a b p : ℤ) → leb_ℤ a b ≡ false → leb_ℤ a p && leb_ℤ p a ≡ true → leb_ℤ b p && leb_ℤ p b ≡ false
apart a b p h k = ground arith

Leads-trans :
    (x y : EventSubscription) (ys : List EventSubscription)
    → leb_ℤ x.priority y.priority ≡ true
    → Leads y ys
    → Leads x ys
Leads-trans x y [] h l = tt
Leads-trans x y (z ∷ zs) h l =
    (leb_ℤ_trans x.priority y.priority z.priority h l.0, Leads-trans x y zs h l.1)

place-Leads :
    (y x : EventSubscription) (ys : List EventSubscription)
    → leb_ℤ y.priority x.priority ≡ true
    → Leads y ys
    → Leads y (place x ys)
unfolding place
place-Leads y x [] h l = (h, tt)
place-Leads y x (z ∷ zs) h l = elim (Bool-cases (leb_ℤ x.priority z.priority)) [
  | inl low ↦ rw (low, place) (h, l)
  | inr high ↦ rw (high, place) (l.0, place-Leads y x zs h l.1)
]

place-IsOrdered :
    (x : EventSubscription) (ys : List EventSubscription) → IsOrdered ys → IsOrdered (place x ys)
unfolding place
place-IsOrdered x [] o = (tt, tt)
place-IsOrdered x (y ∷ ys) o = elim (Bool-cases (leb_ℤ x.priority y.priority)) [
  | inl low ↦ rw (low, place) ((low, Leads-trans x y ys low o.0), o)
  | inr high ↦
      rw (high, place)
        (place-Leads y x ys (leb_ℤ_total x.priority y.priority high) o.0, place-IsOrdered x ys o.1)
]

pub sort-IsOrdered : (xs : List EventSubscription) → IsOrdered (sort_by_priority xs)
unfolding sort_by_priority
sort-IsOrdered [] = tt
sort-IsOrdered (x ∷ xs) = place-IsOrdered x (sort_by_priority xs) (sort-IsOrdered xs)

filter_Leads :
    (p : EventSubscription → Bool) (x : EventSubscription) (ys : List EventSubscription)
    → Leads x ys
    → Leads x (filter p ys)
filter_Leads p x [] l = tt
filter_Leads p x (y ∷ ys) l = elim (Bool-cases (p y)) [
  | inl keep ↦ rw keep (l.0, filter_Leads p x ys l.1)
  | inr drop ↦ rw drop (filter_Leads p x ys l.1)
]

pub filter-IsOrdered :
    (p : EventSubscription → Bool) (xs : List EventSubscription)
    → IsOrdered xs
    → IsOrdered (filter p xs)
filter-IsOrdered p [] o = tt
filter-IsOrdered p (x ∷ xs) o = elim (Bool-cases (p x)) [
  | inl keep ↦ rw keep (filter_Leads p x xs o.0, filter-IsOrdered p xs o.1)
  | inr drop ↦ rw drop (filter-IsOrdered p xs o.1)
]

-- Among the handlers of one priority, the order stays.
module _ (p : ℤ) (q : EventSubscription → Bool)
    (at : (s : EventSubscription) → q s ≡ true → has_priority p s ≡ true) where
  not_both :
      (x y : EventSubscription) → leb_ℤ x.priority y.priority ≡ false → q x ≡ true → q y ≡ false
  not_both x y high here = elim (Bool-cases (q y)) [
    | inr lower ↦ lower
    | inl both ↦ absurd (ground (arith, apart x.priority y.priority p high (at x here), at y both))
  ]

  filter_place :
      (x : EventSubscription) (ys : List EventSubscription)
      → filter q (place x ys) ≡ filter q (x ∷ ys)
  unfolding place
  filter_place x [] = refl
  filter_place x (y ∷ ys) = elim (Bool-cases (leb_ℤ x.priority y.priority)) [
    | inl low ↦ rw (low, place) refl
    | inr high ↦
        rw (high, place)
          (elim (Bool-cases (q x)) [
            | inl here ↦ ground (arith, filter_place x ys, here, not_both x y high here)
            | inr off ↦ ground (arith, filter_place x ys, off)
          ])
  ]

  pub filter-sort : (xs : List EventSubscription) → filter q (sort_by_priority xs) ≡ filter q xs
  unfolding sort_by_priority
  filter-sort [] = refl
  filter-sort (x ∷ xs) =
      filter_place x (sort_by_priority xs)
      ∙ ap (λ rest. if q x then x ∷ rest else rest) (filter-sort xs)

pub filter-filter :
    (p q : EventSubscription → Bool) (xs : List EventSubscription)
    → filter p (filter q xs) ≡ filter (λ s. q s && p s) xs
filter-filter p q [] = refl
filter-filter p q (x ∷ xs) = ground (arith, filter-filter p q xs)
