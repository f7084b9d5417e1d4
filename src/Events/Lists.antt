-- ===== src/Events/Lists.antt =====
-- events/mod.rs: what the operations do to the lists of handlers and of owners.
use bw_exp.Common.{
  ℕ, ◌≡◌, refl, sym, ◌∙◌, arith, List, [], ◌∷◌, ◌++◌, append_assoc, append-nil, Option, none, some,
  Bool, ◌==◌, if◌then◌else◌, push, filter, map, Bool-cases, inl, inr, ==_refl, ==_iff,
}
use bw_exp.Common.Ids.{contains, without}
use bw_exp.Common.Map.{Map, lookup, remove, modify, lookup-insert, lookup-modify, lookup-remove}
use bw_exp.Events.{EventSubscription, is_value}
use bw_exp.Events.Registry.{
  listed, add, add_to_types, add_to_owner, other_than, drop_from_types, drop_from_owner, enable_if,
  enable_in,
}
use bw_exp.Events.Views.{times_named}

pub listed-add {ℓ} :
    {A : Type ℓ} (k j : ℕ) (x : A) (m : Map (List A))
    → listed j (add k x m) ≡ (if k == j then push (listed j m) x else listed j m)
listed-add k j x m = elim (Bool-cases (k == j)) [
  | inl same ↦ rw ((==_iff k j).0 same) (rw (lookup-insert j j (push (listed j m) x) m, ==_refl j))
  | inr other ↦ rw (lookup-insert k j (push (listed k m) x) m, other)
]

pub listed-modify {ℓ} :
    {A : Type ℓ} (k j : ℕ) (f : List A → List A) (m : Map (List A))
    → f [] ≡ []
    → listed j (modify k f m) ≡ (if k == j then f (listed j m) else listed j m)
listed-modify k j f m e = ground (arith, lookup-modify k j f m, e)

pub listed-remove {ℓ} :
    {A : Type ℓ} (k j : ℕ) (m : Map (List A))
    → listed j (remove k m) ≡ (if k == j then [] else listed j m)
listed-remove k j m = ground (arith, lookup-remove k j m)

pub listed-add_to_types :
    (t : ℕ) (us : List ℕ) (s : EventSubscription) (m : Map (List EventSubscription))
    → listed t (add_to_types us s m) ≡ listed t m ++ times_named t us s
unfolding add_to_types times_named
listed-add_to_types t [] s m = sym (append-nil (listed t m))
listed-add_to_types t (u ∷ us) s m =
    listed-add_to_types t us s (add u s m) ∙ elim (Bool-cases (u == t)) [
      | inl same ↦
          rw (listed-add u t s m, same) (append_assoc (listed t m) (s ∷ []) (times_named t us s))
      | inr other ↦ rw (listed-add u t s m, other) refl
    ]

pub listed-add_to_owner :
    (entity : ℕ) (owner : Option ℕ) (id : ℕ) (m : Map (List ℕ))
    → listed entity (add_to_owner owner id m)
      ≡ (if is_value owner entity then push (listed entity m) id else listed entity m)
listed-add_to_owner entity none id m = refl
listed-add_to_owner entity (some owner) id m = listed-add owner entity id m

filter_twice :
    (p : EventSubscription → Bool) (xs : List EventSubscription)
    → filter p (filter p xs) ≡ filter p xs
filter_twice p [] = refl
filter_twice p (x ∷ xs) = ground (arith, filter_twice p xs)

pub listed-drop_from_types :
    (t : ℕ) (us : List ℕ) (id : ℕ) (m : Map (List EventSubscription))
    → listed t (drop_from_types us id m)
      ≡ (if contains us t then filter (other_than id) (listed t m) else listed t m)
unfolding drop_from_types contains
listed-drop_from_types t [] id m = refl
listed-drop_from_types t (u ∷ us) id m =
    let hs = listed t m in
    listed-drop_from_types t us id (modify u (filter (other_than id)) m)
    ∙ rw (listed-modify u t (filter (other_than id)) m refl) (elim (Bool-cases (u == t)) [
      | inl same ↦ rw same (elim (Bool-cases (contains us t)) [
        | inl more ↦ rw more (filter_twice (other_than id) hs)
        | inr last ↦ rw last refl
      ])
      | inr other ↦ rw other refl
    ])

pub listed-drop_from_owner :
    (entity : ℕ) (owner : Option ℕ) (id : ℕ) (m : Map (List ℕ))
    → listed entity (drop_from_owner owner id m)
      ≡ (if is_value owner entity then without id (listed entity m) else listed entity m)
unfolding without
listed-drop_from_owner entity none id m = refl
listed-drop_from_owner entity (some owner) id m = listed-modify owner entity (without id) m refl

pub listed-enable_in :
    (t id : ℕ) (b : Bool) (m : Map (List EventSubscription))
    → listed t (enable_in id b m) ≡ map (enable_if id b) (listed t m)
unfolding enable_in lookup
listed-enable_in t id b [] = refl
listed-enable_in t id b (e ∷ m) = elim (Bool-cases (e.0 == t)) [
  | inl same ↦ rw same refl
  | inr other ↦ rw other (listed-enable_in t id b m)
]
