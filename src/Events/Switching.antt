-- ===== src/Events/Switching.antt =====
-- events/mod.rs: the handlers and the owners after a subscription is switched on or off.
use bw_exp.Common.{
  ℕ, ◌≡◌, refl, sym, ap, ◌∙◌, arith, List, [], ◌∷◌, ◌++◌, none, Bool, ◌==◌, map, Bool-cases, inl,
  inr, ==_iff,
}
use mathlib.Core.Path.{subst}
use bw_exp.Common.Map.{Map, lookup, modify}
use bw_exp.Events.{EventSubscription}
use bw_exp.Events.Registry.{enable, enable_if}
use bw_exp.Events.Views.{times_named, handlers_of, owned_by, Keyed, same_id}

-- What `set_enabled` does to a list of handlers.
map_append :
    (f : EventSubscription → EventSubscription) (xs ys : List EventSubscription)
    → map f (xs ++ ys) ≡ map f xs ++ map f ys
map_append f [] ys = refl
map_append f (x ∷ xs) ys = ap (◌∷◌ (f x)) (map_append f xs ys)

map-times_named :
    (f : EventSubscription → EventSubscription) (t : ℕ) (us : List ℕ) (s : EventSubscription)
    → map f (times_named t us s) ≡ times_named t us (f s)
unfolding times_named
map-times_named f t [] s = refl
map-times_named f t (u ∷ us) s = elim (Bool-cases (u == t)) [
  | inl same ↦ rw (same, times_named) (ap (◌∷◌ (f s)) (map-times_named f t us s))
  | inr other ↦ rw (other, times_named) (map-times_named f t us s)
]

pub modify-none :
    (f : EventSubscription → EventSubscription) (id : ℕ) (m : Map EventSubscription)
    → lookup id m ≡ none
    → modify id f m ≡ m
unfolding lookup modify
modify-none f id [] h = refl
modify-none f id (e ∷ m) h = ground (arith, modify-none f id m)

pub handlers_of-modify :
    (t id : ℕ) (b : Bool) (m : Map EventSubscription)
    → Keyed m
    → handlers_of t (modify id (enable b) m) ≡ map (enable_if id b) (handlers_of t m)
unfolding handlers_of modify
handlers_of-modify t id b [] k = refl
handlers_of-modify t id b (e ∷ m) k =
    rw
      (
        map_append (enable_if id b) (times_named t e.1.event_types e.1) (handlers_of t m),
        map-times_named (enable_if id b) t e.1.event_types e.1,
      )
      (elim (Bool-cases (e.0 == id)) [
        | inl same ↦
            rw (same, same_id e k.0 id ∙ same)
              (ap (λ hs. times_named t e.1.event_types (enable b e.1) ++ hs)
                (ap (handlers_of t) (
                    sym (
                      modify-none (enable b) id m
                        (subst (λ j. lookup j m ≡ none) ((==_iff e.0 id).0 same) k.1)))
                  ∙ handlers_of-modify t id b m k.2))
        | inr other ↦
            rw (other, same_id e k.0 id ∙ other)
              (ap (λ hs. times_named t e.1.event_types e.1 ++ hs) (handlers_of-modify t id b m k.2))
      ])

lookup-modify-none :
    (f : EventSubscription → EventSubscription) (id j : ℕ) (m : Map EventSubscription)
    → lookup j m ≡ none
    → lookup j (modify id f m) ≡ none
unfolding lookup modify
lookup-modify-none f id j [] h = refl
lookup-modify-none f id j (e ∷ m) h = ground (arith, lookup-modify-none f id j m)

pub modify-Keyed :
    (id : ℕ) (b : Bool) (m : Map EventSubscription) → Keyed m → Keyed (modify id (enable b) m)
unfolding modify
modify-Keyed id b [] k = tt
modify-Keyed id b (e ∷ m) k = elim (Bool-cases (e.0 == id)) [
  | inl same ↦ rw (same, modify) (k.0, k.1, k.2)
  | inr other ↦
      rw (other, modify) (k.0, lookup-modify-none (enable b) id e.0 m k.1, modify-Keyed id b m k.2)
]

pub owned_by-modify :
    (entity id : ℕ) (b : Bool) (m : Map EventSubscription)
    → owned_by entity (modify id (enable b) m) ≡ owned_by entity m
unfolding owned_by modify
owned_by-modify entity id b [] = refl
owned_by-modify entity id b (e ∷ m) = ground (arith, owned_by-modify entity id b m)
