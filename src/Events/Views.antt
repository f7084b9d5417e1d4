-- ===== src/Events/Views.antt =====
-- events/mod.rs: what the lists of the registry should hold, and how a change of the subscriptions
-- changes it.
use bw_exp.Common.{
  ℕ, ◌≡◌, refl, sym, ap, ◌∙◌, arith, List, [], ◌∷◌, ◌++◌, append_assoc, append-nil, Option, none,
  some, Bool, false, is_some, unwrap_or, ◌==◌, if◌then◌else◌, push, filter, Bool-cases, inl, inr,
  ==_iff,
}
use mathlib.Core.Path.{subst}
use bw_exp.Common.Ids.{contains, without}
use bw_exp.Common.Map.{Map, lookup, insert, remove}
use bw_exp.Events.{EventSubscription, is_value}
use bw_exp.Events.Registry.{other_than}

-- The subscription, once for each time that it names the type.
unfoldable pub times_named : ℕ → List ℕ → EventSubscription → List EventSubscription
times_named t [] s = []
times_named t (u ∷ us) s = if u == t then s ∷ times_named t us s else times_named t us s

-- The handlers of a type: the subscriptions that name it, in order.
unfoldable pub handlers_of : ℕ → Map EventSubscription → List EventSubscription
unfolding times_named
handlers_of t [] = []
handlers_of t (e ∷ m) = times_named t e.1.event_types e.1 ++ handlers_of t m

-- The subscriptions of an entity.
unfoldable pub owned_by : ℕ → Map EventSubscription → List ℕ
owned_by entity [] = []
owned_by entity (e ∷ m) =
    if is_value e.1.owner_entity_id entity then e.0 ∷ owned_by entity m else owned_by entity m

-- Each subscription stands under its id, and no id stands twice.
abbrev pub Keyed : Map EventSubscription → Type 0
Keyed [] = Unit {0}
Keyed (e ∷ m) = (e.1.id ≡ e.0) × (lookup e.0 m ≡ none) × Keyed m

pub insert-fresh :
    (id : ℕ) (s : EventSubscription) (m : Map EventSubscription)
    → lookup id m ≡ none
    → insert id s m ≡ push m (id, s)
unfolding insert lookup
insert-fresh id s [] h = refl
insert-fresh id s (e ∷ m) h = ground (arith, insert-fresh id s m)

lookup-push :
    (j : ℕ) (s : EventSubscription) (m : Map EventSubscription)
    → lookup j (push m (s.id, s))
      ≡ (if is_some (lookup j m) then lookup j m else if s.id == j then some s else none)
unfolding lookup
lookup-push j s [] = refl
lookup-push j s (e ∷ m) = ground (arith, lookup-push j s m)

pub push-Keyed :
    (s : EventSubscription) (m : Map EventSubscription)
    → lookup s.id m ≡ none
    → Keyed m
    → Keyed (push m (s.id, s))
unfolding lookup
push-Keyed s [] h k = (refl, refl, tt)
push-Keyed s (e ∷ m) h k =
    (k.0, ground (arith, lookup-push e.0 s m, k.1, h), push-Keyed s m (ground (arith, h)) k.2)

pub handlers_of-push :
    (t : ℕ) (e : ℕ × EventSubscription) (m : Map EventSubscription)
    → handlers_of t (push m e) ≡ handlers_of t m ++ times_named t e.1.event_types e.1
unfolding handlers_of
handlers_of-push t e [] = append-nil _
handlers_of-push t e (d ∷ m) =
    ap (λ hs. times_named t d.1.event_types d.1 ++ hs) (handlers_of-push t e m)
    ∙ sym (append_assoc (times_named t d.1.event_types d.1) (handlers_of t m) _)

pub owned_by-push :
    (entity : ℕ) (e : ℕ × EventSubscription) (m : Map EventSubscription)
    → owned_by entity (push m e) ≡ (
        if is_value e.1.owner_entity_id entity
        then push (owned_by entity m) e.0
        else owned_by entity m)
unfolding owned_by
owned_by-push entity e [] = refl
owned_by-push entity e (d ∷ m) = ground (arith, owned_by-push entity e m)

pub remove-none : (id : ℕ) (m : Map EventSubscription) → lookup id m ≡ none → remove id m ≡ m
unfolding lookup remove
remove-none id [] h = refl
remove-none id (e ∷ m) h = ground (arith, remove-none id m)

lookup-remove-none :
    (id j : ℕ) (m : Map EventSubscription) → lookup j m ≡ none → lookup j (remove id m) ≡ none
unfolding lookup remove
lookup-remove-none id j [] h = refl
lookup-remove-none id j (e ∷ m) h = ground (arith, lookup-remove-none id j m)

pub remove-Keyed : (id : ℕ) (m : Map EventSubscription) → Keyed m → Keyed (remove id m)
unfolding remove
remove-Keyed id [] k = tt
remove-Keyed id (e ∷ m) k = elim (Bool-cases (e.0 == id)) [
  | inl same ↦ rw (same, remove) (remove-Keyed id m k.2)
  | inr other ↦ rw (other, remove) (k.0, lookup-remove-none id e.0 m k.1, remove-Keyed id m k.2)
]

pub filter-append :
    {A : Type 0} (p : A → Bool) (xs ys : List A) → filter p (xs ++ ys) ≡ filter p xs ++ filter p ys
filter-append p [] ys = refl
filter-append p (x ∷ xs) ys = ground (arith, filter-append p xs ys)

filter-times_named :
    (p : EventSubscription → Bool) (t : ℕ) (us : List ℕ) (s : EventSubscription)
    → filter p (times_named t us s) ≡ (if p s then times_named t us s else [])
unfolding times_named
filter-times_named p t [] s = ground arith
filter-times_named p t (u ∷ us) s = ground (arith, filter-times_named p t us s)

pub same_id : (e : ℕ × EventSubscription) → e.1.id ≡ e.0 → (id : ℕ) → (e.1.id == id) ≡ (e.0 == id)
same_id e k id = ap (λ j. j == id) k

pub handlers_of-remove :
    (t id : ℕ) (m : Map EventSubscription)
    → Keyed m
    → handlers_of t (remove id m) ≡ filter (other_than id) (handlers_of t m)
unfolding handlers_of remove
handlers_of-remove t id [] k = refl
handlers_of-remove t id (e ∷ m) k =
    rw
      (
        filter-append (other_than id) (times_named t e.1.event_types e.1) (handlers_of t m),
        filter-times_named (other_than id) t e.1.event_types e.1,
      )
      (elim (Bool-cases (e.0 == id)) [
        | inl same ↦ rw (same, same_id e k.0 id ∙ same, remove) (handlers_of-remove t id m k.2)
        | inr other ↦
            rw (other, same_id e k.0 id ∙ other, remove)
              (ap (λ hs. times_named t e.1.event_types e.1 ++ hs) (handlers_of-remove t id m k.2))
      ])

times_named_unnamed :
    (t : ℕ) (us : List ℕ) (s : EventSubscription) → contains us t ≡ false → times_named t us s ≡ []
unfolding times_named contains
times_named_unnamed t [] s h = refl
times_named_unnamed t (u ∷ us) s h = ground (arith, times_named_unnamed t us s)

-- A subscription that does not name the type has no handler to remove.
pub handlers_of-unnamed :
    (t id : ℕ) (s : EventSubscription) (m : Map EventSubscription)
    → Keyed m
    → lookup id m ≡ some s
    → contains s.event_types t ≡ false
    → handlers_of t (remove id m) ≡ handlers_of t m
unfolding handlers_of remove lookup
handlers_of-unnamed t id s [] k there h = refl
handlers_of-unnamed t id s (e ∷ m) k there h = elim (Bool-cases (e.0 == id)) [
  | inl same ↦
      rw (same, remove)
        (ap (handlers_of t)
            (remove-none id m (subst (λ j. lookup j m ≡ none) ((==_iff e.0 id).0 same) k.1))
          ∙ ap (λ hs. hs ++ handlers_of t m)
              (sym (
                times_named_unnamed t e.1.event_types e.1 (
                  subst (λ v. contains v.event_types t ≡ false)
                    (sym (ap (λ o. unwrap_or o s) (rw same at there))) h))))
  | inr other ↦
      rw (other, remove)
        (ap (λ hs. times_named t e.1.event_types e.1 ++ hs)
          (handlers_of-unnamed t id s m k.2 (rw other at there) h))
]

pub owned_by-remove :
    (entity id : ℕ) (m : Map EventSubscription)
    → owned_by entity (remove id m) ≡ without id (owned_by entity m)
unfolding owned_by remove without
owned_by-remove entity id [] = refl
owned_by-remove entity id (e ∷ m) = ground (arith, owned_by-remove entity id m)

-- A subscription of others is not in the list of an entity.
pub owned_by-unowned :
    (entity id : ℕ) (s : EventSubscription) (m : Map EventSubscription)
    → Keyed m
    → lookup id m ≡ some s
    → is_value s.owner_entity_id entity ≡ false
    → owned_by entity (remove id m) ≡ owned_by entity m
unfolding owned_by remove lookup
owned_by-unowned entity id s [] k there h = refl
owned_by-unowned entity id s (e ∷ m) k there h = elim (Bool-cases (e.0 == id)) [
  | inl same ↦
      rw
        (
          same,
          remove,
          subst (λ v. is_value v.owner_entity_id entity ≡ false)
              (sym (ap (λ o. unwrap_or o s) (rw same at there))) h,
        )
        (ap (owned_by entity)
          (remove-none id m (subst (λ j. lookup j m ≡ none) ((==_iff e.0 id).0 same) k.1)))
  | inr other ↦ rw (other, remove, owned_by-unowned entity id s m k.2 (rw other at there) h) refl
]

abbrev pub is_owned : ℕ → Option EventSubscription → Bool
is_owned entity none = false
is_owned entity (some s) = is_value s.owner_entity_id entity

pub contains-owned_by :
    (entity id : ℕ) (m : Map EventSubscription)
    → Keyed m
    → contains (owned_by entity m) id ≡ is_owned entity (lookup id m)
unfolding owned_by contains lookup
contains-owned_by entity id [] k = refl
contains-owned_by entity id (e ∷ m) k = elim (Bool-cases (e.0 == id)) [
  | inl same ↦
      let gone = subst (λ j. lookup j m ≡ none) ((==_iff e.0 id).0 same) k.1 in
      ground (arith, contains-owned_by entity id m k.2, gone, same)
  | inr other ↦ ground (arith, contains-owned_by entity id m k.2, other)
]
