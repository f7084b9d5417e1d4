-- ===== src/Events/Consistency.antt =====
-- events/mod.rs: the registry's lists agree with its subscriptions.
use bw_exp.Common.{
  ℕ, ◌≡◌, refl, sym, ap, ◌∙◌, arith, List, [], ◌∷◌, none, Bool, false, ◌==◌, if◌then◌else◌,
  Bool-cases, Option-cases, inl, inr, ==_iff,
}
use bw_exp.Common.Ids.{contains}
use bw_exp.Common.Map.{lookup, remove, lookup-remove}
use bw_exp.Events.{EventSubscription, EventRegistry, is_value}
use bw_exp.Events.Registry.{
  new, listed, subscribe, unsubscribe, unsubscribe_all, unsubscribe_for_entity, set_enabled,
}
use bw_exp.Events.Views.{
  handlers_of, owned_by, Keyed, insert-fresh, push-Keyed, handlers_of-push, owned_by-push,
  remove-none, remove-Keyed, handlers_of-remove, handlers_of-unnamed, owned_by-remove,
  owned_by-unowned, is_owned, contains-owned_by,
}
use bw_exp.Events.Switching.{modify-Keyed, handlers_of-modify, owned_by-modify}
use bw_exp.Events.Lists.{
  listed-remove, listed-add_to_types, listed-add_to_owner, listed-drop_from_types,
  listed-drop_from_owner, listed-enable_in,
}

pub record IsConsistent (r : EventRegistry) : Type 0 where
  pub keyed : Keyed r.by_id
  pub types : (t : ℕ) → listed t r.by_event_type ≡ handlers_of t r.by_id
  pub owners : (entity : ℕ) → listed entity r.by_owner ≡ owned_by entity r.by_id

pub new-IsConsistent : IsConsistent new
unfolding new handlers_of owned_by lookup
new-IsConsistent = record { keyed = tt; types = λ t. refl; owners = λ entity. refl }

pub subscribe-IsConsistent :
    (s : EventSubscription) (r : EventRegistry)
    → lookup s.id r.by_id ≡ none
    → IsConsistent r
    → IsConsistent (subscribe s r).0
unfolding subscribe
subscribe-IsConsistent s r fresh h =
    rw (subscribe, insert-fresh s.id s r.by_id fresh)
      (record {
        keyed = push-Keyed s r.by_id fresh h.keyed;
        types = λ t.
            rw
              (
                listed-add_to_types t s.event_types s r.by_event_type,
                h.types t,
                handlers_of-push t (s.id, s) r.by_id,
              )
              refl;
        owners = λ entity.
            rw
              (
                listed-add_to_owner entity s.owner_entity_id s.id r.by_owner,
                h.owners entity,
                owned_by-push entity (s.id, s) r.by_id,
              )
              refl;
      })

pub unsubscribe-IsConsistent :
    (id : ℕ) (r : EventRegistry) → IsConsistent r → IsConsistent (unsubscribe id r).0
unfolding unsubscribe
unsubscribe-IsConsistent id r h = elim (Option-cases (lookup id r.by_id)) [
  | inl gone ↦ rw (gone, unsubscribe, remove-none id r.by_id gone) h
  | inr (s, there) ↦
      rw (there, unsubscribe)
        (record {
          keyed = remove-Keyed id r.by_id h.keyed;
          types = λ t.
              rw (listed-drop_from_types t s.event_types id r.by_event_type, h.types t)
                (elim (Bool-cases (contains s.event_types t)) [
                  | inl named ↦ rw named (sym (handlers_of-remove t id r.by_id h.keyed))
                  | inr other ↦
                      rw other (sym (handlers_of-unnamed t id s r.by_id h.keyed there other))
                ]);
          owners = λ entity.
              rw (listed-drop_from_owner entity s.owner_entity_id id r.by_owner, h.owners entity)
                (elim (Bool-cases (is_value s.owner_entity_id entity)) [
                  | inl own ↦ rw own (sym (owned_by-remove entity id r.by_id))
                  | inr other ↦
                      rw other (sym (owned_by-unowned entity id s r.by_id h.keyed there other))
                ]);
        })
]

unsubscribe-by_id : (id : ℕ) (r : EventRegistry) → (unsubscribe id r).0.by_id ≡ remove id r.by_id
unfolding unsubscribe
unsubscribe-by_id id r = elim (Option-cases (lookup id r.by_id)) [
  | inl gone ↦ rw (gone, unsubscribe) refl
  | inr (s, there) ↦ rw (there, unsubscribe) refl
]

pub unsubscribe_all-IsConsistent :
    (ids : List ℕ) (r : EventRegistry) → IsConsistent r → IsConsistent (unsubscribe_all ids r)
unfolding unsubscribe_all
unsubscribe_all-IsConsistent [] r h = h
unsubscribe_all-IsConsistent (id ∷ ids) r h =
    unsubscribe_all-IsConsistent ids (unsubscribe id r).0 (unsubscribe-IsConsistent id r h)

pub lookup-unsubscribe_all :
    (ids : List ℕ) (j : ℕ) (r : EventRegistry)
    → lookup j (unsubscribe_all ids r).by_id ≡ (if contains ids j then none else lookup j r.by_id)
unfolding unsubscribe_all contains
lookup-unsubscribe_all [] j r = refl
lookup-unsubscribe_all (id ∷ ids) j r = ground (
  arith,
  lookup-unsubscribe_all ids j (unsubscribe id r).0,
  ap (lookup j) (unsubscribe-by_id id r),
  lookup-remove id j r.by_id,
)

nothing_contained : (xs : List ℕ) → ((x : ℕ) → contains xs x ≡ false) → xs ≡ []
unfolding contains
nothing_contained [] h = refl
nothing_contained (x ∷ xs) h = absurd (ground (arith, h x))

module _ (entity : ℕ) (r : EventRegistry) (h : IsConsistent r) where
  left :
      (j : ℕ)
      → lookup j (unsubscribe_all (listed entity r.by_owner) r).by_id
        ≡ (if is_owned entity (lookup j r.by_id) then none else lookup j r.by_id)
  left j =
      lookup-unsubscribe_all (listed entity r.by_owner) j r
      ∙ rw (h.owners entity, contains-owned_by entity j r.by_id h.keyed) refl

  left_nothing : owned_by entity (unsubscribe_all (listed entity r.by_owner) r).by_id ≡ []
  left_nothing =
      let h' = unsubscribe_all-IsConsistent (listed entity r.by_owner) r h in
      nothing_contained (owned_by entity (unsubscribe_all (listed entity r.by_owner) r).by_id) (λ j.
        ground (
          arith,
          left j,
          contains-owned_by entity j (unsubscribe_all (listed entity r.by_owner) r).by_id h'.keyed,
        ))

  -- What an entity has subscribed to goes, and nothing else.
  pub unsubscribe_for_entity_lem :
      IsConsistent (unsubscribe_for_entity entity r)
      × ((j : ℕ)
          → lookup j (unsubscribe_for_entity entity r).by_id
            ≡ (if is_owned entity (lookup j r.by_id) then none else lookup j r.by_id))
  unfolding unsubscribe_for_entity
  unsubscribe_for_entity_lem =
      let h' = unsubscribe_all-IsConsistent (listed entity r.by_owner) r h in
      (
        record {
          keyed = h'.keyed;
          types = h'.types;
          owners = λ other.
              rw
                (listed-remove entity other (unsubscribe_all (listed entity r.by_owner) r).by_owner)
                (elim (Bool-cases (entity == other)) [
                  | inl same ↦ rw same (
                      sym left_nothing
                      ∙ ap (λ k. owned_by k (unsubscribe_all (listed entity r.by_owner) r).by_id)
                          ((==_iff entity other).0 same))
                  | inr apart ↦ rw apart (h'.owners other)
                ]);
        },
        left,
      )

pub set_enabled-IsConsistent :
    (id : ℕ) (b : Bool) (r : EventRegistry) → IsConsistent r → IsConsistent (set_enabled id b r)
unfolding set_enabled
set_enabled-IsConsistent id b r h = record {
  keyed = modify-Keyed id b r.by_id h.keyed;
  types = λ t.
      rw
        (
          listed-enable_in t id b r.by_event_type,
          h.types t,
          handlers_of-modify t id b r.by_id h.keyed,
        )
        refl;
  owners = λ entity. rw (owned_by-modify entity id b r.by_id) (h.owners entity);
}
