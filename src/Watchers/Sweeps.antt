-- ===== src/Watchers/Sweeps.antt =====
-- watchers.rs: what a check of an entity does to the watches, and which events it gives.
use bw_exp.Common.{
  ℕ, ◌≡◌, refl, ap, ◌∙◌, arith, List, [], ◌∷◌, ◌++◌, Option, none, some, Bool, true, false, ◌==◌,
  if◌then◌else◌, ◌&&◌, Bool-cases, Option-cases, inl, inr, ==_iff, not, append_assoc, append-nil,
}
use mathlib.Core.Path.{subst, sym}
use bw_exp.Common.Ids.{contains, IsDistinct, contains-push}
use bw_exp.Common.Float.{F64}
use bw_exp.Common.Map.{Map, lookup, lookup-modify, map_option}
use bw_exp.Watchers.{WatchValue, PropertyWatch, WatchTriggerEvent, WatchRegistry, should_trigger}
use bw_exp.Watchers.Registry.{
  Sweep, event, fire, check_one, check_all, check_entity, bucket, gather, list_for_entity,
}
use bw_exp.Watchers.Consistency.{
  IsIndexed, same_keys-IsIndexed, unregister_all-IsIndexed, lookup-unregister_all,
}

module _ {F : Type 0} ⦃f : F64 F⦄ (get_value : ℕ → Option (WatchValue F)) where
  -- A watch after it was checked, and whether it fired.
  abbrev pub checked : PropertyWatch F → PropertyWatch F × Bool
  checked w = elim (get_value w.property) [ none ↦ (w, false) | some v ↦ should_trigger w v ]

  -- The watch fired and is no longer active.
  abbrev pub spent : PropertyWatch F → Bool
  spent w = (checked w).1 && not (checked w).0.active

  abbrev spent_at : Option (PropertyWatch F) → Bool
  spent_at none = false
  spent_at (some w) = spent w

  -- The event of a watch, if it fires.
  abbrev pub fired_one : PropertyWatch F → List (WatchTriggerEvent F)
  fired_one w = elim (get_value w.property) [
    | none ↦ []
    | some v ↦ if (should_trigger w v).1 then event w v ∷ [] else []
  ]

  abbrev pub fired : List (PropertyWatch F) → List (WatchTriggerEvent F)
  fired [] = []
  fired (w ∷ ws) = fired_one w ++ fired ws

  checked_keeps :
      (w : PropertyWatch F)
      → ((checked w).0.id ≡ w.id)
        × ((checked w).0.entity_id ≡ w.entity_id)
        × ((checked w).0.owner_script ≡ w.owner_script)
  unfolding should_trigger
  checked_keeps w = ground arith

  record Step (id : ℕ) (s t : Sweep F) : Type 0 where
    watches :
        (j : ℕ)
        → lookup j t.watches ≡ (
            if id == j
            then map_option (λ w. (checked w).0) (lookup j s.watches)
            else lookup j s.watches)
    removed :
        (j : ℕ)
        → contains t.to_remove j
          ≡ (if contains s.to_remove j then true else id == j && spent_at (lookup j s.watches))
    events : t.events ≡ s.events ++ fired (gather (id ∷ []) s.watches)

  fire-Step :
      (id : ℕ) (w : PropertyWatch F) (v : WatchValue F) (s : Sweep F)
      → lookup id s.watches ≡ some w
      → get_value w.property ≡ some v
      → Step id s (fire id w v s)
  unfolding fire gather
  fire-Step id w v s there value = record {
    watches = λ j.
        let changes = lookup-modify id j (λ _. (should_trigger w v).0) s.watches in
        elim (Bool-cases (id == j)) [
          | inl same ↦ ground (arith, changes, at j same, value)
          | inr other ↦ ground (arith, changes)
        ];
    removed = λ j. elim (Bool-cases (id == j)) [
      | inl same ↦ ground (arith, contains-push s.to_remove id j, at j same, value)
      | inr other ↦ ground (arith, contains-push s.to_remove id j)
    ];
    events = ground (arith, there, value, append-nil s.events);
  }
    where
      at : (j : ℕ) → (id == j) ≡ true → lookup j s.watches ≡ some w
      at j same = subst (λ k. lookup k s.watches ≡ some w) ((==_iff id j).0 same) there

  check_one-Step : (id : ℕ) (s : Sweep F) → Step id s (check_one get_value id s)
  unfolding check_one gather
  check_one-Step id s = elim (Option-cases (lookup id s.watches)) [
    | inl gone ↦
        rw (gone, check_one)
          (record {
            watches = λ j. ground (arith, at gone j);
            removed = λ j. ground (arith, at gone j);
            events = ground (arith, gone, append-nil s.events);
          })
    | inr (w, there) ↦ elim (Option-cases (get_value w.property)) [
      | inl silent ↦
          rw (there, silent, check_one)
            (record {
              watches = λ j. ground (arith, at there j, silent);
              removed = λ j. ground (arith, at there j, silent);
              events = ground (arith, there, silent, append-nil s.events);
            })
      | inr (v, value) ↦ rw (there, value, check_one) (fire-Step id w v s there value)
    ]
  ]
    where
      at :
          {o : Option (PropertyWatch F)}
          → lookup id s.watches ≡ o
          → (j : ℕ) → (id == j) ≡ true
          → lookup j s.watches ≡ o
      at {o} found j same = subst (λ k. lookup k s.watches ≡ o) ((==_iff id j).0 same) found

  gather_same :
      (ids : List ℕ) (a b : Map (PropertyWatch F))
      → ((j : ℕ) → contains ids j ≡ true → lookup j a ≡ lookup j b)
      → gather ids a ≡ gather ids b
  unfolding gather contains
  gather_same [] a b h = refl
  gather_same (id ∷ ids) a b h =
      ground (arith, h id, gather_same ids a b (λ j e. h j (ground arith)))

  gather_cons :
      (id : ℕ) (ids : List ℕ) (a : Map (PropertyWatch F))
      → gather (id ∷ ids) a ≡ gather (id ∷ []) a ++ gather ids a
  unfolding gather
  gather_cons id ids a = ground arith

  fired-append : (us vs : List (PropertyWatch F)) → fired (us ++ vs) ≡ fired us ++ fired vs
  fired-append [] vs = refl
  fired-append (u ∷ us) vs =
      ap (λ z. fired_one u ++ z) (fired-append us vs)
      ∙ sym (append_assoc (fired_one u) (fired us) (fired vs))

  record Swept (ids : List ℕ) (s t : Sweep F) : Type 0 where
    watches :
        (j : ℕ)
        → lookup j t.watches ≡ (
            if contains ids j
            then map_option (λ w. (checked w).0) (lookup j s.watches)
            else lookup j s.watches)
    removed :
        (j : ℕ)
        → contains t.to_remove j ≡ (
            if contains s.to_remove j
            then true
            else contains ids j && spent_at (lookup j s.watches))
    events : t.events ≡ s.events ++ fired (gather ids s.watches)

  events_cons :
      (id : ℕ) (ids : List ℕ) (a b : Map (PropertyWatch F)) (es es' : List (WatchTriggerEvent F))
      → es' ≡ es ++ fired (gather (id ∷ []) a)
      → gather ids b ≡ gather ids a
      → es' ++ fired (gather ids b) ≡ es ++ fired (gather (id ∷ ids) a)
  events_cons id ids a b es es' e same =
      let first = gather (id ∷ []) a in
      rw (e, same)
        (append_assoc es (fired first) (fired (gather ids a))
          ∙ ap (λ z. es ++ z)
              (sym (fired-append first (gather ids a)) ∙ ap fired (sym (gather_cons id ids a))))

  check_all-Swept :
      (ids : List ℕ) (s : Sweep F) → IsDistinct ids → Swept ids s (check_all get_value ids s)
  unfolding check_all contains gather
  check_all-Swept [] s d = record {
    watches = λ j. refl;
    removed = λ j. ground arith;
    events = ground (arith, append-nil s.events);
  }
  check_all-Swept (id ∷ ids) s d =
      let t = check_one get_value id s in
      let one = check_one-Step id s in
      let more = check_all-Swept ids t d.1 in
      record {
        watches = λ j. elim (Bool-cases (id == j)) [
          | inl same ↦ ground (arith, one.watches j, more.watches j, off j same)
          | inr other ↦ ground (arith, one.watches j, more.watches j)
        ];
        removed = λ j. elim (Bool-cases (id == j)) [
          | inl same ↦ ground (arith, one.removed j, more.removed j, off j same)
          | inr other ↦ ground (arith, one.removed j, more.removed j, one.watches j)
        ];
        events =
            more.events
            ∙ events_cons id ids s.watches t.watches s.events t.events one.events
                (gather_same ids t.watches s.watches (λ j e. ground (arith, one.watches j, off j)));
      }
    where
      off : (j : ℕ) → (id == j) ≡ true → contains ids j ≡ false
      off j same = subst (λ k. contains ids k ≡ false) ((==_iff id j).0 same) d.0

  Swept-keys :
      (ids : List ℕ) (s t : Sweep F) (j : ℕ) (w : PropertyWatch F)
      → Swept ids s t
      → lookup j t.watches ≡ some w
      → (v : PropertyWatch F) × (lookup j s.watches ≡ some v)
        × (w.id ≡ v.id)
        × (w.entity_id ≡ v.entity_id)
        × (w.owner_script ≡ v.owner_script)
  Swept-keys ids s t j w swept e = elim (Option-cases (lookup j s.watches)) [
    | inl gone ↦ absurd (ground (arith, swept.watches j))
    | inr (v, there) ↦ elim (Bool-cases (contains ids j)) [
      | inl inside ↦
          let same : w ≡ (checked v).0 = ground (arith, swept.watches j) in
          let (a, b, c) = checked_keeps v in
          (
            v,
            there,
            ap (λ x. x.id) same ∙ a,
            ap (λ x. x.entity_id) same ∙ b,
            ap (λ x. x.owner_script) same ∙ c,
          )
      | inr outside ↦
          let same : w ≡ v = ground (arith, swept.watches j) in
          (v, there, ap (λ x. x.id) same, ap (λ x. x.entity_id) same, ap (λ x. x.owner_script) same)
    ]
  ]

  -- A watch after the check of an entity.
  abbrev pub after : ℕ → Option (PropertyWatch F) → Option (PropertyWatch F)
  after entity none = none
  after entity (some w) =
      if w.entity_id == entity then (if spent w then none else some (checked w).0) else some w

  -- On a registry whose lists agree with its watches, a check of an entity gives the events of
  -- its watches that fire, in the order in which they stand; each watch of the entity is checked
  -- once, and is gone if it fired and is no longer active; every other watch stays as it is; and
  -- the lists agree with the watches again.
  pub check_entity_lem :
      (entity : ℕ) (r : WatchRegistry F)
      → IsIndexed r
      → IsIndexed (check_entity entity get_value r).0
        × ((id : ℕ)
            → lookup id (check_entity entity get_value r).0.watches
              ≡ after entity (lookup id r.watches))
        × ((check_entity entity get_value r).1 ≡ fired (list_for_entity entity r))
  unfolding check_entity list_for_entity contains
  check_entity_lem entity r h =
      let ids = bucket entity r.by_entity in
      let s : Sweep F = record { watches = r.watches; events = []; to_remove = [] } in
      let t = check_all get_value ids s in
      let swept = check_all-Swept ids s (h.entities.distinct entity) in
      let r' : WatchRegistry F = record r { watches = t.watches } in
      (
        unregister_all-IsIndexed t.to_remove r' (
            same_keys-IsIndexed r t.watches h (λ j w e. Swept-keys ids s t j w swept e)
              (λ j e. elim (Option-cases (lookup j r.watches)) [
                | inl gone ↦ gone
                | inr (v, there) ↦ absurd (ground (arith, swept.watches j))
              ])),
        λ id. elim (Option-cases (lookup id r.watches)) [
          | inl gone ↦ ground (arith, lookup-unregister_all t.to_remove id r', swept.watches id)
          | inr (v, there) ↦ ground (
            arith,
            lookup-unregister_all t.to_remove id r',
            swept.watches id,
            swept.removed id,
            h.entities.listed entity id,
          )
        ],
        swept.events,
      )
