-- ===== src/Watchers/Consistency.antt =====
-- watchers.rs: the registry's lists agree with its watches.
use bw_exp.Common.{
  ℕ, ◌≡◌, refl, ap, ◌∙◌, arith, List, [], ◌∷◌, none, some, ◌==◌, if◌then◌else◌, Option-cases, inl,
  inr,
}
use bw_exp.Common.Ids.{contains}
use bw_exp.Common.Map.{Map, lookup, lookup-insert, lookup-remove}
use bw_exp.Watchers.{PropertyWatch, WatchRegistry}
use bw_exp.Watchers.Registry.{
  bucket, register, unregister, unregister_all, unregister_for_entity, unregister_for_script, clear,
  new,
}
use bw_exp.Watchers.Index.{
  has_key, IsIndex, index-IsIndex, without-IsIndex, remove-IsIndex, same_keys-IsIndex,
}

module _ {F : Type 0} where
  abbrev pub entity_of : PropertyWatch F → ℕ
  entity_of w = w.entity_id

  abbrev pub script_of : PropertyWatch F → ℕ
  script_of w = w.owner_script

  -- Every watch is stored under its id and stands once in the list of its entity and once in that
  -- of its script; the lists have nothing else.
  pub record IsIndexed (r : WatchRegistry F) : Type 0 where
    pub keyed : (id : ℕ) (w : PropertyWatch F) → lookup id r.watches ≡ some w → w.id ≡ id
    pub entities : IsIndex entity_of r.watches r.by_entity
    pub scripts : IsIndex script_of r.watches r.by_script

  pub new-IsIndexed : IsIndexed new
  unfolding new lookup contains
  new-IsIndexed = record {
    keyed = λ id w e. cc;
    entities = record { listed = λ k id. refl; distinct = λ k. tt };
    scripts = record { listed = λ k id. refl; distinct = λ k. tt };
  }

  pub clear-IsIndexed : (r : WatchRegistry F) → IsIndexed (clear r)
  unfolding clear new
  clear-IsIndexed r = new-IsIndexed

  pub register-IsIndexed :
      (w : PropertyWatch F) (r : WatchRegistry F)
      → lookup w.id r.watches ≡ none
      → IsIndexed r
      → IsIndexed (register w r).0
  unfolding register
  register-IsIndexed w r fresh h = record {
    keyed = λ id v e. ground (arith, lookup-insert w.id id w r.watches, h.keyed id v);
    entities = index-IsIndex entity_of r.watches r.by_entity h.entities w fresh;
    scripts = index-IsIndex script_of r.watches r.by_script h.scripts w fresh;
  }

  -- What unregistering leaves.
  pub lookup-unregister :
      (id j : ℕ) (r : WatchRegistry F)
      → lookup j (unregister id r).0.watches ≡ (if id == j then none else lookup j r.watches)
  unfolding unregister
  lookup-unregister id j r = elim (Option-cases (lookup id r.watches)) [
    | inl e ↦ rw (e, unregister) (ground (arith, e))
    | inr (w, e) ↦ rw (e, unregister) (lookup-remove id j r.watches)
  ]

  pub unregister-IsIndexed :
      (id : ℕ) (r : WatchRegistry F) → IsIndexed r → IsIndexed (unregister id r).0
  unfolding unregister
  unregister-IsIndexed id r h = elim (Option-cases (lookup id r.watches)) [
    | inl e ↦ rw (e, unregister) h
    | inr (w, e) ↦
        rw (e, unregister)
          (record {
            keyed = λ j v found. ground (arith, lookup-remove id j r.watches, h.keyed j v);
            entities = without-IsIndex entity_of r.watches r.by_entity h.entities id w e;
            scripts = without-IsIndex script_of r.watches r.by_script h.scripts id w e;
          })
  ]

  pub lookup-unregister_all :
      (ids : List ℕ) (j : ℕ) (r : WatchRegistry F)
      → lookup j (unregister_all ids r).watches
        ≡ (if contains ids j then none else lookup j r.watches)
  unfolding unregister_all contains
  lookup-unregister_all [] j r = refl
  lookup-unregister_all (id ∷ ids) j r =
      ground (arith, lookup-unregister_all ids j (unregister id r).0, lookup-unregister id j r)

  pub unregister_all-IsIndexed :
      (ids : List ℕ) (r : WatchRegistry F) → IsIndexed r → IsIndexed (unregister_all ids r)
  unfolding unregister_all
  unregister_all-IsIndexed [] r h = h
  unregister_all-IsIndexed (id ∷ ids) r h =
      unregister_all-IsIndexed ids (unregister id r).0 (unregister-IsIndexed id r h)

  pub unregister_for_entity_lem :
      (e : ℕ) (r : WatchRegistry F)
      → IsIndexed r
      → IsIndexed (unregister_for_entity e r)
        × ((j : ℕ)
            → lookup j (unregister_for_entity e r).watches
              ≡ (if has_key entity_of e (lookup j r.watches) then none else lookup j r.watches))
  unfolding unregister_for_entity
  unregister_for_entity_lem e r h =
      let ids = bucket e r.by_entity in
      let h' = unregister_all-IsIndexed ids r h in
      (
        record {
          keyed = h'.keyed;
          entities =
              remove-IsIndex entity_of (unregister_all ids r).watches
                (unregister_all ids r).by_entity h'.entities e
                (λ id. ground (
                  arith,
                  h'.entities.listed e id,
                  lookup-unregister_all ids id r,
                  h.entities.listed e id,
                ));
          scripts = h'.scripts;
        },
        λ j. ground (arith, lookup-unregister_all ids j r, h.entities.listed e j),
      )

  pub unregister_for_script_lem :
      (p : ℕ) (r : WatchRegistry F)
      → IsIndexed r
      → IsIndexed (unregister_for_script p r)
        × ((j : ℕ)
            → lookup j (unregister_for_script p r).watches
              ≡ (if has_key script_of p (lookup j r.watches) then none else lookup j r.watches))
  unfolding unregister_for_script
  unregister_for_script_lem p r h =
      let ids = bucket p r.by_script in
      let h' = unregister_all-IsIndexed ids r h in
      (
        record {
          keyed = h'.keyed;
          entities = h'.entities;
          scripts =
              remove-IsIndex script_of (unregister_all ids r).watches
                (unregister_all ids r).by_script h'.scripts p
                (λ id. ground (
                  arith,
                  h'.scripts.listed p id,
                  lookup-unregister_all ids id r,
                  h.scripts.listed p id,
                ));
        },
        λ j. ground (arith, lookup-unregister_all ids j r, h.scripts.listed p j),
      )

  -- A registry with the same lists, whose watches have the ids and keys that they had.
  pub same_keys-IsIndexed :
      (r : WatchRegistry F) (watches : Map (PropertyWatch F))
      → IsIndexed r
      → ((j : ℕ) (w : PropertyWatch F)
          → lookup j watches ≡ some w
          → (v : PropertyWatch F) × (lookup j r.watches ≡ some v)
            × (w.id ≡ v.id)
            × (w.entity_id ≡ v.entity_id)
            × (w.owner_script ≡ v.owner_script))
      → ((j : ℕ) → lookup j watches ≡ none → lookup j r.watches ≡ none)
      → IsIndexed (record r { watches = watches })
  same_keys-IsIndexed r watches h back gone = record {
    keyed = λ j w e. let (v, found, same, _, _) = back j w e in same ∙ h.keyed j v found;
    entities = same_keys-IsIndex entity_of r.watches r.by_entity h.entities watches (λ k j.
        elim (Option-cases (lookup j watches)) [
          | inl e ↦ rw (e, gone j e) refl
          | inr (w, e) ↦
              let (v, found, _, same, _) = back j w e in rw (e, found) (ap (λ x. x == k) same)
        ]);
    scripts = same_keys-IsIndex script_of r.watches r.by_script h.scripts watches (λ k j.
        elim (Option-cases (lookup j watches)) [
          | inl e ↦ rw (e, gone j e) refl
          | inr (w, e) ↦
              let (v, found, _, _, same) = back j w e in rw (e, found) (ap (λ x. x == k) same)
        ]);
  }
