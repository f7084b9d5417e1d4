-- ===== src/Watchers/Calls.antt =====
-- watchers.rs: sequences of calls.
use bw_exp.Common.{
  ℕ, ◌≡◌, ◌≢◌, refl, ◌∙◌, arith, List, [], ◌∷◌, ◌++◌, Option, none, some, Bool, true, false, ◌==◌,
  if◌then◌else◌, Bool-cases, Option-cases, inl, inr, ==_iff,
}
use bw_exp.Common.Float.{F64}
use bw_exp.Common.Map.{Map, lookup, modify, lookup-modify, lookup-insert, map_option}
use bw_exp.Watchers.{WatchValue, PropertyWatch, WatchTriggerEvent, WatchRegistry, should_trigger}
use bw_exp.Watchers.Registry.{
  Call, registers, unregisters, drops_entity, drops_script, pauses, resumes, checks, clears, handle,
  check_entity, set_active, activate, pause, resume, register, clear, bucket, gather,
  list_for_entity,
}
use bw_exp.Watchers.Consistency.{
  IsIndexed, same_keys-IsIndexed, register-IsIndexed, unregister-IsIndexed,
  unregister_for_entity_lem, unregister_for_script_lem, clear-IsIndexed, lookup-unregister,
}
use bw_exp.Watchers.Sweeps.{checked, spent, fired, fired_one, check_entity_lem}

module _ {F : Type 0} ⦃f : F64 F⦄ where
  -- A new watch has an id that no other has.
  abbrev pub IsFresh : Call F → WatchRegistry F → Type 0
  IsFresh (registers w) r = lookup w.id r.watches ≡ none
  IsFresh _ r = Unit {0}

  lookup-set_active :
      (id j : ℕ) (active : Bool) (r : WatchRegistry F)
      → lookup j (set_active active id r).0.watches ≡ (
          if id == j then map_option (activate active) (lookup j r.watches) else lookup j r.watches)
  unfolding set_active
  lookup-set_active id j active r = elim (Option-cases (lookup id r.watches)) [
    | inl gone ↦
        rw (gone, set_active)
          (elim (Bool-cases (id == j)) [
            | inl same ↦ rw same (rw (← (==_iff id j).0 same) (rw gone refl))
            | inr other ↦ rw other refl
          ])
    | inr (w, there) ↦ rw (there, set_active) (lookup-modify id j (activate active) r.watches)
  ]

  set_active-IsIndexed :
      (id : ℕ) (active : Bool) (r : WatchRegistry F)
      → IsIndexed r
      → IsIndexed (set_active active id r).0
  unfolding set_active
  set_active-IsIndexed id active r h = elim (Option-cases (lookup id r.watches)) [
    | inl gone ↦ rw (gone, set_active) h
    | inr (v, there) ↦
        rw (there, set_active)
          (same_keys-IsIndexed r (modify id (activate active) r.watches) h
            (λ j w e. elim (Option-cases (lookup j r.watches)) [
              | inl gone ↦ absurd (ground (arith, lookup-modify id j (activate active) r.watches))
              | inr (v, there) ↦
                  let changes = lookup-modify id j (activate active) r.watches in
                  (v, there, ground arith, ground arith, ground arith)
            ])
            (λ j e. elim (Option-cases (lookup j r.watches)) [
              | inl gone ↦ gone
              | inr (v, there) ↦
                  absurd (ground (arith, lookup-modify id j (activate active) r.watches))
            ]))
  ]

  -- Every call keeps the lists of the registry in agreement with its watches: a watch is stored
  -- under its id and stands once in the list of its entity and once in that of its script, and
  -- the lists have nothing else. A registration must bring a fresh id.
  pub handle-IsIndexed :
      (c : Call F) (r : WatchRegistry F) → IsFresh c r → IsIndexed r → IsIndexed (handle c r)
  unfolding handle pause resume
  handle-IsIndexed (registers w) r fresh h = register-IsIndexed w r fresh h
  handle-IsIndexed (unregisters id) r fresh h = unregister-IsIndexed id r h
  handle-IsIndexed (drops_entity e) r fresh h = (unregister_for_entity_lem e r h).0
  handle-IsIndexed (drops_script p) r fresh h = (unregister_for_script_lem p r h).0
  handle-IsIndexed (pauses id) r fresh h = set_active-IsIndexed id false r h
  handle-IsIndexed (resumes id) r fresh h = set_active-IsIndexed id true r h
  handle-IsIndexed (checks e get_value) r fresh h = (check_entity_lem get_value e r h).0
  handle-IsIndexed clears r fresh h = clear-IsIndexed r

  -- The calls that lead from one registry to another, none of which registers the id `id`.
  pub data Later (id : ℕ) (r : WatchRegistry F) : WatchRegistry F → Type 0 where
    here : Later id r r
    next :
        {s : WatchRegistry F} (c : Call F)
        → Later id r s
        → IsFresh c s
        → ((w : PropertyWatch F) → c ≡ registers w → w.id ≢ id)
        → Later id r (handle c s)

  pub Later-IsIndexed : (id : ℕ) {r s : WatchRegistry F} → IsIndexed r → Later id r s → IsIndexed s
  Later-IsIndexed id h here = h
  Later-IsIndexed id h (next {s} c l fresh other) =
      handle-IsIndexed c s fresh (Later-IsIndexed id h l)

  handle-none :
      (id : ℕ) (c : Call F) (r : WatchRegistry F)
      → IsIndexed r
      → ((w : PropertyWatch F) → c ≡ registers w → w.id ≢ id)
      → lookup id r.watches ≡ none
      → lookup id (handle c r).watches ≡ none
  unfolding handle register clear lookup pause resume
  handle-none id (registers w) r h other gone =
      ground (arith, lookup-insert w.id id w r.watches, other w refl)
  handle-none id (unregisters k) r h other gone = ground (arith, lookup-unregister k id r)
  handle-none id (drops_entity e) r h other gone =
      ground (arith, (unregister_for_entity_lem e r h).1 id)
  handle-none id (drops_script p) r h other gone =
      ground (arith, (unregister_for_script_lem p r h).1 id)
  handle-none id (pauses k) r h other gone = ground (arith, lookup-set_active k id false r)
  handle-none id (resumes k) r h other gone = ground (arith, lookup-set_active k id true r)
  handle-none id (checks e get_value) r h other gone =
      ground (arith, (check_entity_lem get_value e r h).1 id)
  handle-none id clears r h other gone = refl

  Later-none :
      (id : ℕ) {r s : WatchRegistry F}
      → IsIndexed r
      → lookup id r.watches ≡ none
      → Later id r s
      → lookup id s.watches ≡ none
  Later-none id h gone here = gone
  Later-none id h gone (next {s} c l fresh other) =
      handle-none id c s (Later-IsIndexed id h l) other (Later-none id h gone l)

  -- An event of the watch is among these.
  abbrev pub names : List (WatchTriggerEvent F) → ℕ → Bool
  names [] id = false
  names (e ∷ es) id = if e.watch_id == id then true else names es id

  names-append :
      (es fs : List (WatchTriggerEvent F)) (id : ℕ)
      → names (es ++ fs) id ≡ (if names es id then true else names fs id)
  names-append [] fs id = refl
  names-append (e ∷ es) fs id = ground (arith, names-append es fs id)

  names-fired_one :
      (get_value : ℕ → Option (WatchValue F)) (w : PropertyWatch F) (id : ℕ)
      → w.id ≢ id
      → names (fired_one get_value w) id ≡ false
  names-fired_one get_value w id other = ground arith

  gather-none :
      (j : ℕ) (ids : List ℕ) (watches : Map (PropertyWatch F))
      → lookup j watches ≡ none
      → gather (j ∷ ids) watches ≡ gather ids watches
  unfolding gather
  gather-none j ids watches e = ground (arith, e)

  gather-some :
      (j : ℕ) (ids : List ℕ) (watches : Map (PropertyWatch F)) {w : PropertyWatch F}
      → lookup j watches ≡ some w
      → gather (j ∷ ids) watches ≡ w ∷ gather ids watches
  unfolding gather
  gather-some j ids watches e = ground (arith, e)

  names-fired :
      (get_value : ℕ → Option (WatchValue F)) (id : ℕ) (ids : List ℕ)
      (watches : Map (PropertyWatch F))
      → ((j : ℕ) (w : PropertyWatch F) → lookup j watches ≡ some w → w.id ≡ j)
      → lookup id watches ≡ none
      → names (fired get_value (gather ids watches)) id ≡ false
  unfolding gather
  names-fired get_value id [] watches keyed gone = refl
  names-fired get_value id (j ∷ ids) watches keyed gone =
      let rest = names-fired get_value id ids watches keyed gone in
      elim (Option-cases (lookup j watches)) [
        | inl e ↦ rw (gather-none j ids watches e) rest
        | inr (w, e) ↦
            let other : w.id ≢ id = λ q. cc (keyed j w e) in
            rw (gather-some j ids watches e) (
              names-append (fired_one get_value w) (fired get_value (gather ids watches)) id
              ∙ ground (arith, names-fired_one get_value w id other, rest))
      ]

  spent_one_shot :
      (get_value : ℕ → Option (WatchValue F)) (w : PropertyWatch F)
      → w.is_one_shot ≡ true
      → (checked get_value w).1 ≡ true
      → spent get_value w ≡ true
  unfolding should_trigger
  spent_one_shot get_value w shot fires = ground arith

  -- If the lists of a registry agree with its watches, then a one-shot watch that fires in a
  -- check is gone, and is never there again and never fires again, whatever calls follow, as long
  -- as each registration brings a fresh id and none brings the id of the watch.
  pub one_shot_once :
      (entity : ℕ) (get_value : ℕ → Option (WatchValue F)) (id : ℕ) (w : PropertyWatch F)
      (r s : WatchRegistry F)
      → IsIndexed r
      → lookup id r.watches ≡ some w
      → w.entity_id ≡ entity
      → w.is_one_shot ≡ true
      → (checked get_value w).1 ≡ true
      → Later id (check_entity entity get_value r).0 s
      → (lookup id s.watches ≡ none)
        × ((e : ℕ) (get_value' : ℕ → Option (WatchValue F))
            → names (check_entity e get_value' s).1 id ≡ false)
  unfolding list_for_entity
  one_shot_once entity get_value id w r s h there own shot fires l =
      let (h', left, _) = check_entity_lem get_value entity r h in
      let gone : lookup id (check_entity entity get_value r).0.watches ≡ none =
        ground (arith, left id, spent_one_shot get_value w shot fires) in
      let still = Later-none id h' gone l in
      (
        still,
        λ e get_value'.
            let h'' = Later-IsIndexed id h' l in
            rw ((check_entity_lem get_value' e s h'').2)
              (names-fired get_value' id (bucket e s.by_entity) s.watches h''.keyed still),
      )
