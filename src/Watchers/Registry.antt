-- ===== src/Watchers/Registry.antt =====
-- watchers.rs: the registry. Each call runs with its locks held, one after the other.
use bw_exp.Common.{
  ℕ, List, [], ◌∷◌, Option, none, some, Bool, true, false, not, if◌then◌else◌, length, push,
  unwrap_or,
}
use bw_exp.Common.Ids.{without}
use bw_exp.Common.Float.{F64}
use bw_exp.Common.Map.{Map, lookup, insert, remove, modify}
use bw_exp.Watchers.{WatchValue, PropertyWatch, WatchTriggerEvent, WatchRegistry, should_trigger}

-- The list under a key, `get(&key).cloned().unwrap_or_default()`.
abbrev pub bucket : ℕ → Map (List ℕ) → List ℕ
bucket key m = unwrap_or (lookup key m) []

-- `entry(key).or_default().push(id)`.
unfoldable pub index : ℕ → ℕ → Map (List ℕ) → Map (List ℕ)
index key id m = insert key (push (bucket key m) id) m

module _ {F : Type 0} where
  unfoldable pub new : WatchRegistry F
  new = record { watches = []; by_entity = []; by_script = [] }

  unfoldable pub register : PropertyWatch F → WatchRegistry F → WatchRegistry F × ℕ
  unfolding index
  register w r = (
    record {
      watches = insert w.id w r.watches;
      by_entity = index w.entity_id w.id r.by_entity;
      by_script = index w.owner_script w.id r.by_script;
    },
    w.id,
  )

  unfoldable pub unregister : ℕ → WatchRegistry F → WatchRegistry F × Bool
  unregister id r = elim (lookup id r.watches) [
    | none ↦ (r, false)
    | some w ↦ (
      record {
        watches = remove id r.watches;
        by_entity = modify w.entity_id (without id) r.by_entity;
        by_script = modify w.owner_script (without id) r.by_script;
      },
      true,
    )
  ]

  unfoldable pub unregister_all : List ℕ → WatchRegistry F → WatchRegistry F
  unregister_all [] r = r
  unregister_all (id ∷ ids) r = unregister_all ids (unregister id r).0

  unfoldable pub unregister_for_entity : ℕ → WatchRegistry F → WatchRegistry F
  unfolding unregister_all
  unregister_for_entity entity r =
      let r' = unregister_all (bucket entity r.by_entity) r in
      record r' { by_entity = remove entity r'.by_entity }

  unfoldable pub unregister_for_script : ℕ → WatchRegistry F → WatchRegistry F
  unfolding unregister_all
  unregister_for_script script r =
      let r' = unregister_all (bucket script r.by_script) r in
      record r' { by_script = remove script r'.by_script }

  unfoldable pub get : ℕ → WatchRegistry F → Option (PropertyWatch F)
  get id r = lookup id r.watches

  unfoldable pub gather : List ℕ → Map (PropertyWatch F) → List (PropertyWatch F)
  gather [] watches = []
  gather (id ∷ ids) watches = elim (lookup id watches) [
    | none ↦ gather ids watches
    | some w ↦ w ∷ gather ids watches
  ]

  unfoldable pub list_for_entity : ℕ → WatchRegistry F → List (PropertyWatch F)
  unfolding gather
  list_for_entity entity r = gather (bucket entity r.by_entity) r.watches

  unfoldable pub count : WatchRegistry F → ℕ
  count r = length r.watches

  abbrev pub activate : Bool → PropertyWatch F → PropertyWatch F
  activate active w = record w { active = active }

  unfoldable pub set_active : Bool → ℕ → WatchRegistry F → WatchRegistry F × Bool
  set_active active id r = elim (lookup id r.watches) [
    | none ↦ (r, false)
    | some _ ↦ (record r { watches = modify id (activate active) r.watches }, true)
  ]

  unfoldable pub pause : ℕ → WatchRegistry F → WatchRegistry F × Bool
  unfolding set_active
  pause = set_active false

  unfoldable pub resume : ℕ → WatchRegistry F → WatchRegistry F × Bool
  unfolding set_active
  resume = set_active true

  unfoldable pub clear : WatchRegistry F → WatchRegistry F
  clear r = record { watches = []; by_entity = []; by_script = [] }

-- The variables of `check_entity`.
pub record Sweep (F : Type 0) : Type 0 where
  pub watches : Map (PropertyWatch F)
  pub events : List (WatchTriggerEvent F)
  pub to_remove : List ℕ

pub data Call (F : Type 0) : Type 0 where
  registers : PropertyWatch F → Call F
  unregisters drops_entity drops_script pauses resumes : ℕ → Call F
  checks : ℕ → (ℕ → Option (WatchValue F)) → Call F
  clears : Call F

module _ {F : Type 0} ⦃f : F64 F⦄ where
  abbrev pub event : PropertyWatch F → WatchValue F → WatchTriggerEvent F
  event w value = record {
    watch_id = w.id;
    entity_id = w.entity_id;
    property = w.property;
    old_value = w.last_value;
    new_value = value;
    callback = w.callback;
    owner_script = w.owner_script;
  }

  -- One watch of the loop, which is there and has a value.
  unfoldable pub fire : ℕ → PropertyWatch F → WatchValue F → Sweep F → Sweep F
  fire id w value s =
      let (w', triggered) = should_trigger w value in
      let watches = modify id (λ _. w') s.watches in
      if triggered
      then record {
        watches = watches;
        events = push s.events (event w value);
        to_remove = if not w'.active then push s.to_remove id else s.to_remove;
      }
      else record s { watches = watches }

  unfoldable pub check_one : (ℕ → Option (WatchValue F)) → ℕ → Sweep F → Sweep F
  unfolding fire
  check_one get_value id s = elim (lookup id s.watches) [
    | none ↦ s
    | some w ↦ elim (get_value w.property) [ none ↦ s | some value ↦ fire id w value s ]
  ]

  unfoldable pub check_all : (ℕ → Option (WatchValue F)) → List ℕ → Sweep F → Sweep F
  check_all get_value [] s = s
  check_all get_value (id ∷ ids) s = check_all get_value ids (check_one get_value id s)

  unfoldable pub check_entity :
      ℕ
      → (ℕ → Option (WatchValue F))
      → WatchRegistry F
      → WatchRegistry F × List (WatchTriggerEvent F)
  unfolding check_one check_all unregister_all
  check_entity entity get_value r =
      let s =
        check_all get_value (bucket entity r.by_entity)
          (record { watches = r.watches; events = []; to_remove = [] }) in
      (unregister_all s.to_remove (record r { watches = s.watches }), s.events)

  unfoldable pub handle : Call F → WatchRegistry F → WatchRegistry F
  unfolding register unregister unregister_for_entity unregister_for_script pause resume
      check_entity clear
  handle (registers w) r = (register w r).0
  handle (unregisters id) r = (unregister id r).0
  handle (drops_entity e) r = unregister_for_entity e r
  handle (drops_script p) r = unregister_for_script p r
  handle (pauses id) r = (pause id r).0
  handle (resumes id) r = (resume id r).0
  handle (checks e get_value) r = (check_entity e get_value r).0
  handle clears r = clear r
