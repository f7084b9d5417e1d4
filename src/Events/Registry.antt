-- ===== src/Events/Registry.antt =====
-- events/mod.rs: the operations of the registry.
use bw_exp.Common.{
  ℕ, List, [], ◌∷◌, Option, none, some, Bool, true, false, ◌==◌, if◌then◌else◌, not, length, push,
  filter, map, unwrap_or,
}
use bw_exp.Common.Int.{leb_ℤ}
use bw_exp.Common.Ids.{without}
use bw_exp.Common.Map.{Map, lookup, insert, remove, modify}
use bw_exp.Events.{EventSubscription, EventRegistry}

unfoldable pub new : EventRegistry
new = record { by_event_type = []; by_id = []; by_owner = [] }

-- The list under a key, empty if there is none.
abbrev pub listed {ℓ} : {A : Type ℓ} → ℕ → Map (List A) → List A
listed k m = unwrap_or (lookup k m) []

-- `entry(k).or_default().push(x)`.
abbrev pub add {ℓ} : {A : Type ℓ} → ℕ → A → Map (List A) → Map (List A)
add k x m = insert k (push (listed k m) x) m

unfoldable pub add_to_types :
    List ℕ → EventSubscription → Map (List EventSubscription) → Map (List EventSubscription)
add_to_types [] sub m = m
add_to_types (t ∷ ts) sub m = add_to_types ts sub (add t sub m)

abbrev pub add_to_owner : Option ℕ → ℕ → Map (List ℕ) → Map (List ℕ)
add_to_owner none id m = m
add_to_owner (some owner) id m = add owner id m

unfoldable pub subscribe : EventSubscription → EventRegistry → EventRegistry × ℕ
unfolding add_to_types
subscribe sub r = (
  record {
    by_event_type = add_to_types sub.event_types sub r.by_event_type;
    by_id = insert sub.id sub r.by_id;
    by_owner = add_to_owner sub.owner_entity_id sub.id r.by_owner;
  },
  sub.id,
)

abbrev pub other_than : ℕ → EventSubscription → Bool
other_than id s = not (s.id == id)

unfoldable pub drop_from_types :
    List ℕ → ℕ → Map (List EventSubscription) → Map (List EventSubscription)
drop_from_types [] id m = m
drop_from_types (t ∷ ts) id m = drop_from_types ts id (modify t (filter (other_than id)) m)

abbrev pub drop_from_owner : Option ℕ → ℕ → Map (List ℕ) → Map (List ℕ)
drop_from_owner none id m = m
drop_from_owner (some owner) id m = modify owner (without id) m

unfoldable pub unsubscribe : ℕ → EventRegistry → EventRegistry × Bool
unfolding drop_from_types
unsubscribe id r = elim (lookup id r.by_id) [
  | none ↦ (record r { by_id = remove id r.by_id }, false)
  | some sub ↦ (
    record {
      by_event_type = drop_from_types sub.event_types id r.by_event_type;
      by_id = remove id r.by_id;
      by_owner = drop_from_owner sub.owner_entity_id id r.by_owner;
    },
    true,
  )
]

unfoldable pub unsubscribe_all : List ℕ → EventRegistry → EventRegistry
unfolding unsubscribe
unsubscribe_all [] r = r
unsubscribe_all (id ∷ ids) r = unsubscribe_all ids (unsubscribe id r).0

unfoldable pub unsubscribe_for_entity : ℕ → EventRegistry → EventRegistry
unfolding unsubscribe_all
unsubscribe_for_entity entity r =
    let r' = unsubscribe_all (listed entity r.by_owner) r in
    record r' { by_owner = remove entity r'.by_owner }

unfoldable pub get_handlers : ℕ → EventRegistry → List EventSubscription
get_handlers t r = listed t r.by_event_type

-- `sort_by_key(|h| h.priority)`, which keeps the order of handlers of one priority.
unfoldable pub place : EventSubscription → List EventSubscription → List EventSubscription
place x [] = x ∷ []
place x (y ∷ ys) =
    let rest = place x ys in if leb_ℤ x.priority y.priority then x ∷ y ∷ ys else y ∷ rest

unfoldable pub sort_by_priority : List EventSubscription → List EventSubscription
unfolding place
sort_by_priority [] = []
sort_by_priority (x ∷ xs) = place x (sort_by_priority xs)

unfoldable pub get_handlers_sorted : ℕ → EventRegistry → List EventSubscription
unfolding get_handlers sort_by_priority
get_handlers_sorted t r = sort_by_priority (get_handlers t r)

unfoldable pub get : ℕ → EventRegistry → Option EventSubscription
get id r = lookup id r.by_id

abbrev pub enable : Bool → EventSubscription → EventSubscription
enable b s = record s { enabled = b }

abbrev pub enable_if : ℕ → Bool → EventSubscription → EventSubscription
enable_if id b s = if s.id == id then enable b s else s

-- `for subs in by_type.values_mut()`.
unfoldable pub enable_in : ℕ → Bool → Map (List EventSubscription) → Map (List EventSubscription)
enable_in id b [] = []
enable_in id b (e ∷ m) = (e.0, map (enable_if id b) e.1) ∷ enable_in id b m

unfoldable pub set_enabled : ℕ → Bool → EventRegistry → EventRegistry
unfolding enable_in
set_enabled id b r = record r {
  by_id = modify id (enable b) r.by_id;
  by_event_type = enable_in id b r.by_event_type;
}

unfoldable pub subscription_count : EventRegistry → ℕ
subscription_count r = length r.by_id

unfoldable pub count_for_entity : ℕ → EventRegistry → ℕ
count_for_entity entity r = length (listed entity r.by_owner)
