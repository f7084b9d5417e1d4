-- ===== src/Store/Views.antt =====
-- store.rs: what the store answers after each write, against a table from namespaces and keys.
use bw_exp.Common.{
  ℕ, ◌+◌, ◌%◌, ◌^◌, ◌≡◌, refl, ap, ◌∙◌, arith, List, [], Option, none, some, ◌==◌, ◌&&◌,
  if◌then◌else◌, inl, inr, Option-cases,
}
use bw_exp.Common.Map.{Map, lookup, remove, map_option, lookup-insert, lookup-remove}
use bw_exp.Store.{
  ScriptState, InMemoryStore, Data, new_state, update, saved, save, get_metadata, load, delete,
  clear_namespace, checkpoint, restore_checkpoint, delete_checkpoint, Call, saves, deletes, clears,
  marks, restores, forgets, handle,
}

abbrev pub View : Type 0
View = ℕ → ℕ → Option ScriptState

-- What a snapshot holds.
abbrev pub view_of : Data → View
view_of entries namespace key = elim (lookup namespace entries) [
  | none ↦ none
  | some states ↦ lookup key states
]

-- What a save puts in the place of what was there: the first version, or the next one with the
-- time of creation kept.
abbrev pub written : ℕ → ℕ → ℕ → List ℕ → Option ScriptState → ScriptState
written now n k bytes none = record {
  bytes = bytes;
  namespace = n;
  key = k;
  created_at = now;
  updated_at = now;
  version = 1;
}
written now n k bytes (some state) = record {
  bytes = bytes;
  namespace = state.namespace;
  key = state.key;
  created_at = state.created_at;
  updated_at = now;
  version = (state.version + 1) % 2 ^ 64;
}

-- What each call makes of the table, with the snapshots at hand.
unfoldable pub change : Call → Map Data → View → View
change (saves now n k bytes) snapshots v n' k' =
    if (n == n') && (k == k') then some (written now n k bytes (v n k)) else v n' k'
change (deletes n k) snapshots v n' k' = if (n == n') && (k == k') then none else v n' k'
change (clears n) snapshots v n' k' = if n == n' then none else v n' k'
change (marks name) snapshots v n' k' = v n' k'
change (restores name) snapshots v n' k' = elim (lookup name snapshots) [
  | none ↦ v n' k'
  | some entries ↦ view_of entries n' k'
]
change (forgets name) snapshots v n' k' = v n' k'

lookup-saved :
    (now n k : ℕ) (bytes : List ℕ) (states : Map ScriptState) (k' : ℕ)
    → lookup k' (saved now n k bytes states)
      ≡ (if k == k' then some (written now n k bytes (lookup k states)) else lookup k' states)
unfolding saved new_state update
lookup-saved now n k bytes states k' = elim (Option-cases (lookup k states)) [
  | inl e ↦ rw (e, saved) (lookup-insert k k' (new_state now n k bytes) states)
  | inr (state, e) ↦ rw (e, saved) (lookup-insert k k' (update now bytes state) states)
]

get_metadata-handle :
    (c : Call) (s : InMemoryStore) (n' k' : ℕ)
    → get_metadata (handle c s) n' k' ≡ change c s.checkpoints (get_metadata s) n' k'
unfolding get_metadata handle change save delete clear_namespace checkpoint restore_checkpoint
    delete_checkpoint lookup
get_metadata-handle (saves now n k bytes) s n' k' = elim (Option-cases (lookup n s.entries)) [
  | inl e ↦ ground (
    arith,
    e,
    lookup-insert n n' (saved now n k bytes []) s.entries,
    lookup-saved now n k bytes [] k',
  )
  | inr (states, e) ↦ ground (
    arith,
    e,
    lookup-insert n n' (saved now n k bytes states) s.entries,
    lookup-saved now n k bytes states k',
  )
]
get_metadata-handle (deletes n k) s n' k' = elim (Option-cases (lookup n s.entries)) [
  | inl e ↦ ground (arith, e)
  | inr (states, e) ↦
      ground (arith, e, lookup-insert n n' (remove k states) s.entries, lookup-remove k k' states)
]
get_metadata-handle (clears n) s n' k' = elim (Option-cases (lookup n s.entries)) [
  | inl e ↦ ground (arith, e)
  | inr (states, e) ↦ ground (arith, e, lookup-remove n n' s.entries)
]
get_metadata-handle (marks name) s n' k' = refl
get_metadata-handle (restores name) s n' k' = elim (Option-cases (lookup name s.checkpoints)) [
  | inl e ↦ ground (arith, e)
  | inr (entries, e) ↦ ground (arith, e)
]
get_metadata-handle (forgets name) s n' k' = refl

load-get_metadata :
    (s : InMemoryStore) (n k : ℕ)
    → load s n k ≡ map_option (λ state. state.bytes) (get_metadata s n k)
unfolding load get_metadata
load-get_metadata s n k = elim (Option-cases (lookup n s.entries)) [
  | inl e ↦ rw (e, load, get_metadata) refl
  | inr (states, e) ↦ rw (e, load, get_metadata) refl
]

-- After a save, a deletion, the clearing of a namespace, or the making, restoring or deleting of
-- a checkpoint, the metadata and the bytes under every namespace and key are those of the table
-- that the call describes: only what it names changes, a save bumps the version (modulo 2^64) and
-- keeps the time of creation, and a restored checkpoint brings its own table.
pub handle_lem :
    (c : Call) (s : InMemoryStore) (n k : ℕ)
    → (get_metadata (handle c s) n k ≡ change c s.checkpoints (get_metadata s) n k)
      × (load (handle c s) n k
          ≡ map_option (λ state. state.bytes) (change c s.checkpoints (get_metadata s) n k))
handle_lem c s n k = (
  get_metadata-handle c s n k,
  load-get_metadata (handle c s) n k
      ∙ ap (map_option (λ state. state.bytes)) (get_metadata-handle c s n k),
)
