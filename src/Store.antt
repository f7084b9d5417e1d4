-- ===== src/Store.antt =====
-- crates/bw-scripting/src/persistence/store.rs: the store in memory. A namespace, a key and the name
-- of a checkpoint are only compared: a number stands for each. No operation of this store fails. The
-- clock is an argument, and the locks are left out.
pub mod Views
pub mod Checkpoints
mod Examples
use bw_exp.Common.{
  ℕ, ◌+◌, ◌%◌, ◌^◌, List, [], ◌∷◌, Option, none, some, Bool, true, false, is_some, unwrap_or,
  length,
}
use bw_exp.Common.Map.{Map, lookup, insert, remove, modify, contains_key, map_option}

pub record ScriptState : Type 0 where
  pub bytes : List ℕ
  pub namespace : ℕ
  pub key : ℕ
  pub created_at : ℕ
  pub updated_at : ℕ
  pub version : ℕ

abbrev pub Data : Type 0
Data = Map (Map ScriptState)

pub record InMemoryStore : Type 0 where
  pub entries : Data
  pub checkpoints : Map Data

-- `ScriptState::new`, `update` and `InMemoryStore::new`.
unfoldable pub new_state : ℕ → ℕ → ℕ → List ℕ → ScriptState
new_state now namespace key bytes = record {
  bytes = bytes;
  namespace = namespace;
  key = key;
  created_at = now;
  updated_at = now;
  version = 1;
}

unfoldable pub update : ℕ → List ℕ → ScriptState → ScriptState
update now bytes state = record state {
  bytes = bytes;
  updated_at = now;
  version = (state.version + 1) % 2 ^ 64;
}

unfoldable pub new : InMemoryStore
new = record { entries = []; checkpoints = [] }

-- What a namespace holds after a save.
unfoldable pub saved : ℕ → ℕ → ℕ → List ℕ → Map ScriptState → Map ScriptState
saved now namespace key bytes states = elim (lookup key states) [
  | none ↦ insert key (new_state now namespace key bytes) states
  | some state ↦ insert key (update now bytes state) states
]

unfoldable pub save : ℕ → ℕ → ℕ → List ℕ → InMemoryStore → InMemoryStore
unfolding saved
save now namespace key bytes s = record s {
  entries =
      insert namespace (saved now namespace key bytes (unwrap_or (lookup namespace s.entries) []))
        s.entries;
}

unfoldable pub get_metadata : InMemoryStore → ℕ → ℕ → Option ScriptState
get_metadata s namespace key = elim (lookup namespace s.entries) [
  | none ↦ none
  | some states ↦ lookup key states
]

unfoldable pub load : InMemoryStore → ℕ → ℕ → Option (List ℕ)
load s namespace key = elim (lookup namespace s.entries) [
  | none ↦ none
  | some states ↦ map_option (λ state. state.bytes) (lookup key states)
]

unfoldable pub exists : InMemoryStore → ℕ → ℕ → Bool
unfolding load
exists s namespace key = is_some (load s namespace key)

unfoldable pub delete : ℕ → ℕ → InMemoryStore → InMemoryStore × Bool
delete namespace key s = elim (lookup namespace s.entries) [
  | none ↦ (s, false)
  | some states ↦ (
    record s { entries = insert namespace (remove key states) s.entries },
    contains_key key states,
  )
]

unfoldable pub clear_namespace : ℕ → InMemoryStore → InMemoryStore × ℕ
clear_namespace namespace s = elim (lookup namespace s.entries) [
  | none ↦ (s, 0)
  | some states ↦ (record s { entries = remove namespace s.entries }, length states)
]

unfoldable pub checkpoint : ℕ → InMemoryStore → InMemoryStore
checkpoint name s = record s { checkpoints = insert name s.entries s.checkpoints }

unfoldable pub restore_checkpoint : ℕ → InMemoryStore → InMemoryStore × Bool
restore_checkpoint name s = elim (lookup name s.checkpoints) [
  | none ↦ (s, false)
  | some snapshot ↦ (record s { entries = snapshot }, true)
]

unfoldable pub delete_checkpoint : ℕ → InMemoryStore → InMemoryStore × Bool
delete_checkpoint name s =
    (record s { checkpoints = remove name s.checkpoints }, contains_key name s.checkpoints)

-- The calls that write.
pub data Call : Type 0 where
  saves : (now namespace key : ℕ) → List ℕ → Call
  deletes : (namespace key : ℕ) → Call
  clears : (namespace : ℕ) → Call
  marks : (name : ℕ) → Call
  restores : (name : ℕ) → Call
  forgets : (name : ℕ) → Call

unfoldable pub handle : Call → InMemoryStore → InMemoryStore
handle (saves now namespace key bytes) s = save now namespace key bytes s
handle (deletes namespace key) s = (delete namespace key s).0
handle (clears namespace) s = (clear_namespace namespace s).0
handle (marks name) s = checkpoint name s
handle (restores name) s = (restore_checkpoint name s).0
handle (forgets name) s = (delete_checkpoint name s).0

unfoldable pub run : List Call → InMemoryStore → InMemoryStore
run [] s = s
run (c ∷ cs) s = run cs (handle c s)
