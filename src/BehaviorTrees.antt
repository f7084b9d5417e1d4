-- ===== src/BehaviorTrees.antt =====
-- crates/bw-ai: behavior trees (behavior_tree.rs), the choice by scores (utility.rs) and the runner
-- (runner.rs). The name of an action, a condition, a script or a subtree is only compared: a number
-- stands for each. `F` stands for the floats, `D` for the values of rhai, `A` for its compiled
-- scripts and `W` for the world that scripts act on. The traces are left out.
pub mod Utility
pub mod Runs
pub mod Decorators
pub mod Nodes
pub mod Leaves
pub mod Totality
pub mod Endless
pub mod Choice
pub mod Memory
mod Examples
use bw_exp.Common.{
  ℕ, suc, ◌+◌, ◌%◌, ◌^◌, List, [], ◌∷◌, Option, none, some, Bool, true, false, not, ◌&&◌, ◌||◌,
  ◌==◌, if◌then◌else◌, leb, ltb, is_none, filter,
}
use bw_exp.Common.Float.{F64}
use bw_exp.Common.Map.{Map, lookup, insert}

pub data BtStatus : Type 0 where
  success failure running : BtStatus

pub data DecoratorKind (F : Type 0) : Type 0 where
  repeat : Option ℕ → DecoratorKind F
  until_fail : DecoratorKind F
  invert : DecoratorKind F
  cooldown : F → DecoratorKind F
  run_once : DecoratorKind F
  always_succeed : DecoratorKind F
  always_fail : DecoratorKind F
  timeout : F → DecoratorKind F

pub record UtilityOption (F : Type 0) : Type 0 where
  pub action_name : ℕ
  pub considerations : List ℕ
  pub weight : F

mutual
  pub data BtNode (F : Type 0) : Type 0 where
    sequence : Children F → BtNode F
    selector : Children F → BtNode F
    action : ℕ → BtNode F
    condition : ℕ → BtNode F
    utility : List (UtilityOption F) → BtNode F
    decorator : DecoratorKind F → BtNode F → BtNode F
    force_sequence : Children F → BtNode F
    wait : ℕ → BtNode F
    succeed : BtNode F
    fail : BtNode F
    subtree : ℕ → BtNode F

  pub data Children (F : Type 0) : Type 0 where
    nil : Children F
    cons : BtNode F → Children F → Children F

pub record BtNodeState (F : Type 0) : Type 0 where
  pub child_index : ℕ
  pub repeat_count : ℕ
  pub last_execution : Option F
  pub ticks_waited : ℕ
  pub stored_result : Option BtStatus

-- A piece of a path, as `format!` writes it: `/seq_1`, `/sel_1`, `/force_1`, `/child`, `/sub_n`
-- and `_start`. The first piece of a path here is the last one that was written.
pub data Piece : Type 0 where
  seq_piece sel_piece force_piece sub_piece : ℕ → Piece
  child_piece start_piece : Piece

abbrev pub NodePath : Type 0
NodePath = List Piece

unfoldable pub same_piece : Piece → Piece → Bool
same_piece (seq_piece i) (seq_piece j) = i == j
same_piece (sel_piece i) (sel_piece j) = i == j
same_piece (force_piece i) (force_piece j) = i == j
same_piece (sub_piece i) (sub_piece j) = i == j
same_piece child_piece child_piece = true
same_piece start_piece start_piece = true
same_piece _ _ = false

unfoldable pub same_path : NodePath → NodePath → Bool
unfolding same_piece
same_path [] [] = true
same_path [] (_ ∷ _) = false
same_path (_ ∷ _) [] = false
same_path (a ∷ p) (b ∷ q) = if same_piece a b then same_path p q else false

-- The keys of the states: an entity and a path.
pub record StateKey : Type 0 where
  pub entity : ℕ
  pub path : NodePath

abbrev pub States : Type 0 → Type 0
States F = List (StateKey × BtNodeState F)

abbrev pub same_key : StateKey → StateKey → Bool
same_key k j = if k.entity == j.entity then same_path k.path j.path else false

pub record AiContext (F D : Type 0) : Type 0 where
  pub entity_id : ℕ
  pub tick : ℕ
  pub delta_time : F
  pub game_time : F
  pub context_data : Map D

-- The rhai engine: a call acts on the world and gives a value or an error. What an action returns
-- is read as a status and the data that it leaves (`parse_status_and_data`).
pub record Engine (F D A W : Type 0) : Type 0 where
  pub call_action : A → ℕ → AiContext F D → W → W × Option (BtStatus × Option (Map D))
  pub call_condition : A → ℕ → AiContext F D → W → W × Option Bool
  pub call_score : A → ℕ → AiContext F D → W → W × Option F

-- `world` is what the scripts of the engine act on.
pub record Runner (F D A W : Type 0) : Type 0 where
  pub scripts : Map A
  pub states : States F
  pub subtrees : Map (BtNode F)
  pub pending_data_updates : Option (Map D)
  pub world : W

module _ {F : Type 0} where
  unfoldable pub default_state : BtNodeState F
  default_state = record {
    child_index = 0;
    repeat_count = 0;
    last_execution = none;
    ticks_waited = 0;
    stored_result = none;
  }

  unfoldable pub get_state : StateKey → States F → Option (BtNodeState F)
  get_state k [] = none
  get_state k (e ∷ es) = if same_key e.0 k then some e.1 else get_state k es

  unfoldable pub remove_state : StateKey → States F → States F
  remove_state k [] = []
  remove_state k (e ∷ es) =
      let rest = remove_state k es in if same_key e.0 k then rest else e ∷ rest

  -- `entry(k).or_default()`, changed by `f`.
  unfoldable pub change_state : StateKey → (BtNodeState F → BtNodeState F) → States F → States F
  unfolding default_state
  change_state k f [] = (k, f default_state) ∷ []
  change_state k f (e ∷ es) =
      let rest = change_state k f es in if same_key e.0 k then (e.0, f e.1) ∷ es else e ∷ rest

  unfoldable pub entity_states : ℕ → States F → States F
  entity_states entity [] = []
  entity_states entity (e ∷ es) =
      let rest = entity_states entity es in if e.0.entity == entity then rest else e ∷ rest

-- The key of a node's state.
abbrev pub key : {F D : Type 0} → AiContext F D → NodePath → StateKey
key ctx path = record { entity = ctx.entity_id; path = path }
