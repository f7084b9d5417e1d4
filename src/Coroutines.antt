-- ===== src/Coroutines.antt =====
-- crates/bw-scripting/src/coroutines: coroutines (mod.rs) and their scheduler (scheduler.rs). A
-- script path, a function, an event type and the name of a variable are only compared and copied:
-- a number stands for each. Ticks are u64. The locks are left out but for one that is taken twice.
pub mod Scheduler
pub mod Locks
pub mod Loop
pub mod Tracking
pub mod Lifecycle
pub mod Ticks
pub mod Calls
pub mod Waking
pub mod Bounds
pub mod Returns
mod Examples
use bw_exp.Common.{ℕ, ◌+◌, ◌%◌, ◌^◌, List, [], ◌∷◌, Option, none, some, Bool, true, false, leb}
use bw_exp.Common.Map.{Map, insert}

pub data CoroutineState : Type 0 where
  ready running waiting_for_ticks waiting_for_next_frame completed : CoroutineState
  waiting_for_event : (event_type : ℕ) → CoroutineState
  failed : (error : List ℕ) → CoroutineState

-- `D` stands for rhai's `Dynamic`.
pub record Coroutine (D : Type 0) : Type 0 where
  pub script_path : ℕ
  pub function_name : ℕ
  pub state : CoroutineState
  pub local_vars : Map D
  pub resume_value : Option D
  pub created_at : ℕ
  pub resume_at : Option ℕ
  pub owner_entity_id : Option ℕ
  pub sector_id : Option ℕ

-- `F` stands for `f64`.
pub data YieldType (F : Type 0) : Type 0 where
  ticks : ℕ → YieldType F
  seconds : F → YieldType F
  next_frame : YieldType F
  event : (event_type : ℕ) → YieldType F
  schedule : (delay_ticks callback : ℕ) → YieldType F

-- `extra` is the field `data`.
pub record YieldRequest (F D : Type 0) : Type 0 where
  pub yield_type : YieldType F
  pub extra : Map D

pub data ExecResult (F D : Type 0) : Type 0 where
  completed : D → ExecResult F D
  yielded : YieldRequest F D → ExecResult F D
  failed : (error : List ℕ) → ExecResult F D

-- What the scheduler calls: the script engine, with what a coroutine does when it is resumed on a
-- tick, the conversions of rhai's values and of seconds, and the identifiers drawn for callbacks.
pub record Engine (F D : Type 0) : Type 0 where
  pub has_script : ℕ → Bool
  pub call : (now : ℕ) → Coroutine D → ExecResult F D
  pub from_map : Map D → D
  pub to_ticks : F → ℕ
  pub new_id : (now id : ℕ) → ℕ

module _ {D : Type 0} where
  -- `Coroutine::new`.
  unfoldable pub new : ℕ → ℕ → ℕ → Coroutine D
  new script_path function_name now = record {
    script_path = script_path;
    function_name = function_name;
    state = CoroutineState.ready;
    local_vars = [];
    resume_value = none;
    created_at = now;
    resume_at = none;
    owner_entity_id = none;
    sector_id = none;
  }

  unfoldable pub is_ready : Coroutine D → ℕ → Bool
  is_ready c now = elim c.state [
    | ready ↦ true
    | running ↦ false
    | waiting_for_ticks ↦ elim c.resume_at [ none ↦ false | some t ↦ leb t now ]
    | waiting_for_next_frame ↦ false
    | completed ↦ false
    | waiting_for_event e ↦ false
    | failed e ↦ false
  ]

  -- `Map::extend`.
  unfoldable pub extend : Map D → Map D → Map D
  extend vars [] = vars
  extend vars ((name, value) ∷ rest) = extend (insert name value vars) rest

abbrev pub add_u64 : ℕ → ℕ → ℕ
add_u64 a b = (a + b) % 2 ^ 64
