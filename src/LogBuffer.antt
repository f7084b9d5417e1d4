-- ===== src/LogBuffer.antt =====
-- crates/bw-runtime/src/scripting/log_buffer.rs. The clock is an argument of `log`.
pub mod History
mod Examples
use bw_exp.Common.{
  ℕ, ◌+◌, ◌%◌, ◌^◌, List, [], ◌∷◌, Option, none, Bool, true, false, if◌then◌else◌, leb, length,
  push, take, filter,
}
use mathlib.Core.List.{reverse}

pub data LogLevel : Type 0 where
  info warning error : LogLevel

pub record ScriptLogEntry : Type 0 where
  pub timestamp : ℕ
  pub level : LogLevel
  pub message : List ℕ
  pub script_path : Option (List ℕ)
  pub behavior_id : Option ℕ

pub record LogBufferStats : Type 0 where
  pub len : ℕ
  pub capacity : ℕ
  pub dropped : ℕ
  pub errors : ℕ
  pub warnings : ℕ

-- Oldest entry first; `dropped_count` is a `u64`.
pub record ScriptLogBuffer : Type 0 where
  pub entries : List ScriptLogEntry
  pub max_entries : ℕ
  pub dropped_count : ℕ

unfoldable pub new : ℕ → ScriptLogBuffer
new max_entries = record { entries = []; max_entries = max_entries; dropped_count = 0 }

-- `pop_front`, which does nothing on an empty queue.
abbrev pub pop_front {ℓ} : {A : Type ℓ} → List A → List A
pop_front [] = []
pop_front (x ∷ xs) = xs

unfoldable pub push_entry : ScriptLogBuffer → ScriptLogEntry → ScriptLogBuffer
push_entry b e =
    if leb b.max_entries (length b.entries)
    then record b {
      entries = push (pop_front b.entries) e;
      dropped_count = (b.dropped_count + 1) % 2 ^ 64;
    }
    else record b { entries = push b.entries e }

unfoldable pub log_with_context :
    ℕ → ScriptLogBuffer → LogLevel → List ℕ → Option (List ℕ) → Option ℕ → ScriptLogBuffer
unfolding push_entry
log_with_context now b level message script_path behavior_id = push_entry b (record {
  timestamp = now;
  level = level;
  message = message;
  script_path = script_path;
  behavior_id = behavior_id;
})

unfoldable pub log : ℕ → ScriptLogBuffer → LogLevel → List ℕ → ScriptLogBuffer
unfolding push_entry
log now b level message = push_entry b (record {
  timestamp = now;
  level = level;
  message = message;
  script_path = none;
  behavior_id = none;
})

unfoldable pub recent : ScriptLogBuffer → ℕ → List ScriptLogEntry
recent b count = take count (reverse b.entries)

unfoldable pub clear : ScriptLogBuffer → ScriptLogBuffer
clear b = record b { entries = [] }

abbrev pub level_eq : LogLevel → LogLevel → Bool
level_eq info info = true
level_eq warning warning = true
level_eq error error = true
level_eq _ _ = false

unfoldable pub filter_by_level : ScriptLogBuffer → LogLevel → List ScriptLogEntry
filter_by_level b level = filter (λ e. level_eq e.level level) b.entries

unfoldable pub error_count : ScriptLogBuffer → ℕ
unfolding filter_by_level
error_count b = length (filter_by_level b error)

unfoldable pub warning_count : ScriptLogBuffer → ℕ
unfolding filter_by_level
warning_count b = length (filter_by_level b warning)

unfoldable pub stats : ScriptLogBuffer → LogBufferStats
unfolding error_count warning_count
stats b = record {
  len = length b.entries;
  capacity = b.max_entries;
  dropped = b.dropped_count;
  errors = error_count b;
  warnings = warning_count b;
}
