-- ===== src/LogBuffer/Examples.antt =====
-- Runs of log_buffer.rs on a buffer for two entries.
use bw_exp.Common.{ℕ, List, [], ◌∷◌, none}
use bw_exp.LogBuffer.{ScriptLogEntry, LogLevel, info, warning, error, new}
use bw_exp.LogBuffer.History.{Holds, push_all, push_all-new}

abbrev entry : ℕ → LogLevel → ScriptLogEntry
entry now level = record {
  timestamp = now;
  level = level;
  message = [];
  script_path = none;
  behavior_id = none;
}

abbrev three : List ScriptLogEntry
three = entry 1 info ∷ entry 2 warning ∷ entry 3 error ∷ []

push_all-new_example : Holds 2 three (push_all (new 2) three)
push_all-new_example = push_all-new 2 three
