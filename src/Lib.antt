-- ===== src/Lib.antt =====
-- A model of the game server's core in crates/, with the theorems that show it correct.
--
-- The program runs a multiplayer game. Players own ships, form squadrons and fight over sectors. The
-- server (crates/bw-runtime) keeps the state of the world and handles the players' messages; scripts
-- in rhai (crates/bw-scripting) read the world through an accessor (crates/bw-game) that queues what
-- they change and shows them their own changes.
--
-- Parts and files:
--   Squadron: crates/bw-core/src/models/squadron.rs. The record `Squadron` and one function for each
--     method, under the method's name. Squadron/Roster states who is in it, Squadron/Diplomacy whom
--     it fights.
--   Manager: crates/bw-runtime/src/simulation/squadron_manager.rs. `GameState` has the maps of
--     crates/bw-runtime/src/state.rs that the handlers use. A handler takes the state and returns
--     the new state and an `Outcome`. Membership, Roles, Policy, Relations, Sectors and Building hold
--     the handlers, Actions their dispatch, Pvp the questions of combat; Contests and Consistency prove.
--     The handlers call the methods of Squadron on the squadrons that they find in the state.
--   Location: crates/bw-core/src/models/sector.rs, the locations that a sector has.
--   LogBuffer: crates/bw-runtime/src/scripting/log_buffer.rs, the log of script messages, with
--     LogBuffer/History on what it holds of all that was logged.
--   State: crates/bw-game/src/state. Changes has the change sets and mutations of mutations.rs,
--     Overlay is overlay.rs and Accessor accessor.rs; Merge, Reads, Sessions, Issued
--     and Rollback prove.
--   Coroutines: crates/bw-scripting/src/coroutines, the scheduler of scripts that wait. Scheduler
--     and Loop have its operations; Tracking and Lifecycle follow a coroutine from start to end,
--     Ticks and Calls put them together over all calls, Waking, Bounds and Returns are on whom a
--     tick wakes, how much it runs and when it returns. The script engine is a parameter
--     (`Engine`): what a coroutine does when it is resumed, and which scripts exist. Locks has the
--     locks that the loop of a tick holds while it calls on. A tick that waits for a lock of its own
--     never returns, and has no result.
--   Ship: crates/bw-core/src/models/ship.rs, the hold and the upgrades of a ship. Ship/Stowing has the
--     lemmas on lists of cargo, Ship/Hold, Ship/Limits and Ship/Upgrades the theorems. `add_cargo`
--     has no result where it panics.
--   Store: crates/bw-scripting/src/persistence/store.rs, the store in memory of what scripts keep.
--     Store/Views says what each write does to a table, Store/Checkpoints what a checkpoint keeps.
--   Dependency: crates/bw-scripting/src/validation/dependency.rs, which scripts call actions of
--     which others. Missing has the report of missing actions. Walks says what a cycle is, Depth and
--     Totality follow the depth-first search, Edges its edges and Cycles its report. The search
--     recurs once for each script that it visits: its fuel is the number of these.
--   BehaviorTrees: crates/bw-ai/src, the behavior trees of scripted entities: behavior_tree.rs,
--     utility.rs in Utility, and runner.rs in Runs, Decorators and Nodes, a run as a function of the
--     runner. The engine is a parameter (`Engine`), which also reads the status and the data that an
--     action returns. Leaves, Totality and Endless are on when a run returns, Choice on the option
--     that is chosen, Memory on what nodes remember. A subtree may run others: `run_tree` has fuel
--     for their depth, enough if it exceeds every rank.
--   Transactions: crates/bw-scripting/src/transaction.rs, over the accessor of State. Blocks runs
--     scripts with nested transactions, Clones is on copies of a transaction.
--   Events: crates/bw-scripting/src/events, the subscriptions of scripts to events. Registry has the
--     operations of mod.rs, Dispatch those of dispatcher.rs, where the engine is a parameter. Views
--     and Switching say what the lists should hold, Lists what the operations do to them; Consistency
--     and Calls put these together. Sorting and Delivery are on the order and the outcomes.
--   Missions: crates/bw-core/src/models/mission.rs, and in Executor the handlers of
--     crates/bw-runtime/src/simulation/mission_executor.rs and the expiry of missions in game_loop.rs
--     beside it. The scripts and the distance to the target are a parameter (`Runner`). Taken, Calls
--     and Lifecycle follow a mission from its start.
--   Watchers: crates/bw-game/src/state/watchers.rs, callbacks on the properties of entities.
--     Watchers.antt has the conditions and when a watch fires, Registry the operations; Index and
--     Consistency are on the lists by entity and by script, Sweeps on a check, Calls on sequences.
--   Common: lists, maps and numbers that the others share.
--
-- Choices. An identifier (Uuid) and a time are numbers, and those that the program draws are
-- arguments. A DashMap or HashMap is an association list; each handler runs on its own, so locks are
-- left out, but for those that the loop of a tick could take while it holds them. An i32 that is
-- only compared and paid from is an integer, and the sums that the overlay makes are bit patterns
-- that wrap. Floats are a parameter: a type with the operations that the code calls
-- (Common/Float), of which nothing is assumed but an order where a theorem says so. Every function
-- but the search of Dependency and `run_tree` is structural; the loop of a tick runs at most
-- `max_per_tick` times, as the code has it.
--
-- Not modelled: the texts that go to players and to the log, the records for display, the scripts,
-- the database, the network and the user interfaces.
pub mod Common
pub mod Squadron
pub mod Manager
pub mod Location
pub mod LogBuffer
pub mod State
pub mod Coroutines
pub mod Ship
pub mod Store
pub mod Dependency
pub mod Events
pub mod Missions
pub mod Watchers
pub mod Transactions
pub mod BehaviorTrees
