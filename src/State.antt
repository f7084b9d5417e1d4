-- ===== src/State.antt =====
-- crates/bw-game/src/state: what scripts read and the changes that they queue. `F` stands for the
-- floats, which are only copied here, and `D` for rhai's `Map`. An `i32` or `i64` is its bit
-- pattern, below 2^32 or 2^64, so that sums wrap as in a release build.
pub mod Changes
pub mod Overlay
pub mod Accessor
pub mod Merge
pub mod Reads
pub mod Calls
pub mod Sessions
pub mod Issued
pub mod Rollback
mod Examples
