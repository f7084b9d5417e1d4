-- ===== src/Transactions.antt =====
-- crates/bw-scripting/src/transaction.rs: transactions of scripts over the accessor of State. The
-- flag that the clones of a transaction share is a cell, and a clone is the same value.
pub mod Blocks
pub mod Clones
mod Examples
use bw_exp.Common.{ℕ, suc, Option, none, some, Bool, true, false, if◌then◌else◌, unwrap_or}
use bw_exp.Common.Map.{Map, lookup, insert, map_option}
use bw_exp.State.Accessor.{StateAccessor, begin_transaction, rollback_to_checkpoint}

pub record TransactionContext : Type 0 where
  pub checkpoint : ℕ
  pub finalized : ℕ

-- `accessor` is that of the script that runs, if one runs; `cells` are the flags, and `next_cell`
-- is the first address that is free.
pub record World (F D : Type 0) : Type 0 where
  pub accessor : Option (StateAccessor F D)
  pub cells : Map Bool
  pub next_cell : ℕ

module _ {F D : Type 0} where
  -- `with_accessor`, for an effect.
  abbrev pub with_accessor : (StateAccessor F D → StateAccessor F D) → World F D → World F D
  with_accessor f w = record w { accessor = map_option f w.accessor }

  unfoldable pub new : World F D → World F D × TransactionContext
  new w = (
    record w { cells = insert w.next_cell false w.cells; next_cell = suc w.next_cell },
    record {
      checkpoint = unwrap_or (map_option begin_transaction w.accessor) 0;
      finalized = w.next_cell;
    },
  )

  -- `compare_exchange(false, true)`; the result says whether it succeeded.
  unfoldable pub finalize : TransactionContext → World F D → World F D × Bool
  finalize tx w =
      if unwrap_or (lookup tx.finalized w.cells) true
      then (w, false)
      else (record w { cells = insert tx.finalized true w.cells }, true)

  -- The accessor's own `commit_transaction` does nothing.
  unfoldable pub commit : TransactionContext → World F D → World F D × Bool
  unfolding finalize
  commit tx w = ((finalize tx w).0, true)

  unfoldable pub rollback : TransactionContext → World F D → World F D
  unfolding finalize
  rollback tx w =
      let (w', first) = finalize tx w in
      if first then with_accessor (λ a. rollback_to_checkpoint a tx.checkpoint) w' else w'

  unfoldable pub is_finalized : TransactionContext → World F D → Bool
  is_finalized tx w = unwrap_or (lookup tx.finalized w.cells) true

  -- `Drop::drop`, of the value or of a clone.
  unfoldable pub drop : TransactionContext → World F D → World F D
  unfolding finalize
  drop tx w =
      let (w', first) = finalize tx w in
      if first then with_accessor (λ a. rollback_to_checkpoint a tx.checkpoint) w' else w'
