-- ===== src/Transactions/Clones.antt =====
-- transaction.rs: clones of a transaction, which share its flag.
use bw_exp.Common.{◌≡◌, refl, arith, List, some, true, false}
use bw_exp.Common.Map.{insert, lookup-insert}
use bw_exp.State.Accessor.{StateAccessor, begin_transaction, rollback_to_checkpoint}
use bw_exp.State.Calls.{Call}
use bw_exp.State.Sessions.{run}
use bw_exp.State.Rollback.{run_extends}
use bw_exp.Transactions.{
  TransactionContext, World, with_accessor, commit, rollback, is_finalized, finalize,
}
use bw_exp.Transactions
use bw_exp.Transactions.Blocks.{rollback_begun}

module _ {F D : Type 0} where
  -- Once a transaction is finalized, by whichever clone, nothing more happens.
  pub finalized_stays :
      (tx : TransactionContext) (w : World F D)
      → is_finalized tx w ≡ true
      → ((commit tx w).0 ≡ w) × (rollback tx w ≡ w) × (Transactions.drop tx w ≡ w)
  unfolding is_finalized commit rollback Transactions.drop
  finalized_stays tx w h = (ground arith, ground arith, ground arith)

  -- If a clone of a transaction is dropped before the transaction is committed, then the commit
  -- still returns true, but what was queued before the drop is lost and only the calls after it
  -- are kept.
  pub clone_dropped :
      (w : World F D) (a : StateAccessor F D) (cs ds : List (Call F D))
      → w.accessor ≡ some a
      → let (w', tx) = Transactions.new w in
        let t =
          commit tx (with_accessor (run ds) (Transactions.drop tx (with_accessor (run cs) w'))) in
        (t.1 ≡ true)
        × (t.0.accessor
            ≡ some (run ds (record (run cs a) { pending_mutations = a.pending_mutations })))
  unfolding Transactions.new commit Transactions.drop
  clone_dropped w a cs ds h =
      let dropped : rollback_to_checkpoint (run cs a) (begin_transaction a)
          ≡ record (run cs a) { pending_mutations = a.pending_mutations } =
        rollback_begun a (run cs a) (run_extends cs a) in
      (
        refl,
        ground (
          arith,
          h,
          dropped,
          lookup-insert w.next_cell w.next_cell false w.cells,
          lookup-insert w.next_cell w.next_cell true (insert w.next_cell false w.cells),
        ),
      )
