-- ===== src/Transactions/Examples.antt =====
-- Runs of transaction.rs: broadcasts in nested transactions.
use bw_exp.Common.{ℕ, ◌≡◌, refl, [], ◌∷◌, some, true, false, length}
use bw_exp.Common.Map.{map_option, lookup, insert}
use bw_exp.State.Accessor.{
  StateAccessor, trusted, set_permissions, broadcast_to_sector, can_access_sector,
  begin_transaction, rollback_to_checkpoint,
}
use bw_exp.State.Accessor
use bw_exp.State.Calls.{Call}
use bw_exp.State.Sessions.{run, call}
use bw_exp.Transactions.{World, with_accessor, commit}
use bw_exp.Transactions
use bw_exp.Transactions.Blocks.{Script, end, calls, block, exec, meaning, exec-meaning}
use bw_exp.Transactions.Clones.{clone_dropped}

abbrev accessor : StateAccessor ℕ ℕ
accessor = set_permissions Accessor.new trusted

abbrev world : World ℕ ℕ
world = record { accessor = some accessor; cells = []; next_cell = 0 }

abbrev say : ℕ → Call ℕ ℕ
say x = Call.broadcast_to_sector x "mayday" "alert"

-- A transaction that is committed inside one that is not, and one after it that is.
abbrev nested : Script ℕ ℕ
nested = calls (say 1) (
    block false (calls (say 2) (block true (calls (say 3) end) end))
      (block true (calls (say 4) end) end))

exec-meaning_example : (exec nested world).accessor ≡ some (meaning nested accessor)
exec-meaning_example = exec-meaning nested world accessor refl

-- The first and the last call remain.
two_remain : map_option (λ a. length a.pending_mutations) (exec nested world).accessor ≡ some 2
unfolding exec commit Transactions.new Transactions.drop lookup insert call broadcast_to_sector
    can_access_sector rollback_to_checkpoint begin_transaction set_permissions trusted Accessor.new
two_remain = refl

clone_dropped_example :
    let (w, tx) = Transactions.new world in
    let t = commit tx (
      with_accessor
        (run (say 2 ∷ []))
        (Transactions.drop tx (with_accessor (run (say 1 ∷ [])) w))) in
    (t.1 ≡ true)
    × (t.0.accessor
        ≡ some (
            run (say 2 ∷ []) (record (run (say 1 ∷ []) accessor) {
              pending_mutations = accessor.pending_mutations;
            })))
clone_dropped_example = clone_dropped world accessor (say 1 ∷ []) (say 2 ∷ []) refl
