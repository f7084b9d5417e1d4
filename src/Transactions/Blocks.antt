-- ===== src/Transactions/Blocks.antt =====
-- transaction.rs: scripts with nested transactions.
use bw_exp.Common.{
  ℕ, ◌≤◌, ◌<◌, ◌≡◌, refl, sym, ap, ◌∙◌, arith, List, ◌++◌, some, Bool, true, false, if◌then◌else◌,
  ◌==◌, append_assoc, append-nil, [], Bool-cases, inl, inr, unwrap_or,
}
use bw_exp.Common.Map.{lookup, lookup-insert}
use bw_exp.State.Changes.{StateMutation}
use bw_exp.State.Accessor.{StateAccessor, begin_transaction, rollback_to_checkpoint}
use bw_exp.State.Calls.{Call}
use bw_exp.State.Sessions.{call, after}
use bw_exp.State.Rollback.{call_extends, cut}
use bw_exp.Transactions.{TransactionContext, World, with_accessor, finalize, commit, rollback}
use bw_exp.Transactions

-- A block is a scope with a transaction, which is dropped at its end; the Boolean says whether it
-- is committed before.
pub data Script (F D : Type 0) : Type 0 where
  end : Script F D
  calls : Call F D → Script F D → Script F D
  block : Bool → Script F D → Script F D → Script F D

rollback_shape :
    {F D : Type 0} (b : StateAccessor F D) (n : ℕ)
    → rollback_to_checkpoint b n
      ≡ record b { pending_mutations = (rollback_to_checkpoint b n).pending_mutations }
unfolding rollback_to_checkpoint
rollback_shape b n = ground arith

module _ {F D : Type 0} where
  abbrev pub close : Bool → TransactionContext → World F D → World F D
  close commits tx w = Transactions.drop tx (if commits then (commit tx w).0 else w)

  unfoldable pub exec : Script F D → World F D → World F D
  exec end w = w
  exec (calls c rest) w = exec rest (with_accessor (λ a. after a (call c a)) w)
  exec (block commits body rest) w =
      exec rest (close commits (Transactions.new w).1 (exec body (Transactions.new w).0))

  -- What the script means: a block that is not committed leaves the queue as it was.
  unfoldable pub meaning : Script F D → StateAccessor F D → StateAccessor F D
  meaning end a = a
  meaning (calls c rest) a = meaning rest (after a (call c a))
  meaning (block true body rest) a = meaning rest (meaning body a)
  meaning (block false body rest) a =
      meaning rest (record (meaning body a) { pending_mutations = a.pending_mutations })

  abbrev pub Extends : StateAccessor F D → StateAccessor F D → Type 0
  Extends a b = (ms : List (StateMutation F D)) × (b.pending_mutations ≡ a.pending_mutations ++ ms)

  trans-Extends : (a b c : StateAccessor F D) → Extends a b → Extends b c → Extends a c
  trans-Extends a b c (ms, p) (ns, q) =
      (ms ++ ns, q ∙ ap (λ xs. xs ++ ns) p ∙ append_assoc a.pending_mutations ms ns)

  meaning-Extends : (s : Script F D) (a : StateAccessor F D) → Extends a (meaning s a)
  unfolding meaning
  meaning-Extends end a = ([], sym (append-nil a.pending_mutations))
  meaning-Extends (calls c rest) a =
      trans-Extends a (after a (call c a)) (meaning rest (after a (call c a))) (call_extends c a)
        (meaning-Extends rest (after a (call c a)))
  meaning-Extends (block true body rest) a =
      trans-Extends a (meaning body a) (meaning rest (meaning body a)) (meaning-Extends body a)
        (meaning-Extends rest (meaning body a))
  meaning-Extends (block false body rest) a =
      meaning-Extends rest (record (meaning body a) { pending_mutations = a.pending_mutations })

  -- What a script leaves alone: the flags that were there.
  record Keeps (w u : World F D) : Type 0 where
    grows : w.next_cell ≤ u.next_cell
    flags : (j : ℕ) → j < w.next_cell → lookup j u.cells ≡ lookup j w.cells

  -- What the end of a transaction leaves alone: the flags of the others.
  record Touches (tx : TransactionContext) (w u : World F D) : Type 0 where
    next : u.next_cell ≡ w.next_cell
    others : (j : ℕ) → (tx.finalized == j) ≡ false → lookup j u.cells ≡ lookup j w.cells

  commit-Touches : (tx : TransactionContext) (w : World F D) → Touches tx w (commit tx w).0
  unfolding commit
  commit-Touches tx w = elim (Bool-cases (unwrap_or (lookup tx.finalized w.cells) true)) [
    | inl old ↦ record { next = ground arith; others = λ j h. ground arith }
    | inr new ↦ record {
      next = ground arith;
      others = λ j h. ground (arith, lookup-insert tx.finalized j true w.cells);
    }
  ]

  drop-Touches : (tx : TransactionContext) (w : World F D) → Touches tx w (Transactions.drop tx w)
  unfolding Transactions.drop
  drop-Touches tx w = elim (Bool-cases (unwrap_or (lookup tx.finalized w.cells) true)) [
    | inl old ↦ record { next = ground arith; others = λ j h. ground arith }
    | inr new ↦ record {
      next = ground arith;
      others = λ j h. ground (arith, lookup-insert tx.finalized j true w.cells);
    }
  ]

  close-Touches :
      (commits : Bool) (tx : TransactionContext) (w : World F D) → Touches tx w (close commits tx w)
  close-Touches false tx w = drop-Touches tx w
  close-Touches true tx w =
      let c = commit-Touches tx w in
      let d = drop-Touches tx (commit tx w).0 in
      record { next = d.next ∙ c.next; others = λ j h. d.others j h ∙ c.others j h }

  exec-Keeps : (s : Script F D) (w : World F D) → Keeps w (exec s w)
  unfolding exec Transactions.new
  exec-Keeps end w = record { grows = omega arith; flags = λ j h. refl }
  exec-Keeps (calls c rest) w =
      let k = exec-Keeps rest (with_accessor (λ a. after a (call c a)) w) in
      record { grows = k.grows; flags = k.flags }
  exec-Keeps (block commits body rest) w =
      let (w', tx) = Transactions.new w in
      let b = exec-Keeps body w' in
      let c = close-Touches commits tx (exec body w') in
      let r = exec-Keeps rest (close commits tx (exec body w')) in
      record {
        grows = omega (arith, b.grows, c.next, r.grows);
        flags = λ j h.
            r.flags j (omega (arith, b.grows, c.next))
            ∙ c.others j (ground (arith, h))
            ∙ b.flags j (omega (arith, h))
            ∙ ground (arith, lookup-insert w.next_cell j false w.cells);
      }

  -- The end of a transaction that is open.
  close_lem :
      (commits : Bool) (tx : TransactionContext) (w : World F D) (b : StateAccessor F D)
      → lookup tx.finalized w.cells ≡ some false
      → w.accessor ≡ some b
      → (close commits tx w).accessor
        ≡ some (if commits then b else rollback_to_checkpoint b tx.checkpoint)
  unfolding commit Transactions.drop
  close_lem true tx w b open_yet there =
      ground (arith, lookup-insert tx.finalized tx.finalized true w.cells)
  close_lem false tx w b open_yet there = ground arith

  -- A rollback to where the transaction began.
  pub rollback_begun :
      (a b : StateAccessor F D)
      → Extends a b
      → rollback_to_checkpoint b (begin_transaction a)
        ≡ record b { pending_mutations = a.pending_mutations }
  rollback_begun a b (ms, q) =
      rollback_shape b (begin_transaction a)
      ∙ ap (λ xs. record b { pending_mutations = xs }) (cut a b ms q)

  block_lem :
      (commits : Bool) (body : Script F D) (w : World F D) (a b : StateAccessor F D)
      → w.accessor ≡ some a
      → (exec body (Transactions.new w).0).accessor ≡ some b
      → Extends a b
      → (close commits (Transactions.new w).1 (exec body (Transactions.new w).0)).accessor
        ≡ some (if commits then b else record b { pending_mutations = a.pending_mutations })
  unfolding Transactions.new
  block_lem commits body w a b start there grown =
      let (w', tx) = Transactions.new w in
      let kept = (exec-Keeps body w').flags w.next_cell (omega arith) in
      let open_yet : lookup tx.finalized (exec body w').cells ≡ some false =
        kept ∙ ground (arith, lookup-insert w.next_cell w.next_cell false w.cells) in
      let begun : tx.checkpoint ≡ begin_transaction a = rw start refl in
      close_lem commits tx (exec body w') b open_yet there
      ∙ ap (λ c. some (if commits then b else c))
          (ap (rollback_to_checkpoint b) begun ∙ rollback_begun a b grown)

  -- In a script with transactions nested to any depth, each of which is dropped at the end of its
  -- block, a transaction that is committed before that keeps what was queued in it, and one that
  -- is not leaves the queue of mutations as it was at its begin, with all that was committed
  -- inside.
  pub exec-meaning :
      (s : Script F D) (w : World F D) (a : StateAccessor F D)
      → w.accessor ≡ some a
      → (exec s w).accessor ≡ some (meaning s a)
  unfolding exec meaning Transactions.new
  exec-meaning end w a h = h
  exec-meaning (calls c rest) w a h =
      exec-meaning rest (with_accessor (λ x. after x (call c x)) w) (after a (call c a)) (rw h refl)
  exec-meaning (block true body rest) w a h = exec-meaning rest _ (meaning body a) (
      block_lem true body w a (meaning body a) h (exec-meaning body (Transactions.new w).0 a h)
        (meaning-Extends body a))
  exec-meaning (block false body rest) w a h =
      exec-meaning rest _ (record (meaning body a) { pending_mutations = a.pending_mutations })
        (block_lem false body w a (meaning body a) h (exec-meaning body (Transactions.new w).0 a h)
          (meaning-Extends body a))
