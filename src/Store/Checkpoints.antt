-- ===== src/Store/Checkpoints.antt =====
-- store.rs: a checkpoint brings back what it holds, whatever is written in between.
use bw_exp.Common.{ℕ, ◌≡◌, refl, ◌∙◌, arith, List, [], ◌∷◌, Bool, true, false, ◌||◌, ◌==◌}
use bw_exp.Common.Map.{lookup, lookup-insert, lookup-remove}
use bw_exp.Store.{
  InMemoryStore, save, delete, clear_namespace, checkpoint, restore_checkpoint, delete_checkpoint,
  Call, saves, deletes, clears, marks, restores, forgets, handle, run,
}

-- The call replaces or deletes the checkpoint of that name.
abbrev pub touches : ℕ → Call → Bool
touches name (marks other) = other == name
touches name (forgets other) = other == name
touches name _ = false

abbrev pub any_touches : ℕ → List Call → Bool
any_touches name [] = false
any_touches name (c ∷ cs) = touches name c || any_touches name cs

handle_keeps :
    (name : ℕ) (c : Call) (s : InMemoryStore)
    → touches name c ≡ false
    → lookup name (handle c s).checkpoints ≡ lookup name s.checkpoints
unfolding handle save delete clear_namespace checkpoint restore_checkpoint delete_checkpoint
handle_keeps name (saves now n k bytes) s h = refl
handle_keeps name (deletes n k) s h = ground arith
handle_keeps name (clears n) s h = ground arith
handle_keeps name (marks other) s h =
    ground (arith, h, lookup-insert other name s.entries s.checkpoints)
handle_keeps name (restores other) s h = ground arith
handle_keeps name (forgets other) s h = ground (arith, h, lookup-remove other name s.checkpoints)

run_keeps :
    (name : ℕ) (cs : List Call) (s : InMemoryStore)
    → any_touches name cs ≡ false
    → lookup name (run cs s).checkpoints ≡ lookup name s.checkpoints
unfolding run
run_keeps name [] s h = refl
run_keeps name (c ∷ cs) s h =
    run_keeps name cs (handle c s) (ground (arith, h)) ∙ handle_keeps name c s (ground (arith, h))

-- Whatever calls follow a checkpoint, if none of them makes or deletes a checkpoint of that name,
-- then restoring it succeeds and brings back all that the store held.
pub checkpoint-restore_checkpoint :
    (name : ℕ) (cs : List Call) (s : InMemoryStore)
    → any_touches name cs ≡ false
    → let s' = restore_checkpoint name (run cs (checkpoint name s)) in
      (s'.1 ≡ true) × (s'.0.entries ≡ s.entries)
unfolding restore_checkpoint checkpoint
checkpoint-restore_checkpoint name cs s h = ground (
  arith,
  run_keeps name cs (checkpoint name s) h,
  lookup-insert name name s.entries s.checkpoints,
)
