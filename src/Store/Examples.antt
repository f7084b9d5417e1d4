-- ===== src/Store/Examples.antt =====
-- Runs of the store in memory.
use bw_exp.Common.{◌≡◌, refl, List, [], ◌∷◌, true}
use bw_exp.Common.Map.{map_option}
use bw_exp.Store.{
  InMemoryStore, get_metadata, load, checkpoint, restore_checkpoint, Call, saves, deletes, clears,
  marks, restores, forgets, handle, run,
}
use bw_exp.Store
use bw_exp.Store.Views.{change, handle_lem}
use bw_exp.Store.Checkpoints.{checkpoint-restore_checkpoint}

abbrev one_saved : InMemoryStore
one_saved = run (saves 5 1 2 (b'x' ∷ []) ∷ []) Store.new

handle_lem_example :
    (get_metadata (handle (saves 9 1 2 (b'y' ∷ [])) one_saved) 1 2
      ≡ change (saves 9 1 2 (b'y' ∷ [])) one_saved.checkpoints (get_metadata one_saved) 1 2)
    × (load (handle (saves 9 1 2 (b'y' ∷ [])) one_saved) 1 2
        ≡ map_option
            (λ state. state.bytes)
            (change (saves 9 1 2 (b'y' ∷ [])) one_saved.checkpoints (get_metadata one_saved) 1 2))
handle_lem_example = handle_lem (saves 9 1 2 (b'y' ∷ [])) one_saved 1 2

abbrev between : List Call
between = saves 9 1 2 (b'y' ∷ []) ∷ clears 1 ∷ marks 8 ∷ forgets 6 ∷ restores 8 ∷ deletes 1 2 ∷ []

checkpoint-restore_checkpoint_example :
    ((restore_checkpoint 7 (run between (checkpoint 7 one_saved))).1 ≡ true)
    × ((restore_checkpoint 7 (run between (checkpoint 7 one_saved))).0.entries ≡ one_saved.entries)
checkpoint-restore_checkpoint_example = checkpoint-restore_checkpoint 7 between one_saved refl
