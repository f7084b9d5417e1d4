-- ===== src/BehaviorTrees/Nodes.antt =====
-- runner.rs: a run of a tree. A subtree is run by `sub`; a subtree may name itself, so `run_tree` has
-- fuel for the depth of subtrees.
use bw_exp.Common.{ℕ, zero, suc, [], ◌∷◌, Option, none, some, Bool, true, false, if◌then◌else◌, ltb}
use bw_exp.Common.Float.{F64}
use bw_exp.Common.Map.{lookup}
use bw_exp.BehaviorTrees.{
  BtStatus, success, failure, running, BtNode, sequence, selector, action, condition, utility,
  decorator, force_sequence, wait, succeed, fail, subtree, Children, nil, cons, seq_piece,
  sel_piece, force_piece, sub_piece, child_piece, NodePath, AiContext, Engine, get_state,
  remove_state, change_state, BtNodeState, key,
}
use bw_exp.BehaviorTrees.Runs.{
  Run, ◌>>=◌, done, with_states, run_action, run_condition, run_utility, run_wait,
}
use bw_exp.BehaviorTrees.Decorators.{run_decorator}

abbrev ended : Bool → Bool → BtStatus
ended true _ = running
ended false true = success
ended false false = failure

module _ {F : Type 0} where
  abbrev start_index : Option (BtNodeState F) → ℕ
  start_index none = 0
  start_index (some s) = s.child_index

module _ {F D A W : Type 0} (ctx : AiContext F D) where
  -- The end of a sequence or a selector at its child `i`.
  abbrev stops : NodePath → ℕ → BtStatus → Run F D A W
  stops path i running =
      with_states (change_state (key ctx path) (λ s. record s { child_index = i })) running
  stops path i status = with_states (remove_state (key ctx path)) status

module _ {F D A W : Type 0} ⦃f : F64 F⦄ (engine : Engine F D A W) (ctx : AiContext F D)
    (script : ℕ) where
  unfoldable mutual
    unfolding run_action run_condition run_utility run_wait run_decorator

    pub run_node : (NodePath → ℕ → Run F D A W) → BtNode F → NodePath → Run F D A W
    run_node sub (sequence cs) path =
        λ r. run_sequence sub 0 (start_index (get_state (key ctx path) r.states)) cs path r
    run_node sub (selector cs) path =
        λ r. run_selector sub 0 (start_index (get_state (key ctx path) r.states)) cs path r
    run_node sub (action name) path = run_action engine ctx script name
    run_node sub (condition name) path = run_condition engine ctx script name
    run_node sub (utility options) path = run_utility engine ctx script options
    run_node sub (decorator kind c) path =
        run_decorator ctx kind (run_node sub c (child_piece ∷ path)) path
    run_node sub (force_sequence cs) path = run_force_sequence sub 0 false true cs path
    run_node sub (wait ticks) path = run_wait ctx ticks path
    run_node sub succeed path = done success
    run_node sub fail path = done failure
    run_node sub (subtree name) path = sub path name

    -- The children from the `i`th on, those before `start` left out.
    pub run_sequence : (NodePath → ℕ → Run F D A W) → ℕ → ℕ → Children F → NodePath → Run F D A W
    run_sequence sub i start nil path = with_states (remove_state (key ctx path)) success
    run_sequence sub i start (cons c cs) path =
        let rest = run_sequence sub (suc i) start cs path in
        if ltb i start
        then rest
        else (run_node sub c (seq_piece i ∷ path) >>= λ status. elim status [
          | success ↦ rest
          | failure ↦ stops ctx path i failure
          | running ↦ stops ctx path i running
        ])

    pub run_selector : (NodePath → ℕ → Run F D A W) → ℕ → ℕ → Children F → NodePath → Run F D A W
    run_selector sub i start nil path = with_states (remove_state (key ctx path)) failure
    run_selector sub i start (cons c cs) path =
        let rest = run_selector sub (suc i) start cs path in
        if ltb i start
        then rest
        else (run_node sub c (sel_piece i ∷ path) >>= λ status. elim status [
          | failure ↦ rest
          | success ↦ stops ctx path i success
          | running ↦ stops ctx path i running
        ])

    pub run_force_sequence :
        (NodePath → ℕ → Run F D A W) → ℕ → Bool → Bool → Children F → NodePath → Run F D A W
    run_force_sequence sub i any_running all_success nil path = done (ended any_running all_success)
    run_force_sequence sub i any_running all_success (cons c cs) path =
        run_node sub c (force_piece i ∷ path) >>= λ status. elim status [
          | running ↦ run_force_sequence sub (suc i) true all_success cs path
          | failure ↦ run_force_sequence sub (suc i) any_running false cs path
          | success ↦ run_force_sequence sub (suc i) any_running all_success cs path
        ]

  unfoldable pub run_subtree : ℕ → NodePath → ℕ → Run F D A W
  run_subtree zero path name r = elim (lookup name r.subtrees) [
    | none ↦ some (failure, r)
    | some tree ↦ none
  ]
  run_subtree (suc fuel) path name r = elim (lookup name r.subtrees) [
    | none ↦ some (failure, r)
    | some tree ↦ run_node (run_subtree fuel) tree (sub_piece name ∷ path) r
  ]

  -- `run`, without the data that it hands over.
  unfoldable pub run_tree : ℕ → BtNode F → Run F D A W
  unfolding run_node run_subtree
  run_tree fuel tree r =
      run_node (run_subtree fuel) tree [] (record r { pending_data_updates = none })
