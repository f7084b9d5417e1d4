-- ===== src/BehaviorTrees/Runs.antt =====
-- runner.rs: registration, and the runs of the nodes without children. A run gives the status and
-- the runner afterwards; `none` means that it ran out of fuel.
use bw_exp.Common.{ℕ, ◌+◌, ◌%◌, ◌^◌, List, [], ◌∷◌, Option, none, some, if◌then◌else◌, leb}
use bw_exp.Common.Float.{F64}
use bw_exp.Common.Map.{Map, lookup, insert}
use bw_exp.BehaviorTrees.{
  BtStatus, success, failure, running, UtilityOption, BtNode, BtNodeState, NodePath, StateKey,
  AiContext, Engine, Runner, get_state, remove_state, change_state, entity_states, key,
}
use bw_exp.BehaviorTrees.Utility.{UtilityScore, score, from_scores}

module _ {F D A W : Type 0} where
  unfoldable pub register_script : ℕ → A → Runner F D A W → Runner F D A W
  register_script name ast r = record r { scripts = insert name ast r.scripts }

  unfoldable pub register_subtree : ℕ → BtNode F → Runner F D A W → Runner F D A W
  register_subtree name tree r = record r { subtrees = insert name tree r.subtrees }

  unfoldable pub clear_entity_state : ℕ → Runner F D A W → Runner F D A W
  clear_entity_state entity r = record r { states = entity_states entity r.states }

abbrev pub invert_status : BtStatus → BtStatus
invert_status success = failure
invert_status failure = success
invert_status running = running

unfoldable pub merge_data : {D : Type 0} → Map D → Option (Map D) → Option (Map D)
merge_data updates none = some updates
merge_data [] (some existing) = some existing
merge_data (e ∷ es) (some existing) = merge_data es (some (insert e.0 e.1 existing))

abbrev pub Run : Type 0 → Type 0 → Type 0 → Type 0 → Type 0
Run F D A W = Runner F D A W → Option (BtStatus × Runner F D A W)

-- What follows a run depends on its status.
infixl 5 ◌>>=◌
abbrev pub ◌>>=◌ : {F D A W : Type 0} → Run F D A W → (BtStatus → Run F D A W) → Run F D A W
◌>>=◌ m k r = elim (m r) [ none ↦ none | some (status, r') ↦ k status r' ]

module _ {F D A W : Type 0} where
  abbrev pub done : BtStatus → Run F D A W
  done status r = some (status, r)

  -- A change of the states, then a status.
  abbrev pub with_states :
      (List (StateKey × BtNodeState F) → List (StateKey × BtNodeState F)) → BtStatus → Run F D A W
  with_states f status r = some (status, record r { states = f r.states })

module _ {F D A W : Type 0} ⦃f : F64 F⦄ (engine : Engine F D A W) (ctx : AiContext F D)
    (script : ℕ) where
  unfoldable pub run_action : ℕ → Run F D A W
  unfolding merge_data
  run_action name r = elim (lookup script r.scripts) [
    | none ↦ some (failure, r)
    | some ast ↦
        let (world, result) = engine.call_action ast name ctx r.world in
        elim result [
          | none ↦ some (failure, record r { world = world })
          | some (status, updates) ↦ some (
            status,
            record r {
              world = world;
              pending_data_updates = elim updates [
                | none ↦ r.pending_data_updates
                | some u ↦ merge_data u r.pending_data_updates
              ];
            },
          )
        ]
  ]

  unfoldable pub run_condition : ℕ → Run F D A W
  run_condition name r = elim (lookup script r.scripts) [
    | none ↦ some (failure, r)
    | some ast ↦
        let (world, result) = engine.call_condition ast name ctx r.world in
        some (
          elim result [ none ↦ failure | some holds ↦ if holds then success else failure ],
          record r { world = world },
        )
  ]

  -- The scores of the considerations of an option, one call after the other.
  unfoldable pub consider : A → List ℕ → W → W × List F
  consider ast [] w = (w, [])
  consider ast (c ∷ cs) w =
      let (w', result) = engine.call_score ast c ctx w in
      let (w'', scores) = consider ast cs w' in
      (w'', elim result [ none ↦ f.zero | some s ↦ f.clamp s f.zero f.one ] ∷ scores)

  unfoldable pub score_all : A → List (UtilityOption F) → W → W × List (UtilityScore F)
  unfolding consider
  score_all ast [] w = (w, [])
  score_all ast (o ∷ os) w =
      let (w', scores) = consider ast o.considerations w in
      let (w'', rest) = score_all ast os w' in (w'', score o scores ∷ rest)

  unfoldable pub run_utility : List (UtilityOption F) → Run F D A W
  unfolding score_all run_action from_scores
  run_utility [] r = some (failure, r)
  run_utility (o ∷ os) r = elim (lookup script r.scripts) [
    | none ↦ some (failure, r)
    | some ast ↦
        let (world, scores) = score_all ast (o ∷ os) r.world in
        elim (from_scores scores).chosen [
          | none ↦ some (failure, record r { world = world })
          | some best ↦ run_action best.option.action_name (record r { world = world })
        ]
  ]

abbrev pub tick : {F : Type 0} → BtNodeState F → BtNodeState F
tick s = record s { ticks_waited = (s.ticks_waited + 1) % 2 ^ 32 }

abbrev pub waited : {F : Type 0} → Option (BtNodeState F) → ℕ
waited none = 0
waited (some s) = s.ticks_waited

module _ {F D A W : Type 0} (ctx : AiContext F D) where
  unfoldable pub run_wait : ℕ → NodePath → Run F D A W
  run_wait ticks path r =
      let waiting = change_state (key ctx path) tick r.states in
      if leb ticks (waited (get_state (key ctx path) waiting))
      then with_states (remove_state (key ctx path)) success (record r { states = waiting })
      else some (running, record r { states = waiting })
