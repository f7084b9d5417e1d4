-- ===== src/BehaviorTrees/Decorators.antt =====
-- runner.rs: decorators. `child` runs the child.
use bw_exp.Common.{
  ℕ, ◌+◌, ◌%◌, ◌^◌, ◌∷◌, Option, none, some, Bool, false, if◌then◌else◌, leb, is_none,
}
use bw_exp.Common.Float.{F64}
use bw_exp.BehaviorTrees.{
  BtStatus, success, failure, running, DecoratorKind, repeat, until_fail, invert, cooldown,
  run_once, always_succeed, always_fail, timeout, BtNodeState, start_piece, NodePath, AiContext,
  get_state, remove_state, change_state, key,
}
use bw_exp.BehaviorTrees.Runs.{Run, ◌>>=◌, done, with_states, invert_status}

module _ {F : Type 0} where
  abbrev pub used_up : Option ℕ → Option (BtNodeState F) → Bool
  used_up none _ = false
  used_up (some max) none = false
  used_up (some max) (some s) = leb max s.repeat_count

  abbrev pub stored : Option (BtNodeState F) → Option BtStatus
  stored none = none
  stored (some s) = s.stored_result

module _ {F D : Type 0} ⦃f : F64 F⦄ (ctx : AiContext F D) where
  -- The last run of the child is less than `seconds` ago.
  abbrev pub cools : F → Option (BtNodeState F) → Bool
  cools seconds none = false
  cools seconds (some s) = elim s.last_execution [
    | none ↦ false
    | some last ↦ f.less (f.minus ctx.game_time last) seconds
  ]

  -- The child was started more than `seconds` ago.
  abbrev pub timed_out : F → Option (BtNodeState F) → Bool
  timed_out seconds none = false
  timed_out seconds (some s) = elim s.last_execution [
    | none ↦ false
    | some start ↦ f.less seconds (f.minus ctx.game_time start)
  ]

module _ {F D : Type 0} (ctx : AiContext F D) where
  abbrev pub mark_start : BtNodeState F → BtNodeState F
  mark_start s =
      if is_none s.last_execution then record s { last_execution = some ctx.game_time } else s

module _ {F D A W : Type 0} ⦃f : F64 F⦄ (ctx : AiContext F D) where
  unfoldable pub run_repeat : Option ℕ → Run F D A W → NodePath → Run F D A W
  run_repeat count child path r =
      if used_up count (get_state (key ctx path) r.states)
      then with_states (remove_state (key ctx path)) success r
      else (child >>= λ status. elim status [
        | success ↦
            with_states
              (change_state (key ctx path)
                (λ s. record s { repeat_count = (s.repeat_count + 1) % 2 ^ 32 }))
              running
        | failure ↦ with_states (remove_state (key ctx path)) failure
        | running ↦ done running
      ])
          r

  unfoldable pub run_cooldown : F → Run F D A W → NodePath → Run F D A W
  run_cooldown seconds child path r =
      if cools ctx seconds (get_state (key ctx path) r.states)
      then some (failure, r)
      else (child >>= λ status. elim status [
        | success ↦
            with_states
              (change_state (key ctx path) (λ s. record s { last_execution = some ctx.game_time }))
              success
        | failure ↦ done failure
        | running ↦ done running
      ])
          r

  unfoldable pub run_only_once : Run F D A W → NodePath → Run F D A W
  run_only_once child path r = elim (stored (get_state (key ctx path) r.states)) [
    | some result ↦ some (result, r)
    | none ↦
        (child >>= λ status. elim status [
          | running ↦ done running
          | success ↦
              with_states
                (change_state (key ctx path) (λ s. record s { stored_result = some success }))
                success
          | failure ↦
              with_states
                (change_state (key ctx path) (λ s. record s { stored_result = some failure }))
                failure
        ])
          r
  ]

  unfoldable pub run_timeout : F → Run F D A W → NodePath → Run F D A W
  run_timeout seconds child path r =
      if timed_out ctx seconds (get_state (key ctx (start_piece ∷ path)) r.states)
      then some (failure, r)
      else (child >>= λ status. elim status [
        | running ↦ done running
        | success ↦ with_states (remove_state (key ctx (start_piece ∷ path))) success
        | failure ↦ with_states (remove_state (key ctx (start_piece ∷ path))) failure
      ])
          (record r {
            states = change_state (key ctx (start_piece ∷ path)) (mark_start ctx) r.states;
          })

  unfoldable pub run_decorator : DecoratorKind F → Run F D A W → NodePath → Run F D A W
  unfolding run_repeat run_cooldown run_only_once run_timeout
  run_decorator invert child path = child >>= λ status. done (invert_status status)
  run_decorator always_succeed child path = child >>= λ status. done success
  run_decorator always_fail child path = child >>= λ status. done failure
  run_decorator (repeat count) child path = run_repeat count child path
  run_decorator until_fail child path = child >>= λ status. elim status [
    | failure ↦ done success
    | success ↦ done running
    | running ↦ done running
  ]
  run_decorator (cooldown seconds) child path = run_cooldown seconds child path
  run_decorator run_once child path = run_only_once child path
  run_decorator (timeout seconds) child path = run_timeout seconds child path
