-- ===== src/BehaviorTrees/Leaves.antt =====
-- runner.rs: a node whose children return returns.
use bw_exp.Common.{
  ℕ, ◌≡◌, arith, List, [], ◌∷◌, Option, none, some, Bool, true, false, if◌then◌else◌, Bool-cases,
  Option-cases, inl, inr,
}
use bw_exp.Common.Float.{F64}
use bw_exp.Common.Map.{Map, lookup}
use bw_exp.BehaviorTrees.{
  BtStatus, DecoratorKind, repeat, until_fail, invert, cooldown, run_once, always_succeed,
  always_fail, timeout, UtilityOption, BtNode, NodePath, AiContext, Engine, Runner, start_piece,
  get_state, key,
}
use bw_exp.BehaviorTrees.Utility.{from_scores}
use bw_exp.BehaviorTrees.Runs.{
  Run, ◌>>=◌, run_action, run_condition, run_utility, run_wait, score_all,
}
use bw_exp.BehaviorTrees.Decorators.{
  run_decorator, run_repeat, run_cooldown, run_only_once, run_timeout, used_up, cools, stored,
  timed_out,
}

module _ {F D A W : Type 0} (subtrees : Map (BtNode F)) where
  abbrev pub Ends : Option (BtStatus × Runner F D A W) → Type 0
  Ends none = ⊥
  Ends (some (status, r)) = r.subtrees ≡ subtrees

  -- The run returns and leaves the subtrees as they are.
  abbrev pub Returns : Run F D A W → Type 0
  Returns m = (r : Runner F D A W) → r.subtrees ≡ subtrees → Ends (m r)

  pub bind-Ends :
      (o : Option (BtStatus × Runner F D A W)) (k : BtStatus → Run F D A W)
      → Ends o
      → ((status : BtStatus) → Returns (k status))
      → Ends (elim o [ none ↦ none | some (status, r) ↦ k status r ])
  bind-Ends none k h then_k = h
  bind-Ends (some (status, r)) k h then_k = then_k status r h

  pub >>=-Returns :
      (m : Run F D A W) (k : BtStatus → Run F D A W)
      → Returns m
      → ((status : BtStatus) → Returns (k status))
      → Returns (m >>= k)
  >>=-Returns m k first then_k r e = bind-Ends (m r) k (first r e) then_k

  if-Ends :
      (b : Bool) (m n : Option (BtStatus × Runner F D A W))
      → Ends m
      → Ends n
      → Ends (if b then m else n)
  if-Ends true m n first other = first
  if-Ends false m n first other = other

  module _ ⦃f : F64 F⦄ (engine : Engine F D A W) (ctx : AiContext F D) (script : ℕ) where
    pub action-Returns : (name : ℕ) → Returns (run_action engine ctx script name)
    unfolding run_action
    action-Returns name r e = elim (Option-cases (lookup script r.scripts)) [
      | inl gone ↦ rw (gone, run_action) e
      | inr (ast, there) ↦ elim (Option-cases (engine.call_action ast name ctx r.world).1) [
        | inl bad ↦ rw (there, bad, run_action) e
        | inr ((status, updates), good) ↦ rw (there, good, run_action) e
      ]
    ]

    pub condition-Returns : (name : ℕ) → Returns (run_condition engine ctx script name)
    unfolding run_condition
    condition-Returns name r e = elim (Option-cases (lookup script r.scripts)) [
      | inl gone ↦ rw (gone, run_condition) e
      | inr (ast, there) ↦ rw (there, run_condition) e
    ]

    pub utility-Returns :
        (options : List (UtilityOption F)) → Returns (run_utility engine ctx script options)
    unfolding run_utility
    utility-Returns [] r e = e
    utility-Returns (o ∷ os) r e = elim (Option-cases (lookup script r.scripts)) [
      | inl gone ↦ rw (gone, run_utility) e
      | inr (ast, there) ↦
          rw (there, run_utility)
            (elim (Option-cases
              (from_scores (score_all engine ctx script ast (o ∷ os) r.world).1).chosen) [
                | inl low ↦ rw low e
                | inr (best, high) ↦ rw high (action-Returns best.option.action_name _ e)
              ])
    ]

    pub wait-Returns : (ticks : ℕ) (path : NodePath) → Returns (run_wait ctx ticks path)
    unfolding run_wait
    wait-Returns ticks path r e = ground (arith, e)

    repeat-Returns :
        (count : Option ℕ) (child : Run F D A W) (path : NodePath)
        → Returns child
        → Returns (run_repeat ctx count child path)
    unfolding run_repeat
    repeat-Returns count child path h r e =
        elim (Bool-cases (used_up count (get_state (key ctx path) r.states))) [
          | inl stop ↦ rw (stop, run_repeat) e
          | inr more ↦
              rw (more, run_repeat) (>>=-Returns child _ h (λ status r e. ground (arith, e)) r e)
        ]

    cooldown-Returns :
        (seconds : F) (child : Run F D A W) (path : NodePath)
        → Returns child
        → Returns (run_cooldown ctx seconds child path)
    unfolding run_cooldown
    cooldown-Returns seconds child path h r e =
        elim (Bool-cases (cools ctx seconds (get_state (key ctx path) r.states))) [
          | inl stop ↦ rw (stop, run_cooldown) e
          | inr more ↦
              rw (more, run_cooldown) (>>=-Returns child _ h (λ status r e. ground (arith, e)) r e)
        ]

    only_once-Returns :
        (child : Run F D A W) (path : NodePath)
        → Returns child
        → Returns (run_only_once ctx child path)
    unfolding run_only_once
    only_once-Returns child path h r e =
        elim (Option-cases (stored (get_state (key ctx path) r.states))) [
          | inr (result, old) ↦ rw (old, run_only_once) e
          | inl new ↦
              rw (new, run_only_once) (>>=-Returns child _ h (λ status r e. ground (arith, e)) r e)
        ]

    timeout-Returns :
        (seconds : F) (child : Run F D A W) (path : NodePath)
        → Returns child
        → Returns (run_timeout ctx seconds child path)
    unfolding run_timeout
    timeout-Returns seconds child path h r e =
        elim (Bool-cases
          (timed_out ctx seconds (get_state (key ctx (start_piece ∷ path)) r.states))) [
            | inl stop ↦ rw (stop, run_timeout) e
            | inr more ↦
                rw (more, run_timeout) (>>=-Returns child _ h (λ status r e. ground (arith, e)) _ e)
          ]

    pub decorator-Returns :
        (kind : DecoratorKind F) (child : Run F D A W) (path : NodePath)
        → Returns child
        → Returns (run_decorator ctx kind child path)
    unfolding run_decorator
    decorator-Returns invert child path h = >>=-Returns child _ h (λ status r e. e)
    decorator-Returns always_succeed child path h = >>=-Returns child _ h (λ status r e. e)
    decorator-Returns always_fail child path h = >>=-Returns child _ h (λ status r e. e)
    decorator-Returns (repeat count) child path h = repeat-Returns count child path h
    decorator-Returns until_fail child path h =
        >>=-Returns child _ h (λ status r e. ground (arith, e))
    decorator-Returns (cooldown seconds) child path h = cooldown-Returns seconds child path h
    decorator-Returns run_once child path h = only_once-Returns child path h
    decorator-Returns (timeout seconds) child path h = timeout-Returns seconds child path h
