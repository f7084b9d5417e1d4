-- ===== src/BehaviorTrees/Memory.antt =====
-- runner.rs: what nodes remember from run to run.
use bw_exp.Common.{
  ℕ, zero, suc, ◌+◌, ◌<◌, ◌^◌, ◌≡◌, refl, ◌∙◌, arith, List, [], ◌∷◌, Option, none, some, true,
  Bool-cases, Option-cases, inl, inr, ==_refl, unwrap_or,
}
use mathlib.Core.Path.{subst, sym, ap}
use bw_exp.Common.Float.{F64}
use bw_exp.BehaviorTrees.{
  BtStatus, success, failure, running, BtNodeState, Piece, seq_piece, sel_piece, force_piece,
  sub_piece, child_piece, start_piece, NodePath, StateKey, States, AiContext, Runner, key, same_key,
  same_piece, same_path, default_state, get_state, remove_state, change_state,
}
use bw_exp.BehaviorTrees.Runs.{Run, ◌>>=◌, run_wait, tick, waited}
use bw_exp.BehaviorTrees.Decorators.{run_timeout, mark_start}

same_piece_refl : (a : Piece) → same_piece a a ≡ true
unfolding same_piece
same_piece_refl (seq_piece i) = ==_refl i
same_piece_refl (sel_piece i) = ==_refl i
same_piece_refl (force_piece i) = ==_refl i
same_piece_refl (sub_piece i) = ==_refl i
same_piece_refl child_piece = refl
same_piece_refl start_piece = refl

same_path_refl : (p : NodePath) → same_path p p ≡ true
unfolding same_path
same_path_refl [] = refl
same_path_refl (a ∷ p) = rw (same_piece_refl a) (same_path_refl p)

same_key_refl : (k : StateKey) → same_key k k ≡ true
same_key_refl k = ground (arith, same_path_refl k.path)

module _ {F : Type 0} where
  get_state-change_state :
      (k : StateKey) (f : BtNodeState F → BtNodeState F) (es : States F)
      → get_state k (change_state k f es) ≡ some (f (unwrap_or (get_state k es) default_state))
  unfolding get_state change_state
  get_state-change_state k f [] = rw (same_key_refl k) refl
  get_state-change_state k f (e ∷ es) = elim (Bool-cases (same_key e.0 k)) [
    | inl here ↦ ground (arith, here)
    | inr there ↦ ground (arith, there, get_state-change_state k f es)
  ]

  get_state-remove_state : (k : StateKey) (es : States F) → get_state k (remove_state k es) ≡ none
  unfolding get_state remove_state
  get_state-remove_state k [] = refl
  get_state-remove_state k (e ∷ es) = elim (Bool-cases (same_key e.0 k)) [
    | inl here ↦ ground (arith, here, get_state-remove_state k es)
    | inr there ↦ ground (arith, there, get_state-remove_state k es)
  ]

abbrev pub running_then : ℕ → BtStatus → List BtStatus
running_then zero status = status ∷ []
running_then (suc n) status = running ∷ running_then n status

ticked :
    {F : Type 0} (k : StateKey) (es : States F) (n : ℕ)
    → waited (get_state k es) ≡ n
    → n + 1 < 2 ^ 32
    → waited (get_state k (change_state k tick es)) ≡ n + 1
unfolding default_state
ticked k es n e small = elim (Option-cases (get_state k es)) [
  | inl x ↦ ground (arith, get_state-change_state k tick es, x)
  | inr (s, x) ↦ ground (arith, get_state-change_state k tick es, x)
]

same_entity :
    {F D : Type 0} (ctx later : AiContext F D) (path : NodePath)
    → later.entity_id ≡ ctx.entity_id
    → key later path ≡ key ctx path
same_entity ctx later path e = rw e refl

sums : (n more : ℕ) → n + suc (suc more) ≡ n + 1 + suc more
sums n more = omega arith

module _ {F D A W : Type 0} where
  -- The statuses of so many runs, one after the other.
  unfoldable pub run_times :
      ℕ → Run F D A W → Runner F D A W → Option (List BtStatus × Runner F D A W)
  run_times zero m r = some ([], r)
  run_times (suc n) m r = elim (m r) [
    | none ↦ none
    | some (status, r') ↦ elim (run_times n m r') [
      | none ↦ none
      | some (rest, r'') ↦ some (status ∷ rest, r'')
    ]
  ]

  run_times-suc :
      (n : ℕ) (m : Run F D A W) (r r' r'' : Runner F D A W) (status : BtStatus)
      (rest : List BtStatus)
      → m r ≡ some (status, r')
      → run_times n m r' ≡ some (rest, r'')
      → run_times (suc n) m r ≡ some (status ∷ rest, r'')
  unfolding run_times
  run_times-suc n m r r' r'' status rest first more = rw (first, more, run_times) refl

  module _ (ctx : AiContext F D) (path : NodePath) where
    wait_more :
        (ticks n : ℕ) (r : Runner F D A W)
        → waited (get_state (key ctx path) r.states) ≡ n
        → n + 1 < ticks
        → ticks < 2 ^ 32
        → run_wait ctx ticks path r
          ≡ some (running, record r { states = change_state (key ctx path) tick r.states })
    unfolding run_wait
    wait_more ticks n r e more small = ground (arith, ticked (key ctx path) r.states n e)

    wait_last :
        (n : ℕ) (r : Runner F D A W)
        → waited (get_state (key ctx path) r.states) ≡ n
        → n + 1 < 2 ^ 32
        → run_wait ctx (n + 1) path r
          ≡ some (
            success,
            record r {
              states = remove_state (key ctx path) (change_state (key ctx path) tick r.states);
            },
          )
    unfolding run_wait
    wait_last n r e small = ground (arith, ticked (key ctx path) r.states n e)

    -- A wait of up to 2^32 - 1 ticks that has counted some of them is running in each further run
    -- but the last, then succeeds, and after that no state of it is left.
    pub run_wait_lem :
        (more n : ℕ) (r : Runner F D A W)
        → waited (get_state (key ctx path) r.states) ≡ n
        → n + suc more < 2 ^ 32
        → (r' : Runner F D A W) × (run_times (suc more) (run_wait ctx (n + suc more) path) r
            ≡ some (running_then more success, r'))
          × (get_state (key ctx path) r'.states ≡ none)
    unfolding run_times
    run_wait_lem zero n r e small = (
      _,
      run_times-suc 0 (run_wait ctx (n + 1) path) r _ _ success [] (wait_last n r e small) refl,
      get_state-remove_state (key ctx path) (change_state (key ctx path) tick r.states),
    )
    run_wait_lem (suc more) n r e small =
        let r1 = record r { states = change_state (key ctx path) tick r.states } in
        let (r', made, gone) =
          run_wait_lem more (n + 1) r1 (ticked (key ctx path) r.states n e (omega arith))
            (omega arith) in
        (
          r',
          run_times-suc (suc more) (run_wait ctx (n + suc (suc more)) path) r r1 r' running
              (running_then more success) (wait_more (n + suc (suc more)) n r e (omega arith) small)
              (subst
                (λ ticks.
                  run_times (suc more) (run_wait ctx ticks path) r1
                  ≡ some (running_then more success, r'))
                (sym (sums n more)) made),
          gone,
        )

  -- At the end of a run that did not end, the decorator has the start of the child.
  timeout_starts :
      ⦃f : F64 F⦄ (ctx : AiContext F D) (seconds : F) (child : Run F D A W) (path : NodePath)
      (r r' : Runner F D A W)
      → get_state (key ctx (start_piece ∷ path)) r.states ≡ none
      → child (record r {
        states = change_state (key ctx (start_piece ∷ path)) (mark_start ctx) r.states;
      })
        ≡ some (running, r')
      → run_timeout ctx seconds child path r ≡ some (running, r')
  unfolding run_timeout
  timeout_starts ctx seconds child path r r' new still = rw (new, run_timeout, ◌>>=◌, still) refl

  fails_late :
      ⦃f : F64 F⦄ (later : AiContext F D) (seconds start : F) (child : Run F D A W)
      (path : NodePath) (r : Runner F D A W) (s : BtNodeState F)
      → get_state (key later (start_piece ∷ path)) r.states ≡ some s
      → s.last_execution ≡ some start
      → f.less seconds (f.minus later.game_time start) ≡ true
      → run_timeout later seconds child path r ≡ some (failure, r)
  unfolding run_timeout
  fails_late later seconds start child path r s there e late = rw (there, e, late, run_timeout) refl

  -- If a decorator with a timeout starts its child, and the child goes on and leaves the time of
  -- the start alone, then every later run after the timeout fails without a run of the child and
  -- changes nothing, so all runs after it fail as well.
  pub timeout_sticks :
      ⦃f : F64 F⦄ (ctx : AiContext F D) (seconds : F) (child : Run F D A W) (path : NodePath)
      (r r' : Runner F D A W)
      → get_state (key ctx (start_piece ∷ path)) r.states ≡ none
      → child (record r {
        states = change_state (key ctx (start_piece ∷ path)) (mark_start ctx) r.states;
      })
        ≡ some (running, r')
      → get_state (key ctx (start_piece ∷ path)) r'.states
        ≡ get_state
            (key ctx (start_piece ∷ path))
            (change_state (key ctx (start_piece ∷ path)) (mark_start ctx) r.states)
      → (run_timeout ctx seconds child path r ≡ some (running, r'))
        × ((later : AiContext F D) (other : Run F D A W)
            → later.entity_id ≡ ctx.entity_id
            → f.less seconds (f.minus later.game_time ctx.game_time) ≡ true
            → run_timeout later seconds other path r' ≡ some (failure, r'))
  unfolding default_state
  timeout_sticks ctx seconds child path r r' new still kept =
      let k = key ctx (start_piece ∷ path) in
      (
        timeout_starts ctx seconds child path r r' new still,
        λ later other same late.
            fails_late later seconds ctx.game_time other path r' (mark_start ctx default_state)
              (ap (λ j. get_state j r'.states) (same_entity ctx later (start_piece ∷ path) same)
                ∙ kept
                ∙ get_state-change_state k (mark_start ctx) r.states
                ∙ ap (λ o. some (mark_start ctx (unwrap_or o default_state))) new)
              refl late,
      )
