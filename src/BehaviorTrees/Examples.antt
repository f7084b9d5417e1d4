-- ===== src/BehaviorTrees/Examples.antt =====
-- Runs of runner.rs and utility.rs: a patrol, a tree that runs itself, a wait and a timeout.
use bw_exp.Common.{
  ℕ, zero, suc, ◌+◌, ◌%◌, ◌^◌, ◌<◌, ◌≡◌, refl, arith, List, [], ◌∷◌, Option, none, some, Bool, true,
  false, ◌==◌, if◌then◌else◌, not, ◌&&◌, leb, ltb, filter, Bool-cases, inl, inr,
}
use mathlib.Core.Path.{subst}
use bw_exp.Common.Int.{ℤ, pos, negsuc, leb_ℤ}
use bw_exp.Common.Float.{integers}
use bw_exp.Common.Map.{lookup, insert, map_option}
use bw_exp.BehaviorTrees.{
  BtStatus, success, failure, running, invert, BtNode, sequence, selector, action, condition,
  decorator, wait, fail, subtree, nil, cons, start_piece, AiContext, Engine, Runner, get_state,
  change_state, key, same_path,
}
use bw_exp.BehaviorTrees.Utility.{UtilityScore, from_scores}
use bw_exp.BehaviorTrees.Runs.{Run, register_subtree, run_wait, run_action, done}
use bw_exp.BehaviorTrees.Decorators.{run_timeout, mark_start}
use bw_exp.BehaviorTrees.Nodes.{run_subtree, run_tree}
use bw_exp.BehaviorTrees.Totality.{run_tree_returns, below}
use bw_exp.BehaviorTrees.Endless.{run_subtree_endless}
use bw_exp.BehaviorTrees.Choice.{from_scores-IsBest, IsOrder, IsBest}
use bw_exp.BehaviorTrees.Memory.{run_wait_lem, timeout_sticks, run_times}

-- The world counts the calls; action 0 goes on, every other one succeeds.
abbrev counting : Engine ℤ ℕ ℕ ℕ
counting = record {
  call_action = λ ast name ctx w. (w + 1, some (if name == 0 then running else success, none));
  call_condition = λ ast name ctx w. (w + 1, some (name == 1));
  call_score = λ ast name ctx w. (w + 1, some (pos name));
}

abbrev at_time : ℕ → AiContext ℤ ℕ
at_time t = record {
  entity_id = 7;
  tick = t;
  delta_time = pos 1;
  game_time = pos t;
  context_data = [];
}

abbrev patrol : BtNode ℤ
patrol = sequence (cons (condition 1) (cons (action 3) (cons (wait 2) nil)))

abbrev fresh : Runner ℤ ℕ ℕ ℕ
fresh = record {
  scripts = (0, 1) ∷ [];
  states = [];
  subtrees = [];
  pending_data_updates = none;
  world = 0;
}

abbrev patrolling : Runner ℤ ℕ ℕ ℕ
patrolling = register_subtree 1 patrol fresh

abbrev guard_tree : BtNode ℤ
guard_tree = selector (cons fail (cons (subtree 1) nil))

patrol_ranked :
    (name : ℕ) (tree : BtNode ℤ)
    → lookup name patrolling.subtrees ≡ some tree
    → below (λ _. 0) 0 tree ≡ true
unfolding register_subtree insert lookup below
patrol_ranked name tree e = elim (Bool-cases (1 == name)) [
  | inl same ↦ subst (λ t. below (λ _. 0) 0 t ≡ true) (the_patrol same) refl
  | inr other ↦ grind arith
]
  where
    the_patrol : 1 == name ≡ true → patrol ≡ tree
    the_patrol same = grind arith

run_tree_returns_example :
    (status : BtStatus) × (r' : Runner ℤ ℕ ℕ ℕ) × (run_tree counting
        (at_time 0)
        0
        1
        guard_tree
        patrolling
      ≡ some (status, r'))
unfolding below
run_tree_returns_example =
    run_tree_returns counting (at_time 0) 0 patrolling (λ _. 0) patrol_ranked 1 guard_tree refl

-- A patrol that waits after two calls.
patrol_waits :
    map_option {B = List BtStatus × ℕ}
      (λ p. (p.0, p.1.world))
      (run_times 2 (run_tree counting (at_time 0) 0 1 guard_tree) patrolling)
    ≡ some (running ∷ success ∷ [], 2)
unfolding run_times run_tree run_subtree register_subtree lookup insert get_state change_state
    same_path
patrol_waits = refl

abbrev itself : Runner ℤ ℕ ℕ ℕ
itself = register_subtree 2 (decorator invert (subtree 2)) fresh

itself_there : lookup 2 itself.subtrees ≡ some (decorator invert (subtree 2))
unfolding register_subtree insert lookup
itself_there = refl

run_subtree_endless_example : run_subtree counting (at_time 0) 0 9 [] 2 itself ≡ none
run_subtree_endless_example =
    run_subtree_endless counting (at_time 0) 0 2 (decorator invert (subtree 2)) itself itself_there
      refl 9 []

integers-IsOrder : IsOrder integers.less
integers-IsOrder = record {
  asym = λ a b h. ground arith;
  not_less_trans = λ a b c h k. ground arith;
}

abbrev scored : ℕ → ℤ → UtilityScore ℤ
scored name score = record {
  option = record { action_name = name; considerations = []; weight = pos 1 };
  consideration_scores = [];
  raw_score = score;
  final_score = score;
}

abbrev scores : List (UtilityScore ℤ)
scores = scored 1 (pos 3) ∷ scored 2 (pos 5) ∷ scored 3 (pos 0) ∷ scored 4 (pos 5) ∷ []

from_scores-IsBest_example : IsBest integers-IsOrder scores (from_scores scores).chosen
from_scores-IsBest_example = from_scores-IsBest integers-IsOrder scores

chosen_last : (from_scores scores).chosen ≡ some (scored 4 (pos 5))
unfolding from_scores
chosen_last = refl

run_wait_lem_example :
    (r' : Runner ℤ ℕ ℕ ℕ) × (run_times 3 (run_wait (at_time 0) 3 []) fresh
      ≡ some (running ∷ running ∷ success ∷ [], r'))
    × (get_state (key (at_time 0) []) r'.states ≡ none)
unfolding get_state
run_wait_lem_example = run_wait_lem (at_time 0) [] 2 0 fresh refl (omega arith)

abbrev started : Runner ℤ ℕ ℕ ℕ
started = record fresh {
  states = change_state (key (at_time 0) (start_piece ∷ [])) (mark_start (at_time 0)) [];
}

timeout_sticks_example :
    (run_timeout (at_time 0) (pos 10) (run_action counting (at_time 0) 0 0) [] fresh
      ≡ some (running, record started { world = 1 }))
    × ((later : AiContext ℤ ℕ) (other : Run ℤ ℕ ℕ ℕ)
        → later.entity_id ≡ 7
        → integers.less (pos 10) (integers.minus later.game_time (pos 0)) ≡ true
        → run_timeout later (pos 10) other [] (record started { world = 1 })
          ≡ some (failure, record started { world = 1 }))
unfolding get_state change_state run_action lookup
timeout_sticks_example =
    timeout_sticks (at_time 0) (pos 10) (run_action counting (at_time 0) 0 0) [] fresh
      (record started { world = 1 }) refl refl refl

timeout_sticks_at_0 :
    (run_timeout (at_time 0) (pos 10) (run_action counting (at_time 0) 0 0) [] fresh
      ≡ some (running, record started { world = 1 }))
    × ((later : AiContext ℤ ℕ) (other : Run ℤ ℕ ℕ ℕ)
        → later.entity_id ≡ 7
        → integers.less (pos 10) (integers.minus later.game_time (pos 0)) ≡ true
        → run_timeout later (pos 10) other [] (record started { world = 1 })
          ≡ some (failure, record started { world = 1 }))
unfolding get_state change_state run_action lookup
timeout_sticks_at_0 =
    timeout_sticks (at_time 0) (pos 10) (run_action counting (at_time 0) 0 0) [] fresh
      (record started { world = 1 }) refl refl refl

-- It fails at time 11, although the child would succeed.
timeout_at_11 :
    run_timeout (at_time 11) (pos 10) (done success) [] (record started { world = 1 })
    ≡ some (failure, record started { world = 1 })
unfolding bw_exp.Common.Int.◌-ℤ◌
timeout_at_11 = timeout_sticks_at_0.1 (at_time 11) (done success) refl refl
