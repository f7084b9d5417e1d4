-- ===== src/BehaviorTrees/Endless.antt =====
-- runner.rs: subtrees that run themselves.
use bw_exp.Common.{
  ℕ, zero, suc, ◌≡◌, refl, ◌∷◌, none, some, Bool, true, false, ◌==◌, if◌then◌else◌, ==_iff,
}
use mathlib.Core.Path.{subst, sym}
use bw_exp.Common.Float.{F64}
use bw_exp.Common.Map.{lookup}
use bw_exp.BehaviorTrees.{
  BtStatus, BtNode, decorator, subtree, invert, until_fail, always_succeed, always_fail,
  DecoratorKind, NodePath, AiContext, Engine, Runner, child_piece, sub_piece,
}
use bw_exp.BehaviorTrees.Runs.{Run, ◌>>=◌}
use bw_exp.BehaviorTrees.Decorators.{run_decorator}
use bw_exp.BehaviorTrees.Nodes.{run_node, run_subtree}

-- Whatever the states are, a run of the tree begins with a run of that subtree.
abbrev pub always_runs : {F : Type 0} → DecoratorKind F → Bool
always_runs invert = true
always_runs until_fail = true
always_runs always_succeed = true
always_runs always_fail = true
always_runs _ = false

abbrev pub begins_with : {F : Type 0} → ℕ → BtNode F → Bool
begins_with name (subtree k) = k == name
begins_with name (decorator kind c) = if always_runs kind then begins_with name c else false
begins_with name _ = false

bind_none :
    {F D A W : Type 0} (m : Run F D A W) (k : BtStatus → Run F D A W) (r : Runner F D A W)
    → m r ≡ none
    → (m >>= k) r ≡ none
bind_none m k r e = rw (e, ◌>>=◌) refl

module _ {F D A W : Type 0} ⦃f : F64 F⦄ (engine : Engine F D A W) (ctx : AiContext F D)
    (script : ℕ) where
  stuck :
      (sub : NodePath → ℕ → Run F D A W) (name : ℕ) (r : Runner F D A W)
      → ((path : NodePath) → sub path name r ≡ none)
      → (tree : BtNode F) (path : NodePath) → begins_with name tree ≡ true
      → run_node engine ctx script sub tree path r ≡ none
  unfolding run_node run_decorator
  stuck sub name r never (subtree k) path h =
      subst (λ n. sub path n r ≡ none) (sym ((==_iff k name).0 h)) (never path)
  stuck sub name r never (decorator invert c) path h =
      bind_none (run_node engine ctx script sub c (child_piece ∷ path)) _ r
        (stuck sub name r never c (child_piece ∷ path) h)
  stuck sub name r never (decorator until_fail c) path h =
      bind_none (run_node engine ctx script sub c (child_piece ∷ path)) _ r
        (stuck sub name r never c (child_piece ∷ path) h)
  stuck sub name r never (decorator always_succeed c) path h =
      bind_none (run_node engine ctx script sub c (child_piece ∷ path)) _ r
        (stuck sub name r never c (child_piece ∷ path) h)
  stuck sub name r never (decorator always_fail c) path h =
      bind_none (run_node engine ctx script sub c (child_piece ∷ path)) _ r
        (stuck sub name r never c (child_piece ∷ path) h)
  stuck sub name r never tree path h = cc

  -- A registered subtree whose run begins with a run of itself, under decorators that always run
  -- their child, never returns: no fuel is enough.
  pub run_subtree_endless :
      (name : ℕ) (tree : BtNode F) (r : Runner F D A W)
      → lookup name r.subtrees ≡ some tree
      → begins_with name tree ≡ true
      → (fuel : ℕ) (path : NodePath) → run_subtree engine ctx script fuel path name r ≡ none
  unfolding run_subtree
  run_subtree_endless name tree r there h zero path = rw (there, run_subtree) refl
  run_subtree_endless name tree r there h (suc fuel) path =
      rw (there, run_subtree)
        (stuck (run_subtree engine ctx script fuel) name r
          (run_subtree_endless name tree r there h fuel) tree (sub_piece name ∷ path) h)
