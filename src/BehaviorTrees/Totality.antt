-- ===== src/BehaviorTrees/Totality.antt =====
-- runner.rs: when a run of a tree returns.
use bw_exp.Common.{
  ℕ, zero, suc, ◌≡◌, refl, arith, [], ◌∷◌, Option, none, some, Bool, true, false, ◌&&◌, ltb,
  Bool-cases, Option-cases, inl, inr,
}
use bw_exp.Common.Float.{F64}
use bw_exp.Common.Map.{Map, lookup}
use bw_exp.BehaviorTrees.{
  BtStatus, BtNode, sequence, selector, action, condition, utility, decorator, force_sequence, wait,
  succeed, fail, subtree, Children, nil, cons, NodePath, AiContext, Engine, Runner, child_piece,
  seq_piece, sel_piece, force_piece, sub_piece,
}
use bw_exp.BehaviorTrees.Runs.{Run}
use bw_exp.BehaviorTrees.Nodes.{
  run_node, run_sequence, run_selector, run_force_sequence, run_subtree, run_tree,
}
use bw_exp.BehaviorTrees.Leaves.{
  Ends, Returns, >>=-Returns, action-Returns, condition-Returns, utility-Returns, wait-Returns,
  decorator-Returns,
}

-- Every subtree that the tree names has a rank below `n`.
unfoldable mutual
  pub below : {F : Type 0} → (ℕ → ℕ) → ℕ → BtNode F → Bool
  below rank n (sequence cs) = all_below rank n cs
  below rank n (selector cs) = all_below rank n cs
  below rank n (action name) = true
  below rank n (condition name) = true
  below rank n (utility options) = true
  below rank n (decorator kind c) = below rank n c
  below rank n (force_sequence cs) = all_below rank n cs
  below rank n (wait ticks) = true
  below rank n succeed = true
  below rank n fail = true
  below rank n (subtree name) = ltb (rank name) n

  pub all_below : {F : Type 0} → (ℕ → ℕ) → ℕ → Children F → Bool
  all_below rank n nil = true
  all_below rank n (cons c cs) = below rank n c && all_below rank n cs

and_left : (a b : Bool) → a && b ≡ true → a ≡ true
and_left a b h = ground arith

and_right : (a b : Bool) → a && b ≡ true → b ≡ true
and_right a b h = ground arith

module _ {F D A W : Type 0} (subtrees : Map (BtNode F)) where
  module _ ⦃f : F64 F⦄ (engine : Engine F D A W) (ctx : AiContext F D) (script : ℕ) where
    -- The runs of the children, given a run of the subtrees whose rank is below `n`.
    module _ (sub : NodePath → ℕ → Run F D A W) (rank : ℕ → ℕ) (n : ℕ)
        (subs : (path : NodePath) (name : ℕ)
          → ltb (rank name) n ≡ true
          → Returns subtrees (sub path name)) where
      mutual
        unfolding run_node below

        node-Returns :
            (node : BtNode F) (path : NodePath)
            → below rank n node ≡ true
            → Returns subtrees (run_node engine ctx script sub node path)
        node-Returns (sequence cs) path h r e = sequence-Returns cs 0 _ path h r e
        node-Returns (selector cs) path h r e = selector-Returns cs 0 _ path h r e
        node-Returns (action name) path h r e = action-Returns subtrees engine ctx script name r e
        node-Returns (condition name) path h r e =
            condition-Returns subtrees engine ctx script name r e
        node-Returns (utility options) path h r e =
            utility-Returns subtrees engine ctx script options r e
        node-Returns (decorator kind c) path h r e =
            decorator-Returns subtrees engine ctx script kind _ path
              (node-Returns c (child_piece ∷ path) h) r e
        node-Returns (force_sequence cs) path h r e = force-Returns cs 0 false true path h r e
        node-Returns (wait ticks) path h r e =
            wait-Returns subtrees engine ctx script ticks path r e
        node-Returns succeed path h r e = e
        node-Returns fail path h r e = e
        node-Returns (subtree name) path h r e = subs path name h r e

        sequence-Returns :
            (cs : Children F) (i start : ℕ) (path : NodePath)
            → all_below rank n cs ≡ true
            → Returns subtrees (run_sequence engine ctx script sub i start cs path)
        sequence-Returns nil i start path h r e = e
        sequence-Returns (cons c cs) i start path h r e =
            let more =
              sequence-Returns cs (suc i) start path
                (and_right (below rank n c) (all_below rank n cs) h) in
            let first =
              node-Returns c (seq_piece i ∷ path)
                (and_left (below rank n c) (all_below rank n cs) h) in
            elim (Bool-cases (ltb i start)) [
              | inl skip ↦ rw skip (more r e)
              | inr take ↦ rw take (
                  >>=-Returns subtrees (run_node engine ctx script sub c (seq_piece i ∷ path)) _
                    first (λ status r' e'. ground (arith, more r' e', e')) r e)
            ]

        selector-Returns :
            (cs : Children F) (i start : ℕ) (path : NodePath)
            → all_below rank n cs ≡ true
            → Returns subtrees (run_selector engine ctx script sub i start cs path)
        selector-Returns nil i start path h r e = e
        selector-Returns (cons c cs) i start path h r e =
            let more =
              selector-Returns cs (suc i) start path
                (and_right (below rank n c) (all_below rank n cs) h) in
            let first =
              node-Returns c (sel_piece i ∷ path)
                (and_left (below rank n c) (all_below rank n cs) h) in
            elim (Bool-cases (ltb i start)) [
              | inl skip ↦ rw skip (more r e)
              | inr take ↦ rw take (
                  >>=-Returns subtrees (run_node engine ctx script sub c (sel_piece i ∷ path)) _
                    first (λ status r' e'. ground (arith, more r' e', e')) r e)
            ]

        force-Returns :
            (cs : Children F) (i : ℕ) (a b : Bool) (path : NodePath)
            → all_below rank n cs ≡ true
            → Returns subtrees (run_force_sequence engine ctx script sub i a b cs path)
        force-Returns nil i a b path h r e = e
        force-Returns (cons c cs) i a b path h r e =
            let rest = and_right (below rank n c) (all_below rank n cs) h in
            >>=-Returns subtrees (run_node engine ctx script sub c (force_piece i ∷ path)) _
              (node-Returns c (force_piece i ∷ path)
                (and_left (below rank n c) (all_below rank n cs) h))
              (λ status r' e'. ground (
                arith,
                e',
                force-Returns cs (suc i) true b path rest r' e',
                force-Returns cs (suc i) a false path rest r' e',
                force-Returns cs (suc i) a b path rest r' e',
              ))
              r e

    module _ (rank : ℕ → ℕ)
        (ranked : (name : ℕ) (tree : BtNode F)
          → lookup name subtrees ≡ some tree
          → below rank (rank name) tree ≡ true) where
      subtree-Returns :
          (fuel : ℕ) (path : NodePath) (name : ℕ)
          → ltb (rank name) fuel ≡ true
          → Returns subtrees (run_subtree engine ctx script fuel path name)
      unfolding run_subtree
      subtree-Returns zero path name low r e = absurd (ground arith)
      subtree-Returns (suc fuel) path name low r e = elim (Option-cases (lookup name r.subtrees)) [
        | inl gone ↦ rw (gone, run_subtree) e
        | inr (tree, there) ↦
            rw (there, run_subtree)
              (node-Returns (run_subtree engine ctx script fuel) rank (rank name)
                (λ p k less. subtree-Returns fuel p k (ground arith)) tree (sub_piece name ∷ path)
                (ranked name tree (rw e at there)) r e)
      ]

      tree-Returns :
          (fuel : ℕ) (tree : BtNode F)
          → below rank fuel tree ≡ true
          → Returns subtrees (run_tree engine ctx script fuel tree)
      unfolding run_tree
      tree-Returns fuel tree low r e =
          node-Returns (run_subtree engine ctx script fuel) rank fuel (subtree-Returns fuel) tree []
            low _ e

Ends-some :
    {F D A W : Type 0} (subtrees : Map (BtNode F)) (o : Option (BtStatus × Runner F D A W))
    → Ends subtrees o
    → (status : BtStatus) × (r : Runner F D A W) × (o ≡ some (status, r))
Ends-some subtrees none h = absurd h
Ends-some subtrees (some (status, r)) h = (status, r, refl)

module _ {F D A W : Type 0} ⦃f : F64 F⦄ (engine : Engine F D A W) (ctx : AiContext F D) where
  -- Let each name of a subtree have a rank, and let every registered subtree name only subtrees
  -- of a lower rank than its own. Then a run of a tree that names only subtrees of a rank below n
  -- returns a status, with fuel n, from every state, with any engine.
  pub run_tree_returns :
      (script : ℕ) (r : Runner F D A W) (rank : ℕ → ℕ)
      → ((name : ℕ) (tree : BtNode F)
          → lookup name r.subtrees ≡ some tree
          → below rank (rank name) tree ≡ true)
      → (fuel : ℕ) (tree : BtNode F) → below rank fuel tree ≡ true
      → (status : BtStatus) × (r' : Runner F D A W) × (run_tree engine ctx script fuel tree r
          ≡ some (status, r'))
  run_tree_returns script r rank ranked fuel tree low =
      Ends-some r.subtrees (run_tree engine ctx script fuel tree r)
        (tree-Returns r.subtrees engine ctx script rank ranked fuel tree low r refl)
