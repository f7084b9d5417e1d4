-- ===== src/Dependency/Cycles.antt =====
-- dependency.rs: the cycles that `find_cycles` reports.
use bw_exp.Common.{
  ℕ, ◌+◌, ◌≤◌, ◌≡◌, ◌≢◌, refl, arith, List, [], ◌∷◌, ◌++◌, true, ◌==◌, Bool-cases, ==_iff, inl, inr,
  length, length-append, is_some,
}
use mathlib.Core.Path.{subst, sym}
use bw_exp.Common.Ids.{contains, contains-append}
use bw_exp.Common.Map.{Map, lookup}
use bw_exp.Dependency.{ScriptDependencyGraph, Search, done, find_cycles, neighbors}
use bw_exp.Dependency.Walks.{AllCycles, Walk, one, more, unseen}
use bw_exp.Dependency.Depth.{Ordered}
use bw_exp.Dependency.Totality.{searches_all}
use bw_exp.Dependency.Edges.{
  Unique, DependsOn, deps_of, neighbors-DependsOn, DependsOn-neighbors, keys, values, contains-keys,
  contains-values,
}

unseen-nil : (us : List ℕ) → unseen [] us ≡ length us
unfolding contains
unseen-nil [] = refl
unseen-nil (u ∷ us) = omega (arith, unseen-nil us)

length-keys : {V : Type 0} (m : Map V) → length (keys m) ≡ length m
length-keys [] = refl
length-keys (e ∷ m) = omega (arith, length-keys m)

length-values : (m : Map ℕ) → length (values m) ≡ length m
length-values [] = refl
length-values (e ∷ m) = omega (arith, length-values m)

module _ (deps : Map (List ℕ)) (R : ℕ → ℕ → Type 0)
    (edge : (x y : ℕ) → R x y → contains (neighbors deps x) y ≡ true) where
  Ordered-closed :
      (o : List ℕ) (x y : ℕ) → Ordered deps R o → contains o x ≡ true → R x y → contains o y ≡ true
  unfolding contains
  Ordered-closed [] x y d h e = h
  Ordered-closed (a ∷ o) x y d h e = elim (Bool-cases (a == x)) [
    | inl same ↦ ground (
      arith,
      d.0 y (
          subst (λ z. contains (neighbors deps z) y ≡ true) (sym ((==_iff a x).0 same))
            (edge x y e)),
    )
    | inr other ↦ ground (arith, Ordered-closed o x y d.1 (ground arith) e)
  ]

  Ordered-Walk :
      (o : List ℕ) {x y : ℕ}
      → Ordered deps R o
      → Walk R x y
      → contains o x ≡ true
      → contains o y ≡ true
  Ordered-Walk o d (one {x} {y} e) h = Ordered-closed o x y d h e
  Ordered-Walk o d (more {x} {y} e w) h = Ordered-Walk o d w (Ordered-closed o x y d h e)

  -- The first step of a walk leads to what comes later.
  first :
      {x y : ℕ}
      → Walk R x y
      → (z : ℕ) × R x z
        × ((o : List ℕ) → Ordered deps R o → contains o z ≡ true → contains o y ≡ true)
  first (one {x} {y} e) = (y, e, λ o d h. h)
  first (more {x} {y} e w) = (y, e, λ o d h. Ordered-Walk o d w h)

  Ordered-acyclic : (o : List ℕ) (x : ℕ) → Ordered deps R o → contains o x ≡ true → ¬ Walk R x x
  unfolding contains
  Ordered-acyclic [] x d h w = cc
  Ordered-acyclic (a ∷ o) x d h w = elim (Bool-cases (a == x)) [
    | inr other ↦ Ordered-acyclic o x d.1 (ground arith) w
    | inl same ↦
        let (z, e, rest) = first w in
        let later = d.0 z (
          subst (λ z'. contains (neighbors deps z') z ≡ true) (sym ((==_iff a x).0 same))
            (edge x z e)) in
        Ordered-acyclic o x d.1 (rest o d.1 later) w
  ]

-- If no path is a key twice and the fuel is the number of scripts and of provided actions or
-- more, then the search for cycles ends without a panic. Every cycle that it reports is one: two
-- scripts or more, none twice, each of which depends on the next and the last on the first. If
-- some script depends on itself through others, then it reports a cycle.
pub find_cycles_lem :
    (g : ScriptDependencyGraph) (fuel : ℕ)
    → Unique g.scripts
    → length g.scripts + length g.action_providers ≤ fuel
    → (s : Search) × (find_cycles fuel g ≡ done s)
      × AllCycles (DependsOn g) s.cycles
      × ((x : ℕ) → Walk (DependsOn g) x x → s.cycles ≢ [])
unfolding find_cycles contains
find_cycles_lem g fuel unique enough =
    let deps = deps_of g unique in
    let every = keys g.scripts ++ values g.action_providers in
    let start : Search = record { visited = []; rec_stack = []; path = []; cycles = [] } in
    let (t, made, r, all) =
      searches_all deps (DependsOn g) every (neighbors-DependsOn g unique)
        (λ x y h. plain (neighbors-DependsOn g unique x y h))
        (λ x y h. provided (neighbors-DependsOn g unique x y h)) g.scripts fuel start refl
        (record { stacked = λ n. refl; seen = λ n h. h; distinct = tt; sound = tt })
        (λ x h. ground (
          arith,
          contains-append (keys g.scripts) (values g.action_providers) x,
          contains-keys g.scripts x,
          h,
        ))
        (omega (
          arith,
          unseen-nil every,
          length-append (keys g.scripts) (values g.action_providers),
          length-keys g.scripts,
          length-values g.action_providers,
        )) in
    (
      t,
      made,
      r.search.sound,
      λ x w none.
          let (o, f) = r.finishes none [] (record { ordered = tt; covers = λ n h p. h }) in
          Ordered-acyclic deps (DependsOn g) (DependsOn-neighbors g unique) o x f.ordered
            (f.covers x (all x (known w)) (rw r.same_path refl)) w,
    )
  where
    plain : {x y : ℕ} → DependsOn g x y → x ≢ y
    plain (info, action, found, there, by, ne) = ne

    provided :
        {x y : ℕ}
        → DependsOn g x y
        → contains (keys g.scripts ++ values g.action_providers) y ≡ true
    provided {x} {y} (info, action, found, there, by, ne) = ground (
      arith,
      contains-append (keys g.scripts) (values g.action_providers) y,
      contains-values g.action_providers action y,
    )

    known : {x y : ℕ} → Walk (DependsOn g) x y → is_some (lookup x g.scripts) ≡ true
    known w =
        let (z, (info, action, found, there, by, ne), _) =
          first (deps_of g unique) (DependsOn g) (DependsOn-neighbors g unique) w in
        ground (arith, found)
