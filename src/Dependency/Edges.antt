-- ===== src/Dependency/Edges.antt =====
-- dependency.rs: the edges that `find_cycles` computes are the dependencies of the scripts.
use bw_exp.Common.{
  ℕ, ◌≡◌, ◌≢◌, refl, arith, List, [], ◌∷◌, none, some, true, false, ◌==◌, if◌then◌else◌, Bool-cases,
  ==_refl, ==_iff, ◌∙◌, Option-cases, ◌⊎◌, inl, inr, is_some,
}
use mathlib.Core.Path.{subst, sym}
use bw_exp.Common.Ids.{contains, contains-push}
use bw_exp.Common.Map.{Map, lookup, insert, lookup-insert}
use bw_exp.Dependency.{
  ScriptActionInfo, ScriptDependencyGraph, set_insert, script_deps, insert_deps, edges, neighbors,
  add_script,
}

-- No path is a key twice.
abbrev pub Unique : {V : Type 0} → Map V → Type 0
Unique [] = Unit {0}
Unique (e ∷ m) = (lookup e.0 m ≡ none) × Unique m

-- The script `x` requires an action that `y`, another script, provides.
abbrev pub DependsOn : ScriptDependencyGraph → ℕ → ℕ → Type 0
DependsOn g x y =
    (info : ScriptActionInfo) × (action : ℕ) × (lookup x g.scripts ≡ some info)
    × (contains info.requires action ≡ true)
    × (lookup action g.action_providers ≡ some y)
    × (x ≢ y)

contains-set_insert :
    (s : List ℕ) (x n : ℕ) → contains (set_insert s x) n ≡ (if x == n then true else contains s n)
unfolding set_insert
contains-set_insert s x n = ground (arith, contains-push s x n)

module _ (providers : Map ℕ) where
  abbrev Requires : ℕ → List ℕ → ℕ → Type 0
  Requires path requires y =
      (action : ℕ) × (contains requires action ≡ true)
      × (lookup action providers ≡ some y)
      × (path ≢ y)

  script_deps_sound :
      (path : ℕ) (requires found : List ℕ) (y : ℕ)
      → contains (script_deps providers path requires found) y ≡ true
      → (contains found y ≡ true) ⊎ Requires path requires y
  unfolding script_deps contains
  script_deps_sound path [] found y h = inl h
  script_deps_sound path (a ∷ rest) found y h = elim (Option-cases (lookup a providers)) [
    | inl e ↦ later (script_deps_sound path rest found y (rw e at h))
    | inr (p, e) ↦ elim (Bool-cases (p == path)) [
      | inl own ↦ later (script_deps_sound path rest found y (rw (e, own) at h))
      | inr other ↦ elim (Bool-cases (p == y)) [
        | inl same ↦ inr (a, ground arith, ground (arith, e), ground arith)
        | inr differ ↦
            elim (script_deps_sound path rest (set_insert found p) y (rw (e, other) at h)) [
              | inl there ↦ inl (ground (arith, contains-set_insert found p y))
              | inr (b, there, by, ne) ↦ inr (b, ground arith, by, ne)
            ]
      ]
    ]
  ]
    where
      later :
          (contains found y ≡ true) ⊎ Requires path rest y
          → (contains found y ≡ true) ⊎ Requires path (a ∷ rest) y
      later (inl there) = inl there
      later (inr (b, there, by, ne)) = inr (b, ground arith, by, ne)

  script_deps_keeps :
      (path : ℕ) (requires found : List ℕ) (y : ℕ)
      → contains found y ≡ true
      → contains (script_deps providers path requires found) y ≡ true
  unfolding script_deps
  script_deps_keeps path [] found y h = h
  script_deps_keeps path (a ∷ rest) found y h = elim (Option-cases (lookup a providers)) [
    | inl e ↦ rw e (script_deps_keeps path rest found y h)
    | inr (p, e) ↦ elim (Bool-cases (p == path)) [
      | inl own ↦ rw (e, own) (script_deps_keeps path rest found y h)
      | inr other ↦
          rw (e, other)
            (script_deps_keeps path rest (set_insert found p) y
              (ground (arith, contains-set_insert found p y)))
    ]
  ]

  script_deps_complete :
      (path : ℕ) (requires found : List ℕ) (action y : ℕ)
      → contains requires action ≡ true
      → lookup action providers ≡ some y
      → path ≢ y
      → contains (script_deps providers path requires found) y ≡ true
  unfolding script_deps contains
  script_deps_complete path [] found action y there by ne = cc
  script_deps_complete path (a ∷ rest) found action y there by ne =
      elim (Bool-cases (a == action)) [
        | inl same ↦
            let e : lookup a providers ≡ some y = rw ((==_iff a action).0 same) by in
            script_deps_keeps path rest _ y (ground (arith, e, contains-set_insert found y y))
        | inr other ↦ script_deps_complete path rest _ action y (ground arith) by ne
      ]

  neighbors-insert_deps :
      (path x : ℕ) (ds : List ℕ) (deps : Map (List ℕ)) (y : ℕ)
      → contains (neighbors (insert_deps path ds deps) x) y ≡ true
      → ((path ≡ x) × (contains ds y ≡ true)) ⊎ (contains (neighbors deps x) y ≡ true)
  neighbors-insert_deps path x [] deps y h = inr h
  neighbors-insert_deps path x (d ∷ ds) deps y h = elim (Bool-cases (path == x)) [
    | inl same ↦ inl ((==_iff path x).0 same, rw (lookup-insert path x (d ∷ ds) deps, same) at h)
    | inr other ↦ inr (rw (lookup-insert path x (d ∷ ds) deps, other) at h)
  ]

  insert_deps_self :
      (path : ℕ) (ds : List ℕ) (deps : Map (List ℕ)) (y : ℕ)
      → contains ds y ≡ true
      → contains (neighbors (insert_deps path ds deps) path) y ≡ true
  unfolding contains
  insert_deps_self path [] deps y h = cc
  insert_deps_self path (d ∷ ds) deps y h =
      rw (lookup-insert path path (d ∷ ds) deps, ==_refl path) h

  insert_deps_other :
      (path x : ℕ) (ds : List ℕ) (deps : Map (List ℕ))
      → (path == x) ≡ false
      → neighbors (insert_deps path ds deps) x ≡ neighbors deps x
  insert_deps_other path x [] deps h = refl
  insert_deps_other path x (d ∷ ds) deps h = rw (lookup-insert path x (d ∷ ds) deps, h)

  -- An entry of the scripts that requires an action of `y`.
  abbrev Depends : Map ScriptActionInfo → ℕ → ℕ → Type 0
  Depends scripts x y =
      (info : ScriptActionInfo) × (lookup x scripts ≡ some info) × Requires x info.requires y

  edges_sound :
      (scripts : Map ScriptActionInfo) (deps : Map (List ℕ)) (x y : ℕ)
      → Unique scripts
      → contains (neighbors (edges providers scripts deps) x) y ≡ true
      → (contains (neighbors deps x) y ≡ true) ⊎ Depends scripts x y
  unfolding edges lookup contains
  edges_sound [] deps x y u h = inl h
  edges_sound ((p, info) ∷ rest) deps x y u h =
      elim (edges_sound rest (insert_deps p (script_deps providers p info.requires []) deps) x y u.1
        h) [
          | inr (info', found, needs) ↦ inr (info', ground (arith, found, u.0), needs)
          | inl before ↦
              elim (neighbors-insert_deps p x (script_deps providers p info.requires []) deps y
                before) [
                  | inr older ↦ inl older
                  | inl (same, there) ↦ elim (script_deps_sound p info.requires [] y there) [
                    | inl none_yet ↦ cc
                    | inr needs ↦
                        inr (info, ground arith, subst (λ z. Requires z info.requires y) same needs)
                  ]
                ]
        ]

  edges_other :
      (scripts : Map ScriptActionInfo) (deps : Map (List ℕ)) (x : ℕ)
      → lookup x scripts ≡ none
      → neighbors (edges providers scripts deps) x ≡ neighbors deps x
  unfolding edges lookup
  edges_other [] deps x h = refl
  edges_other ((p, info) ∷ rest) deps x h =
      edges_other rest (insert_deps p (script_deps providers p info.requires []) deps) x
        (ground arith)
      ∙ insert_deps_other p x (script_deps providers p info.requires []) deps (ground arith)

  edges_complete :
      (scripts : Map ScriptActionInfo) (deps : Map (List ℕ)) (x y : ℕ)
      → Unique scripts
      → Depends scripts x y
      → contains (neighbors (edges providers scripts deps) x) y ≡ true
  unfolding edges lookup
  edges_complete [] deps x y u (info, found, needs) = cc
  edges_complete ((p, i) ∷ rest) deps x y u (info, found, (action, there, by, ne)) =
      elim (Bool-cases (p == x)) [
        | inl same ↦
            let e = (==_iff p x).0 same in
            let ds = script_deps providers p i.requires [] in
            let has : contains ds y ≡ true =
              script_deps_complete p i.requires [] action y (ground (arith, there, found)) by
                (λ q. ne (sym e ∙ q)) in
            let ends : lookup x rest ≡ none = subst (λ z. lookup z rest ≡ none) e u.0 in
            rw (edges_other rest (insert_deps p ds deps) x ends) (
              subst (λ z. contains (neighbors (insert_deps p ds deps) z) y ≡ true) e
                (insert_deps_self p ds deps y has))
        | inr other ↦
            edges_complete rest (insert_deps p (script_deps providers p i.requires []) deps) x y u.1
              (info, ground arith, (action, there, by, ne))
      ]

-- The paths of the scripts and of the providers.
abbrev pub keys : {V : Type 0} → Map V → List ℕ
keys [] = []
keys (e ∷ m) = e.0 ∷ keys m

abbrev pub values : Map ℕ → List ℕ
values [] = []
values (e ∷ m) = e.1 ∷ values m

pub contains-keys : {V : Type 0} (m : Map V) (x : ℕ) → contains (keys m) x ≡ is_some (lookup x m)
unfolding contains lookup
contains-keys [] x = refl
contains-keys (e ∷ m) x = ground (arith, contains-keys m x)

pub contains-values : (m : Map ℕ) (a y : ℕ) → lookup a m ≡ some y → contains (values m) y ≡ true
unfolding contains lookup
contains-values [] a y h = cc
contains-values (e ∷ m) a y h = ground (arith, contains-values m a y)

module _ (g : ScriptDependencyGraph) (unique : Unique g.scripts) where
  abbrev pub deps_of : Map (List ℕ)
  deps_of = edges g.action_providers g.scripts []

  pub neighbors-DependsOn : (x y : ℕ) → contains (neighbors deps_of x) y ≡ true → DependsOn g x y
  unfolding contains lookup
  neighbors-DependsOn x y h = elim (edges_sound g.action_providers g.scripts [] x y unique h) [
    | inl e ↦ cc
    | inr (info, found, (action, there, by, ne)) ↦ (info, action, found, there, by, ne)
  ]

  pub DependsOn-neighbors : (x y : ℕ) → DependsOn g x y → contains (neighbors deps_of x) y ≡ true
  DependsOn-neighbors x y (info, action, found, there, by, ne) =
      edges_complete g.action_providers g.scripts [] x y unique
        (info, found, (action, there, by, ne))

insert-Unique : {V : Type 0} (k : ℕ) (v : V) (m : Map V) → Unique m → Unique (insert k v m)
unfolding insert lookup
insert-Unique k v [] u = (refl, tt)
insert-Unique k v (e ∷ m) u = elim (Bool-cases (e.0 == k)) [
  | inl same ↦ rw same (rw (← (==_iff e.0 k).0 same) u.0, u.1)
  | inr other ↦ rw other (ground (arith, lookup-insert k e.0 v m, u.0), insert-Unique k v m u.1)
]

pub add_script-Unique :
    (path : ℕ) (info : ScriptActionInfo) (g : ScriptDependencyGraph)
    → Unique g.scripts
    → Unique (add_script path info g).scripts
unfolding add_script
add_script-Unique path info g u = insert-Unique path info g.scripts u
