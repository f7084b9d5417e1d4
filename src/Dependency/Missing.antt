-- ===== src/Dependency/Missing.antt =====
-- dependency.rs: the actions that are called and not provided.
use bw_exp.Common.{
  ℕ, ◌≡◌, refl, ◌∙◌, arith, List, [], ◌∷◌, ◌++◌, none, some, Bool, true, false, ◌==◌, if◌then◌else◌,
  ◌&&◌, Bool-cases, ==_iff, inl, inr, any, is_none, not,
}
use mathlib.Core.Path.{subst}
use bw_exp.Common.Ids.{contains}
use bw_exp.Common.Map.{Map, lookup}
use bw_exp.Dependency.{
  ScriptActionInfo, ScriptDependencyGraph, is_builtin_action, builtin_names, starts_with, same_text,
  missing_of, missing_in, find_missing_actions,
}
use bw_exp.Dependency.Edges.{Unique}

-- The report has this action of this script.
abbrev pub reports : List (ℕ × ℕ) → ℕ → ℕ → Bool
reports [] action path = false
reports (e ∷ es) action path = if e.0 == action && e.1 == path then true else reports es action path

reports-append :
    (es fs : List (ℕ × ℕ)) (action path : ℕ)
    → reports (es ++ fs) action path
      ≡ (if reports es action path then true else reports fs action path)
reports-append [] fs action path = refl
reports-append (e ∷ es) fs action path = ground (arith, reports-append es fs action path)

is_builtin-starts_with :
    (name : List ℕ) → is_builtin_action name ≡ starts_with name (b'_' ∷ b'_' ∷ [])
unfolding is_builtin_action
is_builtin-starts_with name = ground (arith)

-- The script `path` requires the action.
abbrev pub calls : Map ScriptActionInfo → ℕ → ℕ → Bool
calls scripts path action = elim (lookup path scripts) [
  | none ↦ false
  | some info ↦ contains info.requires action
]

-- No name of the list has the prefix.
builtin_prefix :
    (name : List ℕ)
    → any (same_text name) builtin_names ≡ true
    → starts_with name (b'_' ∷ b'_' ∷ []) ≡ false
builtin_prefix [] h = cc
builtin_prefix (c ∷ name) h = elim (Bool-cases (c == b'_')) [
  | inl e ↦ absurd (ground (arith, h, e))
  | inr e ↦ rw e refl
]

module _ (text : ℕ → List ℕ) where
  -- The action is provided by none and is not internal.
  abbrev pub absent : Map ℕ → ℕ → Bool
  absent providers action =
      is_none (lookup action providers) && not (starts_with (text action) (b'_' ∷ b'_' ∷ []))

  reports-missing_of :
      (providers : Map ℕ) (p : ℕ) (requires : List ℕ) (action path : ℕ)
      → reports (missing_of text providers p requires) action path
        ≡ (p == path && (contains requires action && absent providers action))
  unfolding missing_of contains
  reports-missing_of providers p [] action path = ground arith
  reports-missing_of providers p (a ∷ rest) action path = elim (Bool-cases (a == action)) [
    | inl same ↦
        subst
          (λ z.
            reports (missing_of text providers p (a ∷ rest)) z path
            ≡ (p == path && ((if a == z then true else contains rest z) && absent providers z)))
          ((==_iff a action).0 same)
          (ground
            (arith, is_builtin-starts_with (text a), reports-missing_of providers p rest a path))
    | inr other ↦
        ground
          (arith, is_builtin-starts_with (text a), reports-missing_of providers p rest action path)
  ]

  reports-missing_in :
      (providers : Map ℕ) (scripts : Map ScriptActionInfo) (action path : ℕ)
      → Unique scripts
      → reports (missing_in text providers scripts) action path
        ≡ (calls scripts path action && absent providers action)
  unfolding missing_in lookup
  reports-missing_in providers [] action path u = refl
  reports-missing_in providers ((p, info) ∷ rest) action path u =
      reports-append (missing_of text providers p info.requires) (missing_in text providers rest)
        action path
      ∙ (elim (Bool-cases (p == path)) [
        | inl same ↦
            let ends : lookup path rest ≡ none = rw (← (==_iff p path).0 same) u.0 in
            ground (
              arith,
              ends,
              reports-missing_of providers p info.requires action path,
              reports-missing_in providers rest action path u.1,
            )
        | inr other ↦ ground (
          arith,
          reports-missing_of providers p info.requires action path,
          reports-missing_in providers rest action path u.1,
        )
      ])

  -- If no path is a key twice, then the report of missing actions has exactly those pairs of an
  -- action and a script where the script requires the action, no script provides it and its name
  -- does not start with two underscores.
  pub find_missing_actions_lem :
      (g : ScriptDependencyGraph) (action path : ℕ)
      → Unique g.scripts
      → reports (find_missing_actions text g) action path
        ≡ (calls g.scripts path action && absent g.action_providers action)
  unfolding find_missing_actions
  find_missing_actions_lem g action path u =
      reports-missing_in g.action_providers g.scripts action path u

  -- If no path is a key twice, then an action that a script requires and none provides is
  -- reported as missing although it is one of the built-in names, such as `login`.
  pub builtin_reported :
      (g : ScriptDependencyGraph) (action path : ℕ)
      → Unique g.scripts
      → calls g.scripts path action ≡ true
      → lookup action g.action_providers ≡ none
      → any (same_text (text action)) builtin_names ≡ true
      → reports (find_missing_actions text g) action path ≡ true
  builtin_reported g action path u called alone builtin =
      ground (arith, find_missing_actions_lem g action path u, builtin_prefix (text action) builtin)
