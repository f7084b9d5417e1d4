-- ===== src/Dependency.antt =====
-- crates/bw-scripting/src/validation/dependency.rs: which scripts call actions of which others. A
-- path and the name of an action are only compared, but for the prefix of internal actions: a
-- number stands for each, and `text` gives the bytes of a name.
pub mod Walks
pub mod Depth
pub mod Totality
pub mod Edges
pub mod Cycles
pub mod Missing
mod Examples
use bw_exp.Common.{
  ℕ, zero, suc, List, [], ◌∷◌, ◌++◌, Option, none, some, Bool, true, false, not, ◌||◌, ◌==◌,
  if◌then◌else◌, ltb, length, drop, any, push, unwrap_or, is_none,
}
use bw_exp.Common.Ids.{contains, without}
use bw_exp.Common.Map.{Map, lookup, insert}

-- `provides` maps the actions of the script to the functions that handle them.
pub record ScriptActionInfo : Type 0 where
  pub provides : Map ℕ
  pub requires : List ℕ
  pub path : ℕ

pub record ScriptDependencyGraph : Type 0 where
  pub scripts : Map ScriptActionInfo
  pub action_providers : Map ℕ

unfoldable pub new : ScriptDependencyGraph
new = record { scripts = []; action_providers = [] }

unfoldable pub provide_all : ℕ → Map ℕ → Map ℕ → Map ℕ
provide_all path [] providers = providers
provide_all path (action ∷ rest) providers = provide_all path rest (insert action.0 path providers)

unfoldable pub add_script : ℕ → ScriptActionInfo → ScriptDependencyGraph → ScriptDependencyGraph
unfolding provide_all
add_script path info g = record {
  scripts = insert path info g.scripts;
  action_providers = provide_all path info.provides g.action_providers;
}

abbrev same_text : List ℕ → List ℕ → Bool
same_text [] [] = true
same_text [] (_ ∷ _) = false
same_text (_ ∷ _) [] = false
same_text (a ∷ s) (b ∷ t) = if a == b then same_text s t else false

abbrev pub starts_with : List ℕ → List ℕ → Bool
starts_with s [] = true
starts_with [] (_ ∷ _) = false
starts_with (a ∷ s) (b ∷ t) = if a == b then starts_with s t else false

abbrev pub builtin_names : List (List ℕ)
builtin_names =
    (b'l' ∷ b'o' ∷ b'g' ∷ b'i' ∷ b'n' ∷ [])
    ∷ (b'l' ∷ b'o' ∷ b'g' ∷ b'o' ∷ b'u' ∷ b't' ∷ [])
    ∷ (b'r' ∷ b'e' ∷ b'g' ∷ b'i' ∷ b's' ∷ b't' ∷ b'e' ∷ b'r' ∷ [])
    ∷ (b'c' ∷ b'h' ∷ b'a' ∷ b't' ∷ [])
    ∷ (b'w' ∷ b'h' ∷ b'i' ∷ b's' ∷ b'p' ∷ b'e' ∷ b'r' ∷ [])
    ∷ (b'p' ∷ b'i' ∷ b'n' ∷ b'g' ∷ [])
    ∷ (b'p' ∷ b'o' ∷ b'n' ∷ b'g' ∷ [])
    ∷ (b'h' ∷ b'e' ∷ b'a' ∷ b'r' ∷ b't' ∷ b'b' ∷ b'e' ∷ b'a' ∷ b't' ∷ [])
    ∷ []

-- The guard of the pattern is tried for every alternative, the last of which is the wildcard.
unfoldable pub is_builtin_action : List ℕ → Bool
is_builtin_action name =
    if any (same_text name) builtin_names || true
    then starts_with name (b'_' ∷ b'_' ∷ [])
    else false

module _ (text : ℕ → List ℕ) where
  unfoldable pub missing_of : Map ℕ → ℕ → List ℕ → List (ℕ × ℕ)
  unfolding is_builtin_action
  missing_of providers path [] = []
  missing_of providers path (action ∷ rest) =
      if is_none (lookup action providers)
      then if not (is_builtin_action (text action))
        then (action, path) ∷ missing_of providers path rest
        else missing_of providers path rest
      else missing_of providers path rest

  unfoldable pub missing_in : Map ℕ → Map ScriptActionInfo → List (ℕ × ℕ)
  unfolding missing_of
  missing_in providers [] = []
  missing_in providers (script ∷ rest) =
      missing_of providers script.0 script.1.requires ++ missing_in providers rest

  unfoldable pub find_missing_actions : ScriptDependencyGraph → List (ℕ × ℕ)
  unfolding missing_in
  find_missing_actions g = missing_in g.action_providers g.scripts

-- `HashSet::insert`.
unfoldable pub set_insert : List ℕ → ℕ → List ℕ
set_insert s x = if contains s x then s else push s x

-- The providers of the actions that a script requires, without the script itself.
unfoldable pub script_deps : Map ℕ → ℕ → List ℕ → List ℕ → List ℕ
unfolding set_insert
script_deps providers path [] found = found
script_deps providers path (action ∷ rest) found =
    script_deps providers path rest (elim (lookup action providers) [
      | none ↦ found
      | some provider ↦ if not (provider == path) then set_insert found provider else found
    ])

abbrev pub insert_deps : ℕ → List ℕ → Map (List ℕ) → Map (List ℕ)
insert_deps path [] deps = deps
insert_deps path (d ∷ ds) deps = insert path (d ∷ ds) deps

unfoldable pub edges : Map ℕ → Map ScriptActionInfo → Map (List ℕ) → Map (List ℕ)
unfolding script_deps
edges providers [] deps = deps
edges providers (script ∷ rest) deps =
    edges providers rest
      (insert_deps script.0 (script_deps providers script.0 script.1.requires []) deps)

-- The variables of the search.
pub record Search : Type 0 where
  pub visited : List ℕ
  pub rec_stack : List ℕ
  pub path : List ℕ
  pub cycles : List (List ℕ)

-- `panics` is the `unwrap` of a position that is not there.
pub data Outcome : Type 0 where
  done : Search → Outcome
  panics out_of_fuel : Outcome

infixl 5 ◌>>=◌
abbrev pub ◌>>=◌ : Outcome → (Search → Outcome) → Outcome
done s >>= f = f s
panics >>= f = panics
out_of_fuel >>= f = out_of_fuel

-- `Iterator::position`.
abbrev pub position : ℕ → List ℕ → Option ℕ
position y [] = none
position y (x ∷ xs) =
    if x == y then some 0 else elim (position y xs) [ none ↦ none | some i ↦ some (suc i) ]

-- `Vec::pop`.
abbrev pub pop : List ℕ → List ℕ
pop [] = []
pop (x ∷ []) = []
pop (x ∷ y ∷ r) = x ∷ pop (y ∷ r)

unfoldable pub enter : ℕ → Search → Search
unfolding set_insert
enter node s = record s {
  visited = set_insert s.visited node;
  rec_stack = set_insert s.rec_stack node;
  path = push s.path node;
}

unfoldable pub leave : ℕ → Search → Search
leave node s = record s { path = pop s.path; rec_stack = without node s.rec_stack }

unfoldable pub close_cycle : ℕ → Search → Outcome
close_cycle neighbor s = elim (position neighbor s.path) [
  | none ↦ panics
  | some start ↦
      let cycle = drop start s.path in
      if ltb 1 (length cycle) then done (record s { cycles = push s.cycles cycle }) else done s
]

-- The loop over the neighbors of a node; `rec` is the recursive call.
unfoldable pub visit : (ℕ → Search → Outcome) → ℕ → Search → Outcome
unfolding close_cycle
visit rec neighbor s =
    if not (contains s.visited neighbor)
    then rec neighbor s
    else if contains s.rec_stack neighbor
    then close_cycle neighbor s
    else done s

unfoldable pub visit_all : (ℕ → Search → Outcome) → List ℕ → Search → Outcome
visit_all rec [] s = done s
visit_all rec (n ∷ ns) s = visit rec n s >>= visit_all rec ns

module _ (deps : Map (List ℕ)) where
  abbrev pub neighbors : ℕ → List ℕ
  neighbors node = unwrap_or (lookup node deps) []

  unfoldable pub dfs : ℕ → ℕ → Search → Outcome
  unfolding enter leave visit_all
  dfs zero node s = out_of_fuel
  dfs (suc fuel) node s =
      visit_all (dfs fuel) (neighbors node) (enter node s) >>= λ t. done (leave node t)

  unfoldable pub search_from : ℕ → Map ScriptActionInfo → Search → Outcome
  unfolding dfs
  search_from fuel [] s = done s
  search_from fuel (script ∷ rest) s =
      (if not (contains s.visited script.0) then dfs fuel script.0 s else done s)
      >>= search_from fuel rest

unfoldable pub find_cycles : ℕ → ScriptDependencyGraph → Outcome
unfolding edges search_from
find_cycles fuel g =
    search_from (edges g.action_providers g.scripts []) fuel g.scripts
      (record { visited = []; rec_stack = []; path = []; cycles = [] })
