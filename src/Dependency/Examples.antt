-- ===== src/Dependency/Examples.antt =====
-- Runs of dependency.rs on three scripts: 1 and 2 call each other, 3 calls `login`.
use bw_exp.Common.{
  ℕ, ◌≡◌, ◌≢◌, refl, arith, List, [], ◌∷◌, none, true, false, length, ◌&&◌, ◌+◌, ◌≤◌, ◌==◌,
  if◌then◌else◌,
}
use bw_exp.Common.Ids.{contains, without}
use bw_exp.Common.Map.{lookup, insert}
use bw_exp.Dependency.{
  ScriptActionInfo, ScriptDependencyGraph, Search, done, find_cycles, find_missing_actions,
  add_script,
}
use bw_exp.Dependency
use bw_exp.Dependency.Walks.{AllCycles, Walk}
use bw_exp.Dependency.Edges.{Unique, DependsOn, add_script-Unique}
use bw_exp.Dependency.Cycles.{find_cycles_lem}
use bw_exp.Dependency.Missing.{reports, calls, absent, find_missing_actions_lem, builtin_reported}

abbrev buyer : ScriptActionInfo
buyer = record { provides = (10, 0) ∷ []; requires = 20 ∷ []; path = 1 }

abbrev seller : ScriptActionInfo
seller = record { provides = (20, 0) ∷ []; requires = 10 ∷ 40 ∷ []; path = 2 }

abbrev greeter : ScriptActionInfo
greeter = record { provides = []; requires = 30 ∷ 10 ∷ []; path = 3 }

abbrev trade : ScriptDependencyGraph
trade = add_script 3 greeter (add_script 2 seller (add_script 1 buyer Dependency.new))

abbrev text : ℕ → List ℕ
text n = if n == 30 then b'l' ∷ b'o' ∷ b'g' ∷ b'i' ∷ b'n' ∷ [] else b'_' ∷ b'_' ∷ []

new-Unique : Unique Dependency.new.scripts
unfolding Dependency.new
new-Unique = tt

trade-Unique : Unique trade.scripts
trade-Unique =
    add_script-Unique 3 greeter _
      (add_script-Unique 2 seller _ (add_script-Unique 1 buyer Dependency.new new-Unique))

trade_size : length trade.scripts + length trade.action_providers ≤ 5
unfolding Dependency.new add_script insert
trade_size = omega arith

find_cycles_lem_example :
    (s : Search) × (find_cycles 5 trade ≡ done s)
    × AllCycles (DependsOn trade) s.cycles
    × ((x : ℕ) → Walk (DependsOn trade) x x → s.cycles ≢ [])
find_cycles_lem_example = find_cycles_lem trade 5 trade-Unique trade_size

-- The two that call each other are a cycle; the third is not in it.
trade_cycles :
    find_cycles 5 trade
    ≡ done
        (record { visited = 1 ∷ 2 ∷ 3 ∷ []; rec_stack = []; path = []; cycles = (1 ∷ 2 ∷ []) ∷ [] })
unfolding find_cycles Dependency.new add_script insert lookup contains without Dependency.visit
trade_cycles = refl

find_missing_actions_lem_example :
    reports (find_missing_actions text trade) 40 2
    ≡ (calls trade.scripts 2 40 && absent text trade.action_providers 40)
find_missing_actions_lem_example = find_missing_actions_lem text trade 40 2 trade-Unique

called : calls trade.scripts 3 30 ≡ true
unfolding Dependency.new add_script insert lookup contains
called = refl

alone : lookup 30 trade.action_providers ≡ none
unfolding Dependency.new add_script insert lookup
alone = refl

builtin_reported_example : reports (find_missing_actions text trade) 30 3 ≡ true
builtin_reported_example = builtin_reported text trade 30 3 trade-Unique called alone refl

not_reported : reports (find_missing_actions text trade) 40 2 ≡ false
unfolding find_missing_actions Dependency.new add_script insert lookup
not_reported = refl
