-- ===== src/Dependency/Totality.antt =====
-- dependency.rs: the search of `find_cycles` ends, does not panic and visits all it is asked to.
use bw_exp.Common.{
  ℕ, zero, suc, ◌≤◌, ◌≡◌, ◌≢◌, refl, ap, ◌∙◌, arith, List, [], ◌∷◌, some, true, false, ◌==◌,
  if◌then◌else◌, drop, push, Bool-cases, ==_iff, inl, inr, not, is_some,
}
use mathlib.Core.Path.{subst, sym}
use bw_exp.Common.Ids.{contains, IsDistinct}
use bw_exp.Common.Map.{Map, lookup}
use bw_exp.Dependency.{
  Search, Outcome, done, enter, leave, close_cycle, visit, visit_all, neighbors, dfs, position,
  search_from, ScriptActionInfo,
}
use bw_exp.Dependency.Walks.{
  Leads, IsCycle, push-AllCycles, Leads-push, Leads-drop, drop-IsDistinct, position_lem, unseen,
  unseen_le, unseen_lt,
}
use bw_exp.Dependency.Depth.{
  IsSearch, Ran, refl-Ran, trans-Ran, Settled, Settled-Ran, enter-IsSearch, enter-grows,
  enter-visited, leave-Ran, leave-Settled,
}

push-ne-nil : (cs : List (List ℕ)) (c : List ℕ) → push cs c ≢ []
push-ne-nil [] c e = cc
push-ne-nil (d ∷ cs) c e = cc

enter-path : (node : ℕ) (s : Search) → (enter node s).path ≡ push s.path node
unfolding enter
enter-path node s = refl

found_cycle :
    (y i z : ℕ) (r : List ℕ) (s : Search)
    → position y s.path ≡ some i
    → drop i s.path ≡ y ∷ z ∷ r
    → close_cycle y s ≡ done (record s { cycles = push s.cycles (y ∷ z ∷ r) })
unfolding close_cycle
found_cycle y i z r s found cut = rw (found, cut, close_cycle) (ground arith)

module _ (deps : Map (List ℕ)) (R : ℕ → ℕ → Type 0) (every : List ℕ)
    (edge : (x y : ℕ) → contains (neighbors deps x) y ≡ true → R x y)
    (plain : (x y : ℕ) → contains (neighbors deps x) y ≡ true → x ≢ y)
    (closed : (x y : ℕ) → contains (neighbors deps x) y ≡ true → contains every y ≡ true) where
  -- The call ends with a result that goes on from `s`, and has dealt with `y`.
  abbrev Ends : Outcome → Search → ℕ → Type 0
  Ends o s y = (t : Search) × (o ≡ done t) × Ran deps R s t × Settled deps R t y

  -- A neighbor that is on the path closes a cycle.
  closes :
      (p : List ℕ) (node y : ℕ) (s : Search)
      → s.path ≡ push p node
      → IsSearch deps R s
      → Leads R p node
      → contains (neighbors deps node) y ≡ true
      → contains s.path y ≡ true
      → Ends (close_cycle y s) s y
  unfolding close_cycle
  closes p node y s e h l d on =
      let (i, z, r, found, cut) = position_lem p node y (rw e at on) (plain node y d) in
      let cycle : IsCycle R (y ∷ z ∷ r) = (
        subst (λ c. Leads R c y) cut
            (Leads-drop R i (push p node) y (Leads-push R p node y l (edge node y d))),
        subst IsDistinct cut (drop-IsDistinct i (push p node) (subst IsDistinct e h.distinct)),
      ) in
      let t = record s { cycles = push s.cycles (y ∷ z ∷ r) } in
      (
        t,
        found_cycle y i z r s (ap (position y) e ∙ found) (ap (drop i) e ∙ cut),
        record {
          same_path = refl;
          search = record {
            stacked = h.stacked;
            seen = h.seen;
            distinct = h.distinct;
            sound = push-AllCycles R s.cycles (y ∷ z ∷ r) h.sound cycle;
          };
          grows = λ n q. q;
          silent = λ q. absurd (push-ne-nil s.cycles (y ∷ z ∷ r) q);
          finishes = λ q o f. absurd (push-ne-nil s.cycles (y ∷ z ∷ r) q);
        },
        (h.seen y on, λ q. absurd (push-ne-nil s.cycles (y ∷ z ∷ r) q)),
      )

  -- What `dfs` does on fuel for all that is not visited.
  abbrev Searches : ℕ → (ℕ → Search → Outcome) → Type 0
  Searches fuel rec =
      (y : ℕ) (s : Search)
      → IsSearch deps R s
      → Leads R s.path y
      → contains s.visited y ≡ false
      → contains every y ≡ true
      → unseen s.visited every ≤ fuel
      → Ends (rec y s) s y

  module _ (fuel : ℕ) (rec : ℕ → Search → Outcome) (searches : Searches fuel rec) (p : List ℕ)
      (node : ℕ) (l : Leads R p node) where
    visits :
        (y : ℕ) (s : Search)
        → s.path ≡ push p node
        → IsSearch deps R s
        → contains (neighbors deps node) y ≡ true
        → unseen s.visited every ≤ fuel
        → Ends (visit rec y s) s y
    unfolding visit
    visits y s e h d enough = elim (Bool-cases (contains s.visited y)) [
      | inr new ↦ rw new (
          searches y s h (rw e (Leads-push R p node y l (edge node y d))) new (closed node y d)
            enough)
      | inl old ↦ elim (Bool-cases (contains s.path y)) [
        | inl on ↦ rw (old, h.stacked y, on) (closes p node y s e h l d on)
        | inr off ↦ rw (old, h.stacked y, off) (s, refl, refl-Ran deps R s h, (old, λ q. off))
      ]
    ]

    visits_all :
        (ys : List ℕ) (s : Search)
        → s.path ≡ push p node
        → IsSearch deps R s
        → ((y : ℕ) → contains ys y ≡ true → contains (neighbors deps node) y ≡ true)
        → unseen s.visited every ≤ fuel
        → (t : Search) × (visit_all rec ys s ≡ done t)
          × Ran deps R s t
          × ((y : ℕ) → contains ys y ≡ true → Settled deps R t y)
    unfolding visit_all contains
    visits_all [] s e h d enough = (s, refl, refl-Ran deps R s h, λ y q. cc)
    visits_all (y ∷ ys) s e h d enough =
        let (t, made, r, settled) = visits y s e h (d y (ground arith)) enough in
        let (u, made', r', settled') =
          visits_all ys t (r.same_path ∙ e) r.search (λ z q. d z (ground arith))
            (omega (arith, unseen_le s.visited t.visited every r.grows)) in
        (
          u,
          rw made made',
          trans-Ran deps R r r',
          λ z q. elim (Bool-cases (y == z)) [
            | inl same ↦
                subst (Settled deps R u) ((==_iff y z).0 same) (Settled-Ran deps R y r' settled)
            | inr other ↦ settled' z (ground arith)
          ],
        )

  dfs-Searches : (fuel : ℕ) → Searches fuel (dfs deps fuel)
  unfolding dfs contains
  dfs-Searches zero y s h l new there enough = absurd (
      omega (
        arith,
        unseen_lt s.visited (y ∷ s.visited) every y (λ n q. ground (arith, q)) there new
            (ground arith),
      ))
  dfs-Searches (suc fuel) y s h l new there enough =
      let s' = enter y s in
      let fewer =
        unseen_lt s.visited s'.visited every y (enter-grows deps R y s h new) there new
          (enter-visited deps R y s h new) in
      let (t, made, r, settled) =
        visits_all fuel (dfs deps fuel) (dfs-Searches fuel) s.path y l (neighbors deps y) s'
          (enter-path y s) (enter-IsSearch deps R y s h new) (λ z q. q) (omega arith) in
      (
        leave y t,
        rw made refl,
        leave-Ran deps R y s h new t r settled,
        leave-Settled deps R y s h new t r settled,
      )

  starts :
      (x fuel : ℕ) (s : Search)
      → s.path ≡ []
      → IsSearch deps R s
      → contains every x ≡ true
      → unseen s.visited every ≤ fuel
      → (t : Search) × ((if not (contains s.visited x) then dfs deps fuel x s else done s) ≡ done t)
        × Ran deps R s t
        × (contains t.visited x ≡ true)
  starts x fuel s e h there enough = elim (Bool-cases (contains s.visited x)) [
    | inl old ↦ (s, rw old refl, refl-Ran deps R s h, old)
    | inr new ↦
        let (t, made, r, settled) =
          dfs-Searches fuel x s h (subst (λ p. Leads R p x) (sym e) tt) new there enough in
        (t, rw new made, r, settled.0)
  ]

  pub searches_all :
      (scripts : Map ScriptActionInfo) (fuel : ℕ) (s : Search)
      → s.path ≡ []
      → IsSearch deps R s
      → ((x : ℕ) → is_some (lookup x scripts) ≡ true → contains every x ≡ true)
      → unseen s.visited every ≤ fuel
      → (t : Search) × (search_from deps fuel scripts s ≡ done t)
        × Ran deps R s t
        × ((x : ℕ) → is_some (lookup x scripts) ≡ true → contains t.visited x ≡ true)
  unfolding search_from lookup
  searches_all [] fuel s e h all enough = (s, refl, refl-Ran deps R s h, λ x q. cc)
  searches_all (script ∷ rest) fuel s e h all enough =
      let (t, made, r, old) = starts script.0 fuel s e h (all script.0 (ground arith)) enough in
      let (u, made', r', settled) =
        searches_all rest fuel t (r.same_path ∙ e) r.search (λ x q. all x (ground arith))
          (omega (arith, unseen_le s.visited t.visited every r.grows)) in
      (
        u,
        rw made made',
        trans-Ran deps R r r',
        λ x q. elim (Bool-cases (script.0 == x)) [
          | inl same ↦
              subst (λ z. contains u.visited z ≡ true) ((==_iff script.0 x).0 same)
                (r'.grows script.0 old)
          | inr other ↦ settled x (ground arith)
        ],
      )
