-- ===== src/Dependency/Depth.antt =====
-- dependency.rs: what the depth-first search of `find_cycles` keeps and finds.
use bw_exp.Common.{
  ℕ, ◌≡◌, refl, ap, ◌∙◌, arith, List, [], ◌∷◌, true, false, ◌==◌, if◌then◌else◌, push,
}
use bw_exp.Common.Ids.{
  contains, without, contains-push, contains-without, IsDistinct, push-IsDistinct,
}
use bw_exp.Common.Map.{Map}
use bw_exp.Dependency.{Search, set_insert, enter, leave, neighbors, pop}
use bw_exp.Dependency.Walks.{AllCycles, pop-push}

module _ (deps : Map (List ℕ)) (R : ℕ → ℕ → Type 0) where
  pub record IsSearch (s : Search) : Type 0 where
    pub stacked : (n : ℕ) → contains s.rec_stack n ≡ contains s.path n
    pub seen : (n : ℕ) → contains s.path n ≡ true → contains s.visited n ≡ true
    pub distinct : IsDistinct s.path
    pub sound : AllCycles R s.cycles

  -- Each script stands before all that it depends on.
  abbrev pub Ordered : List ℕ → Type 0
  Ordered [] = Unit {0}
  Ordered (x ∷ xs) =
      ((y : ℕ) → contains (neighbors deps x) y ≡ true → contains xs y ≡ true) × Ordered xs

  -- `o` has the scripts that the search is done with.
  pub record Finished (s : Search) (o : List ℕ) : Type 0 where
    pub ordered : Ordered o
    pub covers :
        (n : ℕ) → contains s.visited n ≡ true → contains s.path n ≡ false → contains o n ≡ true

  -- From `s` the search came to `t`.
  pub record Ran (s t : Search) : Type 0 where
    pub same_path : t.path ≡ s.path
    pub search : IsSearch t
    pub grows : (n : ℕ) → contains s.visited n ≡ true → contains t.visited n ≡ true
    pub silent : t.cycles ≡ [] → s.cycles ≡ []
    pub finishes : t.cycles ≡ [] → (o : List ℕ) → Finished s o → (o' : List ℕ) × Finished t o'

  pub refl-Ran : (s : Search) → IsSearch s → Ran s s
  refl-Ran s h = record {
    same_path = refl;
    search = h;
    grows = λ n e. e;
    silent = λ e. e;
    finishes = λ e o f. (o, f);
  }

  pub trans-Ran : {s t u : Search} → Ran s t → Ran t u → Ran s u
  trans-Ran a b = record {
    same_path = b.same_path ∙ a.same_path;
    search = b.search;
    grows = λ n e. b.grows n (a.grows n e);
    silent = λ e. a.silent (b.silent e);
    finishes = λ e o f. let (o', f') = a.finishes (b.silent e) o f in b.finishes e o' f';
  }

  -- `y` was dealt with: if there is no cycle, it is finished.
  abbrev pub Settled : Search → ℕ → Type 0
  Settled t y = (contains t.visited y ≡ true) × (t.cycles ≡ [] → contains t.path y ≡ false)

  pub Settled-Ran : {t u : Search} (y : ℕ) → Ran t u → Settled t y → Settled u y
  Settled-Ran y r h = (r.grows y h.0, λ e. rw r.same_path (h.1 (r.silent e)))

  contains-set_insert :
      (s : List ℕ) (x n : ℕ) → contains (set_insert s x) n ≡ (if x == n then true else contains s n)
  unfolding set_insert
  contains-set_insert s x n = ground (arith, contains-push s x n)

  module _ (node : ℕ) (s : Search) (h : IsSearch s) (new : contains s.visited node ≡ false) where
    pub off_path : contains s.path node ≡ false
    off_path = ground (arith, h.seen node)

    pub enter-IsSearch : IsSearch (enter node s)
    unfolding enter
    enter-IsSearch = record {
      stacked = λ n.
          ground (
            arith,
            h.stacked n,
            contains-set_insert s.rec_stack node n,
            contains-push s.path node n,
          );
      seen = λ n e.
          ground
            (arith, h.seen n, contains-set_insert s.visited node n, contains-push s.path node n, e);
      distinct = push-IsDistinct s.path node off_path h.distinct;
      sound = h.sound;
    }

    pub enter-grows :
        (n : ℕ) → contains s.visited n ≡ true → contains (enter node s).visited n ≡ true
    unfolding enter
    enter-grows n e = ground (arith, contains-set_insert s.visited node n)

    pub enter-visited : contains (enter node s).visited node ≡ true
    unfolding enter
    enter-visited = ground (arith, contains-set_insert s.visited node node)

    pub enter-Finished : (o : List ℕ) → Finished s o → Finished (enter node s) o
    unfolding enter
    enter-Finished o f = record {
      ordered = f.ordered;
      covers = λ n v p. ground (
        arith,
        f.covers n,
        contains-set_insert s.visited node n,
        contains-push s.path node n,
        v,
        p,
      );
    }

    -- The search of all neighbors ended in `t`.
    module _ (t : Search) (r : Ran (enter node s) t)
        (settled : (y : ℕ) → contains (neighbors deps node) y ≡ true → Settled t y) where
      left_path : (leave node t).path ≡ s.path
      unfolding leave enter
      left_path = ap pop r.same_path ∙ pop-push s.path node

      leave-IsSearch : IsSearch (leave node t)
      unfolding leave enter
      leave-IsSearch = record {
        stacked = λ n. rw left_path (stack n);
        seen = λ n e. r.search.seen n (on_path n (rw left_path at e));
        distinct = rw left_path h.distinct;
        sound = r.search.sound;
      }
        where
          on_path : (n : ℕ) → contains s.path n ≡ true → contains t.path n ≡ true
          on_path n e = rw r.same_path (ground (arith, contains-push s.path node n))

          stack : (n : ℕ) → contains (without node t.rec_stack) n ≡ contains s.path n
          stack n =
              let e : contains t.path n ≡ contains (push s.path node) n =
                ap (λ p. contains p n) r.same_path in
              ground (
                arith,
                e,
                contains-without node t.rec_stack n,
                r.search.stacked n,
                off_path,
                contains-push s.path node n,
              )

      pub leave-Ran : Ran s (leave node t)
      unfolding leave enter contains
      leave-Ran = record {
        same_path = left_path;
        search = leave-IsSearch;
        grows = λ n e. r.grows n (enter-grows n e);
        silent = r.silent;
        finishes = λ e o f.
            let (o', f') = r.finishes e o (enter-Finished o f) in (node ∷ o', finished e o' f');
      }
        where
          finished :
              t.cycles ≡ [] → (o' : List ℕ) → Finished t o' → Finished (leave node t) (node ∷ o')
          finished e o' f' = record {
            ordered = (λ y d. f'.covers y (settled y d).0 ((settled y d).1 e), f'.ordered);
            covers = λ n v p. ground (
              arith,
              f'.covers n,
              v,
              ap (λ q. contains q n) r.same_path,
              contains-push s.path node n,
              rw left_path at p,
            );
          }

      pub leave-Settled : Settled (leave node t) node
      unfolding leave
      leave-Settled = (r.grows node enter-visited, λ e. rw left_path off_path)
