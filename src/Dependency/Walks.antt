-- ===== src/Dependency/Walks.antt =====
-- Cycles of dependencies, and the path of the search of dependency.rs.
use bw_exp.Common.{
  ℕ, zero, suc, ◌≤◌, ◌≡◌, ◌≢◌, refl, arith, List, [], ◌∷◌, some, true, false, ◌==◌, if◌then◌else◌,
  drop, push, Bool-cases, inl, inr,
}
use bw_exp.Common.Ids.{contains, IsDistinct}
use bw_exp.Dependency.{position, pop}

module _ (R : ℕ → ℕ → Type 0) where
  -- Each script depends on the next, and the last one on `z`.
  abbrev pub Leads : List ℕ → ℕ → Type 0
  Leads [] z = Unit {0}
  Leads (x ∷ []) z = R x z
  Leads (x ∷ y ∷ r) z = R x y × Leads (y ∷ r) z

  -- At least two scripts, none twice, each of which depends on the next and the last on the first.
  abbrev pub IsCycle : List ℕ → Type 0
  IsCycle [] = ⊥
  IsCycle (x ∷ []) = ⊥
  IsCycle (x ∷ y ∷ r) = Leads (x ∷ y ∷ r) x × IsDistinct (x ∷ y ∷ r)

  abbrev pub AllCycles : List (List ℕ) → Type 0
  AllCycles [] = Unit {0}
  AllCycles (c ∷ cs) = IsCycle c × AllCycles cs

  pub push-AllCycles :
      (cs : List (List ℕ)) (c : List ℕ) → AllCycles cs → IsCycle c → AllCycles (push cs c)
  push-AllCycles [] c all h = (h, tt)
  push-AllCycles (d ∷ cs) c all h = (all.0, push-AllCycles cs c all.1 h)

  pub Leads-push : (p : List ℕ) (x y : ℕ) → Leads p x → R x y → Leads (push p x) y
  Leads-push [] x y l e = e
  Leads-push (a ∷ []) x y l e = (l, e)
  Leads-push (a ∷ b ∷ p) x y l e = (l.0, Leads-push (b ∷ p) x y l.1 e)

  pub Leads-drop : (i : ℕ) (p : List ℕ) (z : ℕ) → Leads p z → Leads (drop i p) z
  Leads-drop zero p z l = l
  Leads-drop (suc i) [] z l = tt
  Leads-drop (suc zero) (a ∷ []) z l = tt
  Leads-drop (suc (suc i)) (a ∷ []) z l = tt
  Leads-drop (suc i) (a ∷ b ∷ p) z l = Leads-drop i (b ∷ p) z l.1

  -- One dependency or more, one after the other.
  pub data Walk : ℕ → ℕ → Type 0 where
    one : {x y : ℕ} → R x y → Walk x y
    more : {x y z : ℕ} → R x y → Walk y z → Walk x z

pub drop-IsDistinct : (i : ℕ) (p : List ℕ) → IsDistinct p → IsDistinct (drop i p)
drop-IsDistinct zero p d = d
drop-IsDistinct (suc i) [] d = tt
drop-IsDistinct (suc i) (a ∷ p) d = drop-IsDistinct i p d.1

pub pop-push : (p : List ℕ) (x : ℕ) → pop (push p x) ≡ p
pop-push [] x = refl
pop-push (a ∷ []) x = refl
pop-push (a ∷ b ∷ p) x = rw (pop-push (b ∷ p) x)

push_cons : (p : List ℕ) (x : ℕ) → (z : ℕ) × (r : List ℕ) × (push p x ≡ z ∷ r)
push_cons [] x = (x, [], refl)
push_cons (b ∷ q) x = (b, push q x, refl)

-- What stands on the path, but not at its end, has a position with something after it.
pub position_lem :
    (p : List ℕ) (x y : ℕ)
    → contains (push p x) y ≡ true
    → x ≢ y
    → (i : ℕ) × (z : ℕ) × (r : List ℕ) × (position y (push p x) ≡ some i)
      × (drop i (push p x) ≡ y ∷ z ∷ r)
unfolding contains
position_lem [] x y h ne = absurd (ground arith)
position_lem (a ∷ p) x y h ne = elim (Bool-cases (a == y)) [
  | inl e ↦ let (z, r, f) = push_cons p x in (0, z, r, rw e, ground arith)
  | inr e ↦
      let (i, z, r, found, cut) = position_lem p x y (ground arith) ne in
      (suc i, z, r, rw (e, found), cut)
]

-- How many of `us` are not visited.
abbrev pub unseen : List ℕ → List ℕ → ℕ
unseen v [] = 0
unseen v (u ∷ us) = if contains v u then unseen v us else suc (unseen v us)

pub unseen_le :
    (v w us : List ℕ)
    → ((n : ℕ) → contains v n ≡ true → contains w n ≡ true)
    → unseen w us ≤ unseen v us
unseen_le v w [] h = omega arith
unseen_le v w (u ∷ us) h = ground (arith, unseen_le v w us h, h u)

pub unseen_lt :
    (v w us : List ℕ) (x : ℕ)
    → ((n : ℕ) → contains v n ≡ true → contains w n ≡ true)
    → contains us x ≡ true
    → contains v x ≡ false
    → contains w x ≡ true
    → suc (unseen w us) ≤ unseen v us
unfolding contains
unseen_lt v w [] x h there old new = cc
unseen_lt v w (u ∷ us) x h there old new =
    ground (arith, unseen_lt v w us x h, unseen_le v w us h, h u)
