-- ===== src/Manager/Consistency/Kept.antt =====
-- Changes of a squadron that leave its roster alone.
use bw_exp.Common.{ℕ, ◌≡◌, arith, some, inl, inr}
use bw_exp.Common.Map.{Map, lookup, insert, lookup-insert, modify, modify-eq_some}
use bw_exp.Squadron.{Squadron}
use bw_exp.Squadron.Roster.{IsRoster, rank}
use bw_exp.Manager.{Player}
use bw_exp.Manager.Consistency.{IsConsistent}

module _ {F : Type 0} where
  abbrev pub SameRoster : Squadron F → Squadron F → Type 0
  SameRoster s t = (t.leader_id ≡ s.leader_id) × (t.officers ≡ s.officers) × (t.members ≡ s.members)

  pub same-IsRoster : (s t : Squadron F) → SameRoster s t → IsRoster s → IsRoster t
  same-IsRoster s t e h = record {
    leader_member = ground (arith, h.leader_member);
    leader_no_officer = ground (arith, h.leader_no_officer);
    officers_members = λ p q. ground (arith, h.officers_members p);
    members_distinct = rw e.2 h.members_distinct;
    officers_distinct = rw e.1 h.officers_distinct;
  }

  same-rank : (s t : Squadron F) (p : ℕ) → SameRoster s t → rank t p ≡ rank s p
  unfolding rank
  same-rank s t p e = ground arith

  -- A change of one squadron that keeps its roster.
  pub modify-IsConsistent :
      (players : Map Player) (squadrons : Map (Squadron F)) (k : ℕ) (f : Squadron F → Squadron F)
      → ((s : Squadron F) → SameRoster s (f s))
      → IsConsistent players squadrons
      → IsConsistent players (modify k f squadrons)
  modify-IsConsistent players squadrons k f same h = record {
    rosters = λ j t e.
        let (s, x, y) = modify-eq_some k j f squadrons e in
        elim y [
          | inl a ↦ rw a (h.rosters j s x)
          | inr a ↦ rw a (same-IsRoster s (f s) (same s) (h.rosters j s x))
        ];
    seats = λ j t p e m.
        let (s, x, y) = modify-eq_some k j f squadrons e in
        ground (arith, h.seats j s p x, same s, same-rank s (f s) p (same s));
  }

  pub recast-IsConsistent :
      (players : Map Player) (squadrons : Map (Squadron F)) (k : ℕ) (s t : Squadron F)
      → SameRoster s t
      → lookup k squadrons ≡ some s
      → IsConsistent players squadrons
      → IsConsistent players (insert k t squadrons)
  recast-IsConsistent players squadrons k s t same x h = record {
    rosters = λ j u e. ground (
      arith,
      lookup-insert k j t squadrons,
      h.rosters j u,
      same-IsRoster s t same (h.rosters k s x),
    );
    seats = λ j u p e m. ground (
      arith,
      lookup-insert k j t squadrons,
      h.seats j u p,
      h.seats k s p x,
      same-rank s t p same,
    );
  }
