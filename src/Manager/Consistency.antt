-- ===== src/Manager/Consistency.antt =====
-- What the squadrons' rosters and the players' own records say of one another, over all handlers of
-- squadron_manager.rs.
pub mod Roles
pub mod Membership
pub mod Kept
pub mod Policy
pub mod Relations
pub mod Sectors
pub mod Building
pub mod Calls
pub mod Breaks
use bw_exp.Common.{
  ℕ, ◌≡◌, ◌≢◌, arith, Option, none, some, Bool, true, false, ◌==◌, ==_refl, if◌then◌else◌,
  Option-cases, Bool-cases, inl, inr, sym, ◌∙◌,
}
use bw_exp.Common.Ids.{contains}
use bw_exp.Common.Map.{
  Map, lookup, insert, lookup-insert, modify, lookup-modify, map_option, remove, lookup-remove,
}
use bw_exp.Squadron.{Squadron, SquadronRank}
use bw_exp.Squadron.Roster.{IsRoster, rank}
use bw_exp.Manager.{Player, seat, GameState}

module _ {F : Type 0} where
  -- Each roster is well formed, and each player on one is on record with that squadron and with the
  -- rank that the roster gives it.
  pub record IsConsistent (players : Map Player) (squadrons : Map (Squadron F)) : Type 0 where
    pub rosters : (k : ℕ) (s : Squadron F) → lookup k squadrons ≡ some s → IsRoster s
    pub seats :
        (k : ℕ) (s : Squadron F) (p : ℕ)
        → lookup k squadrons ≡ some s
        → contains s.members p ≡ true
        → map_option seat (lookup p players) ≡ some (some k, rank s p)

  abbrev pub IsSound : GameState F → Type 0
  IsSound g = IsConsistent g.player_data g.squadrons

  -- One squadron gets a new roster, and the players' records follow: its own players are on record
  -- as it says, and the players of the others keep their records.
  pub insert-IsConsistent :
      (players players' : Map Player) (squadrons : Map (Squadron F)) (k : ℕ) (s' : Squadron F)
      → IsConsistent players squadrons
      → IsRoster s'
      → ((p : ℕ)
          → contains s'.members p ≡ true
          → map_option seat (lookup p players') ≡ some (some k, rank s' p))
      → ((j : ℕ) (p : ℕ) (r : Option SquadronRank)
          → j ≢ k
          → map_option seat (lookup p players) ≡ some (some j, r)
          → map_option seat (lookup p players') ≡ some (some j, r))
      → IsConsistent players' (insert k s' squadrons)
  insert-IsConsistent players players' squadrons k s' h roster own others = record {
    rosters = λ j t e. elim (Bool-cases (k == j)) [
      | inl same ↦ ground (arith, lookup-insert k j s' squadrons, roster)
      | inr other ↦ h.rosters j t (ground (arith, lookup-insert k j s' squadrons))
    ];
    seats = λ j t p e m. elim (Bool-cases (k == j)) [
      | inl same ↦ ground (arith, lookup-insert k j s' squadrons, own p)
      | inr other ↦
          others j p (rank t p) (ground arith)
            (h.seats j t p (ground (arith, lookup-insert k j s' squadrons)) m)
    ];
  }

  -- Players whose records change are on no roster.
  pub players-IsConsistent :
      (players players' : Map Player) (squadrons : Map (Squadron F))
      → IsConsistent players squadrons
      → ((j p : ℕ) (t : Squadron F)
          → lookup j squadrons ≡ some t
          → contains t.members p ≡ true
          → map_option seat (lookup p players') ≡ map_option seat (lookup p players))
      → IsConsistent players' squadrons
  players-IsConsistent players players' squadrons h same = record {
    rosters = h.rosters;
    seats = λ j t p e m. same j p t e m ∙ h.seats j t p e m;
  }

  pub remove-IsConsistent :
      (players : Map Player) (squadrons : Map (Squadron F)) (k : ℕ)
      → IsConsistent players squadrons
      → IsConsistent players (remove k squadrons)
  remove-IsConsistent players squadrons k h = record {
    rosters = λ j t e. h.rosters j t (ground (arith, lookup-remove k j squadrons));
    seats = λ j t p e m. h.seats j t p (ground (arith, lookup-remove k j squadrons)) m;
  }
