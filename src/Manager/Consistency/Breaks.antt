-- ===== src/Manager/Consistency/Breaks.antt =====
-- Calls outside what the handlers presume: they succeed, and rosters and records part.
use bw_exp.Common.{ℕ, ◌≡◌, refl, ◌≢◌, arith, some, true}
use bw_exp.Common.Float.{Float}
use bw_exp.Common.Ids.{contains}
use bw_exp.Common.Map.{Map, lookup, insert, modify, lookup-modify, lookup-insert}
use bw_exp.Squadron.{Squadron, is_leader, is_officer, can_manage, member}
use bw_exp.Squadron
use bw_exp.Squadron.Roster.{rank}
use bw_exp.Manager.{GameState, done, Notice, ranked, unseated}
use bw_exp.Manager.Roles.{kick_member, demote_officer, can_kick}
use bw_exp.Manager.Consistency.{IsConsistent, IsSound}

module _ {F : Type 0} ⦃fl : Float F⦄ (g : GameState F) (h : IsSound g) where
  kick_stranger :
      (actor k j t : ℕ) (s u : Squadron F)
      → lookup k g.squadrons ≡ some s
      → s.leader_id ≡ actor
      → lookup j g.squadrons ≡ some u
      → contains u.members t ≡ true
      → j ≢ k
      → kick_member g actor k t ≡ (
        record g {
          squadrons = insert k (Squadron.remove_member s t) g.squadrons;
          player_data = modify t unseated g.player_data;
        },
        done Notice.kicked,
      )
  unfolding kick_member can_kick is_leader is_officer can_manage
  kick_stranger actor k j t s u x a y m d =
      let roster = h.rosters k s x in
      ground
        (arith, h.seats k s t x, h.seats j u t y m, roster.leader_member, roster.officers_members t)

  unseated_apart :
      (j t : ℕ) (u : Squadron F) (squadrons : Map (Squadron F))
      → lookup j squadrons ≡ some u
      → contains u.members t ≡ true
      → ¬ IsConsistent (modify t unseated g.player_data) squadrons
  unseated_apart j t u squadrons y m bad =
      ground (arith, bad.seats j u t y m, lookup-modify t t unseated g.player_data)

  -- In a state where rosters and records agree, the leader of a squadron that kicks a player of
  -- another squadron succeeds, and rosters and records no longer agree.
  pub kick_stranger-not_IsSound :
      (actor k j t : ℕ) (s u : Squadron F)
      → lookup k g.squadrons ≡ some s
      → s.leader_id ≡ actor
      → lookup j g.squadrons ≡ some u
      → contains u.members t ≡ true
      → j ≢ k
      → ((kick_member g actor k t).1 ≡ done Notice.kicked) × ¬ IsSound (kick_member g actor k t).0
  kick_stranger-not_IsSound actor k j t s u x a y m d =
      rw (kick_stranger actor k j t s u x a y m d) (
        refl,
        unseated_apart j t u _
            (ground (arith, lookup-insert k j (Squadron.remove_member s t) g.squadrons)) m,
      )

  demote_self :
      (actor k : ℕ) (s : Squadron F)
      → lookup k g.squadrons ≡ some s
      → s.leader_id ≡ actor
      → demote_officer g actor k actor ≡ (
        record g {
          squadrons = insert k (Squadron.demote_officer s actor) g.squadrons;
          player_data = modify actor (ranked member) g.player_data;
        },
        done Notice.demoted,
      )
  unfolding demote_officer is_leader
  demote_self actor k s x a = ground arith

  member_apart :
      (actor k : ℕ) (s : Squadron F)
      → lookup k g.squadrons ≡ some s
      → s.leader_id ≡ actor
      → ¬ IsConsistent
          (modify actor (ranked member) g.player_data)
          (insert k (Squadron.demote_officer s actor) g.squadrons)
  unfolding rank Squadron.demote_officer
  member_apart actor k s x a bad =
      let s' = Squadron.demote_officer s actor in
      let found : lookup k (insert k s' g.squadrons) ≡ some s' =
        ground (arith, lookup-insert k k s' g.squadrons) in
      let there : contains s'.members actor ≡ true =
        ground (arith, (h.rosters k s x).leader_member) in
      ground (
        arith,
        bad.seats k s' actor found there,
        lookup-modify actor actor (ranked member) g.player_data,
      )

  -- In a state where rosters and records agree, a leader that demotes itself succeeds, and
  -- rosters and records no longer agree.
  pub demote_self-not_IsSound :
      (actor k : ℕ) (s : Squadron F)
      → lookup k g.squadrons ≡ some s
      → s.leader_id ≡ actor
      → ((demote_officer g actor k actor).1 ≡ done Notice.demoted)
        × ¬ IsSound (demote_officer g actor k actor).0
  demote_self-not_IsSound actor k s x a =
      rw (demote_self actor k s x a) (refl, member_apart actor k s x a)
