-- ===== src/Squadron/Roster.antt =====
-- The members, officers and leader of a squadron, against ranks given to players.
use bw_exp.Common.{
  ℕ, ◌≡◌, refl, arith, List, Option, none, some, Bool, true, false, ◌==◌, if◌then◌else◌,
}
use bw_exp.Common.Float.{Float}
use bw_exp.Common.Ids.{
  contains, IsDistinct, contains-push, contains-without, push-IsDistinct, without-IsDistinct,
}
use bw_exp.Common.{Bool-cases, inl, inr}
use bw_exp.Squadron.{
  Squadron, SquadronRank, member, officer, leader, is_member, add_member, remove_member,
  promote_to_officer, demote_officer, transfer_leadership, new, old_leader_officer,
}

module _ {F : Type 0} where
  pub record IsRoster (s : Squadron F) : Type 0 where
    pub leader_member : contains s.members s.leader_id ≡ true
    pub leader_no_officer : contains s.officers s.leader_id ≡ false
    pub officers_members : (p : ℕ) → contains s.officers p ≡ true → contains s.members p ≡ true
    pub members_distinct : IsDistinct s.members
    pub officers_distinct : IsDistinct s.officers

  -- The rank that the roster gives a player.
  unfoldable pub rank : Squadron F → ℕ → Option SquadronRank
  rank s p =
      if s.leader_id == p
      then some leader
      else if contains s.officers p
      then some officer
      else if contains s.members p
      then some member
      else none

pub data RosterChange : Type 0 where
  join leave promote demote hand_over : ℕ → RosterChange

abbrev pub Ranks : Type 0
Ranks = ℕ → Option SquadronRank

abbrev pub is_leader_rank : Option SquadronRank → Bool
is_leader_rank (some leader) = true
is_leader_rank _ = false

abbrev pub promoted : Option SquadronRank → Option SquadronRank
promoted (some member) = some officer
promoted r = r

abbrev pub demoted : Option SquadronRank → Option SquadronRank
demoted (some officer) = some member
demoted r = r

abbrev pub joined : Option SquadronRank → Option SquadronRank
joined none = some member
joined r = r

-- The old leader's rank after a hand-over.
abbrev pub stepped_down : Option SquadronRank → Option SquadronRank
stepped_down (some leader) = some officer
stepped_down r = r

-- What each change is for: it moves the rank of the player that it names, and a hand-over that of
-- the leader too.
unfoldable pub change_ranks : RosterChange → Ranks → Ranks
change_ranks (join p) r q = if p == q then joined (r q) else r q
change_ranks (leave p) r q = if p == q then (if is_leader_rank (r q) then r q else none) else r q
change_ranks (promote p) r q = if p == q then promoted (r q) else r q
change_ranks (demote p) r q = if p == q then demoted (r q) else r q
change_ranks (hand_over p) r q = elim (r p) [
  | none ↦ r q
  | some _ ↦ if p == q then some leader else stepped_down (r q)
]

module _ {F : Type 0} ⦃fl : Float F⦄ where
  unfoldable pub change : RosterChange → Squadron F → Squadron F
  change (join p) s = add_member s p
  change (leave p) s = remove_member s p
  change (promote p) s = promote_to_officer s p
  change (demote p) s = demote_officer s p
  change (hand_over p) s = transfer_leadership s p

  add_member-IsRoster : (s : Squadron F) (p : ℕ) → IsRoster s → IsRoster (add_member s p)
  unfolding add_member
  add_member-IsRoster s p h = elim (Bool-cases (contains s.members p)) [
    | inl old ↦ rw (old, add_member) h
    | inr fresh ↦
        rw (fresh, add_member)
          (record {
            leader_member = ground (arith, contains-push s.members p s.leader_id, h.leader_member);
            leader_no_officer = h.leader_no_officer;
            officers_members =
                λ q e. ground (arith, contains-push s.members p q, h.officers_members q e);
            members_distinct = push-IsDistinct s.members p fresh h.members_distinct;
            officers_distinct = h.officers_distinct;
          })
  ]

  remove_member-IsRoster : (s : Squadron F) (p : ℕ) → IsRoster s → IsRoster (remove_member s p)
  unfolding remove_member
  remove_member-IsRoster s p h = elim (Bool-cases (p == s.leader_id)) [
    | inl own ↦ rw (own, remove_member) h
    | inr other ↦
        rw (other, remove_member)
          (record {
            leader_member =
                ground (arith, contains-without p s.members s.leader_id, h.leader_member);
            leader_no_officer =
                ground (arith, contains-without p s.officers s.leader_id, h.leader_no_officer);
            officers_members = λ q e. ground (
              arith,
              contains-without p s.officers q,
              contains-without p s.members q,
              h.officers_members q,
            );
            members_distinct = without-IsDistinct p s.members h.members_distinct;
            officers_distinct = without-IsDistinct p s.officers h.officers_distinct;
          })
  ]

module _ {F : Type 0} where
  promote-IsRoster : (s : Squadron F) (p : ℕ) → IsRoster s → IsRoster (promote_to_officer s p)
  unfolding promote_to_officer
  promote-IsRoster s p h = record {
    leader_member = ground (arith, h.leader_member);
    leader_no_officer = ground (arith, h.leader_no_officer, contains-push s.officers p s.leader_id);
    officers_members = λ q e. ground (arith, h.officers_members q, contains-push s.officers p q);
    members_distinct = ground (arith, h.members_distinct);
    officers_distinct = ground (arith, h.officers_distinct, push-IsDistinct s.officers p);
  }

  demote-IsRoster : (s : Squadron F) (p : ℕ) → IsRoster s → IsRoster (demote_officer s p)
  unfolding demote_officer
  demote-IsRoster s p h = record {
    leader_member = h.leader_member;
    leader_no_officer =
        ground (arith, contains-without p s.officers s.leader_id, h.leader_no_officer);
    officers_members = λ q e. ground (arith, contains-without p s.officers q, h.officers_members q);
    members_distinct = h.members_distinct;
    officers_distinct = without-IsDistinct p s.officers h.officers_distinct;
  }

  transfer-IsRoster : (s : Squadron F) (p : ℕ) → IsRoster s → IsRoster (transfer_leadership s p)
  unfolding transfer_leadership
  transfer-IsRoster s p h = elim (Bool-cases (contains s.members p)) [
    | inr stranger ↦ rw (stranger, transfer_leadership, is_member) h
    | inl belongs ↦
        rw (belongs, transfer_leadership, is_member)
          (record {
            leader_member = belongs;
            leader_no_officer = ground (arith, contains-without p (old_leader_officer s) p);
            officers_members = λ q e. ground (
              arith,
              contains-without p (old_leader_officer s) q,
              contains-push s.officers s.leader_id q,
              h.officers_members q,
              h.leader_member,
            );
            members_distinct = h.members_distinct;
            officers_distinct = without-IsDistinct p _ (
                ground (
                  arith,
                  h.officers_distinct,
                  push-IsDistinct s.officers s.leader_id h.leader_no_officer h.officers_distinct,
                ));
          })
  ]

module _ {F : Type 0} ⦃fl : Float F⦄ where
  -- Joining, leaving, promotion, demotion and the transfer of leadership keep a roster well
  -- formed: the leader is a member and no officer, officers are members, and nobody is listed
  -- twice.
  pub change-IsRoster : (c : RosterChange) (s : Squadron F) → IsRoster s → IsRoster (change c s)
  unfolding change
  change-IsRoster (join p) s h = add_member-IsRoster s p h
  change-IsRoster (leave p) s h = remove_member-IsRoster s p h
  change-IsRoster (promote p) s h = promote-IsRoster s p h
  change-IsRoster (demote p) s h = demote-IsRoster s p h
  change-IsRoster (hand_over p) s h = transfer-IsRoster s p h

  -- On a well-formed roster, joining, leaving, promotion, demotion and the transfer of leadership
  -- change the rank of every player as the table of ranks says: only the player that the change
  -- names, and the old leader in a transfer, get another rank.
  pub rank-change :
      (c : RosterChange) (s : Squadron F) (q : ℕ)
      → IsRoster s
      → rank (change c s) q ≡ change_ranks c (rank s) q
  unfolding change rank change_ranks add_member remove_member promote_to_officer demote_officer
      transfer_leadership
  rank-change (join p) s q h =
      ground (arith, contains-push s.members p q, h.officers_members q, h.leader_member)
  rank-change (leave p) s q h =
      ground (arith, contains-without p s.members q, contains-without p s.officers q)
  rank-change (promote p) s q h = ground (arith, contains-push s.officers p q, h.officers_members q)
  rank-change (demote p) s q h =
      ground (arith, contains-without p s.officers q, h.officers_members q, h.leader_no_officer)
  rank-change (hand_over p) s q h = ground (
    arith,
    contains-without p (old_leader_officer s) q,
    contains-push s.officers s.leader_id q,
    h.officers_members q,
    h.officers_members p,
    h.leader_member,
    h.leader_no_officer,
  )

  pub new-IsRoster :
      (id now : ℕ) (name tag : List ℕ) (p : ℕ) → IsRoster {F = F} (new id now name tag p)
  unfolding new contains
  new-IsRoster id now name tag p = record {
    leader_member = ground arith;
    leader_no_officer = refl;
    officers_members = λ q e. cc;
    members_distinct = (refl, tt);
    officers_distinct = tt;
  }

module _ {F : Type 0} where
  pub transfer-members : (s : Squadron F) (p : ℕ) → (transfer_leadership s p).members ≡ s.members
  unfolding transfer_leadership
  transfer-members s p = ground arith
