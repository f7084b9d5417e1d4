-- ===== src/Manager/Examples.antt =====
-- Runs of the handlers of squadron_manager.rs on small states.
use bw_exp.Common.{
  ℕ, ◌≡◌, ◌≢◌, refl, arith, List, [], ◌∷◌, none, some, true, false, ◌≤◌, ◌+◌, ◌%◌, ◌^◌,
}
use bw_exp.Common.{is_some, not, ◌&&◌}
use bw_exp.Common.Int.{pos}
use bw_exp.Common.Float.{hundredths}
use bw_exp.Common.Ids.{contains}
use bw_exp.Common.Map.{lookup, insert, map_option}
use bw_exp.Squadron
use bw_exp.Squadron.{Squadron, member, is_hostile_with, can_manage}
use bw_exp.Squadron.Roster.{rank}
use bw_exp.Manager.{
  GameState, spend_reputation, Player, Sector, ContestedSector, Notice, done, seat,
}
use bw_exp.Manager.Membership.{
  create_squadron, invite_to_squadron, accept_squadron_invite, tag_taken, valid_tag, valid_name,
  found, eq_ignore_ascii_case,
}
use bw_exp.Manager.Roles.{kick_member, demote_officer}
use bw_exp.Manager.Sectors.{claim_sector_control, count_squadron_ships_in_sector, controlled}
use bw_exp.Manager.Pvp.{
  can_engage_pvp, get_pvp_engagement_type, squadron_of, wargames, in_peace,
  can_engage_unless_in_peace,
}
use bw_exp.Manager.Contests.{IsUndecided, patrols, claim_sector-two_holders}
use bw_exp.Manager.Actions.{promote_to_officer}
use bw_exp.Manager.Building.{build_structure}
use bw_exp.Squadron.{SquadronBuildingType}
use bw_exp.Manager.{refused, Refusal}
use bw_exp.Manager.Consistency.{IsSound}
use bw_exp.Manager.Consistency.Calls.{
  create, invite, accept_invite, act, handle, Reach, start, next, Permitted, handle-IsSound,
  Reach-IsSound, Reach-one_squadron,
}
use bw_exp.Manager.Consistency.Breaks.{kick_stranger-not_IsSound, demote_self-not_IsSound}

abbrev pilot : ℕ → Player
pilot k = record {
  id = k;
  username = [];
  reputation = pos 100;
  squadron_id = none;
  squadron_rank = none;
}

abbrev town : GameState ℕ
town = record {
  tick = 5;
  player_data = (1, pilot 1) ∷ (2, pilot 2) ∷ (3, pilot 3) ∷ [];
  squadrons = [];
  pending_squadron_invites = [];
  pending_alliances = [];
  sectors = [];
  contested_sectors = [];
  ships = [];
}

abbrev abc : List ℕ
abc = b'a' ∷ b'b' ∷ b'c' ∷ []

abbrev after_founding : GameState ℕ
after_founding = (handle (create 10 0 1 abc (b'A' ∷ b'B' ∷ [])) town).0

abbrev after_invite : GameState ℕ
after_invite = (handle (invite 20 1 2) after_founding).0

abbrev after_joining : GameState ℕ
after_joining = (handle (accept_invite 2 20) after_invite).0

-- Players 1, who leads, and 2 are in squadron 10, player 3 leads squadron 11.
abbrev two_squadrons : GameState ℕ
two_squadrons = (handle (create 11 0 3 abc (b'C' ∷ b'D' ∷ [])) after_joining).0

two_squadrons-Reach : Reach two_squadrons
two_squadrons-Reach = next _ tt (next _ tt (next _ tt (next _ tt (start town refl))))

abbrev pair_squadron : Squadron ℕ
pair_squadron = Squadron.add_member (Squadron.new 10 0 abc (b'A' ∷ b'B' ∷ []) 1) 2

abbrev lone_squadron : Squadron ℕ
lone_squadron = Squadron.new 11 0 abc (b'C' ∷ b'D' ∷ []) 3

pair_found : lookup 10 two_squadrons.squadrons ≡ some pair_squadron
unfolding handle create_squadron invite_to_squadron accept_squadron_invite tag_taken lookup
    valid_tag valid_name spend_reputation insert can_manage Squadron.new eq_ignore_ascii_case
    Squadron.add_member contains
pair_found = refl

lone_found : lookup 11 two_squadrons.squadrons ≡ some lone_squadron
unfolding handle create_squadron invite_to_squadron accept_squadron_invite tag_taken lookup
    valid_tag valid_name spend_reputation insert can_manage Squadron.new eq_ignore_ascii_case
    Squadron.add_member contains
lone_found = refl

joined : contains pair_squadron.members 2 ≡ true
unfolding contains Squadron.add_member Squadron.new
joined = refl

pair_led : pair_squadron.leader_id ≡ 1
unfolding Squadron.new Squadron.add_member contains
pair_led = refl

lone_member : contains lone_squadron.members 3 ≡ true
unfolding contains Squadron.new
lone_member = refl

Reach-one_squadron_example :
    (◌≡◌ {A = ℕ} 10 10)
    × (map_option seat (lookup 2 two_squadrons.player_data) ≡ some (some 10, rank pair_squadron 2))
Reach-one_squadron_example =
    Reach-one_squadron 2 10 10 pair_squadron pair_squadron two_squadrons-Reach pair_found pair_found
      joined joined

founder_seat :
    map_option seat (lookup 1 two_squadrons.player_data) ≡ some (some 10, some Squadron.leader)
unfolding handle create_squadron invite_to_squadron accept_squadron_invite tag_taken lookup
    valid_tag valid_name spend_reputation insert can_manage Squadron.new eq_ignore_ascii_case
    Squadron.add_member contains
founder_seat = refl

promotion_fits : Permitted (act 0 1 (promote_to_officer 2)) two_squadrons
promotion_fits player k e own s found = ground (arith, founder_seat, pair_found, pair_led)

handle-IsSound_example : IsSound (handle (act 0 1 (promote_to_officer 2)) two_squadrons).0
handle-IsSound_example =
    handle-IsSound (act 0 1 (promote_to_officer 2)) two_squadrons
      (Reach-IsSound two_squadrons-Reach) promotion_fits

kick_stranger-not_IsSound_example :
    ((kick_member two_squadrons 1 10 3).1 ≡ done Notice.kicked)
    × ¬ IsSound (kick_member two_squadrons 1 10 3).0
kick_stranger-not_IsSound_example =
    kick_stranger-not_IsSound two_squadrons (Reach-IsSound two_squadrons-Reach) 1 10 11 3
      pair_squadron lone_squadron pair_found pair_led lone_found lone_member (omega arith)

demote_self-not_IsSound_example :
    ((demote_officer two_squadrons 1 10 1).1 ≡ done Notice.demoted)
    × ¬ IsSound (demote_officer two_squadrons 1 10 1).0
demote_self-not_IsSound_example =
    demote_self-not_IsSound two_squadrons (Reach-IsSound two_squadrons-Reach) 1 10 pair_squadron
      pair_found pair_led

leads : squadron_of (lookup 1 two_squadrons.player_data) ≡ some 10
unfolding handle create_squadron invite_to_squadron accept_squadron_invite tag_taken lookup
    valid_tag valid_name spend_reputation insert can_manage Squadron.new eq_ignore_ascii_case
    Squadron.add_member contains
leads = refl

follows : squadron_of (lookup 2 two_squadrons.player_data) ≡ some 10
unfolding handle create_squadron invite_to_squadron accept_squadron_invite tag_taken lookup
    valid_tag valid_name spend_reputation insert can_manage Squadron.new eq_ignore_ascii_case
    Squadron.add_member contains
follows = refl

rivals : squadron_of (lookup 3 two_squadrons.player_data) ≡ some 11
unfolding handle create_squadron invite_to_squadron accept_squadron_invite tag_taken lookup
    valid_tag valid_name spend_reputation insert can_manage Squadron.new eq_ignore_ascii_case
    Squadron.add_member contains
rivals = refl

apart :
    squadron_of (lookup 1 two_squadrons.player_data)
    ≢ squadron_of (lookup 3 two_squadrons.player_data)
apart e = ground (arith, e, leads, rivals)

quiet : pair_squadron.wargames_enabled ≡ false
unfolding Squadron.new Squadron.add_member contains
quiet = refl

can_engage_unless_in_peace_example :
    (can_engage_pvp two_squadrons 1 2
      ≡ is_some (get_pvp_engagement_type two_squadrons 1 2) && not (in_peace two_squadrons 1 2))
    × (can_engage_pvp two_squadrons 2 1 ≡ can_engage_pvp two_squadrons 1 2)
    × (get_pvp_engagement_type two_squadrons 2 1 ≡ get_pvp_engagement_type two_squadrons 1 2)
can_engage_unless_in_peace_example = can_engage_unless_in_peace two_squadrons 1 2

-- Wargames are off in the squadron of both.
at_peace :
    (can_engage_pvp two_squadrons 1 2 ≡ false)
    × (get_pvp_engagement_type two_squadrons 1 2 ≡ some wargames)
unfolding can_engage_pvp get_pvp_engagement_type
at_peace = ground (arith, leads, follows, pair_found, quiet)

abbrev outskirts : Sector
outskirts = record { name = []; controlling_squadron = some 12; ship_ids = 40 ∷ []; locations = [] }

-- Squadron 13 had gathered the points, against squadron 11.
abbrev contest : ContestedSector
contest = record {
  sector_id = 30;
  defending_squadron_id = 11;
  attacking_squadron_id = 13;
  defender_influence = 50;
  attacker_influence = 99;
  started_at = 0;
}

abbrev attackers : Squadron ℕ
attackers = record pair_squadron { hostile_squadrons = 12 ∷ [] }

abbrev holders : Squadron ℕ
holders = record lone_squadron { patrol_sectors = 30 ∷ [] }

abbrev lieutenant : Player
lieutenant = record (pilot 1) { squadron_id = some 10 }

abbrev front : GameState ℕ
front = record town {
  player_data = (1, lieutenant) ∷ [];
  squadrons = (10, attackers) ∷ (12, holders) ∷ [];
  sectors = (30, outskirts) ∷ [];
  contested_sectors = (30, contest) ∷ [];
  ships = (40, record { owner_id = some 1 }) ∷ [];
}

front-IsUndecided : IsUndecided front.contested_sectors
unfolding lookup
front-IsUndecided x c e = ground (arith, e)

officer_there :
    (lookup 1 front.player_data ≡ some lieutenant)
    × (lieutenant.squadron_id ≡ some 10)
    × (lookup 10 front.squadrons ≡ some attackers)
    × (can_manage attackers 1 ≡ true)
unfolding lookup can_manage Squadron.new Squadron.add_member contains
officer_there = (refl, refl, refl, refl)

held_there :
    (lookup 30 front.sectors ≡ some outskirts)
    × (outskirts.controlling_squadron ≡ some 12)
    × (◌≢◌ {A = ℕ} 12 10)
    × (is_hostile_with attackers 12 ≡ true)
unfolding lookup is_hostile_with contains
held_there = (refl, refl, omega arith, refl)

contested_there : lookup 30 front.contested_sectors ≡ some contest
unfolding lookup
contested_there = refl

won_there : 100 ≤ (contest.attacker_influence + count_squadron_ships_in_sector front 10 30) % 2 ^ 32
unfolding lookup count_squadron_ships_in_sector
won_there = omega arith

listed_there : patrols front 12 30 ≡ true
unfolding patrols lookup contains
listed_there = refl

claim_sector-two_holders_example :
    (patrols (claim_sector_control front 1 30).0 10 30 ≡ true)
    × (patrols (claim_sector_control front 1 30).0 12 30 ≡ true)
    × (lookup 30 (claim_sector_control front 1 30).0.sectors
        ≡ some (controlled (some 10) outskirts))
    × (lookup 30 (claim_sector_control front 1 30).0.contested_sectors ≡ none)
claim_sector-two_holders_example =
    claim_sector-two_holders front 1 30 10 12 lieutenant attackers outskirts contest officer_there
      held_there contested_there won_there (omega arith) listed_there

-- A patrol ship may be built in a sector that the squadron does not control, an outpost may not.
patrol_built : build_structure front 41 1 SquadronBuildingType.patrol_ship 30 ≡ (
  record front {
    player_data = (1, record lieutenant { reputation = pos 50 }) ∷ [];
    sectors = (30, record outskirts { ship_ids = 40 ∷ 41 ∷ [] }) ∷ [];
    ships = (40, record { owner_id = some 1 }) ∷ (41, record { owner_id = none }) ∷ [];
  },
  done Notice.built,
)
unfolding build_structure lookup insert spend_reputation can_manage contains Squadron.new
    Squadron.add_member bw_exp.Common.Int.◌-ℤ◌ bw_exp.Common.Map.modify
patrol_built = refl

outpost_refused :
    build_structure front 41 1 SquadronBuildingType.outpost 30
    ≡ (front, refused Refusal.not_controlled)
unfolding build_structure lookup can_manage contains Squadron.new Squadron.add_member
outpost_refused = refl
