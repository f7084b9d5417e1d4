-- ===== src/Squadron/Examples.antt =====
-- Runs of squadron.rs on a squadron of three players.
use bw_exp.Common.{ℕ, ◌≡◌, []}
use bw_exp.Common.Float.{hundredths}
use bw_exp.Squadron.{Squadron}
use bw_exp.Squadron
use bw_exp.Squadron.Roster.{
  IsRoster, rank, join, promote, hand_over, change, change_ranks, change-IsRoster, rank-change,
  new-IsRoster,
}
use bw_exp.Squadron.Diplomacy.{allied, war, alliance, move, stance, stance-move}

-- Player 1 leads, player 2 is an officer, player 3 a member.
abbrev crew : Squadron ℕ
crew = change (promote 2) (change (join 3) (change (join 2) (Squadron.new 10 0 [] [] 1)))

crew-IsRoster : IsRoster crew
crew-IsRoster =
    change-IsRoster (promote 2) _
      (change-IsRoster (join 3) _ (change-IsRoster (join 2) _ (new-IsRoster 10 0 [] [] 1)))

new-IsRoster_example : IsRoster (Squadron.new {F = ℕ} 10 0 [] [] 1)
new-IsRoster_example = new-IsRoster 10 0 [] [] 1

rank-change_example : rank (change (hand_over 3) crew) 1 ≡ change_ranks (hand_over 3) (rank crew) 1
rank-change_example = rank-change (hand_over 3) crew 1 crew-IsRoster

abbrev at_war : Squadron ℕ
at_war = move (war 20) crew

stance-move_example : stance (move (alliance 20) at_war) 20 ≡ allied
stance-move_example = stance-move (alliance 20) at_war 20
