-- ===== src/State/Examples.antt =====
-- Runs of the accessor: a ship that a script damages, moves and destroys.
use bw_exp.Common.{ℕ, ◌≡◌, refl, List, [], ◌∷◌, ◌++◌, none, some, true, inl, inr}
use bw_exp.Common.Ids.{contains}
use bw_exp.Common.Map.{lookup}
use bw_exp.State.Changes.{
  ShipChanges, PlayerChanges, no_ship_changes, no_player_changes, merge_player,
}
use bw_exp.State.Overlay.{ShipSnapshot, PlayerSnapshot, change_ship, change_player, apply_to_ship}
use bw_exp.State.Overlay
use bw_exp.State.Accessor.{
  StateAccessor, AccessPermissions, trusted, set_permissions, get_ship, ok, rollback_to_checkpoint,
  begin_transaction, can_access_sector,
}
use bw_exp.State.Accessor
use bw_exp.State.Calls.{Call}
use bw_exp.State.Reads.{Mirrors, apply_all}
use bw_exp.State.Sessions.{run, run-Mirrors}
use bw_exp.State.Issued.{issued, get_ship-issued}
use bw_exp.State.Rollback.{rollback_stale}
use bw_exp.State.Merge.{IsOrdered, change_player-merge_player}

abbrev ship : ShipSnapshot ℕ
ship = record {
  id = 7;
  sector_id = 1;
  hull = 100;
  shields = 100;
  ammunition = 100;
  fuel = 100;
  morale = 100;
  experience = 0;
  position = record { x = 0; y = 0; z = 0 };
  status = "idle";
  combat_stance = "balanced";
  locked_target = none;
}

abbrev damage : ShipChanges ℕ
damage = record no_ship_changes { hull = some 50 }

abbrev burn : ShipChanges ℕ
burn = record no_ship_changes { fuel = some 90 }

abbrev accessor : StateAccessor ℕ ℕ
accessor = set_permissions Accessor.new trusted

abbrev calls : List (Call ℕ ℕ)
calls =
    Call.modify_ship 7 damage
    ∷ Call.modify_ship 7 burn
    ∷ Call.broadcast_to_sector 1 "mayday" "alert"
    ∷ []

accessor-Mirrors : Mirrors accessor.overlay accessor.pending_mutations
unfolding Mirrors set_permissions Accessor.new Overlay.new apply_to_ship apply_all contains lookup
accessor-Mirrors s = refl

readable : accessor.permissions.can_read_ships ≡ true
unfolding set_permissions trusted
readable = refl

near : can_access_sector accessor.permissions ship.sector_id ≡ true
unfolding set_permissions trusted can_access_sector
near = refl

abbrev player : PlayerSnapshot
player = record { id = 3; reputation = 10; fame = 10; credits = 10 }

abbrev reward : PlayerChanges
reward = record no_player_changes { credits = some 500; credits_delta = some 20 }

abbrev bonus : PlayerChanges
bonus = record no_player_changes { credits_delta = some 5; fame = some 2 }

in_order : IsOrdered reward bonus
unfolding no_player_changes
in_order = record { for_reputation = inl refl; for_fame = inl refl; for_credits = inr refl }

change_player-merge_player_example :
    change_player (merge_player reward bonus) player
    ≡ change_player bonus (change_player reward player)
change_player-merge_player_example = change_player-merge_player reward bonus player in_order

run-Mirrors_example : Mirrors (run calls accessor).overlay (run calls accessor).pending_mutations
run-Mirrors_example = run-Mirrors calls accessor accessor-Mirrors

get_ship-issued_example :
    ((run calls accessor).pending_mutations ≡ [] ++ issued accessor.permissions calls)
    × (get_ship (run calls accessor) 7 (some ship)
        ≡ ok (apply_all ([] ++ issued accessor.permissions calls) ship))
unfolding Accessor.new set_permissions
get_ship-issued_example = get_ship-issued calls accessor ship accessor-Mirrors readable near

rollback_stale_example :
    ((rollback_to_checkpoint (run calls accessor) (begin_transaction accessor)).pending_mutations
      ≡ accessor.pending_mutations)
    × (get_ship
          (rollback_to_checkpoint (run calls accessor) (begin_transaction accessor))
          7
          (some ship)
        ≡ ok (apply_all (run calls accessor).pending_mutations ship))
rollback_stale_example = rollback_stale calls accessor ship accessor-Mirrors readable near
