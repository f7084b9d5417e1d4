-- ===== src/State/Issued.antt =====
-- accessor.rs: which mutations the calls of a script queue, from its permissions alone.
use bw_exp.Common.{
  ◌≡◌, refl, sym, ap, ◌∙◌, arith, List, [], ◌∷◌, ◌++◌, append_assoc, append-nil, some, Bool, true,
  false, not, ◌&&◌, ◌||◌, if◌then◌else◌,
}
use bw_exp.State.Changes.{StateMutation, ship_is_empty, player_is_empty}
use bw_exp.State.Overlay.{ShipSnapshot}
use bw_exp.State.Accessor.{
  StateAccessor, AccessPermissions, ok, get_ship, modify_ship, modify_player, spawn_ship,
  destroy_entity, emit_event, send_notification, send_choice, broadcast_to_sector,
  can_access_sector, owns,
}
use bw_exp.State.Calls.{Call}
use bw_exp.State.Reads.{apply_all, Mirrors}
use bw_exp.State.Sessions.{call, after, run, call-permissions, get_ship-run}

module _ {F D : Type 0} where
  -- What a script may do, and whether there is anything to do.
  abbrev pub has_effect : AccessPermissions → Call F D → Bool
  has_effect p (Call.modify_ship k c) = (p.can_write_ships || owns p k) && not (ship_is_empty c)
  has_effect p (Call.modify_player k c) = p.can_write_players && not (player_is_empty c)
  has_effect p (Call.spawn_ship config) =
      p.can_spawn_entities && can_access_sector p config.sector_id
  has_effect p (Call.destroy_entity k kind) = p.can_destroy_entities
  has_effect p (Call.emit_event name data' actor target) = p.can_emit_events
  has_effect p (Call.send_notification player message kind) = true
  has_effect p (Call.send_choice player choice text choices) = true
  has_effect p (Call.broadcast_to_sector x message kind) = can_access_sector p x

  abbrev pub mutation : Call F D → StateMutation F D
  mutation (Call.modify_ship k c) = StateMutation.modify_ship k c
  mutation (Call.modify_player k c) = StateMutation.modify_player k c
  mutation (Call.spawn_ship config) = StateMutation.spawn_ship config
  mutation (Call.destroy_entity k kind) = StateMutation.destroy_entity k kind
  mutation (Call.emit_event name data' actor target) =
      StateMutation.emit_event name data' actor target
  mutation (Call.send_notification player message kind) =
      StateMutation.send_notification player message kind
  mutation (Call.send_choice player choice text choices) =
      StateMutation.send_choice player choice text choices
  mutation (Call.broadcast_to_sector x message kind) =
      StateMutation.broadcast_to_sector x message kind

  -- The mutations that the calls ask for and that the permissions allow.
  unfoldable pub issued : AccessPermissions → List (Call F D) → List (StateMutation F D)
  issued p [] = []
  issued p (c ∷ cs) = if has_effect p c then mutation c ∷ issued p cs else issued p cs

  call_queues :
      (c : Call F D) (a : StateAccessor F D)
      → (after a (call c a)).pending_mutations ≡ (
          if has_effect a.permissions c
          then a.pending_mutations ++ mutation c ∷ []
          else a.pending_mutations)
  unfolding call modify_ship modify_player spawn_ship destroy_entity emit_event send_notification
      send_choice broadcast_to_sector
  call_queues (Call.modify_ship k c) a = ground arith
  call_queues (Call.modify_player k c) a = ground arith
  call_queues (Call.spawn_ship config) a = ground arith
  call_queues (Call.destroy_entity k kind) a = ground arith
  call_queues (Call.emit_event name data' actor target) a = ground arith
  call_queues (Call.send_notification p message kind) a = refl
  call_queues (Call.send_choice p choice text choices) a = refl
  call_queues (Call.broadcast_to_sector x message kind) a = ground arith

  joined :
      (b : Bool) (ms ns : List (StateMutation F D)) (m : StateMutation F D)
      → (if b then ms ++ m ∷ [] else ms) ++ ns ≡ ms ++ (if b then m ∷ ns else ns)
  joined true ms ns m = append_assoc ms (m ∷ []) ns
  joined false ms ns m = refl

  pub run-issued :
      (cs : List (Call F D)) (a : StateAccessor F D)
      → (run cs a).pending_mutations ≡ a.pending_mutations ++ issued a.permissions cs
  unfolding run issued
  run-issued [] a = sym (append-nil a.pending_mutations)
  run-issued (c ∷ cs) a =
      run-issued cs (after a (call c a))
      ∙ ap (λ p. (after a (call c a)).pending_mutations ++ issued p cs) (call-permissions c a)
      ∙ ap (λ ms. ms ++ issued a.permissions cs) (call_queues c a)
      ∙ joined (has_effect a.permissions c) a.pending_mutations (issued a.permissions cs)
          (mutation c)

  -- Let the accessor read of every ship what its own queue makes of it. After any calls that
  -- change a ship, a player or the world, the queue is what it was, followed by the mutations of
  -- exactly those calls that the permissions allow and, for changes, that are not empty; and a
  -- script that may read ships, and the sector of this one, reads the ship with all of these
  -- applied to it in turn.
  pub get_ship-issued :
      (cs : List (Call F D)) (a : StateAccessor F D) (s : ShipSnapshot F)
      → Mirrors a.overlay a.pending_mutations
      → a.permissions.can_read_ships ≡ true
      → can_access_sector a.permissions s.sector_id ≡ true
      → ((run cs a).pending_mutations ≡ a.pending_mutations ++ issued a.permissions cs)
        × (get_ship (run cs a) s.id (some s)
            ≡ ok (apply_all (a.pending_mutations ++ issued a.permissions cs) s))
  get_ship-issued cs a s h readable near = (
    run-issued cs a,
    get_ship-run cs a s h readable near ∙ ap (λ ms. ok (apply_all ms s)) (run-issued cs a),
  )
