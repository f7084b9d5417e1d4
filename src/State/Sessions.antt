-- ===== src/State/Sessions.antt =====
-- accessor.rs: the calls of a script, one after the other.
use bw_exp.Common.{
  ℕ, ◌≡◌, refl, ◌∙◌, ap, arith, List, [], ◌∷◌, some, true, not, ◌&&◌, inl, inr, Bool-cases,
}
use bw_exp.Common.Ids.{contains}
use bw_exp.State.Changes.{
  ShipChanges, PlayerChanges, ShipSpawnConfig, EntityType, StateMutation, ship_is_empty,
  player_is_empty,
}
use bw_exp.State.Overlay.{
  MutationOverlay, ShipSnapshot, apply_to_ship, is_destroyed, record_ship_change,
  record_player_change, record_destroy,
}
use bw_exp.State.Accessor.{
  StateAccessor, Result, ok, err, get_ship, modify_ship, modify_player, spawn_ship, destroy_entity,
  emit_event, send_notification, send_choice, broadcast_to_sector, can_access_sector, owns,
}
use bw_exp.State.Calls.{Call}
use bw_exp.State.Reads.{
  apply_one, apply_all, Mirrors, push-Mirrors, silent-Mirrors, apply_to_ship-record_ship_change,
  apply_to_ship-record_destroy,
}

module _ {F D : Type 0} where
  unfoldable pub call : Call F D → StateAccessor F D → Result (StateAccessor F D)
  call (Call.modify_ship k c) a = modify_ship a k c
  call (Call.modify_player k c) a = modify_player a k c
  call (Call.spawn_ship config) a = spawn_ship a config
  call (Call.destroy_entity k kind) a = destroy_entity a k kind
  call (Call.emit_event name data' actor target) a = emit_event a name data' actor target
  call (Call.send_notification p message kind) a = send_notification a p message kind
  call (Call.send_choice p choice text choices) a = send_choice a p choice text choices
  call (Call.broadcast_to_sector x message kind) a = broadcast_to_sector a x message kind

  -- A call that fails changes nothing.
  abbrev pub after : StateAccessor F D → Result (StateAccessor F D) → StateAccessor F D
  after a (ok b) = b
  after a (err e) = a

  unfoldable pub run : List (Call F D) → StateAccessor F D → StateAccessor F D
  run [] a = a
  run (c ∷ cs) a = run cs (after a (call c a))

  Agrees : StateAccessor F D → Type 0
  Agrees a = Mirrors a.overlay a.pending_mutations

  modify_ship-Agrees :
      (a : StateAccessor F D) (k : ℕ) (c : ShipChanges F)
      → Agrees a
      → Agrees (after a (modify_ship a k c))
  unfolding Agrees modify_ship
  modify_ship-Agrees a k c h =
      elim (Bool-cases (not a.permissions.can_write_ships && not (owns a.permissions k))) [
        | inl x ↦ rw x h
        | inr x ↦ elim (Bool-cases (ship_is_empty c)) [
          | inl y ↦ rw (x, y) h
          | inr y ↦
              rw (x, y)
                (push-Mirrors a.overlay (record_ship_change a.overlay k c) a.pending_mutations
                  (StateMutation.modify_ship k c) h
                  (apply_to_ship-record_ship_change D a.overlay k c))
        ]
      ]

  destroy_entity-Agrees :
      (a : StateAccessor F D) (k : ℕ) (kind : EntityType)
      → Agrees a
      → Agrees (after a (destroy_entity a k kind))
  unfolding Agrees destroy_entity
  destroy_entity-Agrees a k kind h = elim (Bool-cases a.permissions.can_destroy_entities) [
    | inl x ↦ rw x (
        push-Mirrors a.overlay (record_destroy a.overlay k) a.pending_mutations
          (StateMutation.destroy_entity k kind) h (apply_to_ship-record_destroy D a.overlay k kind))
    | inr x ↦ rw x h
  ]

  record_player_change-Mirrors :
      (o : MutationOverlay F) (k : ℕ) (c : PlayerChanges) (ms : List (StateMutation F D))
      → Mirrors o ms
      → Mirrors (record_player_change o k c) ms
  unfolding Mirrors record_player_change apply_to_ship
  record_player_change-Mirrors o k c ms h = h

  modify_player-Agrees :
      (a : StateAccessor F D) (k : ℕ) (c : PlayerChanges)
      → Agrees a
      → Agrees (after a (modify_player a k c))
  unfolding Agrees modify_player apply_one
  modify_player-Agrees a k c h = elim (Bool-cases a.permissions.can_write_players) [
    | inl x ↦ elim (Bool-cases (player_is_empty c)) [
      | inl y ↦ rw (x, y) h
      | inr y ↦
          rw (x, y)
            (record_player_change-Mirrors a.overlay k c _ (
              silent-Mirrors a.overlay a.pending_mutations (StateMutation.modify_player k c) h
                (λ t. refl)))
    ]
    | inr x ↦ rw x h
  ]

  spawn_ship-Agrees :
      (a : StateAccessor F D) (config : ShipSpawnConfig F)
      → Agrees a
      → Agrees (after a (spawn_ship a config))
  unfolding Agrees spawn_ship apply_one
  spawn_ship-Agrees a config h =
      elim (Bool-cases (can_access_sector a.permissions config.sector_id)) [
        | inl y ↦ elim (Bool-cases a.permissions.can_spawn_entities) [
          | inl x ↦
              rw (y, x)
                (silent-Mirrors a.overlay a.pending_mutations (StateMutation.spawn_ship config) h
                  (λ t. refl))
          | inr x ↦ rw (y, x) h
        ]
        | inr y ↦ elim (Bool-cases a.permissions.can_spawn_entities) [
          | inl x ↦ rw (y, x) h
          | inr x ↦ rw (y, x) h
        ]
      ]

  call-Agrees : (c : Call F D) (a : StateAccessor F D) → Agrees a → Agrees (after a (call c a))
  unfolding call Agrees emit_event send_notification send_choice broadcast_to_sector apply_one
  call-Agrees (Call.modify_ship k c) a h = modify_ship-Agrees a k c h
  call-Agrees (Call.modify_player k c) a h = modify_player-Agrees a k c h
  call-Agrees (Call.spawn_ship config) a h = spawn_ship-Agrees a config h
  call-Agrees (Call.destroy_entity k kind) a h = destroy_entity-Agrees a k kind h
  call-Agrees (Call.emit_event name data' actor target) a h =
      elim (Bool-cases a.permissions.can_emit_events) [
        | inl x ↦ rw x (
            silent-Mirrors a.overlay a.pending_mutations
              (StateMutation.emit_event name data' actor target) h (λ t. refl))
        | inr x ↦ rw x h
      ]
  call-Agrees (Call.send_notification p message kind) a h =
      silent-Mirrors a.overlay a.pending_mutations (StateMutation.send_notification p message kind)
        h (λ t. refl)
  call-Agrees (Call.send_choice p choice text choices) a h =
      silent-Mirrors a.overlay a.pending_mutations (StateMutation.send_choice p choice text choices)
        h (λ t. refl)
  call-Agrees (Call.broadcast_to_sector x message kind) a h =
      elim (Bool-cases (can_access_sector a.permissions x)) [
        | inl y ↦ rw y (
            silent-Mirrors a.overlay a.pending_mutations
              (StateMutation.broadcast_to_sector x message kind) h (λ t. refl))
        | inr y ↦ rw y h
      ]

  -- If for every ship the overlay gives what the queued mutations make of it, then it does so
  -- after any calls that change a ship, a player or the world.
  pub run-Mirrors :
      (cs : List (Call F D)) (a : StateAccessor F D)
      → Mirrors a.overlay a.pending_mutations
      → Mirrors (run cs a).overlay (run cs a).pending_mutations
  unfolding run Agrees
  run-Mirrors [] a h = h
  run-Mirrors (c ∷ cs) a h = run-Mirrors cs (after a (call c a)) (call-Agrees c a h)

  pub call-permissions :
      (c : Call F D) (a : StateAccessor F D) → (after a (call c a)).permissions ≡ a.permissions
  unfolding call modify_ship modify_player spawn_ship destroy_entity emit_event send_notification
      send_choice broadcast_to_sector
  call-permissions (Call.modify_ship k c) a = ground arith
  call-permissions (Call.modify_player k c) a = ground arith
  call-permissions (Call.spawn_ship config) a = ground arith
  call-permissions (Call.destroy_entity k kind) a = ground arith
  call-permissions (Call.emit_event name data' actor target) a = ground arith
  call-permissions (Call.send_notification p message kind) a = refl
  call-permissions (Call.send_choice p choice text choices) a = refl
  call-permissions (Call.broadcast_to_sector x message kind) a = ground arith

  pub run-permissions :
      (cs : List (Call F D)) (a : StateAccessor F D) → (run cs a).permissions ≡ a.permissions
  unfolding run
  run-permissions [] a = refl
  run-permissions (c ∷ cs) a = run-permissions cs (after a (call c a)) ∙ call-permissions c a

  read_ship :
      (a : StateAccessor F D) (s : ShipSnapshot F)
      → Mirrors a.overlay a.pending_mutations
      → a.permissions.can_read_ships ≡ true
      → can_access_sector a.permissions s.sector_id ≡ true
      → get_ship a s.id (some s) ≡ ok (apply_all a.pending_mutations s)
  unfolding get_ship Mirrors apply_to_ship is_destroyed
  read_ship a s h readable near = elim (Bool-cases (contains a.overlay.pending_destroys s.id)) [
    | inl x ↦ ground (arith, h s)
    | inr x ↦ ground (arith, h s)
  ]

  -- If the accessor reads of every ship what its own queue makes of it, then a script that may read
  -- ships, and the sector of this one, reads after any calls what the queued mutations make of the
  -- ship, applied to it in turn.
  pub get_ship-run :
      (cs : List (Call F D)) (a : StateAccessor F D) (s : ShipSnapshot F)
      → Mirrors a.overlay a.pending_mutations
      → a.permissions.can_read_ships ≡ true
      → can_access_sector a.permissions s.sector_id ≡ true
      → get_ship (run cs a) s.id (some s) ≡ ok (apply_all (run cs a).pending_mutations s)
  get_ship-run cs a s h readable near =
      read_ship (run cs a) s (run-Mirrors cs a h)
        (ap (λ p. p.can_read_ships) (run-permissions cs a) ∙ readable)
        (ap (λ p. can_access_sector p s.sector_id) (run-permissions cs a) ∙ near)
