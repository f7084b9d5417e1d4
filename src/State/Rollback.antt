-- ===== src/State/Rollback.antt =====
-- accessor.rs: a transaction that is rolled back.
use bw_exp.Common.{
  ℕ, ◌≡◌, ◌⊎◌, refl, sym, ◌∙◌, ap, arith, List, [], ◌∷◌, ◌++◌, Option, some, Bool, true, false,
  if◌then◌else◌, length, push, take, ltb, take-append, take_all, append_assoc, append-nil, inl, inr,
  Bool-cases,
}
use bw_exp.State.Changes.{StateMutation}
use bw_exp.State.Overlay.{ShipSnapshot}
use bw_exp.State.Accessor.{
  StateAccessor, can_access_sector, ok, get_ship, begin_transaction, rollback_to_checkpoint,
  modify_ship, modify_player, spawn_ship, destroy_entity, emit_event, send_notification,
  send_choice, broadcast_to_sector,
}
use bw_exp.State.Calls.{Call}
use bw_exp.State.Sessions.{call, after, run, get_ship-run}
use bw_exp.State.Reads.{Mirrors, apply_all}

module _ {F D : Type 0} where
  -- A call queues one mutation, or none.
  Queues : StateAccessor F D → StateMutation F D → StateAccessor F D → Type 0
  Queues a m b =
      (b.pending_mutations ≡ a.pending_mutations)
      ⊎ (b.pending_mutations ≡ push a.pending_mutations m)

  mutation : Call F D → StateMutation F D
  mutation (Call.modify_ship k c) = StateMutation.modify_ship k c
  mutation (Call.modify_player k c) = StateMutation.modify_player k c
  mutation (Call.spawn_ship config) = StateMutation.spawn_ship config
  mutation (Call.destroy_entity k kind) = StateMutation.destroy_entity k kind
  mutation (Call.emit_event name data' actor target) =
      StateMutation.emit_event name data' actor target
  mutation (Call.send_notification p message kind) = StateMutation.send_notification p message kind
  mutation (Call.send_choice p choice text choices) =
      StateMutation.send_choice p choice text choices
  mutation (Call.broadcast_to_sector x message kind) =
      StateMutation.broadcast_to_sector x message kind

  call-Queues : (c : Call F D) (a : StateAccessor F D) → Queues a (mutation c) (after a (call c a))
  unfolding Queues mutation call send_notification send_choice modify_ship modify_player spawn_ship
      destroy_entity emit_event broadcast_to_sector
  call-Queues (Call.modify_ship k c) a = ground arith
  call-Queues (Call.modify_player k c) a = ground arith
  call-Queues (Call.spawn_ship config) a = ground arith
  call-Queues (Call.destroy_entity k kind) a = ground arith
  call-Queues (Call.emit_event name data' actor target) a = ground arith
  call-Queues (Call.send_notification p message kind) a = inr refl
  call-Queues (Call.send_choice p choice text choices) a = inr refl
  call-Queues (Call.broadcast_to_sector x message kind) a = ground arith

  pub call_extends :
      (c : Call F D) (a : StateAccessor F D)
      → (ms : List (StateMutation F D)) × ((after a (call c a)).pending_mutations
          ≡ a.pending_mutations ++ ms)
  unfolding Queues
  call_extends c a = elim (call-Queues c a) [
    | inl e ↦ ([], e ∙ sym (append-nil a.pending_mutations))
    | inr e ↦ (mutation c ∷ [], e)
  ]

  -- Calls only add to the queue.
  pub run_extends :
      (cs : List (Call F D)) (a : StateAccessor F D)
      → (ms : List (StateMutation F D)) × ((run cs a).pending_mutations ≡ a.pending_mutations ++ ms)
  unfolding run
  run_extends [] a = ([], sym (append-nil a.pending_mutations))
  run_extends (c ∷ cs) a =
      let (ns, p) = call_extends c a in
      let (ms, q) = run_extends cs (after a (call c a)) in
      (ns ++ ms, q ∙ ap (λ xs. xs ++ ms) p ∙ append_assoc a.pending_mutations ns ms)

  pub cut :
      (a b : StateAccessor F D)
      → (ms : List (StateMutation F D)) → b.pending_mutations ≡ a.pending_mutations ++ ms
      → (rollback_to_checkpoint b (begin_transaction a)).pending_mutations ≡ a.pending_mutations
  unfolding rollback_to_checkpoint begin_transaction
  cut a b ms q = elim (Bool-cases (ltb (length a.pending_mutations) (length b.pending_mutations))) [
    | inl x ↦ rw x first_part
    | inr x ↦ rw x (
        sym (take_all b.pending_mutations (length a.pending_mutations) (ground (arith, x)))
        ∙ first_part)
  ]
    where
      first_part : take (length a.pending_mutations) b.pending_mutations ≡ a.pending_mutations
      first_part =
          ap (take (length a.pending_mutations)) q
          ∙ take-append (length a.pending_mutations) a.pending_mutations ms (omega arith)
          ∙ take_all a.pending_mutations (length a.pending_mutations) (omega arith)

  -- After any calls, a rollback to the checkpoint taken before them leaves the queue of mutations
  -- as it was.
  pub rollback-pending_mutations :
      (cs : List (Call F D)) (a : StateAccessor F D)
      → (rollback_to_checkpoint (run cs a) (begin_transaction a)).pending_mutations
        ≡ a.pending_mutations
  rollback-pending_mutations cs a = let (ms, q) = run_extends cs a in cut a (run cs a) ms q

  rollback-get_ship :
      (b : StateAccessor F D) (n k : ℕ) (s : Option (ShipSnapshot F))
      → get_ship (rollback_to_checkpoint b n) k s ≡ get_ship b k s
  unfolding rollback_to_checkpoint get_ship
  rollback-get_ship b n k s = step (ltb n (length b.pending_mutations))
    where
      step :
          (t : Bool)
          → get_ship
              (if t then record b { pending_mutations = take n b.pending_mutations } else b)
              k
              s
            ≡ get_ship b k s
      step true = refl
      step false = refl

  -- After any calls and a rollback to the checkpoint before them, the queue is as it was, and yet
  -- a script that may read the ship still reads what the mutations that were discarded made of
  -- it. The accessor at the start must read as its own queue says.
  pub rollback_stale :
      (cs : List (Call F D)) (a : StateAccessor F D) (s : ShipSnapshot F)
      → Mirrors a.overlay a.pending_mutations
      → a.permissions.can_read_ships ≡ true
      → can_access_sector a.permissions s.sector_id ≡ true
      → ((rollback_to_checkpoint (run cs a) (begin_transaction a)).pending_mutations
          ≡ a.pending_mutations)
        × (get_ship (rollback_to_checkpoint (run cs a) (begin_transaction a)) s.id (some s)
            ≡ ok (apply_all (run cs a).pending_mutations s))
  rollback_stale cs a s h readable near = (
    rollback-pending_mutations cs a,
    rollback-get_ship (run cs a) (begin_transaction a) s.id (some s)
        ∙ get_ship-run cs a s h readable near,
  )
