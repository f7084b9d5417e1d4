-- ===== src/Coroutines/Scheduler.antt =====
-- scheduler.rs: the operations of the scheduler.
use bw_exp.Common.{
  ℕ, List, [], ◌∷◌, Option, none, some, Bool, true, false, ◌==◌, if◌then◌else◌, leb, push, filter,
  unwrap_or,
}
use bw_exp.Common.Ids.{without}
use bw_exp.Common.Map.{Map, lookup, insert, remove, modify, contains_key}
use bw_exp.Coroutines.{
  Coroutine, CoroutineState, ready, running, waiting_for_ticks, waiting_for_next_frame,
  waiting_for_event, ticks, seconds, next_frame, event, schedule, yielded, YieldType, YieldRequest,
  ExecResult, Engine, extend, add_u64,
}
use bw_exp.Coroutines

pub record CoroutineScheduler (D : Type 0) : Type 0 where
  pub coroutines : Map (Coroutine D)
  pub tick_waiters : Map (List ℕ)
  pub event_waiters : Map (List ℕ)
  pub ready_queue : List ℕ
  pub max_per_tick : ℕ

-- Who waits under a key; and one more.
abbrev pub waiters : ℕ → Map (List ℕ) → List ℕ
waiters k m = unwrap_or (lookup k m) []

abbrev pub enlist : ℕ → ℕ → Map (List ℕ) → Map (List ℕ)
enlist k id m = insert k (push (waiters k m) id) m

unfoldable pub keys {ℓ} : {V : Type ℓ} → Map V → List ℕ
keys [] = []
keys (entry ∷ rest) = entry.0 ∷ keys rest

abbrev pub awaits_frame : CoroutineState → Bool
awaits_frame waiting_for_next_frame = true
awaits_frame _ = false

-- `cancel`: what becomes of the waiters of a coroutine that is taken out.
abbrev pub leave_ticks : ℕ → Option ℕ → Map (List ℕ) → Map (List ℕ)
leave_ticks id none m = m
leave_ticks id (some t) m = modify t (without id) m

abbrev pub leave_event : ℕ → CoroutineState → Map (List ℕ) → Map (List ℕ)
leave_event id (waiting_for_event e) m = modify e (without id) m
leave_event id _ m = m

module _ {D : Type 0} where
  unfoldable pub new : CoroutineScheduler D
  new = record {
    coroutines = [];
    tick_waiters = [];
    event_waiters = [];
    ready_queue = [];
    max_per_tick = 100;
  }

  unfoldable pub enter : ℕ → Coroutine D → CoroutineScheduler D → CoroutineScheduler D
  enter id c s = record s {
    coroutines = insert id c s.coroutines;
    ready_queue = push s.ready_queue id;
  }

  -- A coroutine that is there is changed and queued.
  unfoldable pub wake :
      (Coroutine D → Coroutine D) → ℕ → CoroutineScheduler D → CoroutineScheduler D
  wake f id s =
      if contains_key id s.coroutines
      then record s { coroutines = modify id f s.coroutines; ready_queue = push s.ready_queue id }
      else s

  unfoldable pub wake_all :
      (Coroutine D → Coroutine D) → List ℕ → CoroutineScheduler D → CoroutineScheduler D
  wake_all f [] s = s
  wake_all f (id ∷ ids) s = wake_all f ids (wake f id s)

  abbrev pub readied : Coroutine D → Coroutine D
  readied c = record c { state = ready }

  unfoldable pub wake_tick : ℕ → CoroutineScheduler D → CoroutineScheduler D
  wake_tick t s =
      wake_all readied (waiters t s.tick_waiters)
        (record s { tick_waiters = remove t s.tick_waiters })

  unfoldable pub wake_ticks : List ℕ → CoroutineScheduler D → CoroutineScheduler D
  wake_ticks [] s = s
  wake_ticks (t ∷ ts) s = wake_ticks ts (wake_tick t s)

  unfoldable pub wake_tick_waiters : ℕ → CoroutineScheduler D → CoroutineScheduler D
  wake_tick_waiters now s = wake_ticks (filter (λ t. leb t now) (keys s.tick_waiters)) s

  unfoldable pub frame_waiters : Map (Coroutine D) → List ℕ
  frame_waiters [] = []
  frame_waiters (entry ∷ rest) =
      if awaits_frame (entry.1).state then entry.0 ∷ frame_waiters rest else frame_waiters rest

  unfoldable pub wake_next_frame_waiters : CoroutineScheduler D → CoroutineScheduler D
  wake_next_frame_waiters s = wake_all readied (frame_waiters s.coroutines) s

  unfoldable pub cancel : ℕ → CoroutineScheduler D → CoroutineScheduler D × Bool
  cancel id s = elim (lookup id s.coroutines) [
    | none ↦ (s, false)
    | some c ↦ (
      record s {
        coroutines = remove id s.coroutines;
        tick_waiters = leave_ticks id c.resume_at s.tick_waiters;
        event_waiters = leave_event id c.state s.event_waiters;
      },
      true,
    )
  ]

  -- `owner_entity_id == Some(k)`.
  abbrev pub owned_by : ℕ → Coroutine D → Bool
  owned_by k c = elim c.owner_entity_id [ none ↦ false | some j ↦ j == k ]

  unfoldable pub owned : ℕ → Map (Coroutine D) → List ℕ
  owned k [] = []
  owned k (entry ∷ rest) = if owned_by k entry.1 then entry.0 ∷ owned k rest else owned k rest

  unfoldable pub cancel_all : List ℕ → CoroutineScheduler D → CoroutineScheduler D
  cancel_all [] s = s
  cancel_all (id ∷ ids) s = cancel_all ids (cancel id s).0

  unfoldable pub cancel_for_entity : ℕ → CoroutineScheduler D → CoroutineScheduler D
  cancel_for_entity k s = cancel_all (owned k s.coroutines) s

module _ {F D : Type 0} (engine : Engine F D) where
  -- The identifier is drawn outside. No value: the script does not exist.
  unfoldable pub spawn :
      (id script_path function_name now : ℕ) → CoroutineScheduler D → Option (CoroutineScheduler D)
  unfolding enter
  spawn id script_path function_name now s =
      if engine.has_script script_path
      then some (enter id (Coroutines.new script_path function_name now) s)
      else none

  unfoldable pub spawn_with_context :
      (id script_path function_name now : ℕ) (owner sector : Option ℕ)
      → CoroutineScheduler D
      → Option (CoroutineScheduler D)
  unfolding enter
  spawn_with_context id script_path function_name now owner sector s =
      if engine.has_script script_path
      then some (
          enter id
            (record (Coroutines.new script_path function_name now) {
              owner_entity_id = owner;
              sector_id = sector;
            })
            s)
      else none

  unfoldable pub spawn_scheduled :
      (id script_path function_name now delay_ticks : ℕ) (owner sector : Option ℕ)
      → CoroutineScheduler D
      → Option (CoroutineScheduler D)
  spawn_scheduled id script_path function_name now delay_ticks owner sector s =
      let resume_tick = add_u64 now delay_ticks in
      if engine.has_script script_path
      then some (record s {
        coroutines =
            insert id
              (record (Coroutines.new script_path function_name now) {
                owner_entity_id = owner;
                sector_id = sector;
                state = waiting_for_ticks;
                resume_at = some resume_tick;
              })
              s.coroutines;
        tick_waiters = enlist resume_tick id s.tick_waiters;
      })
      else none

  abbrev pub told : Map D → Coroutine D → Coroutine D
  told event_data c = record c { state = ready; resume_value = some (engine.from_map event_data) }

  unfoldable pub notify_event : ℕ → Map D → CoroutineScheduler D → CoroutineScheduler D
  notify_event event_type event_data s =
      wake_all (told event_data) (waiters event_type s.event_waiters)
        (record s { event_waiters = remove event_type s.event_waiters })
