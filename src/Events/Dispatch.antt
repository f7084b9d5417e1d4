-- ===== src/Events/Dispatch.antt =====
-- events/dispatcher.rs: the dispatch of an event. The messages of failures are left out.
use bw_exp.Common.{
  ℕ, suc, List, [], ◌∷◌, ◌++◌, Option, none, some, Bool, true, false, ◌==◌, if◌then◌else◌, not,
  push,
}
use bw_exp.State.Changes.{StateMutation}
use bw_exp.State.Accessor.{
  StateAccessor, AccessPermissions, trusted, npc_behavior, set_permissions, set_context_sector,
  take_mutations,
}
use bw_exp.Events.{EventSubscription, EventRegistry, matches}
use bw_exp.Events.Registry.{get_handlers_sorted}

-- The fields of `GameEvent` that decide who handles it, and the data that the handlers get.
pub record GameEvent : Type 0 where
  pub event_type : ℕ
  pub sector_id : ℕ
  pub actor_id : Option ℕ
  pub target_id : Option ℕ
  pub event_data : ℕ

pub record DispatchResult (F D : Type 0) : Type 0 where
  pub event_type : ℕ
  pub handlers_called : ℕ
  pub successes : ℕ
  pub failures : List ℕ
  pub mutations : List (StateMutation F D)

-- The dispatcher's parts that a handler may change; `scripts` is what else scripts act on.
pub record World (F D W : Type 0) : Type 0 where
  pub registry : EventRegistry
  pub state_accessor : Option (StateAccessor F D)
  pub scripts : W

-- The engine: a call of the handler's function for the event, in the context of the handler. The
-- result says whether it succeeded.
pub record Engine (F D W : Type 0) : Type 0 where
  pub has_script : ℕ → W → Bool
  pub call_function : EventSubscription → GameEvent → World F D W → World F D W × Bool

unfoldable pub permissions_of : EventSubscription → AccessPermissions
permissions_of h = elim h.owner_entity_id [
  | none ↦ trusted
  | some entity ↦ elim h.sector_id [ none ↦ trusted | some sector ↦ npc_behavior entity sector ]
]

unfoldable pub accepts : GameEvent → EventSubscription → Bool
accepts event h =
    if not h.enabled
    then false
    else if elim h.sector_id [ none ↦ false | some sector ↦ not (event.sector_id == sector) ]
    then false
    else elim h.filter [
      | none ↦ true
      | some f ↦ matches f event.sector_id event.actor_id event.target_id
    ]

module _ {F D : Type 0} where
  unfoldable pub prepare : EventSubscription → StateAccessor F D → StateAccessor F D
  unfolding permissions_of
  prepare h a =
      let a' = set_permissions a (permissions_of h) in
      elim h.sector_id [ none ↦ a' | some sector ↦ set_context_sector a' sector ]

  unfoldable pub result_new : ℕ → DispatchResult F D
  result_new event_type = record {
    event_type = event_type;
    handlers_called = 0;
    successes = 0;
    failures = [];
    mutations = [];
  }

  abbrev pub counted :
      EventSubscription
      → Option (List (StateMutation F D))
      → DispatchResult F D
      → DispatchResult F D
  counted h none result = record result {
    handlers_called = suc result.handlers_called;
    failures = push result.failures h.id;
  }
  counted h (some mutations) result = record result {
    handlers_called = suc result.handlers_called;
    successes = suc result.successes;
    mutations = result.mutations ++ mutations;
  }

module _ {F D W : Type 0} where
  unfoldable pub set_state_accessor : StateAccessor F D → World F D W → World F D W
  set_state_accessor a w = record w { state_accessor = some a }

  unfoldable pub collect : World F D W → World F D W × List (StateMutation F D)
  collect w = elim w.state_accessor [
    | none ↦ (w, [])
    | some a ↦
        let (a', mutations) = take_mutations a in (record w { state_accessor = some a' }, mutations)
  ]

module _ {F D W : Type 0} (engine : Engine F D W) (event : GameEvent) where
  -- No value: the handler failed.
  unfoldable pub execute_handler :
      EventSubscription → World F D W → World F D W × Option (List (StateMutation F D))
  unfolding prepare collect
  execute_handler h w =
      if not (engine.has_script h.script_path w.scripts)
      then (w, none)
      else let ready = record w {
        state_accessor = elim w.state_accessor [ none ↦ none | some a ↦ some (prepare h a) ];
      } in
        let (called, success) = engine.call_function h event ready in
        let (w', mutations) = collect called in (w', if success then some mutations else none)

  unfoldable pub run_handlers :
      List EventSubscription → World F D W → DispatchResult F D → World F D W × DispatchResult F D
  unfolding execute_handler accepts
  run_handlers [] w result = (w, result)
  run_handlers (h ∷ hs) w result =
      let (w', outcome) = execute_handler h w in
      if accepts event h
      then run_handlers hs w' (counted h outcome result)
      else run_handlers hs w result

  unfoldable pub dispatch : World F D W → World F D W × DispatchResult F D
  unfolding run_handlers result_new
  dispatch w =
      run_handlers (get_handlers_sorted event.event_type w.registry) w (result_new event.event_type)
