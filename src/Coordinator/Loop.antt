-- ===== src/Coordinator/Loop.antt =====
-- The event loop of harness/coordinator/loop.go (`Run`, `processEvents`, `processModelResponse`): a
-- round, up to the select, and what is done with the event that the select gives. Which events come,
-- and what is waiting in the channels, is arbitrary; a context that is canceled ends a run anywhere.
use unreal_agent.Base.{
  ℕ, String, Bool, not, ◌&&◌, Option, none, some, List, [], ◌∷◌, ◌++◌, map, if◌then◌else◌, Result,
  ok, err, ◌>>=◌, with_error, ◌==◌, string_eq, filter_by, ◌||◌, map_ok,
}
use unreal_agent.Llm.{Request}
use unreal_agent.Inbox.{Json, Input}
use unreal_agent.Operation.{Operation, CallStatus}
use unreal_agent.Store.{ToolCallStatus}
use unreal_agent.Store.Head.{CallKey}
use unreal_agent.Coordinator.State.{CallEntry, is_empty}
use unreal_agent.Coordinator.Local.{Resolve}
use unreal_agent.Coordinator.Handlers
use unreal_agent.Coordinator.Handlers.{
  Coordinator, handle_inbox_inputs, handle_inbox_input, handle_operation_update, handle_stop,
  is_idle, is_stop_hard, is_stop_when_idle, request_model_response, should_call_model, clear_grace,
  interrupt_model, set_call_model, statuses_require_model_response,
}
use unreal_agent.Coordinator.Reconcile
use unreal_agent.Coordinator.Reconcile.{reconcile_tool_calls}
use unreal_agent.Coordinator.Schedule.{
  Reply, handle_model_response, schedule_tool_calls, grace_after, dispatch_statuses, begin_grace,
  dispatch,
}

pub data Error : Type 0 where
  not_handled : Handlers.Error → Error
  not_reconciled : Reconcile.Error → Error
  model_failed : String → Error
  not_canceled : List String → Error

-- What a round is given: the inputs and updates that are waiting, the ID of a turn and the IDs of
-- operations that it may need, the operations that the manager fails to cancel, and the time.
pub record Supply : Type 0 where
  pub inputs : List Input
  pub updates : List Operation
  pub turn_id : String
  pub ids : CallKey → ℕ → String
  pub cancel_fails : String → Bool
  pub now : ℕ

-- What comes of a round: the coordinator behind it, whether the loop stops, the operations that it
-- cancels, and what it asks the model.
pub record Round : Type 0 where
  pub next : Coordinator
  pub stops : Bool
  pub canceled : List String
  pub asked : Option Request

-- What the select receives.
pub data Event : Type 0 where
  input : Input → Event
  update : Operation → Event
  heartbeat grace : Event
  reply : Reply → Event

-- The open calls of a turn: the siblings of a call that is closed.
abbrev pub siblings : String → List CallEntry → List CallKey
siblings turn_id entries =
    map (λ (entry : CallEntry). entry.key)
      (filter_by (λ (entry : CallEntry). entry.key.turn_id == turn_id) entries)

abbrev pub all_siblings : List ToolCallStatus → List CallEntry → List CallKey
all_siblings [] entries = []
all_siblings (status ∷ statuses) entries =
    siblings status.turn_id entries ++ all_siblings statuses entries

-- The grace period behind calls that are closed.
abbrev pub grace_for_siblings : List ToolCallStatus → Coordinator → Coordinator
grace_for_siblings completed c =
    let keys = all_siblings completed c.local.loop.tool_calls in
    if is_empty keys then c else begin_grace keys c

-- The end of a round: the test for a stop when idle.
abbrev pub end_round : Coordinator → List String → Option Request → Round
end_round c canceled asked = record {
  next = c;
  stops = is_stop_when_idle c.stop.request && is_idle c;
  canceled = canceled;
  asked = asked;
}

module _ (json : Json) (resolve : Resolve) (unavailable : String → CallStatus)
    (compaction_prompt : String) where
  -- `processOperations`
  unfoldable pub process_operations :
      Coordinator → List Operation → Result Handlers.Error Coordinator
  unfolding handle_operation_update
  process_operations c [] = ok c
  process_operations c (value ∷ updates) = do
    next ← handle_operation_update json resolve c value
    process_operations next updates

  -- `processEvents`
  unfoldable pub process_events : Coordinator → Supply → Result Error (Coordinator × Bool)
  unfolding handle_inbox_inputs process_operations reconcile_tool_calls should_call_model
  process_events c s = do
    heard ← with_error not_handled (handle_inbox_inputs json resolve s.now c s.inputs)
    updated ← with_error not_handled (process_operations heard s.updates)
    (closed, completed) ←
        with_error not_reconciled (reconcile_tool_calls json resolve s.now updated)
    let ready = grace_for_siblings completed closed
    ok (ready, should_call_model ready)

  -- The stop that is asked for with `StopHard`.
  unfoldable pub stop_round : Coordinator → Supply → Result Error Round
  unfolding handle_stop
  stop_round c s =
      let (next, canceled, result) = handle_stop s.cancel_fails c in
      map_ok (λ stopped. record { next = next; stops = stopped; canceled = canceled; asked = none })
        (with_error not_canceled result)

  unfoldable pub ask_round : Coordinator → Supply → Result Error Round
  unfolding request_model_response is_idle
  ask_round c s = do
    (next, request) ←
        with_error not_handled
          (request_model_response json resolve compaction_prompt s.turn_id s.now c)
    ok (end_round (clear_grace next) [] (some request))

  unfoldable pub decide : Bool → Coordinator → Supply → Result Error Round
  unfolding stop_round ask_round is_idle
  decide call_model c s =
      if is_stop_hard c.stop.request
      then stop_round c s
      else if call_model
      then ask_round c s
      else ok (end_round c [] none)

  -- A round of `Run`, up to the select.
  unfoldable pub round : Coordinator → Supply → Result Error Round
  unfolding process_events decide
  round c s = do (ready, call_model) ← process_events c s; decide call_model ready s

  -- `processModelResponse`
  unfoldable pub process_model_response :
      Coordinator → Supply → Reply → Result Error (Coordinator × List Operation)
  unfolding handle_model_response
  process_model_response c s r = elim r.response [
    | none ↦ err (model_failed r.turn_id)
    | some response ↦ do
      (next, statuses) ← with_error not_handled (
          handle_model_response json resolve unavailable s.ids s.now (interrupt_model c)
            (record { turn_id = r.turn_id; response = response }))
      ok (grace_after statuses next, dispatch_statuses statuses)
  ]

  -- A case of the select; an answer that is not for the turn that runs is dropped. A heartbeat only
  -- submits an input to the inbox.
  unfoldable pub handle_event :
      Coordinator → Supply → Event → Result Error (Coordinator × List Operation)
  unfolding handle_inbox_inputs process_operations process_model_response
  handle_event c s (input i) = do
    next ← with_error not_handled (handle_inbox_inputs json resolve s.now c (i ∷ []))
    ok (next, [])
  handle_event c s (update value) = do
    next ← with_error not_handled (process_operations c (value ∷ []))
    ok (next, [])
  handle_event c s heartbeat = ok (c, [])
  handle_event c s grace = ok (clear_grace c, [])
  handle_event c s (reply r) =
      if not c.model_runs || not (r.turn_id == c.local.loop.current_turn_id)
      then ok (c, [])
      else process_model_response c s r

  -- The beginning of `Run`, behind `restore`: the operations that the manager is given.
  unfoldable pub start : Coordinator → Supply → Result Error (Coordinator × List Operation)
  unfolding schedule_tool_calls statuses_require_model_response
  start c s = do
    (next, statuses) ←
        with_error not_handled (schedule_tool_calls json resolve unavailable s.ids s.now c)
    ok (
      set_call_model (statuses_require_model_response statuses) next,
      dispatch next.local.loop.operations,
    )

  -- The loop of `Run`, for as many rounds as there are steps.
  unfoldable pub run : Coordinator → List (Supply × Event) → Result Error Coordinator
  unfolding round handle_event
  run c [] = ok c
  run c ((s, e) ∷ steps) = do
    r ← round c s
    (if r.stops then ok r.next else (do (next, given) ← handle_event r.next s e; run next steps))
