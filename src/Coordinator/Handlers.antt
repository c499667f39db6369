-- ===== src/Coordinator/Handlers.antt =====
-- harness/coordinator/loop.go: the coordinator with its session's store, and what it does with an
-- input, a turn, a response and an update. The store is harness/sessionstore/localfile's; its
-- clock, the IDs and whether writing fails are arguments.
use unreal_agent.Base.{
  ℕ, zero, String, Bool, true, false, not, ◌&&◌, ◌||◌, Option, none, some, List, [], ◌∷◌, ◌==◌,
  string_eq, if◌then◌else◌, Result, ok, err, ◌>>=◌, with_error, ℤ, pos, sub_ℕ, ltb_ℤ,
}
use unreal_agent.Llm.{Request}
use unreal_agent.Inbox
use unreal_agent.Inbox.{
  Json, Input, InputKind, external, control, decode_control_message, ControlMessage, ControlMode,
  stop_hard, stop_when_idle, update_settings,
}
use unreal_agent.Operation.{Operation, is_terminal}
use unreal_agent.Store.{ItemData, TurnType, Turn, ToolCallStatus}
use unreal_agent.Store.Head
use unreal_agent.Store.State.{StoredState}
use unreal_agent.Store.Commands.{Command, apply}
use unreal_agent.Context.Builder.{Builder, build}
use unreal_agent.Context.Compaction.{needs_compaction, build_compaction}
use unreal_agent.Coordinator.State.{LoopState, clear_tool_grace, add_operation, is_empty}
use unreal_agent.Coordinator.Local
use unreal_agent.Coordinator.Local.{Local, Resolve, add_item}

-- `stopState`; a request of mode `""` is `none`.
pub record StopState : Type 0 where
  pub request : Option ControlMessage
  pub cancellation_requested : Bool

-- `coordinator` and its session in the store; `model_runs` says whether `cancelModel` is set.
pub record Coordinator : Type 0 where
  pub local : Local
  pub stop : StopState
  pub model_runs : Bool
  pub stored : StoredState

pub data Error : Type 0 where
  not_added : Local.Error → Error
  not_stored : Head.Error → Error
  not_decoded : Inbox.Error → Error

abbrev pub is_stop_hard : Option ControlMessage → Bool
is_stop_hard none = false
is_stop_hard (some m) = elim m.mode [ stop_hard ↦ true | _ ↦ false ]

abbrev pub is_stop_when_idle : Option ControlMessage → Bool
is_stop_when_idle none = false
is_stop_when_idle (some m) = elim m.mode [ stop_when_idle ↦ true | _ ↦ false ]

-- `acceptStop`
unfoldable pub accept_stop : StopState → ControlMessage → StopState
accept_stop s request = if is_stop_hard s.request then s else record s { request = some request }

-- `pendingInputs`
unfoldable pub pending_inputs : LoopState → ℤ
pending_inputs s = sub_ℕ s.available_inputs s.delivered_inputs

abbrev pub is_zero : ℤ → Bool
is_zero (pos zero) = true
is_zero _ = false

unfoldable pub has_pending : List Operation → Bool
has_pending [] = false
has_pending (value ∷ values) = not (is_terminal value.status) || has_pending values

-- `hasPendingOperations`
unfoldable pub has_pending_operations : LoopState → Bool
unfolding has_pending
has_pending_operations s = has_pending s.operations

-- `isIdle`
unfoldable pub is_idle : Coordinator → Bool
unfolding pending_inputs has_pending_operations
is_idle c =
    not c.model_runs
    && is_zero (pending_inputs c.local.loop)
    && is_empty c.local.loop.tool_calls
    && not (has_pending_operations c.local.loop)

-- `isWaitingForOnlyToolCalls`
unfoldable pub is_waiting_for_only_tool_calls : Coordinator → Bool
unfolding pending_inputs
is_waiting_for_only_tool_calls c =
    not c.model_runs
    && not (is_stop_hard c.stop.request)
    && is_zero (pending_inputs c.local.loop)
    && not (is_empty c.local.loop.tool_calls)

-- `interruptModel`
abbrev pub interrupt_model : Coordinator → Coordinator
interrupt_model c = record c { model_runs = false }

-- The operations whose cancellation `cancelOperations` asks for, in the order of the table (in Go in
-- that of the map), and those of them that it fails for, which the joined error names.
unfoldable pub cancel_operations : (String → Bool) → List Operation → List String × List String
cancel_operations fails [] = ([], [])
cancel_operations fails (value ∷ values) =
    let (tried, failed) = cancel_operations fails values in
    if is_terminal value.status
    then (tried, failed)
    else (value.id ∷ tried, if fails value.id then value.id ∷ failed else failed)

-- What the error of `cancelOperations` makes of `handleStop`.
abbrev pub stop_requested :
    List String → Bool → Coordinator → Coordinator × Result (List String) Bool
stop_requested [] stopped c =
    (record c { stop = record c.stop { cancellation_requested = true } }, ok stopped)
stop_requested failed stopped c = (c, err failed)

-- `handleStop`: the coordinator behind it, the operations whose cancellation it asks for, and whether
-- the loop may stop, or those that could not be canceled.
unfoldable pub handle_stop :
    (String → Bool) → Coordinator → Coordinator × List String × Result (List String) Bool
unfolding has_pending_operations cancel_operations
handle_stop fails c =
    let stopped = not (has_pending_operations c.local.loop) in
    let (tried, failed) = cancel_operations fails c.local.loop.operations in
    let (next, result) = stop_requested failed stopped (interrupt_model c) in
    if c.stop.cancellation_requested then (c, [], ok stopped) else (next, tried, result)

-- The result of `processEvents`: whether the model is to be called.
unfoldable pub should_call_model : Coordinator → Bool
unfolding pending_inputs
should_call_model c =
    c.local.loop.call_model
    || (ltb_ℤ (pos 0) (pending_inputs c.local.loop)
        && not c.model_runs
        && is_empty c.local.loop.grace_tool_calls)

-- `toolCallStatusesRequireModelResponse`
unfoldable pub statuses_require_model_response : List ToolCallStatus → Bool
statuses_require_model_response [] = false
statuses_require_model_response (s ∷ ss) =
    not (s.status.error == "")
    || is_empty s.status.waiting_for
    || statuses_require_model_response ss

abbrev pub set_call_model : Bool → Coordinator → Coordinator
set_call_model b c = record c {
  local = record c.local { loop = record c.local.loop { call_model = b } };
}

abbrev pub clear_grace : Coordinator → Coordinator
clear_grace c = record c { local = record c.local { loop = clear_tool_grace c.local.loop } }

-- The `switch input.Kind` behind the store call of `handleInboxInput`.
abbrev pub obey : ControlMode → ControlMessage → Coordinator → Coordinator
obey update_settings m c = if c.model_runs then set_call_model true c else c
obey stop_hard m c = clear_grace (record c { stop = accept_stop c.stop m })
obey stop_when_idle m c = clear_grace (record c { stop = accept_stop c.stop m })
obey _ m c = clear_grace c

-- `buildModelRequest`
unfoldable pub build_model_request : String → Builder → Request × TurnType
unfolding needs_compaction build_compaction build
build_model_request compaction_prompt b =
    let plain : Request × TurnType = (build b, TurnType.regular) in
    if needs_compaction b
    then elim (build_compaction compaction_prompt b) [
      | ok request ↦ (request, TurnType.compaction)
      | err e ↦ plain
    ]
    else plain

module _ (json : Json) (resolve : Resolve) where
  -- `addItemToLocalState` and `storeItemInSessionStore`, one after the other.
  unfoldable pub record_item : Coordinator → ItemData → Command → Result Error Coordinator
  unfolding add_item apply
  record_item c content command = do
    l ← with_error not_added (add_item resolve json c.local content)
    stored ← with_error not_stored (apply json c.stored command)
    ok (record c { local = l; stored = stored })

  unfoldable pub react : InputKind → Coordinator → Input → Result Error Coordinator
  unfolding accept_stop clear_tool_grace decode_control_message
  react external c input = ok (clear_grace (set_call_model true c))
  react control c input = do
    m ← with_error not_decoded (decode_control_message json input)
    ok (obey m.mode m c)
  react _ c input = ok (clear_grace c)

  -- `handleInboxInput`
  unfoldable pub handle_inbox_input : ℕ → Coordinator → Input → Result Error Coordinator
  unfolding record_item react
  handle_inbox_input now c input = do
    recorded ← record_item c (ItemData.input input) (Command.input input now)
    react input.kind recorded input

  -- `handleInboxInputs`
  unfoldable pub handle_inbox_inputs : ℕ → Coordinator → List Input → Result Error Coordinator
  unfolding handle_inbox_input
  handle_inbox_inputs now c [] = ok c
  handle_inbox_inputs now c (input ∷ inputs) = do
    next ← handle_inbox_input now c input
    handle_inbox_inputs now next inputs

  -- `requestModelResponse`, up to the call of the model.
  unfoldable pub request_model_response :
      String → String → ℕ → Coordinator → Result Error (Coordinator × Request)
  unfolding record_item build_model_request
  request_model_response compaction_prompt turn_id now c = do
    let (request, type) = build_model_request compaction_prompt c.local.builder
    let turn : Turn = record {
      id = turn_id;
      previous_turn_id = c.local.loop.current_turn_id;
      type = type;
    }
    recorded ← record_item (interrupt_model c) (ItemData.turn turn) (Command.turn turn now)
    ok (set_call_model false (record recorded { model_runs = true }), request)

  -- `handleOperationUpdate`
  unfoldable pub handle_operation_update : Coordinator → Operation → Result Error Coordinator
  unfolding add_operation apply
  handle_operation_update c update = do
    let l = record c.local { loop = add_operation c.local.loop update }
    stored ← with_error not_stored (apply json c.stored (Command.operation update))
    ok (record c { local = l; stored = stored })
