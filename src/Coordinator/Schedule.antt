-- ===== src/Coordinator/Schedule.antt =====
-- harness/coordinator/loop.go: the tool calls of a response are translated, recorded and handed to the
-- operation manager. Which calls there are is read before the first of them is translated: what is
-- done for a call changes no other call's entry. The manager is taken to accept what it is given.
use unreal_agent.Base.{
  ℕ, suc, String, Bool, true, false, not, ◌&&◌, Option, none, some, List, [], ◌∷◌, ◌++◌, map,
  if◌then◌else◌, Result, ok, ◌>>=◌, ◌==◌, string_eq, filter_by, is_some,
}
use unreal_agent.Llm.{ToolCall, Response}
use unreal_agent.Inbox.{Json}
use unreal_agent.Operation.{Operation, Spec, Status, CallStatus, is_terminal}
use unreal_agent.Store.{ItemData, ToolCallStatus, ModelResponse}
use unreal_agent.Store.Head.{CallKey, call_key_eq}
use unreal_agent.Store.Commands.{Command}
use unreal_agent.Coordinator.State.{CallEntry, add_operations, is_empty, key_of}
use unreal_agent.Coordinator.Local.{Resolve, Translator}
use unreal_agent.Coordinator.Handlers.{
  Coordinator, Error, record_item, set_call_model, statuses_require_model_response,
}
use unreal_agent.Coordinator.Reconcile.{status_command}

-- `toolCallContext.Submit`, with the ID that it draws.
abbrev pub submit : Spec → String → Operation
submit spec id = record {
  max_output_length = spec.max_output_length;
  id = id;
  type = spec.type;
  version = spec.version;
  status = Status.ready;
  state = spec.state;
  idempotency = spec.idempotency;
}

-- The operations that a translator submits, from the one of an index on.
abbrev pub submit_all : (ℕ → String) → ℕ → List Spec → List Operation
submit_all ids n [] = []
submit_all ids n (spec ∷ specs) = submit spec (ids n) ∷ submit_all ids (suc n) specs

-- `graceToolCalls[key] = struct{}{}`
abbrev pub has_key : CallKey → List CallKey → Bool
has_key key [] = false
has_key key (k ∷ ks) = let rest = has_key key ks in if k == key then true else rest

abbrev pub add_key : CallKey → List CallKey → List CallKey
add_key key keys = if has_key key keys then keys else keys ++ key ∷ []

abbrev pub add_keys : List CallKey → List CallKey → List CallKey
add_keys [] keys = keys
add_keys (key ∷ more) keys = add_keys more (add_key key keys)

-- `dispatchOperationToManager`, for each operation: those that the manager is given.
abbrev pub dispatch : List Operation → List Operation
dispatch values = filter_by (λ value. not (is_terminal value.status)) values

abbrev pub dispatch_statuses : List ToolCallStatus → List Operation
dispatch_statuses [] = []
dispatch_statuses (status ∷ statuses) = dispatch status.operations ++ dispatch_statuses statuses

-- The grace period behind a response that has started tool calls.
abbrev pub begin_grace : List CallKey → Coordinator → Coordinator
begin_grace keys c = record c {
  local = record c.local {
    loop = record c.local.loop {
      grace_tool_calls = add_keys keys c.local.loop.grace_tool_calls;
      grace = true;
    };
  };
}

abbrev pub grace_after : List ToolCallStatus → Coordinator → Coordinator
grace_after statuses c =
    if not c.local.loop.call_model && not (is_empty statuses)
    then begin_grace (map key_of statuses) c
    else c

-- What a tool makes of a call. `unavailable` is the status of a call of a tool that is not there:
-- `ErrorStatus` of the text that names it.
abbrev pub translated :
    (String → CallStatus) → Option Translator → (ℕ → String) → ToolCall → CallStatus × List Spec
translated unavailable none ids call = (unavailable call.name, [])
translated unavailable (some translator) ids call = translator.translate ids call

-- A coordinator and the statuses of the calls that it has scheduled.
abbrev pub Scheduled : Type 0
Scheduled = Coordinator × List ToolCallStatus

-- What the model's goroutine sends; `none` is an error.
pub record Reply : Type 0 where
  pub turn_id : String
  pub response : Option Response

module _ (json : Json) (resolve : Resolve) (unavailable : String → CallStatus)
    (ids : CallKey → ℕ → String) (now : ℕ) where
  abbrev pub first_status : CallKey → ToolCall → ToolCallStatus
  first_status key call =
      let (status, specs) = translated unavailable (resolve call.name) (ids key) call in
      record {
        turn_id = key.turn_id;
        call_id = key.call_id;
        status = status;
        operations = submit_all (ids key) 0 specs;
      }

  -- `scheduleToolCall`
  unfoldable pub schedule_tool_call :
      Coordinator → CallKey → ToolCall → Result Error (Coordinator × ToolCallStatus)
  unfolding add_operations record_item
  schedule_tool_call c key call = do
    let status = first_status key call
    let begun = record c {
      local = record c.local { loop = add_operations c.local.loop status.operations };
    }
    next ←
        record_item json resolve begun (ItemData.tool_call_status status)
          (status_command status now)
    ok (next, status)

  -- The loop of `scheduleToolCalls`.
  unfoldable pub schedule_calls : Coordinator → List CallEntry → Result Error Scheduled
  unfolding schedule_tool_call
  schedule_calls c [] = ok (c, [])
  schedule_calls c (entry ∷ entries) =
      if is_some entry.call.status then schedule_calls c entries else (do
        (next, status) ← schedule_tool_call c entry.key entry.call.tool_call
        (last, statuses) ← schedule_calls next entries
        ok (last, status ∷ statuses))

  -- `scheduleToolCalls`
  unfoldable pub schedule_tool_calls : Coordinator → Result Error Scheduled
  unfolding schedule_calls
  schedule_tool_calls c = schedule_calls c c.local.loop.tool_calls

  -- `handleModelResponse`
  unfoldable pub handle_model_response : Coordinator → ModelResponse → Result Error Scheduled
  unfolding record_item schedule_tool_calls statuses_require_model_response
  handle_model_response c response = do
    recorded ←
        record_item json resolve c (ItemData.model_response response)
          (Command.model_response response now)
    (next, statuses) ← schedule_tool_calls recorded
    ok (set_call_model (statuses_require_model_response statuses) next, statuses)
