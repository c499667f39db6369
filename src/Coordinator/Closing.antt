-- ===== src/Coordinator/Closing.antt =====
-- `reconcileToolCalls` of harness/coordinator/loop.go: the statuses that close calls.
use unreal_agent.Base.{◌≡◌, true, false, none, some, List, [], ◌∷◌, map, ◌⊎◌}
use unreal_agent.Operation.{Operation, CallStatus}
use unreal_agent.Store.{ItemData, ToolCallStatus}
use unreal_agent.Store.Head.{CallKey}
use unreal_agent.Store.Status
use unreal_agent.Coordinator.State.{
  ToolCallState, CallEntry, find_call, find_operation, tool_call_operations_are_terminal,
}
use unreal_agent.Coordinator.Handlers
use unreal_agent.Coordinator.Handlers.{Coordinator}
use unreal_agent.Coordinator.Reconcile.{Closed, or_zero}
use unreal_agent.Coordinator.Recorded.{Adds}

-- The status that closes a call: the call's own, with the operations that it waits for as the
-- coordinator has them.
abbrev pub closing_status : Coordinator → CallKey → CallStatus → ToolCallStatus
closing_status c key status = record {
  turn_id = key.turn_id;
  call_id = key.call_id;
  status = status;
  operations = map (λ id. or_zero (find_operation id c.local.loop.operations)) status.waiting_for;
}

-- An open call with this status, all of whose operations are finished, was given its closing status.
pub record Settles (c : Coordinator) (key : CallKey) (status : CallStatus) (k : Coordinator)
    : Type 0 where
  pub call : ToolCallState
  pub is_open : find_call key c.local.loop.tool_calls ≡ some call
  pub finished : tool_call_operations_are_terminal c.local.loop key ≡ true
  pub last : call.status ≡ some status
  pub adds : Adds (ItemData.tool_call_status (closing_status c key status)) c.stored k.stored

-- An operation of the call is not finished, or the call is not open any more.
abbrev pub Stays : Coordinator → CallKey → Type 0
Stays c key =
    (tool_call_operations_are_terminal c.local.loop key ≡ false)
    ⊎ (find_call key c.local.loop.tool_calls ≡ none)

-- Each call in turn is settled, or stays as it is.
pub data Closings : Coordinator → List CallEntry → List ToolCallStatus → Coordinator → Type 0 where
  nothing : {c : Coordinator} → Closings c [] [] c
  left :
      {c k : Coordinator} {entries : List CallEntry} {rest : List ToolCallStatus}
      (entry : CallEntry)
      → Stays c entry.key
      → Closings c entries rest k
      → Closings c (entry ∷ entries) rest k
  settled :
      {c next k : Coordinator} {entries : List CallEntry} {rest : List ToolCallStatus}
      (entry : CallEntry) (status : CallStatus)
      → Settles c entry.key status next
      → Closings next entries rest k
      → Closings c (entry ∷ entries) (closing_status c entry.key status ∷ rest) k

abbrev Closes : CallKey → Coordinator → Closed → Type 0
Closes key c p = ((status : CallStatus) × Settles c key status p.0) ⊎ (Stays c key × (p.0 ≡ c))
