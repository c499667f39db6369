-- ===== src/Store/Commands.antt =====
-- The states that a session can reach: a new session, the store's calls on it, and forks
-- (harness/sessionstore/localfile/state.go). A call that fails leaves the state as it was.
use unreal_agent.Base.{ℕ, String, List, Result, ok, ◌≡◌}
use unreal_agent.Inbox.{Input, Json}
use unreal_agent.Operation.{Operation}
use unreal_agent.Store.{Turn, ModelResponse, ToolCallStatus}
use unreal_agent.Store.Head.{Error}
use unreal_agent.Store.State.{
  StoredState, new_stored_state, append_input, append_turn, append_model_response,
  append_tool_call_status, save_operation, fork_stored_state,
}

pub data Command : Type 0 where
  input : Input → ℕ → Command
  turn : Turn → ℕ → Command
  model_response : ModelResponse → ℕ → Command
  tool_call_status : ToolCallStatus → List Operation → ℕ → Command
  operation : Operation → Command

module _ (json : Json) where
  unfoldable pub apply : StoredState → Command → Result Error StoredState
  apply s (input value now) = append_input json s value now
  apply s (turn value now) = append_turn s value now
  apply s (model_response value now) = append_model_response s value now
  apply s (tool_call_status value operations now) =
      append_tool_call_status json s value operations now
  apply s (operation value) = save_operation json s value

  pub data Reachable : StoredState → Type 0 where
    created : (id : String) (now : ℕ) → Reachable (new_stored_state id now)
    applied : {s s' : StoredState} (c : Command) → Reachable s → apply s c ≡ ok s' → Reachable s'
    forked :
        {s s' : StoredState} (id turn_id : String) (now : ℕ)
        → Reachable s
        → fork_stored_state s id turn_id now ≡ ok s'
        → Reachable s'
