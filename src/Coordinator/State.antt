-- ===== src/Coordinator/State.antt =====
-- The state of harness/coordinator/loop.go: the turn, the tool calls, the operations and the counts
-- of inputs. A Go map is the list of its entries, in the order in which it is iterated.
use unreal_agent.Base.{
  ℕ, suc, String, Bool, true, false, not, ◌&&◌, ◌||◌, Option, none, some, List, [], ◌∷◌, ◌++◌, ◌==◌,
  string_eq, if◌then◌else◌, filter_by,
}
use unreal_agent.Llm.{Item, ItemData, tool_call, ToolCall}
use unreal_agent.Operation.{Operation, is_terminal, CallStatus}
use unreal_agent.Store.{TurnType, ToolCallStatus}
use unreal_agent.Store.Head.{CallKey, call_key_eq}

-- `toolCallState`; the set of operation IDs is a list.
pub record ToolCallState : Type 0 where
  pub tool_call : ToolCall
  pub status : Option CallStatus
  pub operations : List String

pub record CallEntry : Type 0 where
  pub key : CallKey
  pub call : ToolCallState

-- The counts rise by one at most for an item of the history, so that an `int` does not overflow.
-- `grace` says whether the timer is set.
pub record LoopState : Type 0 where
  pub current_turn_id : String
  pub current_turn_type : TurnType
  pub tool_calls : List CallEntry
  pub operations : List Operation
  pub available_inputs : ℕ
  pub delivered_inputs : ℕ
  pub current_turn_inputs : ℕ
  pub call_model : Bool
  pub grace : Bool
  pub grace_tool_calls : List CallKey

unfoldable pub new_loop_state : LoopState
new_loop_state = record {
  current_turn_id = "";
  current_turn_type = TurnType.other "";
  tool_calls = [];
  operations = [];
  available_inputs = 0;
  delivered_inputs = 0;
  current_turn_inputs = 0;
  call_model = false;
  grace = false;
  grace_tool_calls = [];
}

abbrev pub find_call : CallKey → List CallEntry → Option ToolCallState
find_call key [] = none
find_call key (entry ∷ entries) =
    if entry.key == key then some entry.call else find_call key entries

-- `toolCalls[key] = call`
unfoldable pub put_call : CallKey → ToolCallState → List CallEntry → List CallEntry
put_call key call [] = record { key = key; call = call } ∷ []
put_call key call (entry ∷ entries) =
    if entry.key == key
    then record { key = key; call = call } ∷ entries
    else entry ∷ put_call key call entries

abbrev pub find_operation : String → List Operation → Option Operation
find_operation id [] = none
find_operation id (value ∷ values) = if value.id == id then some value else find_operation id values

-- `operations[value.ID] = value`
unfoldable pub put_operation : Operation → List Operation → List Operation
put_operation value [] = value ∷ []
put_operation value (old ∷ values) =
    if old.id == value.id then value ∷ values else old ∷ put_operation value values

abbrev pub has_id : String → List String → Bool
has_id id [] = false
has_id id (j ∷ ids) = j == id || has_id id ids

abbrev pub add_id : String → List String → List String
add_id id ids = if has_id id ids then ids else ids ++ id ∷ []

abbrev pub add_ids : List String → List String → List String
add_ids [] ids = ids
add_ids (id ∷ more) ids = add_ids more (add_id id ids)

unfoldable pub clear_tool_grace : LoopState → LoopState
clear_tool_grace s = record s { grace_tool_calls = []; grace = false }

unfoldable pub add_operation : LoopState → Operation → LoopState
unfolding put_operation
add_operation s value = record s { operations = put_operation value s.operations }

unfoldable pub add_operations : LoopState → List Operation → LoopState
unfolding add_operation
add_operations s [] = s
add_operations s (value ∷ values) = add_operations (add_operation s value) values

unfoldable pub add_output : LoopState → String → ItemData → LoopState
unfolding put_call
add_output s turn_id (tool_call call) = record s {
  tool_calls =
      put_call (record { turn_id = turn_id; call_id = call.call_id })
        (record { tool_call = call; status = none; operations = [] }) s.tool_calls;
}
add_output s turn_id _ = s

-- `addToolCallsToLocalState`
unfoldable pub add_tool_calls : LoopState → String → List Item → LoopState
unfolding add_output
add_tool_calls s turn_id [] = s
add_tool_calls s turn_id (item ∷ items) =
    add_tool_calls (add_output s turn_id item.content) turn_id items

abbrev pub key_of : ToolCallStatus → CallKey
key_of status = record { turn_id = status.turn_id; call_id = status.call_id }

unfoldable pub note_status : Option ToolCallState → LoopState → ToolCallStatus → LoopState
unfolding put_call
note_status none s status = s
note_status (some call) s status = record s {
  tool_calls =
      put_call (key_of status)
        (record call {
          status = some status.status;
          operations = add_ids status.status.waiting_for call.operations;
        })
        s.tool_calls;
}

-- `addToolCallOperationsToLocalState`
unfoldable pub add_tool_call_operations : LoopState → ToolCallStatus → LoopState
unfolding note_status
add_tool_call_operations s status = note_status (find_call (key_of status) s.tool_calls) s status

abbrev pub is_empty {ℓ} : {A : Type ℓ} → List A → Bool
is_empty [] = true
is_empty (x ∷ xs) = false

-- `finishToolCall`
unfoldable pub finish_tool_call : LoopState → CallKey → LoopState
unfolding clear_tool_grace
finish_tool_call s key =
    let left = filter_by (λ j. not (j == key)) s.grace_tool_calls in
    let finished = record s {
      tool_calls = filter_by (λ entry. not (entry.key == key)) s.tool_calls;
      grace_tool_calls = left;
    } in
    let cleared = if is_empty left then clear_tool_grace finished else finished in
    record cleared { available_inputs = suc s.available_inputs }

abbrev all_terminal : List Operation → List String → Bool
all_terminal values [] = true
all_terminal values (id ∷ ids) = elim (find_operation id values) [
  | none ↦ false
  | some value ↦ is_terminal value.status && all_terminal values ids
]

-- `toolCallOperationsAreTerminal`; a missing call has no operations.
unfoldable pub tool_call_operations_are_terminal : LoopState → CallKey → Bool
tool_call_operations_are_terminal s key = elim (find_call key s.tool_calls) [
  | none ↦ true
  | some call ↦ all_terminal s.operations call.operations
]
