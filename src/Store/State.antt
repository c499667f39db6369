-- ===== src/Store/State.antt =====
-- harness/sessionstore/localfile/state.go: a session's head with its items; resuming and forking.
use unreal_agent.Base.{
  ℕ, suc, String, Bool, true, false, not, ◌&&◌, ◌||◌, map_ok, nat_eq, List, [], ◌∷◌, ◌++◌, Result,
  ok, err, ◌>>=◌, ◌==◌, string_eq, if◌then◌else◌, KeySet, include, exclude, empty_map, empty_set,
  take, filter_by,
}
use unreal_agent.Inbox.{Input, Json}
use unreal_agent.Operation.{Operation, is_terminal}
use unreal_agent.Store.{
  Turn, Fork, ModelResponse, ToolCallStatus, Item, ItemData, fork, input, turn, model_response,
  tool_call_status, ResumeState,
}
use unreal_agent.Store.Head
use unreal_agent.Store.Head.{
  CallKey, call_key_eq, SessionHead, Error, turn_not_found, new_session_head, append_item,
}
use unreal_agent.Store.Status
use unreal_agent.Store.Status.{key_of}

pub record StoredState : Type 0 where
  pub head : SessionHead
  pub items : List Item

unfoldable pub new_stored_state : String → ℕ → StoredState
unfolding new_session_head
new_stored_state id created_at = record { head = new_session_head id created_at; items = [] }

-- What the four `append` methods of the state do with the result of the head's.
abbrev pub keep_item : StoredState → Result Error (SessionHead × Item) → Result Error StoredState
keep_item s (ok (head, item)) = ok (record { head = head; items = s.items ++ item ∷ [] })
keep_item s (err e) = err e

unfoldable pub append_turn : StoredState → Turn → ℕ → Result Error StoredState
append_turn s value now = keep_item s (Head.append_turn s.head value now)

unfoldable pub append_model_response : StoredState → ModelResponse → ℕ → Result Error StoredState
append_model_response s value now = keep_item s (Head.append_model_response s.head value now)

-- `status.Operations = operations; item.Data = status`
abbrev pub with_operations :
    ToolCallStatus → List Operation → SessionHead × Item → SessionHead × Item
with_operations status operations (head, item) =
    (head, record item { content = tool_call_status (record status { operations = operations }) })

module _ (json : Json) where
  unfoldable pub append_input : StoredState → Input → ℕ → Result Error StoredState
  append_input s value now = keep_item s (Head.append_input json s.head value now)

  unfoldable pub append_tool_call_status :
      StoredState → ToolCallStatus → List Operation → ℕ → Result Error StoredState
  append_tool_call_status s status operations now = keep_item s (
      map_ok (with_operations status operations)
        (Status.append_tool_call_status json s.head status operations now))

  unfoldable pub save_operation : StoredState → Operation → Result Error StoredState
  save_operation s value = do
    head ← Status.save_operation json s.head value
    ok (record s { head = head })

-- The loop over a status's operations in `resume`, with its map `pending`.
unfoldable pub mark_pending : KeySet String → List Operation → KeySet String
mark_pending pending [] = pending
mark_pending pending (value ∷ rest) =
    mark_pending
      (if is_terminal value.status then exclude value.id pending else include value.id pending) rest

unfoldable pub pending_after : KeySet String → ItemData → KeySet String
unfolding mark_pending
pending_after pending (tool_call_status status) = mark_pending pending status.operations
pending_after pending _ = pending

abbrev pub input_id : ItemData → List String
input_id (input value) = value.id ∷ []
input_id _ = []

-- The loop over the items: the input IDs and `pending`.
unfoldable pub scan_items : List Item → List String → KeySet String → List String × KeySet String
unfolding pending_after
scan_items [] ids pending = (ids, pending)
scan_items (item ∷ items) ids pending =
    scan_items items (ids ++ input_id item.content) (pending_after pending item.content)

unfoldable pub resume : StoredState → ResumeState
unfolding scan_items
resume s =
    let (ids, pending) = scan_items s.items [] empty_set in
    record {
      session = s.head.session;
      operations =
          filter_by (λ value. not (is_terminal value.status) || pending value.id) s.head.operations;
      input_ids = ids;
    }

unfoldable pub reset_owned_state : SessionHead → SessionHead
reset_owned_state head = record head {
  owned_turns = empty_set;
  responded_turns = empty_set;
  tool_call_statuses = empty_set;
  operations = [];
  operation_positions = empty_map;
}

abbrev pub without_operations : ItemData → ItemData
without_operations (tool_call_status status) = tool_call_status (record status { operations = [] })
without_operations content = content

-- The `switch` of `inheritItem`.
unfoldable pub inherit_content : SessionHead → ItemData → SessionHead
unfolding reset_owned_state
inherit_content head (turn value) = record head {
  turns = include value.id head.turns;
  owned_turns = include value.id head.owned_turns;
  latest_turn_id = value.id;
}
inherit_content head (model_response value) = record head {
  responded_turns = include value.turn_id head.responded_turns;
}
inherit_content head (tool_call_status status) = record head {
  tool_call_statuses = include (key_of status) head.tool_call_statuses;
}
inherit_content head (fork value) = reset_owned_state head
inherit_content head (input value) = head

unfoldable pub inherit_head : SessionHead → Item → SessionHead
unfolding inherit_content
inherit_head head item =
    inherit_content (record head { item_sequence = item.sequence }) item.content

unfoldable pub inherit_item : StoredState → Item → StoredState
unfolding inherit_head
inherit_item s item = record {
  head = inherit_head s.head item;
  items = s.items ++ record item { content = without_operations item.content } ∷ [];
}

unfoldable pub inherit_items : StoredState → List Item → StoredState
inherit_items s [] = s
inherit_items s (item ∷ items) = inherit_items (inherit_item s item) items

unfoldable pub append_fork : StoredState → Fork → ℕ → StoredState
unfolding append_item reset_owned_state
append_fork s value now =
    let (head, item) = append_item s.head (fork value) now in
    record { head = reset_owned_state head; items = s.items ++ item ∷ [] }

-- Whether an item belongs to the turn, in the `switch` of `forkStoredState`.
abbrev pub belongs_to : String → ItemData → Bool
belongs_to id (turn value) = value.id == id
belongs_to id (model_response value) = value.turn_id == id
belongs_to id (tool_call_status status) = status.turn_id == id
belongs_to id _ = false

abbrev pub is_turn : ItemData → Bool
is_turn (turn value) = true
is_turn _ = false

-- The loop of `forkStoredState`: how many items stand up to the last one of the turn, before the
-- next turn begins. `boundary` is the count for the Go variable plus one, and 0 for -1.
unfoldable pub find_boundary : String → List Item → ℕ → ℕ → ℕ
find_boundary id [] index boundary = boundary
find_boundary id (item ∷ items) index boundary =
    let rest =
      find_boundary id items (suc index)
        (if belongs_to id item.content then suc index else boundary) in
    if not (boundary == 0) && is_turn item.content then boundary else rest

unfoldable pub fork_stored_state : StoredState → String → String → ℕ → Result Error StoredState
unfolding find_boundary new_stored_state inherit_items inherit_item append_fork
fork_stored_state parent id previous_turn_id created_at =
    let boundary = find_boundary previous_turn_id parent.items 0 0 in
    if boundary == 0
    then err turn_not_found
    else ok (
        append_fork (inherit_items (new_stored_state id created_at) (take boundary parent.items))
          (record { parent_id = parent.head.session.id; previous_turn_id = previous_turn_id })
          created_at)
