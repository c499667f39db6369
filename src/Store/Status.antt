-- ===== src/Store/Status.antt =====
-- harness/sessionstore/localfile/state.go: tool-call statuses with the operations that they
-- initialize, and the updates of an operation.
use unreal_agent.Base.{
  ℕ, String, not, ◌||◌, List, [], ◌∷◌, ◌++◌, Result, ok, ◌>>=◌, ◌>>◌, reject_if, or_fail, ◌==◌,
  nat_eq, string_eq, if◌then◌else◌, KeyMap, KeySet, put, include, empty_set, length, get_elem?, set,
  is_empty, is_some,
}
use unreal_agent.Inbox.{Json}
use unreal_agent.Operation.{Operation, CallStatus}
use unreal_agent.Store.{ToolCallStatus, Item, tool_call_status}
use unreal_agent.Store.Head.{
  CallKey, call_key_eq, SessionHead, Error, empty_call_id, turn_not_owned, operation_exists,
  operation_missing, index_out_of_range, type_or_version_changed, error_waits, error_initializes,
  initializes_nothing, wrong_waiting_count, repeated_wait, unknown_wait, append_item,
  validate_operation,
}

abbrev pub key_of : ToolCallStatus → CallKey
key_of s = record { turn_id = s.turn_id; call_id = s.call_id }

-- The loop over `operations` in `appendToolCallStatus`, with its map `seen`.
unfoldable pub check_operations :
    Json → KeyMap String ℕ → KeySet String → List Operation → Result Error (Unit {0})
unfolding validate_operation
check_operations json positions seen [] = ok tt
check_operations json positions seen (value ∷ rest) = do
  validate_operation json value
  reject_if (seen value.id) operation_exists
  reject_if (is_some (positions value.id)) operation_exists
  check_operations json positions (include value.id seen) rest

-- The map `initialized`.
unfoldable pub operation_ids : List Operation → KeySet String
operation_ids [] = empty_set
operation_ids (value ∷ rest) = include value.id (operation_ids rest)

-- The loop over `status.WaitingFor`, with its map `waiting`.
unfoldable pub check_waiting : KeySet String → KeySet String → List String → Result Error (Unit {0})
check_waiting initialized waiting [] = ok tt
check_waiting initialized waiting (id ∷ rest) = do
  reject_if (waiting id) repeated_wait
  reject_if (not (initialized id)) unknown_wait
  check_waiting initialized (include id waiting) rest

-- `validateStatusOperationReferences` for a status without an error, and with one.
check_success : CallStatus → List Operation → Result Error (Unit {0})
unfolding check_waiting operation_ids
check_success status operations = do
  reject_if (is_empty operations) initializes_nothing
  reject_if (not (length status.waiting_for == length operations)) wrong_waiting_count
  check_waiting (operation_ids operations) empty_set status.waiting_for

check_failure : CallStatus → List Operation → Result Error (Unit {0})
check_failure status operations = do
  reject_if (not (is_empty status.waiting_for)) error_waits
  reject_if (not (is_empty operations)) error_initializes

unfoldable pub validate_status_operation_references :
    CallStatus → List Operation → Result Error (Unit {0})
unfolding check_success check_failure
validate_status_operation_references status operations =
    if status.error == "" then check_success status operations else check_failure status operations

-- The last loop of `appendToolCallStatus`.
unfoldable pub initialize_operations : SessionHead → List Operation → SessionHead
initialize_operations head [] = head
initialize_operations head (value ∷ rest) =
    initialize_operations
      (record head {
        operations = head.operations ++ value ∷ [];
        operation_positions = put value.id (length head.operations) head.operation_positions;
      })
      rest

module _ (json : Json) where
  -- What is done for a call that has no status yet.
  unfoldable pub first_status :
      SessionHead → ToolCallStatus → List Operation → ℕ → Result Error (SessionHead × Item)
  unfolding check_operations validate_status_operation_references initialize_operations append_item
  first_status head status operations recorded_at = do
    check_operations json head.operation_positions empty_set operations
    validate_status_operation_references status.status operations
    ok (
        append_item
          (initialize_operations
            (record head { tool_call_statuses = include (key_of status) head.tool_call_statuses })
            operations)
          (tool_call_status status) recorded_at)

  unfoldable pub append_tool_call_status :
      SessionHead → ToolCallStatus → List Operation → ℕ → Result Error (SessionHead × Item)
  unfolding first_status append_item
  append_tool_call_status head status operations recorded_at = do
    reject_if (not (head.owned_turns status.turn_id)) turn_not_owned
    reject_if (status.call_id == "") empty_call_id
    (if head.tool_call_statuses (key_of status)
        then ok (append_item head (tool_call_status status) recorded_at)
        else first_status head status operations recorded_at)

  unfoldable pub save_operation : SessionHead → Operation → Result Error SessionHead
  unfolding validate_operation
  save_operation head value = do
    validate_operation json value
    index ← or_fail (head.operation_positions value.id) operation_missing
    existing ← or_fail (get_elem? head.operations index) index_out_of_range
    reject_if (not (existing.type == value.type) || not (existing.version == value.version))
        type_or_version_changed
    ok (record head { operations = set head.operations index value })
