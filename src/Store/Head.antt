-- ===== src/Store/Head.antt =====
-- harness/sessionstore/localfile/state.go: a session's head and what appends to it.
-- A method returns the new state with its result; on an error the state is as before.
use unreal_agent.Base.{
  ℕ, ◌+◌, ◌%◌, ◌^◌, ◌≡◌, String, Bool, true, false, not, ◌&&◌, Option, none, some, List, [], Result,
  ok, ◌>>◌, reject_if, with_error, Key, ◌==◌, nat_eq, string_eq, KeyMap, KeySet, include, empty_map,
  empty_set, arith, eq_iff, ◌↔◌,
}
use unreal_agent.Inbox.{Input, Json, validate}
use unreal_agent.Inbox
use unreal_agent.Operation.{Operation, Status}
use unreal_agent.Store.{Session, Turn, ModelResponse, Item, ItemData, input, turn, model_response}

-- `toolCallStatusKey`
pub record CallKey : Type 0 where
  pub turn_id : String
  pub call_id : String

abbrev pub call_key_beq : CallKey → CallKey → Bool
call_key_beq a b = a.turn_id == b.turn_id && a.call_id == b.call_id

pub call_key_beq_iff : (a b : CallKey) → (call_key_beq a b ≡ true) ↔ (a ≡ b)
call_key_beq_iff a b = ground (arith, eq_iff a.turn_id b.turn_id, eq_iff a.call_id b.call_id)

instance abbrev pub call_key_eq : Key CallKey
call_key_eq = record { same = call_key_beq; same_iff = call_key_beq_iff }

pub record SessionHead : Type 0 where
  pub session : Session
  pub operations : List Operation
  pub item_sequence : ℕ
  pub latest_turn_id : String
  pub turns : KeySet String
  pub owned_turns : KeySet String
  pub responded_turns : KeySet String
  pub tool_call_statuses : KeySet CallKey
  pub operation_positions : KeyMap String ℕ

unfoldable pub new_session_head : String → ℕ → SessionHead
new_session_head id created_at = record {
  session = record { id = id; created_at = created_at };
  operations = [];
  item_sequence = 0;
  latest_turn_id = "";
  turns = empty_set;
  owned_turns = empty_set;
  responded_turns = empty_set;
  tool_call_statuses = empty_set;
  operation_positions = empty_map;
}

pub data Error : Type 0 where
  invalid_input : Inbox.Error → Error
  empty_turn_id wrong_previous_turn turn_exists : Error
  turn_not_owned response_exists empty_call_id : Error
  empty_operation_id empty_operation_type zero_version unsupported_status : Error
  invalid_state invalid_idempotency : Error
  operation_exists operation_missing type_or_version_changed : Error
  error_waits error_initializes initializes_nothing wrong_waiting_count : Error
  repeated_wait unknown_wait : Error
  turn_not_found : Error
  -- the panic of a slice access, for `head.Operations[index]`
  index_out_of_range : Error

-- `head.itemSequence++` on a uint64.
abbrev pub next_sequence : ℕ → ℕ
next_sequence n = (n + 1) % 2 ^ 64

-- The item that `appendItem` makes, and the head that it leaves.
unfoldable pub append_item : SessionHead → ItemData → ℕ → SessionHead × Item
append_item head content recorded_at = (
  record head { item_sequence = next_sequence head.item_sequence },
  record {
    sequence = next_sequence head.item_sequence;
    recorded_at = recorded_at;
    content = content;
  },
)

abbrev pub status_supported : Status → Bool
status_supported (Status.other s) = false
status_supported _ = true

module _ (json : Json) where
  abbrev pub json_ok : Option String → Bool
  json_ok none = true
  json_ok (some s) = json.is_valid s

  unfoldable pub validate_operation : Operation → Result Error (Unit {0})
  validate_operation value = do
    reject_if (value.id == "") empty_operation_id
    reject_if (value.type == "") empty_operation_type
    reject_if (value.version == 0) zero_version
    reject_if (not (status_supported value.status)) unsupported_status
    reject_if (not (json_ok value.state)) invalid_state
    reject_if (not (json_ok value.idempotency)) invalid_idempotency

  unfoldable pub append_input : SessionHead → Input → ℕ → Result Error (SessionHead × Item)
  unfolding append_item
  append_input head value recorded_at = do
    with_error invalid_input (validate json value)
    ok (append_item head (input value) recorded_at)

unfoldable pub append_turn : SessionHead → Turn → ℕ → Result Error (SessionHead × Item)
unfolding append_item
append_turn head value recorded_at = do
  reject_if (value.id == "") empty_turn_id
  reject_if (not (value.previous_turn_id == head.latest_turn_id)) wrong_previous_turn
  reject_if (head.turns value.id) turn_exists
  ok (
      append_item
        (record head {
          turns = include value.id head.turns;
          owned_turns = include value.id head.owned_turns;
          latest_turn_id = value.id;
        })
        (turn value) recorded_at)

unfoldable pub append_model_response :
    SessionHead → ModelResponse → ℕ → Result Error (SessionHead × Item)
unfolding append_item
append_model_response head value recorded_at = do
  reject_if (not (head.owned_turns value.turn_id)) turn_not_owned
  reject_if (head.responded_turns value.turn_id) response_exists
  ok (
      append_item (record head { responded_turns = include value.turn_id head.responded_turns })
        (model_response value) recorded_at)
