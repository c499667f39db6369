-- ===== src/Tests/SampleCodec.antt =====
-- A codec of a few kinds of record, which stands in for `encoding/json` in the tests.
use mathlib.Core.Option
use unreal_agent.Base.{
  ℕ, ◌==◌, ◌&&◌, string_eq, nat_eq, false, Option, none, some, List, [], ◌∷◌, if◌then◌else◌, String,
  pos, Bool, ℤ,
}
use unreal_agent.Operation.{Operation, Status}
use unreal_agent.Store.{Turn, TurnType, ItemData, Fork}
use unreal_agent.Store.Lines.{Bytes}
use unreal_agent.Store.Codec.{Codec, ItemKind, ItemRecordJson, SessionRecord, RecordType, LogRecord}
use unreal_agent.Tests.Samples.{first_turn, ready_operation, waiting_status}
use unreal_agent.Inbox.{Input, InputKind, external}

-- `[ 1 ]` is written without its spaces.
abbrev pub sample_reformat : String → String
sample_reformat t = if t == "[ 1 ]" then "[1]" else t

abbrev pub note : Input
note = record { id = "in-9"; kind = external; payload = some "[1]" }

abbrev pub ready_job : Operation
ready_job = record ready_operation { state = some "[1]" }

abbrev pub done_job : Operation
done_job = record ready_job { status = Status.completed }

abbrev pub encode_turn_type : TurnType → Option Bytes
encode_turn_type TurnType.regular = some (2 ∷ [])
encode_turn_type _ = none

abbrev pub encode_sample_turn : Turn → Option Bytes
encode_sample_turn t =
    if t.id == "turn-1" && t.previous_turn_id == "" then encode_turn_type t.type else none

abbrev pub encode_sample_input : String → InputKind → Option String → Option Bytes
encode_sample_input id external (some t) =
    if id == "in-9" && sample_reformat t == "[1]" then some (7 ∷ []) else none
encode_sample_input id kind payload = none

abbrev pub encode_sample_status :
    String → String → String → Bool → List String → List Operation → Option Bytes
encode_sample_status turn_id call_id error false (id ∷ []) [] =
    if turn_id == "turn-1" && call_id == "call-1" && error == "" && id == "op-1"
    then some (3 ∷ [])
    else none
encode_sample_status turn_id call_id error truncated ids operations = none

abbrev pub encode_sample_value : ItemData → Option Bytes
encode_sample_value (ItemData.turn t) = encode_sample_turn t
encode_sample_value (ItemData.fork f) =
    if f.parent_id == "s" && f.previous_turn_id == "turn-1" then some (4 ∷ []) else none
encode_sample_value (ItemData.input i) = encode_sample_input i.id i.kind i.payload
encode_sample_value (ItemData.tool_call_status s) =
    encode_sample_status s.turn_id s.call_id s.status.error s.status.error_truncated
      s.status.waiting_for s.operations
encode_sample_value (ItemData.model_response r) = none

abbrev pub encode_job :
    ℤ → String → String → ℕ → Status → Option String → Option String → Option Bytes
encode_job (pos n) id type version Status.ready (some t) none =
    if id == "op-1" && type == "shell" && sample_reformat t == "[1]"
    then some (8 ∷ n ∷ version ∷ [])
    else none
encode_job (pos n) id type version Status.completed (some t) none =
    if id == "op-1" && type == "shell" && sample_reformat t == "[1]"
    then some (9 ∷ n ∷ version ∷ [])
    else none
encode_job length id type version status state idempotency = none

abbrev pub encode_sample_operation : Operation → Option Bytes
encode_sample_operation o =
    encode_job o.max_output_length o.id o.type o.version o.status o.state o.idempotency

abbrev pub decode_sample_operation : Bytes → Option Operation
decode_sample_operation (k ∷ n ∷ version ∷ []) = some (record ready_job {
  max_output_length = pos n;
  version = version;
  status = if k == 8 then Status.ready else Status.completed;
})
decode_sample_operation b = none

abbrev pub encode_sample_session : SessionRecord → Option Bytes
encode_sample_session r =
    if r.session.id == "s"
    then some (1 ∷ r.version ∷ r.session.created_at ∷ [])
    else if r.session.id == "t"
    then some (2 ∷ r.version ∷ r.session.created_at ∷ [])
    else none

abbrev pub decode_sample_session : Bytes → Option SessionRecord
decode_sample_session (n ∷ version ∷ time ∷ []) = some (record {
  version = version;
  session = record { id = if n == 1 then "s" else "t"; created_at = time };
})
decode_sample_session b = none

abbrev pub encode_sample_kind : List Operation → ItemKind → Bytes → Option Bytes
encode_sample_kind [] ItemKind.turn (n ∷ t ∷ b) = some (n ∷ t ∷ 5 ∷ b)
encode_sample_kind [] ItemKind.fork (n ∷ t ∷ b) = some (n ∷ t ∷ 6 ∷ b)
encode_sample_kind [] ItemKind.input (n ∷ t ∷ b) = some (n ∷ t ∷ 7 ∷ b)
encode_sample_kind (o ∷ []) ItemKind.tool_call_status (n ∷ t ∷ e ∷ []) =
    Option.map (λ b. n ∷ t ∷ 9 ∷ e ∷ b) (encode_sample_operation o)
encode_sample_kind operations kind b = none

abbrev pub encode_sample_item : ItemRecordJson → Option Bytes
encode_sample_item r =
    encode_sample_kind r.operations r.item.kind
      (r.item.sequence ∷ r.item.recorded_at ∷ r.item.encoded)

abbrev pub decode_sample_status : ℕ → ℕ → Bytes → Option ItemRecordJson
decode_sample_status n t (e ∷ b) =
    Option.map
      (λ o. record {
        item = record {
          sequence = n;
          recorded_at = t;
          kind = ItemKind.tool_call_status;
          encoded = e ∷ [];
        };
        operations = o ∷ [];
      })
      (decode_sample_operation b)
decode_sample_status n t [] = none

abbrev pub decode_sample_item : Bytes → Option ItemRecordJson
decode_sample_item (n ∷ t ∷ k ∷ b) =
    if k == 9
    then decode_sample_status n t b
    else some (record {
      item = record {
        sequence = n;
        recorded_at = t;
        kind = if k == 5 then ItemKind.turn else if k == 6 then ItemKind.fork else ItemKind.input;
        encoded = b;
      };
      operations = [];
    })
decode_sample_item b = none

abbrev pub sample_fork : Fork
sample_fork = record { parent_id = "s"; previous_turn_id = "turn-1" }

abbrev pub encode_sample_type : RecordType → Bytes → Option Bytes
encode_sample_type RecordType.session b = some (1 ∷ b)
encode_sample_type RecordType.item b = some (3 ∷ b)
encode_sample_type RecordType.operation b = some (5 ∷ b)
encode_sample_type type b = none

abbrev pub encode_sample_line : LogRecord → Option Bytes
encode_sample_line r = encode_sample_type r.type r.contents

abbrev pub decode_sample_line : Bytes → Option LogRecord
decode_sample_line [] = none
decode_sample_line (n ∷ b) = some (record {
  type =
      if n == 1
      then RecordType.session
      else if n == 3
      then RecordType.item
      else RecordType.operation;
  contents = b;
})

abbrev pub sample_codec : Codec
sample_codec = record {
  reformat = sample_reformat;
  encode_value = encode_sample_value;
  is_null = λ b. false;
  decode_fork = λ b. some sample_fork;
  decode_input = λ b. some note;
  decode_turn = λ b. some first_turn;
  decode_model_response = λ b. none;
  decode_status = λ b. some waiting_status;
  encode_session = encode_sample_session;
  decode_session = decode_sample_session;
  encode_item = encode_sample_item;
  decode_item = decode_sample_item;
  encode_operation = encode_sample_operation;
  decode_operation = decode_sample_operation;
  encode_line = encode_sample_line;
  decode_line = decode_sample_line;
}
