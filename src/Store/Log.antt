-- ===== src/Store/Log.antt =====
-- `encodeInitialLog` and `decodeLog` of harness/sessionstore/localfile/codec.go, with
-- `validateSessionID` of store.go. A recorded time is zero where it is 0.
pub mod Whole
pub mod Initial
pub mod Inherited
use Prim.Native.Char.{code}
use unreal_agent.Base.{
  ℕ, zero, suc, ◌+◌, ◌%◌, ◌^◌, String, Bool, true, false, not, ◌&&◌, ◌||◌, Option, none, some, List,
  [], ◌∷◌, ◌++◌, Result, ok, err, ◌>>=◌, ◌>>◌, reject_if, or_fail, with_error, ◌==◌, nat_eq,
  string_eq, leb, ltb, length, take, is_empty, if◌then◌else◌,
}
use unreal_agent.Inbox.{Json}
use unreal_agent.Operation.{Operation}
use unreal_agent.Store.{Session, Item, ItemData}
use unreal_agent.Store.Head
use unreal_agent.Store.Status
use unreal_agent.Store.State.{
  StoredState, new_stored_state, inherit_item, append_input, append_turn, append_model_response,
  append_tool_call_status, save_operation, without_operations,
}
use unreal_agent.Store.Lines.{Bytes, newline, last_index_byte, split, drop_last}
use unreal_agent.Store.Codec
use unreal_agent.Store.Codec.{
  Codec, ItemRecord, SessionRecord, RecordType, LogRecord, encode_record, encode_item_record,
  decode_item_record,
}

abbrev pub format_version : ℕ
format_version = 2

-- `decodedRecord`
pub data Decoded : Type 0 where
  item : ItemRecord → Decoded
  operation : Operation → Decoded

pub data Error : Type 0 where
  empty_session_id bad_session_id : Error
  not_contiguous no_time : Error
  codec : Codec.Error → Error
  no_records session_not_first not_decoded legacy_version unsupported_version : Error
  wrong_sequence initializes_operations unsupported_record : Error
  inherited_initializes operation_in_inherited unexpected_fork : Error
  not_replayed : Head.Error → Error

abbrev pub is_id_character : ℕ → Bool
is_id_character c =
    (leb b'a' c && leb c b'z')
    || (leb b'A' c && leb c b'Z')
    || (leb b'0' c && leb c b'9')
    || c == b'-'

abbrev pub are_id_characters : String → Bool
are_id_characters String.[] = true
are_id_characters (String.◌∷◌ c s) = is_id_character (code c) && are_id_characters s

-- `validateSessionID`
unfoldable pub validate_session_id : String → Result Error (Unit {0})
validate_session_id id = do
  reject_if (id == "") empty_session_id
  reject_if (not (are_id_characters id)) bad_session_id

abbrev pub operations_of : ItemData → List Operation
operations_of (ItemData.tool_call_status s) = s.operations
operations_of content = []

-- The record of an item of `encodeInitialLog`: the operations of a status stand beside it.
abbrev pub record_of : Item → ItemRecord
record_of i = record {
  item = record i { content = without_operations i.content };
  operations = operations_of i.content;
}

abbrev pub is_status : ItemData → Bool
is_status (ItemData.tool_call_status s) = true
is_status content = false

abbrev pub is_fork : ItemData → Bool
is_fork (ItemData.fork f) = true
is_fork content = false

-- The variables of the first loop of `decodeLog`; `value` is the new state of the session record.
pub record Scan : Type 0 where
  pub value : StoredState
  pub records : List Decoded
  pub item_count : ℕ
  pub inherited_item_count : ℕ

-- `var value storedState`
abbrev pub no_scan : Scan
no_scan = record {
  value = new_stored_state "" 0;
  records = [];
  item_count = 0;
  inherited_item_count = 0;
}

-- The variables of the second loop.
pub record Replay : Type 0 where
  pub value : StoredState
  pub replayed_items : ℕ

module _ (json : Json) (c : Codec) where
  -- The loop of `encodeInitialLog` over the items from `index` on.
  unfoldable pub encode_items : ℕ → List Item → Result Error Bytes
  unfolding encode_item_record
  encode_items index [] = ok []
  encode_items index (i ∷ items) = do
    reject_if (not (i.sequence == (index + 1) % 2 ^ 64)) not_contiguous
    reject_if (i.recorded_at == 0) no_time
    line ← with_error codec (encode_item_record json c (record_of i))
    rest ← encode_items (suc index) items
    ok (line ++ rest)

  unfoldable pub encode_initial_log : Session → List Item → Result Error Bytes
  unfolding validate_session_id encode_record encode_items
  encode_initial_log value items = do
    validate_session_id value.id
    first ← with_error codec (
        encode_record json c RecordType.session
          (c.encode_session (record { version = format_version; session = value })))
    rest ← encode_items 0 items
    ok (first ++ rest)

  -- The `recordSession` case, behind the test of the line's index.
  unfoldable pub scan_session : Scan → Bytes → Result Error Scan
  unfolding validate_session_id new_stored_state
  scan_session scan contents = do
    header ← or_fail (c.decode_session contents) not_decoded
    reject_if (header.version == 1) legacy_version
    reject_if (not (header.version == format_version)) unsupported_version
    validate_session_id header.session.id
    reject_if (header.session.created_at == 0) no_time
    ok (record scan { value = new_stored_state header.session.id header.session.created_at })

  -- The `recordItem` case.
  unfoldable pub scan_item : Scan → Bytes → Result Error Scan
  unfolding decode_item_record
  scan_item scan contents = do
    r ← with_error codec (decode_item_record json c contents)
    reject_if (not (r.item.sequence == (scan.item_count + 1) % 2 ^ 64)) wrong_sequence
    reject_if (r.item.recorded_at == 0) no_time
    reject_if (not (is_status r.item.content) && not (is_empty r.operations)) initializes_operations
    ok (record scan {
      records = scan.records ++ item r ∷ [];
      item_count = suc scan.item_count;
      inherited_item_count =
          if is_fork r.item.content then suc scan.item_count else scan.inherited_item_count;
    })

  -- The `recordOperation` case.
  unfoldable pub scan_operation : Scan → Bytes → Result Error Scan
  scan_operation scan contents = do
    value ← or_fail (c.decode_operation contents) not_decoded
    ok (record scan { records = scan.records ++ operation value ∷ [] })

  -- The `switch record.Type`.
  unfoldable pub scan_record : RecordType → Bool → Scan → Bytes → Result Error Scan
  unfolding scan_session scan_item scan_operation
  scan_record RecordType.session is_first scan contents = do
    reject_if (not is_first) session_not_first
    scan_session scan contents
  scan_record RecordType.item is_first scan contents = do
    reject_if is_first session_not_first
    scan_item scan contents
  scan_record RecordType.operation is_first scan contents = do
    reject_if is_first session_not_first
    scan_operation scan contents
  scan_record (RecordType.other s) is_first scan contents = err unsupported_record

  unfoldable pub scan_line : ℕ → Scan → Bytes → Result Error Scan
  unfolding scan_record
  scan_line index scan line = do
    r ← or_fail (c.decode_line line) not_decoded
    scan_record r.type (index == 0) scan r.contents

  -- The first loop.
  unfoldable pub scan_lines : ℕ → Scan → List Bytes → Result Error Scan
  unfolding scan_line
  scan_lines index scan [] = ok scan
  scan_lines index scan (line ∷ lines) = do
    next ← scan_line index scan line
    scan_lines (suc index) next lines

  -- The `switch` of `replayItem`.
  unfoldable pub replay_content :
      StoredState → ItemData → List Operation → ℕ → Result Error StoredState
  replay_content s (ItemData.input i) operations now =
      with_error not_replayed (append_input json s i now)
  replay_content s (ItemData.turn t) operations now = with_error not_replayed (append_turn s t now)
  replay_content s (ItemData.model_response r) operations now =
      with_error not_replayed (append_model_response s r now)
  replay_content s (ItemData.tool_call_status status) operations now =
      with_error not_replayed (append_tool_call_status json s status operations now)
  replay_content s (ItemData.fork f) operations now = err unexpected_fork

  -- `replayItem`
  unfoldable pub replay_item : StoredState → ItemRecord → Result Error StoredState
  unfolding replay_content
  replay_item s r = replay_content s r.item.content r.operations r.item.recorded_at

  -- A round of the second loop.
  unfoldable pub replay_record : ℕ → Replay → Decoded → Result Error Replay
  unfolding inherit_item replay_item
  replay_record inherited r (item i) =
      if ltb r.replayed_items inherited
      then (do
        reject_if (not (is_empty i.operations)) inherited_initializes
        ok (record { value = inherit_item r.value i.item; replayed_items = suc r.replayed_items }))
      else (do
        value ← replay_item r.value i
        ok (record { value = value; replayed_items = suc r.replayed_items }))
  replay_record inherited r (operation value) = do
    reject_if (ltb r.replayed_items inherited) operation_in_inherited
    next ← with_error not_replayed (save_operation json r.value value)
    ok (record r { value = next })

  unfoldable pub replay_records : ℕ → Replay → List Decoded → Result Error Replay
  unfolding replay_record
  replay_records inherited r [] = ok r
  replay_records inherited r (d ∷ ds) = do
    next ← replay_record inherited r d
    replay_records inherited next ds

  -- `decodeLog`, behind the splitting into lines.
  unfoldable pub decode_lines : List Bytes → Result Error StoredState
  unfolding scan_lines replay_records
  decode_lines lines = do
    scan ← scan_lines 0 no_scan lines
    done ←
        replay_records scan.inherited_item_count (record { value = scan.value; replayed_items = 0 })
          scan.records
    ok done.value

  -- The state that a log holds, and how long its lines are that are whole.
  unfoldable pub decode_log : Bytes → Result Error (StoredState × ℕ)
  unfolding decode_lines
  decode_log encoded = do
    last ← or_fail (last_index_byte encoded newline) no_records
    value ← decode_lines (drop_last (split (take (suc last) encoded) newline))
    ok (value, suc last)
