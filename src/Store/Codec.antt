-- ===== src/Store/Codec.antt =====
-- The records of a session log (harness/sessionstore/localfile/codec.go) and the JSON form of an item
-- (harness/sessionstore/itemjson.go). What `encoding/json` makes of a struct is the record `Codec`.
use mathlib.Core.Option
use unreal_agent.Base.{
  ℕ, String, Bool, false, Option, some, List, [], ◌∷◌, ◌++◌, ◌≡◌, refl, Result, ok, err, ◌>>=◌,
  ◌>>◌, reject_if, or_fail, with_error, map_ok, >>=-eq-ok, or_fail-eq-ok, ok-injective, subst, sym,
  arith, map, All, ◌⊎◌, inl, inr, ap₂, ap, ◌∙◌,
}
use unreal_agent.Inbox
use unreal_agent.Inbox.{Input, Json, validate}
use unreal_agent.Operation.{Operation}
use unreal_agent.Store.{Session, Fork, Turn, ModelResponse, ToolCallStatus, Item, ItemData}
use unreal_agent.Store.Lines.{Bytes, newline, has_byte, IsLine}

-- `ItemKind`
pub data ItemKind : Type 0 where
  fork input turn model_response tool_call_status : ItemKind
  other : String → ItemKind

abbrev pub kind_of : ItemData → ItemKind
kind_of (ItemData.fork f) = ItemKind.fork
kind_of (ItemData.input i) = ItemKind.input
kind_of (ItemData.turn t) = ItemKind.turn
kind_of (ItemData.model_response r) = ItemKind.model_response
kind_of (ItemData.tool_call_status s) = ItemKind.tool_call_status

-- `itemJSON` with `Data` as it stands in the JSON.
pub record ItemJson : Type 0 where
  pub sequence : ℕ
  pub recorded_at : ℕ
  pub kind : ItemKind
  pub encoded : Bytes

pub record ItemRecord : Type 0 where
  pub item : Item
  pub operations : List Operation

-- `itemRecord`, its item as `MarshalJSON` gives it.
pub record ItemRecordJson : Type 0 where
  pub item : ItemJson
  pub operations : List Operation

pub record SessionRecord : Type 0 where
  pub version : ℕ
  pub session : Session

pub data RecordType : Type 0 where
  session item operation : RecordType
  other : String → RecordType

pub record LogRecord : Type 0 where
  pub type : RecordType
  pub contents : Bytes

-- `json.Marshal` and `json.Unmarshal` at the types that the store writes and reads. The text of a
-- `jsontext.Value` is not written as it is: `reformat` is what the encoder makes of it.
pub record Codec : Type 0 where
  pub reformat : String → String
  pub encode_value : ItemData → Option Bytes
  pub is_null : Bytes → Bool
  pub decode_fork : Bytes → Option Fork
  pub decode_input : Bytes → Option Input
  pub decode_turn : Bytes → Option Turn
  pub decode_model_response : Bytes → Option ModelResponse
  pub decode_status : Bytes → Option ToolCallStatus
  pub encode_session : SessionRecord → Option Bytes
  pub decode_session : Bytes → Option SessionRecord
  pub encode_item : ItemRecordJson → Option Bytes
  pub decode_item : Bytes → Option ItemRecordJson
  pub encode_operation : Operation → Option Bytes
  pub decode_operation : Bytes → Option Operation
  pub encode_line : LogRecord → Option Bytes
  pub decode_line : Bytes → Option LogRecord

abbrev pub reformat_input : Codec → Input → Input
reformat_input c i = record i { payload = Option.map c.reformat i.payload }

abbrev pub reformat_operation : Codec → Operation → Operation
reformat_operation c value = record value {
  state = Option.map c.reformat value.state;
  idempotency = Option.map c.reformat value.idempotency;
}

-- The raw texts of an operation stand as the encoder writes them.
abbrev pub IsFormattedOperation : Codec → Operation → Type 0
IsFormattedOperation c value = reformat_operation c value ≡ value

-- The raw texts of an item's data stand as the encoder writes them. Of a model response, whose items
-- have JSON methods of their own (harness/llm/itemjson.go), it is asked that they read back what they
-- write.
abbrev pub IsFormatted : Codec → ItemData → Type 0
IsFormatted c (ItemData.fork f) = Unit {0}
IsFormatted c (ItemData.input i) = reformat_input c i ≡ i
IsFormatted c (ItemData.turn t) = Unit {0}
IsFormatted c (ItemData.model_response r) =
    (b : Bytes)
    → c.encode_value (ItemData.model_response r) ≡ some b
    → c.decode_model_response b ≡ some r
IsFormatted c (ItemData.tool_call_status s) = All (IsFormattedOperation c) s.operations

-- What a type's JSON gives back of what it writes.
abbrev pub ReadsAs {ℓ} : {A : Type ℓ} → (A → A) → (A → Option Bytes) → (Bytes → Option A) → Type ℓ
ReadsAs {A = A} back encode decode =
    (a : A) (b : Bytes) → encode a ≡ some b → decode b ≡ some (back a)

-- The contents of a record are JSON that was written.
abbrev pub IsWritten : Codec → Bytes → Type 0
IsWritten c b =
    ((r : SessionRecord) × (c.encode_session r ≡ some b))
    ⊎ (((r : ItemRecordJson) × (c.encode_item r ≡ some b))
        ⊎ ((value : Operation) × (c.encode_operation value ≡ some b)))

-- JSON reads back what it writes, but for the raw texts: these are read back as they are written. An
-- item's data and a record's contents stand in the JSON of the item and of the record, and come back
-- if JSON wrote them.
pub record IsLawful (c : Codec) : Type 0 where
  pub not_null :
      (value : ItemData) (b : Bytes) → c.encode_value value ≡ some b → c.is_null b ≡ false
  pub fork_back : ReadsAs (λ f. f) (λ f. c.encode_value (ItemData.fork f)) c.decode_fork
  pub input_back :
      ReadsAs (reformat_input c) (λ i. c.encode_value (ItemData.input i)) c.decode_input
  pub turn_back : ReadsAs (λ t. t) (λ t. c.encode_value (ItemData.turn t)) c.decode_turn
  pub status_back :
      ReadsAs
        (λ (s : ToolCallStatus). record s { operations = map (reformat_operation c) s.operations })
        (λ s. c.encode_value (ItemData.tool_call_status s))
        c.decode_status
  pub session_back : ReadsAs (λ r. r) c.encode_session c.decode_session
  pub item_back :
      (r : ItemRecordJson) (value : ItemData) (b : Bytes)
      → c.encode_value value ≡ some r.item.encoded
      → c.encode_item r ≡ some b
      → c.decode_item b ≡ some (record r { operations = map (reformat_operation c) r.operations })
  pub operation_back : ReadsAs (reformat_operation c) c.encode_operation c.decode_operation
  pub line_back :
      (r : LogRecord) (b : Bytes)
      → IsWritten c r.contents
      → c.encode_line r ≡ some b
      → c.decode_line b ≡ some r

pub data Error : Type 0 where
  invalid_data : Inbox.Error → Error
  not_encoded not_decoded null_data unsupported_kind has_newline : Error

abbrev check_data : Json → ItemData → Result Error (Unit {0})
check_data json (ItemData.input i) = with_error invalid_data (validate json i)
check_data json content = ok tt

module _ (json : Json) (c : Codec) where
  -- `Item.MarshalJSON`; a kind is the constructor of the data here, so that only an input is checked.
  unfoldable pub marshal_item : Item → Result Error ItemJson
  unfolding validate
  marshal_item value = do
    check_data json value.content
    encoded ← or_fail (c.encode_value value.content) not_encoded
    ok (record {
      sequence = value.sequence;
      recorded_at = value.recorded_at;
      kind = kind_of value.content;
      encoded = encoded;
    })

  -- The `switch` of `decodeItemData`.
  unfoldable pub decode_kind : ItemKind → Bytes → Result Error ItemData
  unfolding validate
  decode_kind ItemKind.fork b = map_ok ItemData.fork (or_fail (c.decode_fork b) not_decoded)
  decode_kind ItemKind.input b = do
    i ← or_fail (c.decode_input b) not_decoded
    with_error invalid_data (validate json i)
    ok (ItemData.input i)
  decode_kind ItemKind.turn b = map_ok ItemData.turn (or_fail (c.decode_turn b) not_decoded)
  decode_kind ItemKind.model_response b =
      map_ok ItemData.model_response (or_fail (c.decode_model_response b) not_decoded)
  decode_kind ItemKind.tool_call_status b =
      map_ok ItemData.tool_call_status (or_fail (c.decode_status b) not_decoded)
  decode_kind (ItemKind.other s) b = err unsupported_kind

  unfoldable pub decode_item_data : ItemKind → Bytes → Result Error ItemData
  unfolding decode_kind
  decode_item_data kind b = do reject_if (c.is_null b) null_data; decode_kind kind b

  -- `Item.UnmarshalJSON`
  unfoldable pub unmarshal_item : ItemJson → Result Error Item
  unfolding decode_item_data
  unmarshal_item i = do
    content ← decode_item_data i.kind i.encoded
    ok (record { sequence = i.sequence; recorded_at = i.recorded_at; content = content })

  -- `encodeRecord`, behind `json.Marshal(value)`.
  unfoldable pub encode_record : RecordType → Option Bytes → Result Error Bytes
  encode_record type contents = do
    contents ← or_fail contents not_encoded
    line ← or_fail (c.encode_line (record { type = type; contents = contents })) not_encoded
    reject_if (has_byte line newline) has_newline
    ok (line ++ newline ∷ [])

  -- `encodeRecord(recordItem, …)`
  unfoldable pub encode_item_record : ItemRecord → Result Error Bytes
  unfolding encode_record marshal_item
  encode_item_record r = do
    i ← marshal_item r.item
    encode_record RecordType.item (c.encode_item (record { item = i; operations = r.operations }))

  -- `json.Unmarshal(record.Data, &itemValue)`
  unfoldable pub decode_item_record : Bytes → Result Error ItemRecord
  unfolding unmarshal_item
  decode_item_record b = do
    r ← or_fail (c.decode_item b) not_decoded
    i ← unmarshal_item r.item
    ok (record { item = i; operations = r.operations })

  module _ (l : IsLawful c) where
    reformat-IsFormatted :
        (values : List Operation)
        → All (IsFormattedOperation c) values
        → map (reformat_operation c) values ≡ values
    reformat-IsFormatted [] h = refl
    reformat-IsFormatted (value ∷ values) h = ap₂ ◌∷◌ h.0 (reformat-IsFormatted values h.1)

    decode_kind-kind_of :
        (content : ItemData) (b : Bytes)
        → check_data json content ≡ ok tt
        → IsFormatted c content
        → c.encode_value content ≡ some b
        → decode_kind (kind_of content) b ≡ ok content
    unfolding decode_kind
    decode_kind-kind_of (ItemData.fork f) b h formatted e = rw (l.fork_back f b e) refl
    decode_kind-kind_of (ItemData.input i) b h formatted e =
        rw (l.input_back i b e ∙ ap some formatted, h) refl
    decode_kind-kind_of (ItemData.turn t) b h formatted e = rw (l.turn_back t b e) refl
    decode_kind-kind_of (ItemData.model_response r) b h formatted e = rw (formatted b e) refl
    decode_kind-kind_of (ItemData.tool_call_status s) b h formatted e =
        rw (l.status_back s b e, reformat-IsFormatted s.operations formatted) refl

    -- What an item is written to JSON as, and that it is read back as it was if its raw texts stand as
    -- they are written.
    unmarshal_item-marshal_item :
        (value : Item) {i : ItemJson}
        → IsFormatted c value.content
        → marshal_item value ≡ ok i
        → (c.encode_value value.content ≡ some i.encoded) × (unmarshal_item i ≡ ok value)
    unfolding marshal_item unmarshal_item decode_item_data
    unmarshal_item-marshal_item value formatted h =
        let (_, checked, h1) = >>=-eq-ok (check_data json value.content) _ h in
        let (b, encoded, h2) =
          >>=-eq-ok (or_fail (c.encode_value value.content) not_encoded) _ h1 in
        let wrote = or_fail-eq-ok (c.encode_value value.content) not_encoded encoded in
        let back = ok-injective h2 in
        subst
          (λ (j : ItemJson).
            (c.encode_value value.content ≡ some j.encoded)
            × ((decode_item_data j.kind j.encoded >>= λ content. ok (record {
              sequence = j.sequence;
              recorded_at = j.recorded_at;
              content = content;
            }))
                ≡ ok value))
          back
          (
            wrote,
            rw
                (
                  l.not_null value.content b wrote,
                  decode_kind-kind_of value.content b checked formatted wrote,
                )
                refl,
          )

    -- A record's line, before its newline, and what it decodes to.
    pub encode_record_lem :
        (type : RecordType) (contents : Option Bytes) {out : Bytes}
        → ((b : Bytes) → contents ≡ some b → IsWritten c b)
        → encode_record type contents ≡ ok out
        → (line : Bytes) × (b : Bytes) × (out ≡ line ++ newline ∷ [])
          × IsLine line
          × (contents ≡ some b)
          × (c.decode_line line ≡ some (record { type = type; contents = b }))
    unfolding encode_record
    encode_record_lem type contents written h =
        let (b, some_b, h1) = >>=-eq-ok (or_fail contents not_encoded) _ h in
        let (line, some_line, h2) =
          >>=-eq-ok (or_fail (c.encode_line (record { type = type; contents = b })) not_encoded) _
            h1 in
        let (_, whole, h3) = >>=-eq-ok (reject_if (has_byte line newline) has_newline) _ h2 in
        let wrote = or_fail-eq-ok contents not_encoded some_b in
        (
          line,
          b,
          sym (ok-injective h3),
          ground arith,
          wrote,
          l.line_back _ line (written b wrote)
              (or_fail-eq-ok (c.encode_line _) not_encoded some_line),
        )

    pub encode_item_record_lem :
        (r : ItemRecord) {out : Bytes}
        → IsFormatted c r.item.content
        → All (IsFormattedOperation c) r.operations
        → encode_item_record r ≡ ok out
        → (line : Bytes) × (b : Bytes) × (out ≡ line ++ newline ∷ [])
          × IsLine line
          × (c.decode_line line ≡ some (record { type = RecordType.item; contents = b }))
          × (decode_item_record b ≡ ok r)
    unfolding encode_item_record decode_item_record
    encode_item_record_lem r formatted operations h =
        let (i, marshalled, h1) = >>=-eq-ok (marshal_item r.item) _ h in
        let written : ItemRecordJson = record { item = i; operations = r.operations } in
        let (line, b, out, whole, some_b, decoded) =
          encode_record_lem RecordType.item (c.encode_item written) (λ b e. inr (inl (written, e)))
            h1 in
        let (encoded, back) = unmarshal_item-marshal_item r.item formatted marshalled in
        (
          line,
          b,
          out,
          whole,
          decoded,
          rw
              (
                l.item_back written r.item.content b encoded some_b,
                reformat-IsFormatted r.operations operations,
                back,
              )
              refl,
        )
