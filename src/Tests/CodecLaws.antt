-- ===== src/Tests/CodecLaws.antt =====
-- The codec of the tests obeys the laws of `encoding/json`.
use mathlib.Core.Option
use unreal_agent.Base.{
  ℕ, ◌≡◌, refl, sym, ◌==◌, ◌&&◌, string_eq, nat_eq, eq_iff, arith, false, Option, none, some, List,
  [], ◌∷◌, if◌then◌else◌, String, ap, Bool-cases, inl, inr, ◌∙◌, pos, Bool, ℤ, map, true,
}
use unreal_agent.Operation.{Operation, Status}
use unreal_agent.Store.{TurnType, ItemData, ToolCallStatus}
use unreal_agent.Store.Lines.{Bytes}
use unreal_agent.Store.Codec.{IsLawful, ItemKind, RecordType, reformat_operation}
use unreal_agent.Tests.Samples.{first_turn, waiting_status}
use unreal_agent.Inbox.{InputKind, external, control, crash}
use unreal_agent.Tests.SampleCodec.{
  sample_reformat, note, encode_turn_type, encode_sample_input, encode_sample_status,
  encode_sample_value, encode_job, encode_sample_operation, decode_sample_operation,
  decode_sample_session, encode_sample_kind, decode_sample_item, sample_fork, encode_sample_type,
  decode_sample_line, sample_codec,
}

sample_type_back :
    (id previous : String) (type : TurnType) (b : Bytes)
    → (if id == "turn-1" && previous == "" then encode_turn_type type else none) ≡ some b
    → some first_turn ≡ some (record { id = id; previous_turn_id = previous; type = type })
sample_type_back id previous TurnType.regular b h =
    ground (arith, eq_iff id "turn-1", eq_iff previous "")
sample_type_back id previous TurnType.compaction b h = absurd (ground arith)
sample_type_back id previous (TurnType.other s) b h = absurd (ground arith)

sample_fork_back :
    (parent previous : String) (b : Bytes)
    → (if parent == "s" && previous == "turn-1" then some (4 ∷ []) else none) ≡ some b
    → some sample_fork ≡ some (record { parent_id = parent; previous_turn_id = previous })
sample_fork_back parent previous b h = ground (arith, eq_iff parent "s", eq_iff previous "turn-1")

sample_input_back :
    (id : String) (kind : InputKind) (payload : Option String) (b : Bytes)
    → encode_sample_input id kind payload ≡ some b
    → some note
      ≡ some (record { id = id; kind = kind; payload = Option.map sample_reformat payload })
sample_input_back id external (some t) b h =
    ground (arith, eq_iff id "in-9", eq_iff (sample_reformat t) "[1]")
sample_input_back id external none b h = cc
sample_input_back id control payload b h = cc
sample_input_back id crash payload b h = cc
sample_input_back id (InputKind.other s) payload b h = cc

sample_status_back :
    (s : ToolCallStatus) (error : String) (truncated : Bool) (ids : List String)
    (operations : List Operation) (b : Bytes)
    → encode_sample_status s.turn_id s.call_id error truncated ids operations ≡ some b
    → some waiting_status
      ≡ some (record s {
        status = record { error = error; error_truncated = truncated; waiting_for = ids };
        operations = map (reformat_operation sample_codec) operations;
      })
sample_status_back s error false (id ∷ []) [] b h =
    ground (
      arith,
      eq_iff s.turn_id "turn-1",
      eq_iff s.call_id "call-1",
      eq_iff error "",
      eq_iff id "op-1",
    )
sample_status_back s error true ids operations b h = cc
sample_status_back s error false [] operations b h = cc
sample_status_back s error false (id ∷ other ∷ ids) operations b h = cc
sample_status_back s error false (id ∷ []) (value ∷ operations) b h = cc

some-injective {ℓ} : {A : Type ℓ} {a b : A} → some a ≡ some b → a ≡ b
some-injective h = cc

sample_session_back :
    (version : ℕ) (id : String) (time : ℕ) (b : Bytes)
    → (if id == "s"
        then some (1 ∷ version ∷ time ∷ [])
        else if id == "t"
        then some (2 ∷ version ∷ time ∷ [])
        else none)
      ≡ some b
    → decode_sample_session b
      ≡ some (record { version = version; session = record { id = id; created_at = time } })
sample_session_back version id time b h = elim (Bool-cases (id == "s")) [
  | inl same ↦
      ap decode_sample_session (sym (some-injective (rw same at h)))
      ∙ ap
          (λ i. some (record { version = version; session = record { id = i; created_at = time } }))
          (sym ((eq_iff id "s").0 same))
  | inr other ↦ elim (Bool-cases (id == "t")) [
    | inl same ↦
        ap decode_sample_session (sym (some-injective (rw (other, same) at h)))
        ∙ ap
            (λ i.
              some (record { version = version; session = record { id = i; created_at = time } }))
            (sym ((eq_iff id "t").0 same))
    | inr neither ↦ absurd (ground arith)
  ]
]

checked_job_back :
    (k n version : ℕ) (status : Status) (id type t : String) (b : Bytes)
    → (if k == 8 then Status.ready else Status.completed) ≡ status
    → (if id == "op-1" && type == "shell" && sample_reformat t == "[1]"
        then some (k ∷ n ∷ version ∷ [])
        else none)
      ≡ some b
    → decode_sample_operation b
      ≡ some (record {
        max_output_length = pos n;
        id = id;
        type = type;
        version = version;
        status = status;
        state = some (sample_reformat t);
        idempotency = none;
      })
checked_job_back k n version status id type t b same h =
    elim (Bool-cases (id == "op-1" && type == "shell" && sample_reformat t == "[1]")) [
      | inl taken ↦
          let id_is : id ≡ "op-1" = (eq_iff id "op-1").0 (ground arith) in
          let type_is : type ≡ "shell" = (eq_iff type "shell").0 (ground arith) in
          let text_is : sample_reformat t ≡ "[1]" =
            (eq_iff (sample_reformat t) "[1]").0 (ground arith) in
          ap decode_sample_operation (sym (some-injective (rw taken at h)))
          ∙ rw (same, id_is, type_is, text_is) refl
      | inr left ↦ absurd (ground (arith, h))
    ]

sample_job_back :
    (length : ℤ) (id type : String) (version : ℕ) (status : Status)
    (state idempotency : Option String) (b : Bytes)
    → encode_job length id type version status state idempotency ≡ some b
    → decode_sample_operation b
      ≡ some (record {
        max_output_length = length;
        id = id;
        type = type;
        version = version;
        status = status;
        state = Option.map sample_reformat state;
        idempotency = Option.map sample_reformat idempotency;
      })
sample_job_back (pos n) id type version Status.ready (some t) none b h =
    checked_job_back 8 n version Status.ready id type t b refl h
sample_job_back (pos n) id type version Status.completed (some t) none b h =
    checked_job_back 9 n version Status.completed id type t b refl h
sample_job_back length id type version status state idempotency b h = cc

sample_operation_back :
    (o : Operation) (b : Bytes)
    → encode_sample_operation o ≡ some b
    → decode_sample_operation b ≡ some (reformat_operation sample_codec o)
sample_operation_back o b h =
    sample_job_back o.max_output_length o.id o.type o.version o.status o.state o.idempotency b h

status_item_back :
    (n t e : ℕ) (o : Operation) (written : Option Bytes) (b : Bytes)
    → encode_sample_operation o ≡ written
    → Option.map (λ b. n ∷ t ∷ 9 ∷ e ∷ b) written ≡ some b
    → decode_sample_item b
      ≡ some (record {
        item = record {
          sequence = n;
          recorded_at = t;
          kind = ItemKind.tool_call_status;
          encoded = e ∷ [];
        };
        operations = reformat_operation sample_codec o ∷ [];
      })
status_item_back n t e o none b wrote h = cc
status_item_back n t e o (some rest) b wrote h =
    ap decode_sample_item (sym (some-injective h)) ∙ rw (sample_operation_back o rest wrote) refl

sample_item_back :
    (n t : ℕ) (kind : ItemKind) (e : Bytes) (operations : List Operation) (b : Bytes)
    → encode_sample_kind operations kind (n ∷ t ∷ e) ≡ some b
    → decode_sample_item b
      ≡ some (record {
        item = record { sequence = n; recorded_at = t; kind = kind; encoded = e };
        operations = map (reformat_operation sample_codec) operations;
      })
sample_item_back n t ItemKind.turn e [] b h = ap decode_sample_item (sym (some-injective h))
sample_item_back n t ItemKind.fork e [] b h = ap decode_sample_item (sym (some-injective h))
sample_item_back n t ItemKind.input e [] b h = ap decode_sample_item (sym (some-injective h))
sample_item_back n t ItemKind.tool_call_status (e ∷ []) (o ∷ []) b h =
    status_item_back n t e o (encode_sample_operation o) b refl h
sample_item_back n t kind e (o ∷ p ∷ rest) b h = cc
sample_item_back n t kind e operations b h = cc

sample_line_back :
    (type : RecordType) (contents b : Bytes)
    → encode_sample_type type contents ≡ some b
    → decode_sample_line b ≡ some (record { type = type; contents = contents })
sample_line_back RecordType.session contents b h = ap decode_sample_line (sym (some-injective h))
sample_line_back RecordType.item contents b h = ap decode_sample_line (sym (some-injective h))
sample_line_back RecordType.operation contents b h = ap decode_sample_line (sym (some-injective h))
sample_line_back (RecordType.other s) contents b h = cc

sample_not_null :
    (value : ItemData) (b : Bytes)
    → encode_sample_value value ≡ some b
    → sample_codec.is_null b ≡ false
sample_not_null value b h = refl

pub sample_codec-IsLawful : IsLawful sample_codec
sample_codec-IsLawful = record {
  not_null = sample_not_null;
  fork_back = λ f b h. sample_fork_back f.parent_id f.previous_turn_id b h;
  input_back = λ i b h. sample_input_back i.id i.kind i.payload b h;
  turn_back = λ t b h. sample_type_back t.id t.previous_turn_id t.type b h;
  status_back = λ s b h.
      sample_status_back s s.status.error s.status.error_truncated s.status.waiting_for s.operations
        b h;
  session_back = λ r b h. sample_session_back r.version r.session.id r.session.created_at b h;
  item_back = λ r value b wrote h.
      sample_item_back r.item.sequence r.item.recorded_at r.item.kind r.item.encoded r.operations b
        h;
  operation_back = sample_operation_back;
  line_back = λ r b written h. sample_line_back r.type r.contents b h;
}
