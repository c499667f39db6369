-- ===== src/Inbox.antt =====
-- harness/inbox/inbox.go: inputs, their validation and the control messages that they carry.
-- `encoding/json` is the parameter `json`; each `fmt.Errorf` is a constructor of `Error`.
pub mod Queue
pub mod Validation
use unreal_agent.Base.{
  String, Bool, true, false, not, ◌&&◌, ◌||◌, Option, none, some, ℤ, pos, Result, ok, err, ◌>>=◌,
  ◌>>◌, reject_if, or_fail, ◌==◌, string_eq, leb_ℤ, ltb_ℤ,
}
use unreal_agent.Text.{is_blank, raw}
use unreal_agent.Llm.{ReasoningEffort, effort_valid}

pub data InputKind : Type 0 where
  external control crash : InputKind
  other : String → InputKind

pub record Input : Type 0 where
  pub id : String
  pub kind : InputKind
  pub payload : Option String

pub data ControlMode : Type 0 where
  stop_hard stop_when_idle heartbeat update_settings : ControlMode
  other : String → ControlMode

-- An empty model, or an effort `other ""`, is a setting that the message leaves alone.
pub record Settings : Type 0 where
  pub model : String
  pub compaction_threshold : Option ℤ
  pub max_output_tokens : Option ℤ
  pub reasoning_effort : ReasoningEffort

pub record ControlMessage : Type 0 where
  pub mode : ControlMode
  pub reason : String
  pub parameters : Option Settings

-- The anonymous struct that the payload of a control input is decoded into.
pub record Envelope : Type 0 where
  pub mode : ControlMode
  pub reason : String
  pub parameters : Option String

-- What the harness calls of `encoding/json`: `IsValid`, and `Unmarshal` at the types that it reads.
pub record Json : Type 0 where
  pub is_valid : String → Bool
  pub envelope : String → Option Envelope
  pub settings : String → Option Settings
  pub text : String → Option String

pub data Error : Type 0 where
  empty_id unsupported_kind invalid_payload : Error
  not_control malformed_control unexpected_parameters empty_reason missing_settings : Error
  malformed_settings unsupported_effort empty_model negative_threshold : Error
  nonpositive_max_output unsupported_mode : Error

abbrev pub is_unset : ReasoningEffort → Bool
is_unset (ReasoningEffort.other s) = s == ""
is_unset _ = false

abbrev holds : (ℤ → Bool) → Option ℤ → Bool
holds p none = false
holds p (some n) = p n

-- The checks of the `UpdateSettings` case on the decoded settings.
check_settings : Settings → Result Error (Unit {0})
unfolding effort_valid is_blank
check_settings s = do
  reject_if (not (is_unset s.reasoning_effort) && not (effort_valid s.reasoning_effort))
      unsupported_effort
  reject_if (not (s.model == "") && is_blank s.model) empty_model
  reject_if (holds (λ n. ltb_ℤ n (pos 0)) s.compaction_threshold) negative_threshold
  reject_if (holds (λ n. leb_ℤ n (pos 0)) s.max_output_tokens) nonpositive_max_output

abbrev is_update : ControlMode → Bool
is_update update_settings = true
is_update _ = false

abbrev pub is_external : InputKind → Bool
is_external external = true
is_external _ = false

abbrev is_control : InputKind → Bool
is_control control = true
is_control _ = false

module _ (json : Json) where
  -- The `switch request.Mode` of `DecodeControlMessage`.
  decode_mode : Envelope → ControlMode → Result Error ControlMessage
  unfolding check_settings
  decode_mode e update_settings = do
    reject_if (raw e.parameters == "" || raw e.parameters == "null") missing_settings
    s ← or_fail (json.settings (raw e.parameters)) malformed_settings
    check_settings s
    ok (record { mode = update_settings; reason = e.reason; parameters = some s })
  decode_mode e heartbeat = do
    reject_if (e.reason == "") empty_reason
    ok (record { mode = heartbeat; reason = e.reason; parameters = none })
  decode_mode e (ControlMode.other s) = err unsupported_mode
  decode_mode e m = ok (record { mode = m; reason = e.reason; parameters = none })

  unfoldable pub decode_control_message : Input → Result Error ControlMessage
  unfolding decode_mode
  decode_control_message input = do
    reject_if (not (is_control input.kind)) not_control
    e ← or_fail (json.envelope (raw input.payload)) malformed_control
    reject_if (not (is_update e.mode) && not (raw e.parameters == "")) unexpected_parameters
    decode_mode e e.mode

  -- The `switch input.Kind` of `Validate`.
  check_kind : InputKind → Input → Result Error (Unit {0})
  unfolding decode_control_message
  check_kind control input = decode_control_message input >>= λ _. ok tt
  check_kind (InputKind.other s) input = err unsupported_kind
  check_kind _ input = ok tt

  abbrev pub payload_ok : Option String → Bool
  payload_ok none = true
  payload_ok (some s) = json.is_valid s

  unfoldable pub validate : Input → Result Error (Unit {0})
  unfolding check_kind
  validate input = do
    reject_if (input.id == "") empty_id
    check_kind input.kind input
    reject_if (not (payload_ok input.payload)) invalid_payload
