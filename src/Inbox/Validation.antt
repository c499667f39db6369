-- ===== src/Inbox/Validation.antt =====
-- What `Validate` and `DecodeControlMessage` of harness/inbox/inbox.go let through.
use unreal_agent.Base.{
  String, ◌≡◌, refl, ◌≢◌, ◌↔◌, ◌⊎◌, inl, inr, true, false, not, ◌&&◌, Option, none, some, ℤ, pos,
  ok, reject_if, ◌==◌, string_eq, ◌≤ℤ◌, eq_iff, arith, >>=-eq-ok, Option-cases,
}
use unreal_agent.Text.{is_blank, raw}
use unreal_agent.Llm.{ReasoningEffort, effort_valid}
use unreal_agent.Inbox.{
  Input, InputKind, external, control, crash, ControlMode, stop_hard, stop_when_idle, heartbeat,
  update_settings, Settings, ControlMessage, Envelope, Json, Error, is_unset, payload_ok,
  check_settings, decode_mode, decode_control_message, check_kind, validate,
}

-- Settings that the context builder can apply as they are.
pub record IsSound (s : Settings) : Type 0 where
  pub effort :
      (s.reasoning_effort ≡ ReasoningEffort.other "") ⊎ (effort_valid s.reasoning_effort ≡ true)
  pub model : (s.model ≡ "") ⊎ (is_blank s.model ≡ false)
  pub threshold : (n : ℤ) → s.compaction_threshold ≡ some n → pos 0 ≤ℤ n
  pub max_output : (n : ℤ) → s.max_output_tokens ≡ some n → pos 1 ≤ℤ n

-- The parameters that go with a mode and a reason.
abbrev pub Fits : ControlMode → String → Option Settings → Type 0
Fits stop_hard reason p = p ≡ none
Fits stop_when_idle reason p = p ≡ none
Fits heartbeat reason p = (reason ≢ "") × (p ≡ none)
Fits update_settings reason none = ⊥
Fits update_settings reason (some s) = IsSound s
Fits (ControlMode.other m) reason p = ⊥

effort_cases :
    (r : ReasoningEffort)
    → (not (is_unset r) && not (effort_valid r)) ≡ false
    → (r ≡ ReasoningEffort.other "") ⊎ (effort_valid r ≡ true)
unfolding effort_valid
effort_cases (ReasoningEffort.other s) h = ground (arith, eq_iff s "")
effort_cases _ h = inr refl

check_settings-IsSound : (s : Settings) → check_settings s ≡ ok tt → IsSound s
unfolding check_settings
check_settings-IsSound s h = record {
  effort = ground (arith, effort_cases s.reasoning_effort);
  model = ground (arith, eq_iff s.model "");
  threshold = λ n e. ground arith;
  max_output = λ n e. ground arith;
}

module _ (json : Json) where
  decode_mode-Fits :
      (e : Envelope) (m : ControlMode) {c : ControlMessage}
      → decode_mode json e m ≡ ok c
      → (c.mode ≡ m) × (c.reason ≡ e.reason) × Fits c.mode c.reason c.parameters
  unfolding decode_mode
  decode_mode-Fits e stop_hard h = ground arith
  decode_mode-Fits e stop_when_idle h = ground arith
  decode_mode-Fits e heartbeat h = ground (arith, eq_iff e.reason "")
  decode_mode-Fits e update_settings h = elim (Option-cases (json.settings (raw e.parameters))) [
    | inl none_decoded ↦ ground arith
    | inr (s, decoded) ↦ ground (arith, check_settings-IsSound s)
  ]
  decode_mode-Fits e (ControlMode.other m) h = cc

  -- A control message that is decoded has the mode and the reason of its envelope, and parameters
  -- that fit them; only a control input has one.
  pub decode_control_message-Fits :
      (input : Input) {c : ControlMessage}
      → decode_control_message json input ≡ ok c
      → (input.kind ≡ control)
        × ((e : Envelope) × (json.envelope (raw input.payload) ≡ some e)
            × (c.mode ≡ e.mode)
            × (c.reason ≡ e.reason))
        × Fits c.mode c.reason c.parameters
  unfolding decode_control_message
  decode_control_message-Fits input {c} h =
      elim (Option-cases (json.envelope (raw input.payload))) [
        | inl none_decoded ↦ ground arith
        | inr (e, decoded) ↦
            let fit : (c.mode ≡ e.mode)
                × (c.reason ≡ e.reason)
                × Fits c.mode c.reason c.parameters =
              decode_mode-Fits e e.mode (ground arith) in
            (ground arith, (e, decoded, fit.0, fit.1), fit.2)
      ]

  -- What a kind asks of an input.
  abbrev pub KindFits : InputKind → Input → Type 0
  KindFits control input = (c : ControlMessage) × (decode_control_message json input ≡ ok c)
  KindFits (InputKind.other k) input = ⊥
  KindFits _ input = Unit {0}

  check_kind_iff :
      (k : InputKind) (input : Input) → (check_kind json k input ≡ ok tt) ↔ KindFits k input
  unfolding check_kind
  check_kind_iff control input = (
    (λ h. let (c, e, _) = >>=-eq-ok (decode_control_message json input) _ h in (c, e)),
    λ (c, e). rw e,
  )
  check_kind_iff external input = (λ h. tt, λ h. refl)
  check_kind_iff crash input = (λ h. tt, λ h. refl)
  check_kind_iff (InputKind.other k) input = (λ h. cc, λ h. absurd h)

  payload_ok_iff :
      (p : Option String)
      → (payload_ok json p ≡ true) ↔ ((s : String) → p ≡ some s → json.is_valid s ≡ true)
  payload_ok_iff none = (λ h s e. cc, λ h. refl)
  payload_ok_iff (some t) = (λ h s e. ground arith, λ h. h t refl)

  pub record IsAcceptable (input : Input) : Type 0 where
    pub named : input.id ≢ ""
    pub fits : KindFits input.kind input
    pub parses : (s : String) → input.payload ≡ some s → json.is_valid s ≡ true

  -- An input passes validation exactly when its ID is not empty, its kind is external or crash, or
  -- control with a payload that decodes to a control message, and its payload, if there is one, is
  -- valid JSON.
  pub validate_iff : (input : Input) → (validate json input ≡ ok tt) ↔ IsAcceptable input
  unfolding validate
  validate_iff input = (
    (λ h.
        let (_, named, h1) = >>=-eq-ok (reject_if (input.id == "") Error.empty_id) _ h in
        let (_, kind, h2) = >>=-eq-ok (check_kind json input.kind input) _ h1 in
        record {
          named = ground (arith, eq_iff input.id "");
          fits = (check_kind_iff input.kind input).0 kind;
          parses = (payload_ok_iff input.payload).0 (ground arith);
        }),
    λ a. ground (
      arith,
      eq_iff input.id "",
      (check_kind_iff input.kind input).1 a.fits,
      (payload_ok_iff input.payload).1 a.parses,
    ),
  )
