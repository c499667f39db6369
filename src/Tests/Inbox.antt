-- ===== src/Tests/Inbox.antt =====
-- The inbox at concrete inputs (harness/inbox).
use unreal_agent.Base.{
  ◌≡◌, refl, ◌↔◌, true, false, not, some, List, [], ◌∷◌, ok, err, filter_by, if◌then◌else◌, ◌==◌,
  string_eq, arith,
}
use unreal_agent.Text.{raw}
use unreal_agent.Inbox.{
  control, Envelope, ControlMessage, update_settings, validate, decode_control_message, Error,
}
use unreal_agent.Inbox.Validation.{IsAcceptable, Fits, validate_iff, decode_control_message-Fits}
use unreal_agent.Inbox.Queue.{
  Loop, Event, received, delivered, new, submit, step, run, Handover, SubmitError,
}
use unreal_agent.Inbox.Queue.Delivery.{
  passed, submissions, firsts, is_listed, deliveries, run_delivers_once,
}
use unreal_agent.Tests.Samples.{sample_json, sample_settings, hello, new_settings}

nameless_refused : validate sample_json (record hello { id = "" }) ≡ err Error.empty_id
unfolding validate
nameless_refused = refl

broken_refused :
    submit sample_json false false Handover.accepted (record hello { payload = some "broken" })
    ≡ err (SubmitError.invalid Error.invalid_payload)
unfolding submit validate
broken_refused = refl

validate_iff_example :
    (validate sample_json new_settings ≡ ok tt) ↔ IsAcceptable sample_json new_settings
validate_iff_example = validate_iff sample_json new_settings

abbrev decoded : ControlMessage
decoded = record { mode = update_settings; reason = "user"; parameters = some sample_settings }

decode_control_message-Fits_example :
    (new_settings.kind ≡ control)
    × ((e : Envelope) × (sample_json.envelope (raw new_settings.payload) ≡ some e)
        × (decoded.mode ≡ e.mode)
        × (decoded.reason ≡ e.reason))
    × Fits decoded.mode decoded.reason decoded.parameters
unfolding decode_control_message
decode_control_message-Fits_example =
    decode_control_message-Fits sample_json new_settings {c = decoded} refl

abbrev history : List Event
history = received hello ∷ received hello ∷ delivered ∷ received new_settings ∷ []

abbrev started : Loop
started = record { seen = λ j. if "in-0" == j then true else false; queued = []; sent = [] }

history_runs : (run started history).sent ≡ hello ∷ []
unfolding run step
history_runs = refl

run_delivers_once_example :
    let expected =
      filter_by (λ i. not (is_listed ("in-0" ∷ []) i.id)) (firsts (submissions history)) in
    (passed (run started history) ≡ expected)
    × ((run (run started history) (deliveries 2)).sent ≡ expected)
unfolding new run step
run_delivers_once_example =
    run_delivers_once ("in-0" ∷ []) history {l = started} 2 refl (omega arith)
