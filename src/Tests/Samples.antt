-- ===== src/Tests/Samples.antt =====
-- The data that the tests share. `sample_json` stands in for `encoding/json`.
use unreal_agent.Base.{
  String, true, false, none, some, [], ◌∷◌, ◌==◌, string_eq, if◌then◌else◌, pos,
}
use unreal_agent.Llm.{ReasoningEffort}
use unreal_agent.Inbox.{
  Input, external, control, Settings, Envelope, Json, heartbeat, update_settings, stop_hard,
}
use unreal_agent.Operation.{Operation, Status}
use unreal_agent.Store.{Turn, regular, ToolCallStatus}

abbrev pub sample_settings : Settings
sample_settings = record {
  model = "small";
  compaction_threshold = some (pos 1000);
  max_output_tokens = none;
  reasoning_effort = ReasoningEffort.high;
}

abbrev envelope_of : String → Envelope
envelope_of s =
    if s == "settings"
    then record { mode = update_settings; reason = "user"; parameters = some "parameters" }
    else if s == "beat"
    then record { mode = heartbeat; reason = "waited"; parameters = none }
    else record { mode = stop_hard; reason = "quit"; parameters = none }

abbrev pub sample_json : Json
sample_json = record {
  is_valid = λ s. if s == "broken" then false else true;
  envelope = λ s. if s == "broken" then none else some (envelope_of s);
  settings = λ s. some sample_settings;
  text = λ s. if s == "broken" then none else some s;
}

abbrev pub hello : Input
hello = record { id = "in-1"; kind = external; payload = some "hello" }

abbrev pub new_settings : Input
new_settings = record { id = "in-2"; kind = control; payload = some "settings" }

abbrev pub first_turn : Turn
first_turn = record { id = "turn-1"; previous_turn_id = ""; type = regular }

abbrev pub ready_operation : Operation
ready_operation = record {
  max_output_length = pos 100;
  id = "op-1";
  type = "shell";
  version = 1;
  status = Status.ready;
  state = some "state";
  idempotency = none;
}

abbrev pub done_operation : Operation
done_operation = record ready_operation { status = Status.completed }

abbrev pub waiting_status : ToolCallStatus
waiting_status = record {
  turn_id = "turn-1";
  call_id = "call-1";
  status = record { error = ""; error_truncated = false; waiting_for = "op-1" ∷ [] };
  operations = [];
}
