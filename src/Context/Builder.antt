-- ===== src/Context/Builder.antt =====
-- harness/contextbuilder/builder.go: the committed prefix and the staged suffix of the model's input.
use Prim.Native.String.{◌++◌ as append_text}
use unreal_agent.Base.{
  ℕ, String, Bool, false, not, ◌&&◌, Option, none, some, List, [], ◌∷◌, ◌++◌, Result, ok, ◌>>=◌,
  ◌>>◌, or_fail, reject_if, ◌==◌, string_eq, if◌then◌else◌, length, set, ℤ, ◌+ℤ◌, wrap64,
}
use unreal_agent.Text.{raw, trim_space}
use unreal_agent.Llm.{
  Item, ItemData, message, tool_result, Role, Tool, ToolResultKind, ToolResultOutput, Model,
  Request, Response, ReasoningEffort,
}
use unreal_agent.Inbox.{
  Input, is_external, ControlMessage, ControlMode, heartbeat, update_settings, Settings, Json,
  is_unset,
}

-- `prefixToken`: how long the prefix was behind a response, and the tokens that it took.
pub record PrefixToken : Type 0 where
  pub committed_prefix_index : ℕ
  pub tokens : ℤ  -- int64

-- The Go builder keeps `model` and `tools` in its `request`.
pub record Builder : Type 0 where
  pub model : Model
  pub tools : List Tool
  pub preamble : String
  pub system_prompt : String
  pub committed_prefix : List Item
  pub staged_suffix : List Item
  pub prefix_tokens : List PrefixToken

abbrev pub plain_item : ItemData → Item
plain_item content = record { provider_id = ""; content = content }

abbrev pub message_item : Role → String → Item
message_item role text = plain_item (message (record { role = role; text = text; phase = "" }))

abbrev pub system_item : String → String → Item
system_item preamble prompt =
    message_item Role.system (trim_space (append_text preamble (append_text "\n\n" prompt)))

-- `current.committedPrefix[0] = …`
unfoldable pub set_system_prompt : Builder → String → Builder
set_system_prompt b prompt = record b {
  system_prompt = prompt;
  committed_prefix = set b.committed_prefix 0 (system_item b.preamble prompt);
}

abbrev pub no_model : Model
no_model = record {
  id = "";
  compaction_threshold = ℤ.pos 0;
  max_output_tokens = none;
  reasoning_effort = ReasoningEffort.other "";
}

unfoldable pub new_builder : String → Builder
unfolding set_system_prompt
new_builder preamble =
    set_system_prompt
      (record {
        model = no_model;
        tools = [];
        preamble = preamble;
        system_prompt = "";
        committed_prefix = message_item Role.system "" ∷ [];
        staged_suffix = [];
        prefix_tokens = [];
      })
      ""

unfoldable pub stage_items : Builder → List Item → Builder
stage_items b items = record b { staged_suffix = b.staged_suffix ++ items }

pub data Error : Type 0 where
  not_external malformed_input no_history : Error

unfoldable pub add_external_input : Json → Builder → Input → Result Error Builder
unfolding stage_items
add_external_input json b input = do
  reject_if (not (is_external input.kind)) not_external
  text ← or_fail (json.text (raw input.payload)) malformed_input
  ok (stage_items b (message_item Role.user text ∷ []))

unfoldable pub set_model : Builder → Model → Builder
set_model b model = record b { model = model }

abbrev or_keep {ℓ} : {A : Type ℓ} → Option A → A → A
or_keep none old = old
or_keep (some new) old = new

abbrev set_or_keep {ℓ} : {A : Type ℓ} → Option A → Option A → Option A
set_or_keep none old = old
set_or_keep (some new) old = some new

-- The `UpdateSettings` case of `AddControlMessage`.
unfoldable pub apply_settings : Builder → Settings → Builder
apply_settings b s =
    let changed = not (s.model == "") && not (b.model.id == s.model) in
    record b {
      model = record {
        id = if changed then s.model else b.model.id;
        compaction_threshold = or_keep s.compaction_threshold b.model.compaction_threshold;
        max_output_tokens = set_or_keep s.max_output_tokens b.model.max_output_tokens;
        reasoning_effort =
            if is_unset s.reasoning_effort then b.model.reasoning_effort else s.reasoning_effort;
      };
      prefix_tokens = if changed then [] else b.prefix_tokens;
    }

-- The `switch request.Mode`; the type assertion of an update's parameters would panic on `none`.
unfoldable pub add_mode : ControlMode → ControlMessage → Builder → Builder
unfolding apply_settings stage_items
add_mode update_settings m b = elim m.parameters [ none ↦ b | some s ↦ apply_settings b s ]
add_mode heartbeat m b = stage_items b (message_item Role.user m.reason ∷ [])
add_mode _ m b = b

unfoldable pub add_control_message : Builder → ControlMessage → Builder
unfolding add_mode
add_control_message b m = add_mode m.mode m b

unfoldable pub add_model_response : Builder → Response → Builder
add_model_response b r =
    let prefix = b.committed_prefix ++ r.output in
    record b {
      committed_prefix = prefix;
      prefix_tokens =
          b.prefix_tokens
          ++ record {
            committed_prefix_index = length prefix;
            tokens = wrap64 (r.usage.input_tokens +ℤ r.usage.output_tokens);
          }
            ∷ [];
    }

unfoldable pub add_tool : Builder → Tool → Builder
add_tool b tool = record b { tools = b.tools ++ tool ∷ [] }

abbrev pub running_payload : List ToolResultOutput
running_payload =
    record {
      kind = ToolResultKind.text;
      value =
          "Tool call is still running. Its result arrives in a later turn: continue with independent work, or end your turn to wait for it.";
    }
    ∷ []

-- The test of `slices.IndexFunc` in `AddToolResult`.
abbrev pub is_running_result : String → ItemData → Bool
is_running_result call_id (tool_result r) = r.call_id == call_id && r.running
is_running_result call_id _ = false

-- Writes over the first running result of the call, and appends where there is none.
unfoldable pub put_result : String → Item → List Item → List Item
put_result call_id result [] = result ∷ []
put_result call_id result (item ∷ items) =
    if is_running_result call_id item.content
    then result ∷ items
    else item ∷ put_result call_id result items

abbrev pub result_item : String → List ToolResultOutput → Bool → Item
result_item call_id payload running = plain_item (
    tool_result (record {
      call_id = call_id;
      output = if running then running_payload else payload;
      running = running;
    }))

unfoldable pub add_tool_result : Builder → String → List ToolResultOutput → Bool → Builder
unfolding put_result
add_tool_result b call_id payload running = record b {
  staged_suffix = put_result call_id (result_item call_id payload running) b.staged_suffix;
}

unfoldable pub commit : Builder → Builder
commit b = record b { committed_prefix = b.committed_prefix ++ b.staged_suffix; staged_suffix = [] }

unfoldable pub build : Builder → Request
build b = record { model = b.model; input = b.committed_prefix ++ b.staged_suffix; tools = b.tools }
