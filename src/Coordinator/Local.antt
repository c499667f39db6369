-- ===== src/Coordinator/Local.antt =====
-- harness/coordinator/loop.go: what an item of the history does to the coordinator's own state and
-- to its context builder (`restoreItem`, `addItemToLocalState`).
use mathlib.Core.Option
use unreal_agent.Base.{
  ℕ, suc, String, Bool, true, false, not, ◌&&◌, ◌||◌, Option, none, some, List, [], ◌∷◌, ◌==◌,
  string_eq, if◌then◌else◌, Result, ok, ◌>>=◌, ◌>>◌, with_error, or_fail, reject_if, is_some,
}
use unreal_agent.Llm.{ToolCall, ToolResultKind, ToolResultOutput, Response, StopReason, complete}
use unreal_agent.Inbox.{
  Json, Input, InputKind, external, control, validate, decode_control_message, ControlMessage,
  ControlMode, heartbeat,
}
use unreal_agent.Inbox
use unreal_agent.Operation.{Operation, Spec, CallStatus}
use unreal_agent.Store.{Item, ItemData, TurnType, compaction, Turn, ModelResponse, ToolCallStatus}
use unreal_agent.Context.Builder
use unreal_agent.Context.Builder.{
  Builder, add_external_input, add_control_message, add_model_response, add_tool_result, commit,
}
use unreal_agent.Context.Compaction.{compact}
use unreal_agent.Context.Changes.{or_same}
use unreal_agent.Coordinator.State.{
  LoopState, ToolCallState, find_call, find_operation, has_id, clear_tool_grace, add_operations,
  add_tool_calls, add_tool_call_operations, finish_tool_call, tool_call_operations_are_terminal,
  key_of,
}

-- A tool, as harness/tool/tool.go's `Translator`: `translate` is given what each `Submit` returns,
-- and yields the status and the specs submitted. `none` is an error of `TranslateResult`, whose
-- result is taken through `ToLLMResult`.
pub record Translator : Type 0 where
  pub translate : (ℕ → String) → ToolCall → CallStatus × List Spec
  pub translate_result : String → CallStatus → List Operation → Option (List ToolResultOutput)

-- `Registry.Resolve`
abbrev pub Resolve : Type 0
Resolve = String → Option Translator

-- The part of the coordinator that the history makes up: `state` and the context builder.
pub record Local : Type 0 where
  pub loop : LoopState
  pub builder : Builder

pub data Error : Type 0 where
  invalid_input : Inbox.Error → Error
  not_in_context : Builder.Error → Error
  not_decoded : Inbox.Error → Error
  not_translated : String → Error
  not_available : String → Error

abbrev pub is_heartbeat : ControlMode → Bool
is_heartbeat heartbeat = true
is_heartbeat _ = false

abbrev pub is_compaction : TurnType → Bool
is_compaction compaction = true
is_compaction _ = false

abbrev is_complete : StopReason → Bool
is_complete complete = true
is_complete _ = false

-- `applyCompactionResponse`
unfoldable pub apply_compaction_response : Builder → Response → Builder
unfolding compact
apply_compaction_response b r = if not (is_complete r.stop) then b else or_same b (compact b r)

-- `toolCallRequiresTranslator`
abbrev is_nonempty {ℓ} : {A : Type ℓ} → List A → Bool
is_nonempty [] = false
is_nonempty (x ∷ xs) = true

unfoldable pub tool_call_requires_translator : ToolCallStatus → Bool
tool_call_requires_translator s =
    s.status.error == "" || is_nonempty s.status.waiting_for || is_nonempty s.operations

-- The operations that a status waits for; `none` where one is not the call's or not known.
unfoldable pub waited : ToolCallState → List Operation → List String → Option (List Operation)
waited call values [] = some []
waited call values (id ∷ ids) =
    let rest = waited call values ids in
    if not (has_id id call.operations) then none else elim (find_operation id values) [
      | none ↦ none
      | some value ↦ Option.map (λ more. value ∷ more) rest
    ]

-- The end of `addToolResultToLocalState`, behind its loop.
unfoldable pub add_waited :
    Translator → Local → ToolCallStatus → Option (List Operation) → Result Error Local
unfolding finish_tool_call tool_call_operations_are_terminal add_tool_result
add_waited translator l s none = ok l
add_waited translator l s (some values) = do
  output ←
      or_fail (translator.translate_result s.call_id s.status values) (not_translated s.call_id)
  let running = not (tool_call_operations_are_terminal l.loop (key_of s))
  ok (record {
    loop = if running then l.loop else finish_tool_call l.loop (key_of s);
    builder = add_tool_result l.builder s.call_id output running;
  })

module _ (resolve : Resolve) where
  unfoldable pub add_result_with :
      Option Translator → Local → ToolCallState → ToolCallStatus → Result Error Local
  unfolding waited tool_call_requires_translator finish_tool_call add_waited add_tool_result
  add_result_with none l call s =
      if tool_call_requires_translator s
      then ok l
      else ok (record {
        loop = finish_tool_call l.loop (key_of s);
        builder =
            add_tool_result l.builder s.call_id
              (record { kind = ToolResultKind.text; value = s.status.error } ∷ []) false;
      })
  add_result_with (some translator) l call s =
      add_waited translator l s (waited call l.loop.operations s.status.waiting_for)

  unfoldable pub add_result_of : Option ToolCallState → Local → ToolCallStatus → Result Error Local
  unfolding add_result_with
  add_result_of none l s = ok l
  add_result_of (some call) l s = add_result_with (resolve call.tool_call.name) l call s

  -- `addToolResultToLocalState`
  unfoldable pub add_tool_result_to_local : Local → ToolCallStatus → Result Error Local
  unfolding add_result_of
  add_tool_result_to_local l s = add_result_of (find_call (key_of s) l.loop.tool_calls) l s

  module _ (json : Json) where
    -- The `ItemInput` case, after `Validate`.
    unfoldable pub add_input : InputKind → Local → Input → Result Error Local
    unfolding add_external_input add_control_message decode_control_message
    add_input external l input = do
      b ← with_error not_in_context (add_external_input json l.builder input)
      ok (record {
        builder = b;
        loop = record l.loop { available_inputs = suc l.loop.available_inputs };
      })
    add_input control l input = do
      m ← with_error not_decoded (decode_control_message json input)
      ok (record {
        builder = add_control_message l.builder m;
        loop = record l.loop {
          available_inputs =
              if is_heartbeat m.mode then suc l.loop.available_inputs else l.loop.available_inputs;
        };
      })
    add_input _ l input = ok l

    -- The `ItemTurn` case.
    abbrev pub add_turn : Local → Turn → Local
    add_turn l turn = record {
      loop = record l.loop {
        current_turn_id = turn.id;
        current_turn_type = turn.type;
        current_turn_inputs = l.loop.available_inputs;
      };
      builder = if is_compaction turn.type then l.builder else commit l.builder;
    }

    -- The `ItemModelResponse` case.
    abbrev pub add_response : Local → ModelResponse → Local
    add_response l r =
        if is_compaction l.loop.current_turn_type && r.turn_id == l.loop.current_turn_id
        then record l { builder = apply_compaction_response l.builder r.response }
        else record {
          builder = add_model_response l.builder r.response;
          loop =
              add_tool_calls
                (if r.turn_id == l.loop.current_turn_id
                  then record l.loop { delivered_inputs = l.loop.current_turn_inputs }
                  else l.loop)
                r.turn_id r.response.output;
        }

    -- `addItemToLocalState`
    unfoldable pub add_item : Local → ItemData → Result Error Local
    unfolding add_input commit add_model_response apply_compaction_response add_tool_calls
        add_operations add_tool_call_operations add_tool_result_to_local clear_tool_grace validate
    add_item l (ItemData.fork f) =
        ok (record l {
          loop = clear_tool_grace (record l.loop { tool_calls = []; operations = [] });
        })
    add_item l (ItemData.input input) = do
      with_error invalid_input (validate json input)
      add_input input.kind l input
    add_item l (ItemData.turn turn) = ok (add_turn l turn)
    add_item l (ItemData.model_response r) = ok (add_response l r)
    add_item l (ItemData.tool_call_status s) =
        add_tool_result_to_local
          (record l { loop = add_tool_call_operations (add_operations l.loop s.operations) s }) s

    -- The test that `restoreItem` makes of a status before the item is added.
    unfoldable pub check_translator : Local → ItemData → Result Error (Unit {0})
    unfolding tool_call_requires_translator
    check_translator l (ItemData.tool_call_status s) =
        elim (find_call (key_of s) l.loop.tool_calls) [
          | none ↦ ok tt
          | some call ↦
              reject_if
                (tool_call_requires_translator s && not (is_some (resolve call.tool_call.name)))
                (not_available s.call_id)
        ]
    check_translator l _ = ok tt

    -- `restoreItem`
    unfoldable pub restore_item : Local → Item → Result Error Local
    unfolding check_translator add_item
    restore_item l item = do check_translator l item.content; add_item l item.content

unfoldable pub restore_operations : Local → List Operation → Local
unfolding add_operations
restore_operations l values = record l { loop = add_operations l.loop values }
