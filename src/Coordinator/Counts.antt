-- ===== src/Coordinator/Counts.antt =====
-- The counts of available and delivered inputs in harness/coordinator/loop.go.
use unreal_agent.Base.{
  ℕ, suc, ◌+◌, ◌≤◌, ◌≡◌, refl, ◌∙◌, String, Bool, true, false, not, Option, none, some, List, [],
  ◌∷◌, arith, length, Result, ok, err, with_error, or_fail, Holds, >>=-Holds, Holds-ok, Bool-cases,
  inl, inr, if◌then◌else◌, ◌==◌, string_eq, ◌&&◌, filter_by, Holds-mono,
}
use unreal_agent.Llm.{Item, ItemData, message, tool_call, tool_result, provider}
use unreal_agent.Inbox.{
  Json, Input, InputKind, external, control, crash, validate, decode_control_message,
}
use unreal_agent.Operation.{Operation}
use unreal_agent.Store
use unreal_agent.Store.{ToolCallStatus, ModelResponse}
use unreal_agent.Store.Head.{CallKey, call_key_eq}
use unreal_agent.Context.Builder.{Builder, add_external_input}
use unreal_agent.Coordinator.State.{
  LoopState, ToolCallState, new_loop_state, find_call, clear_tool_grace, add_operations,
  add_operation, add_tool_calls, add_output, add_tool_call_operations, is_empty, note_status,
  finish_tool_call, key_of, tool_call_operations_are_terminal,
}
use unreal_agent.Coordinator.Local.{
  Local, Resolve, Translator, Error, not_translated, add_item, restore_item, add_result_with,
  add_tool_result_to_local, add_waited, add_result_of, not_in_context, not_decoded, invalid_input,
  add_input, check_translator, add_response, tool_call_requires_translator, is_compaction,
}
use unreal_agent.Coordinator.Load.{restore_items}

-- What is delivered was available to a turn, and what was available to a turn is available.
abbrev pub IsCounted : LoopState → Type 0
IsCounted s =
    (s.delivered_inputs ≤ s.current_turn_inputs) × (s.current_turn_inputs ≤ s.available_inputs)

-- From `s` to `t` one input more is available, at most.
abbrev pub Counts : LoopState → LoopState → Type 0
Counts s t =
    (s.available_inputs ≤ t.available_inputs)
    × (t.available_inputs ≤ suc s.available_inputs)
    × (IsCounted s → IsCounted t)

abbrev pub SameCounts : LoopState → LoopState → Type 0
SameCounts s t =
    (t.available_inputs ≡ s.available_inputs)
    × (t.delivered_inputs ≡ s.delivered_inputs)
    × (t.current_turn_inputs ≡ s.current_turn_inputs)

pub add_operations-SameCounts :
    (s : LoopState) (values : List Operation) → SameCounts s (add_operations s values)
unfolding add_operations add_operation
add_operations-SameCounts s [] = (refl, refl, refl)
add_operations-SameCounts s (value ∷ values) =
    add_operations-SameCounts (add_operation s value) values

add_output-SameCounts :
    (s : LoopState) (turn_id : String) (content : ItemData)
    → SameCounts s (add_output s turn_id content)
unfolding add_output
add_output-SameCounts s turn_id (message m) = (refl, refl, refl)
add_output-SameCounts s turn_id (tool_call c) = (refl, refl, refl)
add_output-SameCounts s turn_id (tool_result r) = (refl, refl, refl)
add_output-SameCounts s turn_id (provider p) = (refl, refl, refl)

add_tool_calls-SameCounts :
    (s : LoopState) (turn_id : String) (items : List Item)
    → SameCounts s (add_tool_calls s turn_id items)
unfolding add_tool_calls
add_tool_calls-SameCounts s turn_id [] = (refl, refl, refl)
add_tool_calls-SameCounts s turn_id (item ∷ items) =
    let (a, d, c) = add_output-SameCounts s turn_id item.content in
    let (a', d', c') =
      add_tool_calls-SameCounts (add_output s turn_id item.content) turn_id items in
    (a' ∙ a, d' ∙ d, c' ∙ c)

note_status-SameCounts :
    (o : Option ToolCallState) (s : LoopState) (status : ToolCallStatus)
    → SameCounts s (note_status o s status)
unfolding note_status
note_status-SameCounts none s status = (refl, refl, refl)
note_status-SameCounts (some call) s status = (refl, refl, refl)

finish_tool_call-Counts : (s : LoopState) (key : CallKey) → Counts s (finish_tool_call s key)
unfolding finish_tool_call clear_tool_grace
finish_tool_call-Counts s key =
    elim (Bool-cases (is_empty (filter_by (λ j. not (j == key)) s.grace_tool_calls))) [
      | inl none_left ↦ rw none_left (omega arith, omega arith, λ c. (c.0, omega arith))
      | inr some_left ↦ rw some_left (omega arith, omega arith, λ c. (c.0, omega arith))
    ]

add_waited-Counts :
    (t : Translator) (l : Local) (s : ToolCallStatus) (o : Option (List Operation))
    → Holds (λ (k : Local). Counts l.loop k.loop) (add_waited t l s o)
unfolding add_waited
add_waited-Counts t l s none = (omega arith, omega arith, λ c. c)
add_waited-Counts t l s (some values) =
    >>=-Holds (λ (k : Local). Counts l.loop k.loop)
      (or_fail (t.translate_result s.call_id s.status values) (not_translated s.call_id)) _
      (λ output _. finished-Counts (not (tool_call_operations_are_terminal l.loop (key_of s))))
  where
    finished-Counts :
        (running : Bool)
        → Counts l.loop (if running then l.loop else finish_tool_call l.loop (key_of s))
    finished-Counts true = (omega arith, omega arith, λ c. c)
    finished-Counts false = finish_tool_call-Counts l.loop (key_of s)

Counts-after :
    (s : LoopState) (l : Local)
    → SameCounts s l.loop
    → (r : Result Error Local) → Holds (λ (k : Local). Counts l.loop k.loop) r
    → Holds (λ (k : Local). Counts s k.loop) r
Counts-after s l (a, d, c) (ok k) (more, most, kept) =
    (omega arith, omega arith, λ h. kept (omega arith, omega arith))
Counts-after s l same (err e) h = h

module _ (resolve : Resolve) where
  add_result_with-Counts :
      (o : Option Translator) (l : Local) (call : ToolCallState) (s : ToolCallStatus)
      → Holds (λ (k : Local). Counts l.loop k.loop) (add_result_with resolve o l call s)
  unfolding add_result_with
  add_result_with-Counts none l call s = elim (Bool-cases (tool_call_requires_translator s)) [
    | inl needed ↦ rw needed (omega arith, omega arith, λ c. c)
    | inr not_needed ↦ rw not_needed (finish_tool_call-Counts l.loop (key_of s))
  ]
  add_result_with-Counts (some t) l call s = add_waited-Counts t l s _

  add_result_of-Counts :
      (o : Option ToolCallState) (l : Local) (s : ToolCallStatus)
      → Holds (λ (k : Local). Counts l.loop k.loop) (add_result_of resolve o l s)
  unfolding add_result_of
  add_result_of-Counts none l s = (omega arith, omega arith, λ c. c)
  add_result_of-Counts (some call) l s =
      add_result_with-Counts (resolve call.tool_call.name) l call s

  module _ (json : Json) where
    add_input-Counts :
        (kind : InputKind) (l : Local) (input : Input)
        → Holds (λ (k : Local). Counts l.loop k.loop) (add_input resolve json kind l input)
    unfolding add_input
    add_input-Counts external l input =
        >>=-Holds (λ (k : Local). Counts l.loop k.loop)
          (with_error not_in_context (add_external_input json l.builder input)) _
          (λ b _. (omega arith, omega arith, λ c. (c.0, omega arith)))
    add_input-Counts control l input =
        >>=-Holds (λ (k : Local). Counts l.loop k.loop)
          (with_error not_decoded (decode_control_message json input)) _ (λ m _. ground arith)
    add_input-Counts crash l input = (omega arith, omega arith, λ c. c)
    add_input-Counts (InputKind.other k) l input = (omega arith, omega arith, λ c. c)

    add_response-Counts :
        (l : Local) (r : ModelResponse) → Counts l.loop (add_response resolve json l r).loop
    add_response-Counts l r =
        elim (Bool-cases
          (is_compaction l.loop.current_turn_type && r.turn_id == l.loop.current_turn_id)) [
            | inl compacted ↦ rw compacted (omega arith, omega arith, λ c. c)
            | inr regular ↦ rw regular (delivered-Counts (r.turn_id == l.loop.current_turn_id))
          ]
      where
        delivered-Counts :
            (current : Bool)
            → Counts l.loop (
                add_tool_calls
                  (if current
                    then record l.loop { delivered_inputs = l.loop.current_turn_inputs }
                    else l.loop)
                  r.turn_id
                  r.response.output)
        delivered-Counts true =
            let (a, d, c) =
              add_tool_calls-SameCounts
                (record l.loop { delivered_inputs = l.loop.current_turn_inputs }) r.turn_id
                r.response.output in
            (omega arith, omega arith, λ h. (omega arith, omega arith))
        delivered-Counts false =
            let (a, d, c) = add_tool_calls-SameCounts l.loop r.turn_id r.response.output in
            (omega arith, omega arith, λ h. (omega arith, omega arith))

    -- An item makes one input more available at most, and keeps the counts in order.
    pub add_item-Counts :
        (l : Local) (content : Store.ItemData)
        → Holds (λ (k : Local). Counts l.loop k.loop) (add_item resolve json l content)
    unfolding add_item clear_tool_grace add_tool_call_operations add_tool_result_to_local
    add_item-Counts l (Store.ItemData.fork f) = (omega arith, omega arith, λ c. c)
    add_item-Counts l (Store.ItemData.input input) =
        >>=-Holds (λ (k : Local). Counts l.loop k.loop)
          (with_error invalid_input (validate json input)) _
          (λ _ _. add_input-Counts input.kind l input)
    add_item-Counts l (Store.ItemData.turn turn) =
        (omega arith, omega arith, λ c. (omega arith, omega arith))
    add_item-Counts l (Store.ItemData.model_response r) = add_response-Counts l r
    add_item-Counts l (Store.ItemData.tool_call_status s) =
        let values = add_operations l.loop s.operations in
        let (a, d, c) = add_operations-SameCounts l.loop s.operations in
        let (a', d', c') =
          note_status-SameCounts (find_call (key_of s) values.tool_calls) values s in
        let noted = record l { loop = add_tool_call_operations values s } in
        Counts-after l.loop noted (a' ∙ a, d' ∙ d, c' ∙ c)
          (add_result_of resolve (find_call (key_of s) noted.loop.tool_calls) noted s)
          (add_result_of-Counts (find_call (key_of s) noted.loop.tool_calls) noted s)

    restore_item-Counts :
        (l : Local) (item : Store.Item)
        → Holds (λ (k : Local). Counts l.loop k.loop) (restore_item resolve json l item)
    unfolding restore_item
    restore_item-Counts l item =
        >>=-Holds (λ (k : Local). Counts l.loop k.loop)
          (check_translator resolve json l item.content) _ (λ _ _. add_item-Counts l item.content)

    restore_items-Counts :
        (items : List Store.Item) (l : Local) (n : ℕ)
        → IsCounted l.loop
        → l.loop.available_inputs ≤ n
        → Holds
            (λ (k : Local). IsCounted k.loop × (k.loop.available_inputs ≤ n + length items))
            (restore_items (restore_item resolve json) l items)
    unfolding restore_items
    restore_items-Counts [] l n h bound = (h, omega arith)
    restore_items-Counts (item ∷ items) l n h bound =
        >>=-Holds
          (λ (k : Local). IsCounted k.loop × (k.loop.available_inputs ≤ n + length (item ∷ items)))
          (restore_item resolve json l item) _
          (λ k e.
            let (more, most, kept) =
              Holds-ok (λ (k : Local). Counts l.loop k.loop) e (restore_item-Counts l item) in
            Holds-mono
              (λ (k : Local). IsCounted k.loop × (k.loop.available_inputs ≤ suc n + length items))
              (λ (k : Local).
                IsCounted k.loop × (k.loop.available_inputs ≤ n + length (item ∷ items)))
              (restore_items (restore_item resolve json) k items)
              (λ t (counted, most'). (counted, omega arith))
              (restore_items-Counts items k (suc n) (kept h) (omega arith)))

    -- After a history is restored, no more inputs are delivered than were available to the current
    -- turn, no more of these than are available, and no more are available than there are items.
    pub restored-IsCounted :
        (b : Builder) (items : List Store.Item) {l : Local}
        → restore_items
            (restore_item resolve json)
            (record { loop = new_loop_state; builder = b })
            items
          ≡ ok l
        → IsCounted l.loop × (l.loop.available_inputs ≤ length items)
    unfolding new_loop_state
    restored-IsCounted b items e =
        let (counted, most) =
          Holds-ok (λ (k : Local). IsCounted k.loop × (k.loop.available_inputs ≤ 0 + length items))
            e (restore_items-Counts items _ 0 (omega arith, omega arith) (omega arith)) in
        (counted, omega arith)
