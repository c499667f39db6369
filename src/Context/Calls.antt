-- ===== src/Context/Calls.antt =====
-- harness/contextbuilder/compaction.go: the tool calls of a stretch of history that have no final
-- result there.
use unreal_agent.Base.{
  String, Option, none, some, List, [], ◌∷◌, ◌++◌, ◌==◌, string_eq, if◌then◌else◌, KeyMap, put,
  empty_map,
}
use unreal_agent.Llm.{Item, ItemData, tool_call, tool_result, ToolCall, ToolResult}

-- `compactionToolCall`
pub record PendingCall : Type 0 where
  pub item : Item
  pub result : Option ToolResult

-- `compactionToolCalls`
pub record PendingCalls : Type 0 where
  pub calls : KeyMap String PendingCall
  pub order : List String

unfoldable pub add_tool_call : PendingCalls → Item → ToolCall → PendingCalls
add_tool_call p item call = record {
  calls = put call.call_id (record { item = item; result = none }) p.calls;
  order = p.order ++ call.call_id ∷ [];
}

-- `delete(current.calls, id)`
abbrev pub remove {ℓ} : {V : Type ℓ} → String → KeyMap String V → KeyMap String V
remove k m j = if k == j then none else m j

abbrev pub record_result : Option PendingCall → ToolResult → PendingCalls → PendingCalls
record_result none r p = p
record_result (some call) r p =
    if r.running
    then record p { calls = put r.call_id (record call { result = some r }) p.calls }
    else record p { calls = remove r.call_id p.calls }

-- `addToolResult`
unfoldable pub note_tool_result : PendingCalls → ToolResult → PendingCalls
note_tool_result p r = record_result (p.calls r.call_id) r p

unfoldable pub note_item : PendingCalls → Item → ItemData → PendingCalls
unfolding add_tool_call note_tool_result
note_item p item (tool_call call) = add_tool_call p item call
note_item p item (tool_result r) = note_tool_result p r
note_item p item _ = p

unfoldable pub collect_from : PendingCalls → List Item → PendingCalls
unfolding note_item
collect_from p [] = p
collect_from p (item ∷ items) = collect_from (note_item p item item.content) items

unfoldable pub collect_pending_tool_calls : List Item → PendingCalls
unfolding collect_from
collect_pending_tool_calls prefix = collect_from (record { calls = empty_map; order = [] }) prefix
