-- ===== src/Store/Files/Formatted.antt =====
-- The items of a session's state keep raw texts as JSON writes them, when the calls' values do
-- (harness/sessionstore/localfile/state.go).
use unreal_agent.Base.{ℕ, ap, sym, subst, List, [], Result, Holds, >>=-Holds, map_ok, ok, err, All}
use unreal_agent.Inbox.{Json}
use unreal_agent.Store.{Item, ItemData, ToolCallStatus}
use unreal_agent.Store.Head.{SessionHead, Error}
use unreal_agent.Store.Status
use unreal_agent.Store.State.{
  StoredState, append_input, append_turn, append_model_response, append_tool_call_status,
  save_operation, with_operations, keep_item,
}
use unreal_agent.Store.Commands.{apply}
use unreal_agent.Store.Lines.{All-append_one}
use unreal_agent.Store.Codec.{Codec, IsFormatted, IsFormattedOperation}
use unreal_agent.Store.Log.Initial.{AreFormatted}
use unreal_agent.Store.Files.{Append}
use unreal_agent.Store.Files.Appended.{command, IsFormattedCall}
use unreal_agent.Store.Files.Heads.{
  IsAppended, append_input-IsAppended, append_turn-IsAppended, append_model_response-IsAppended,
}
use unreal_agent.Operation.{Operation}

module _ (json : Json) (c : Codec) (s : StoredState) (now : ℕ)
    (formatted : AreFormatted c s.items) where
  kept-AreFormatted :
      (content : ItemData) (r : Result Error (SessionHead × Item))
      → IsFormatted c content
      → Holds (IsAppended s.head content now) r
      → Holds (λ (next : StoredState). AreFormatted c next.items) (keep_item s r)
  kept-AreFormatted content (err e) h made = tt
  kept-AreFormatted content (ok (head, i)) h made =
      All-append_one (λ (j : Item). IsFormatted c j.content) s.items i formatted
        (subst (IsFormatted c) (sym (ap (λ (j : Item). j.content) made.made)) h)

  status-AreFormatted :
      (bare : ToolCallStatus) (operations : List Operation) (r : Result Error (SessionHead × Item))
      → All (IsFormattedOperation c) operations
      → Holds
          (λ (next : StoredState). AreFormatted c next.items)
          (keep_item s (map_ok (with_operations bare operations) r))
  status-AreFormatted bare operations (err e) h = tt
  status-AreFormatted bare operations (ok (head, i)) h =
      All-append_one (λ (j : Item). IsFormatted c j.content) s.items _ formatted h

  -- A call that succeeds adds at most an item of the call's value.
  pub apply-AreFormatted :
      (a : Append)
      → IsFormattedCall c a
      → Holds (λ (next : StoredState). AreFormatted c next.items) (apply json s (command a now))
  unfolding apply append_input append_turn append_model_response append_tool_call_status
      save_operation
  apply-AreFormatted (Append.input value) h =
      kept-AreFormatted (ItemData.input value) _ h (append_input-IsAppended json s.head value now)
  apply-AreFormatted (Append.turn value) h =
      kept-AreFormatted (ItemData.turn value) _ tt (append_turn-IsAppended json s.head value now)
  apply-AreFormatted (Append.model_response value) h =
      kept-AreFormatted (ItemData.model_response value) _ h
        (append_model_response-IsAppended json s.head value now)
  apply-AreFormatted (Append.tool_call_status value) h =
      status-AreFormatted (record value { operations = [] }) value.operations
        (Status.append_tool_call_status json s.head (record value { operations = [] })
          value.operations now)
        h
  apply-AreFormatted (Append.operation value) h =
      >>=-Holds (λ (next : StoredState). AreFormatted c next.items)
        (Status.save_operation json s.head value) _ (λ head e. formatted)
