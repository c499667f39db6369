-- ===== src/Store/Invariant.antt =====
-- What holds of every state that a session can reach: the items are a history, the head is the one
-- that they make up, and the operations are a table.
use unreal_agent.Base.{
  ℕ, ◌≡◌, refl, ap, sym, ◌∙◌, subst, String, not, List, [], ◌∷◌, ◌++◌, ok, ◌==◌, nat_eq, string_eq,
  arith, empty_set, include, Result, err, Holds, >>=-Holds, reject_if-Holds, Holds-ok, map_ok,
  map_ok-Holds, Bool-cases, inl, inr, length,
}
use unreal_agent.Inbox.{Input, Json}
use unreal_agent.Operation.{Operation}
use unreal_agent.Store.{Turn, ModelResponse, ToolCallStatus, Item}
use unreal_agent.Store.Head.{SessionHead, Error, call_key_eq}
use unreal_agent.Store.Head
use unreal_agent.Store.Status
use unreal_agent.Store.Status.{
  key_of, check_operations, validate_status_operation_references, initialize_operations,
  first_status,
}
use unreal_agent.Store.State.{
  StoredState, keep_item, with_operations, new_stored_state, append_input, append_turn,
  append_model_response, append_tool_call_status, save_operation, inherit_head,
}
use unreal_agent.Store.History.{
  item_part, blank_head, replay, IsHistory, Admits, replay-append_one, IsHistory-append_one,
}
use unreal_agent.Store.Extension.{
  Extends, Extending, append_input-Extends, append_turn-Extends, append_model_response-Extends,
  append_tool_call_status-Extends,
}
use unreal_agent.Store.Table.{
  HasTable, save_operation-Saved, Saved-HasTable, check_operations-AreNew,
  initialize_operations-HasTable, Saved,
}
use unreal_agent.Store.Commands.{Command, apply}

module _ (json : Json) where
  pub record IsConsistent (s : StoredState) : Type 0 where
    pub history : IsHistory blank_head s.items
    pub summary : item_part s.head ≡ replay blank_head s.items
    pub table : HasTable json s.head

  -- An item that extends the head, and leaves a table, extends the state.
  pub extend-IsConsistent :
      (s : StoredState) (head : SessionHead) (item : Item)
      → IsHistory blank_head s.items
      → item_part s.head ≡ replay blank_head s.items
      → Extends s.head head item
      → HasTable json head
      → IsConsistent (record { head = head; items = s.items ++ item ∷ [] })
  extend-IsConsistent s head item h w e t = record {
    history =
        IsHistory-append_one blank_head s.items item h (subst (λ k. Admits k item) w e.admitted);
    summary =
        e.extended
        ∙ ap (λ k. inherit_head k item) w
        ∙ sym (replay-append_one blank_head s.items item);
    table = t;
  }

  abbrev TableAfter : SessionHead × Item → Type 0
  TableAfter (head, item) = HasTable json head

  keep_item-IsConsistent :
      (s : StoredState) (r : Result Error (SessionHead × Item))
      → IsConsistent s
      → Holds (Extending s.head) r
      → Holds TableAfter r
      → Holds IsConsistent (keep_item s r)
  keep_item-IsConsistent s (ok (head, item)) v e t =
      extend-IsConsistent s head item v.history v.summary e t
  keep_item-IsConsistent s (err e) v _ _ = tt

  append_input-table :
      (head : SessionHead) (value : Input) (now : ℕ)
      → HasTable json head
      → Holds TableAfter (Head.append_input json head value now)
  unfolding Head.append_input
  append_input-table head value now t = ground arith

  append_turn-table :
      (head : SessionHead) (value : Turn) (now : ℕ)
      → HasTable json head
      → Holds TableAfter (Head.append_turn head value now)
  unfolding Head.append_turn
  append_turn-table head value now t = reject_if-Holds TableAfter (value.id == "") _ _ λ _.
      reject_if-Holds TableAfter (not (value.previous_turn_id == head.latest_turn_id)) _ _
        λ _. reject_if-Holds TableAfter (head.turns value.id) _ _ λ _. t

  append_model_response-table :
      (head : SessionHead) (value : ModelResponse) (now : ℕ)
      → HasTable json head
      → Holds TableAfter (Head.append_model_response head value now)
  unfolding Head.append_model_response
  append_model_response-table head value now t =
      reject_if-Holds TableAfter (not (head.owned_turns value.turn_id)) _ _
        λ _. reject_if-Holds TableAfter (head.responded_turns value.turn_id) _ _ λ _. t

  first_status-table :
      (head : SessionHead) (status : ToolCallStatus) (operations : List Operation) (now : ℕ)
      → HasTable json head
      → Holds TableAfter (first_status json head status operations now)
  unfolding first_status
  first_status-table head status operations now t =
      >>=-Holds TableAfter (check_operations json head.operation_positions empty_set operations) _
        λ u new.
          >>=-Holds TableAfter (validate_status_operation_references status.status operations) _
            λ v refers.
              initialize_operations-HasTable json
                (record head {
                  tool_call_statuses = include (key_of status) head.tool_call_statuses;
                })
                operations t
                (check_operations-AreNew json head.operation_positions head.operation_positions
                  empty_set (length head.operations) operations (λ id _ p. p) new)

  append_tool_call_status-table :
      (head : SessionHead) (status : ToolCallStatus) (operations : List Operation) (now : ℕ)
      → HasTable json head
      → Holds TableAfter (Status.append_tool_call_status json head status operations now)
  unfolding Status.append_tool_call_status
  append_tool_call_status-table head status operations now t =
      reject_if-Holds TableAfter (not (head.owned_turns status.turn_id)) _ _ λ _.
        reject_if-Holds TableAfter (status.call_id == "") _ _ λ _.
          elim (Bool-cases (head.tool_call_statuses (key_of status))) [
            | inl known ↦ rw known t
            | inr fresh ↦ rw fresh (first_status-table head status operations now t)
          ]

  -- A call of the store that succeeds keeps a consistent state consistent.
  pub apply-IsConsistent :
      (s : StoredState) (c : Command) → IsConsistent s → Holds IsConsistent (apply json s c)
  unfolding apply append_input append_turn append_model_response append_tool_call_status
      save_operation
  apply-IsConsistent s (Command.input value now) v =
      keep_item-IsConsistent s (Head.append_input json s.head value now) v
        (append_input-Extends json s.head value now) (append_input-table s.head value now v.table)
  apply-IsConsistent s (Command.turn value now) v =
      keep_item-IsConsistent s (Head.append_turn s.head value now) v
        (append_turn-Extends s.head value now) (append_turn-table s.head value now v.table)
  apply-IsConsistent s (Command.model_response value now) v =
      keep_item-IsConsistent s (Head.append_model_response s.head value now) v
        (append_model_response-Extends s.head value now)
        (append_model_response-table s.head value now v.table)
  apply-IsConsistent s (Command.tool_call_status value operations now) v =
      keep_item-IsConsistent s
        (map_ok (with_operations value operations)
          (Status.append_tool_call_status json s.head value operations now))
        v
        (map_ok-Holds (Extending s.head) (with_operations value operations)
          (Status.append_tool_call_status json s.head value operations now)
          (append_tool_call_status-Extends json s.head value operations now))
        (map_ok-Holds TableAfter (with_operations value operations)
          (Status.append_tool_call_status json s.head value operations now)
          (append_tool_call_status-table s.head value operations now v.table))
  apply-IsConsistent s (Command.operation value) v =
      >>=-Holds IsConsistent (Status.save_operation json s.head value) _ λ head saved.
        let did =
          Holds-ok (Saved json s.head value) saved (save_operation-Saved json s.head value) in
        record {
          history = v.history;
          summary = ap item_part did.written ∙ v.summary;
          table = Saved-HasTable json s.head head value v.table did;
        }

  pub created-IsConsistent : (id : String) (now : ℕ) → IsConsistent (new_stored_state id now)
  unfolding new_stored_state replay
  created-IsConsistent id now = record {
    history = tt;
    summary = refl;
    table = record { positioned = λ id i e. cc; indexed = λ i op e. cc; valid = λ i op e. cc };
  }
