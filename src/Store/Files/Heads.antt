-- ===== src/Store/Files/Heads.antt =====
-- The item that a head's `append` methods make (harness/sessionstore/localfile/state.go).
use unreal_agent.Base.{
  ℕ, ◌≡◌, refl, not, List, [], ◌∷◌, Holds, Holds-mono, Bool-cases, inl, inr, ap, reject_if-Holds,
  >>=-Holds, length, ◌==◌, nat_eq, string_eq, include, empty_set, put, with_error, ◌++◌,
}
use unreal_agent.Inbox.{Input, Json, validate}
use unreal_agent.Operation.{Operation}
use unreal_agent.Store.{Turn, ModelResponse, ToolCallStatus, Item, ItemData}
use unreal_agent.Store.Head.{
  call_key_eq, SessionHead, Error, next_sequence, append_input, append_turn, append_model_response,
}
use unreal_agent.Store.Table.{Saved, save_operation-Saved}
use unreal_agent.Store.Status.{
  key_of, append_tool_call_status, first_status, initialize_operations, save_operation,
  check_operations, validate_status_operation_references,
}

-- The item has the next number, and the head is the old one's but for what the item changes.
pub record IsAppended (head : SessionHead) (content : ItemData) (now : ℕ) (p : SessionHead × Item)
    : Type 0 where
  pub made :
      p.1
      ≡ record { sequence = next_sequence head.item_sequence; recorded_at = now; content = content }
  pub counted : p.0.item_sequence ≡ next_sequence head.item_sequence
  pub kept : p.0.session ≡ head.session

abbrev with_first : SessionHead → Operation → SessionHead
with_first head value = record head {
  operations = head.operations ++ value ∷ [];
  operation_positions = put value.id (length head.operations) head.operation_positions;
}

initialize_operations-kept :
    (head : SessionHead) (operations : List Operation)
    → ((initialize_operations head operations).item_sequence ≡ head.item_sequence)
      × ((initialize_operations head operations).session ≡ head.session)
unfolding initialize_operations
initialize_operations-kept head [] = (refl, refl)
initialize_operations-kept head (value ∷ rest) =
    initialize_operations-kept (with_first head value) rest

module _ (json : Json) (head : SessionHead) where
  pub append_input-IsAppended :
      (value : Input) (now : ℕ)
      → Holds (IsAppended head (ItemData.input value) now) (append_input json head value now)
  unfolding append_input
  append_input-IsAppended value now =
      >>=-Holds (IsAppended head (ItemData.input value) now)
        (with_error Error.invalid_input (validate json value)) _
        (λ checked e. record { made = refl; counted = refl; kept = refl })

  pub append_turn-IsAppended :
      (value : Turn) (now : ℕ)
      → Holds (IsAppended head (ItemData.turn value) now) (append_turn head value now)
  unfolding append_turn
  append_turn-IsAppended value now =
      let P = IsAppended head (ItemData.turn value) now in
      reject_if-Holds P (value.id == "") _ _ (λ named.
        reject_if-Holds P (not (value.previous_turn_id == head.latest_turn_id)) _ _ (λ next.
          reject_if-Holds P (head.turns value.id) _ _
            (λ fresh. record { made = refl; counted = refl; kept = refl })))

  pub append_model_response-IsAppended :
      (value : ModelResponse) (now : ℕ)
      → Holds
          (IsAppended head (ItemData.model_response value) now)
          (append_model_response head value now)
  unfolding append_model_response
  append_model_response-IsAppended value now =
      let P = IsAppended head (ItemData.model_response value) now in
      reject_if-Holds P (not (head.owned_turns value.turn_id)) _ _ (λ owned.
        reject_if-Holds P (head.responded_turns value.turn_id) _ _
          (λ fresh. record { made = refl; counted = refl; kept = refl }))

  first_status-IsAppended :
      (value : ToolCallStatus) (operations : List Operation) (now : ℕ)
      → Holds
          (IsAppended head (ItemData.tool_call_status value) now)
          (first_status json head value operations now)
  unfolding first_status
  first_status-IsAppended value operations now =
      let P = IsAppended head (ItemData.tool_call_status value) now in
      let begun : SessionHead = record head {
        tool_call_statuses = include (key_of value) head.tool_call_statuses;
      } in
      let (counted, kept) = initialize_operations-kept begun operations in
      >>=-Holds P (check_operations json head.operation_positions empty_set operations) _
        (λ checked e.
          >>=-Holds P (validate_status_operation_references value.status operations) _
            (λ referred f. record {
              made = rw counted refl;
              counted = rw counted refl;
              kept = kept;
            }))

  pub append_tool_call_status-IsAppended :
      (value : ToolCallStatus) (operations : List Operation) (now : ℕ)
      → Holds
          (IsAppended head (ItemData.tool_call_status value) now)
          (append_tool_call_status json head value operations now)
  unfolding append_tool_call_status
  append_tool_call_status-IsAppended value operations now =
      let P = IsAppended head (ItemData.tool_call_status value) now in
      reject_if-Holds P (not (head.owned_turns value.turn_id)) _ _ (λ owned.
        reject_if-Holds P (value.call_id == "") _ _ (λ named.
          elim (Bool-cases (head.tool_call_statuses (key_of value))) [
            | inl known ↦ rw known (record { made = refl; counted = refl; kept = refl })
            | inr fresh ↦ rw fresh (first_status-IsAppended value operations now)
          ]))

  pub save_operation-kept :
      (value : Operation)
      → Holds
          (λ (next : SessionHead).
            (next.item_sequence ≡ head.item_sequence) × (next.session ≡ head.session))
          (save_operation json head value)
  save_operation-kept value =
      Holds-mono (Saved json head value) _ (save_operation json head value)
        (λ next saved. (
          ap (λ (k : SessionHead). k.item_sequence) saved.written,
          ap (λ (k : SessionHead). k.session) saved.written,
        ))
        (save_operation-Saved json head value)
