-- ===== src/Store/Extension.antt =====
-- Each append to a head makes an item that the history admits, and leaves the head that the items
-- with the new one make up (harness/sessionstore/localfile/state.go).
use unreal_agent.Base.{
  ℕ, ◌≡◌, refl, ap, sym, ◌∙◌, ◌≢◌, true, not, List, [], ◌∷◌, ◌++◌, put, length, ◌==◌, string_eq,
  eq_iff, arith, KeySet, include, empty_set, Key, fun_ext, Bool-cases, inl, inr, Holds,
  reject_if-Holds, >>=-Holds, with_error,
}
use unreal_agent.Inbox.{Input, Json, validate}
use unreal_agent.Inbox.Validation.{validate_iff}
use unreal_agent.Operation.{Operation}
use unreal_agent.Store.{Turn, ModelResponse, ToolCallStatus, Item}
use unreal_agent.Store.Head.{
  SessionHead, CallKey, next_sequence, call_key_eq, append_input, append_turn,
  append_model_response,
}
use unreal_agent.Store.Status.{
  key_of, initialize_operations, append_tool_call_status, first_status, check_operations,
  validate_status_operation_references,
}
use unreal_agent.Store.State.{inherit_head, with_operations}
use unreal_agent.Store.History.{item_part, Admits}

pub record Extends (head head' : SessionHead) (item : Item) : Type 0 where
  pub admitted : Admits (item_part head) item
  pub extended : item_part head' ≡ inherit_head (item_part head) item

include_known {ℓ} : {K : Type ℓ} ⦃e : Key K⦄ (k : K) (s : KeySet K) → s k ≡ true → include k s ≡ s
include_known ⦃e⦄ k s h = fun_ext λ j. elim (Bool-cases (e.same k j)) [
  | inl same ↦ rw same (sym (ap s (sym ((e.same_iff k j).0 same)) ∙ h))
  | inr other ↦ rw other
]

abbrev pub Extending : SessionHead → SessionHead × Item → Type 0
Extending head (head', item) = Extends head head' item

pub append_turn-Extends :
    (head : SessionHead) (value : Turn) (now : ℕ)
    → Holds (Extending head) (append_turn head value now)
unfolding append_turn inherit_head
append_turn-Extends head value now = reject_if-Holds (Extending head) (value.id == "") _ _ λ named.
    reject_if-Holds (Extending head) (not (value.previous_turn_id == head.latest_turn_id)) _ _
      λ follows. reject_if-Holds (Extending head) (head.turns value.id) _ _ λ fresh. record {
        admitted =
            ground (arith, eq_iff value.id "", eq_iff value.previous_turn_id head.latest_turn_id);
        extended = refl;
      }

pub append_model_response-Extends :
    (head : SessionHead) (value : ModelResponse) (now : ℕ)
    → Holds (Extending head) (append_model_response head value now)
unfolding append_model_response inherit_head
append_model_response-Extends head value now =
    reject_if-Holds (Extending head) (not (head.owned_turns value.turn_id)) _ _ λ owned.
      reject_if-Holds (Extending head) (head.responded_turns value.turn_id) _ _
        λ first. record { admitted = ground arith; extended = refl }

initialize_operations-item_part :
    (head : SessionHead) (operations : List Operation)
    → item_part (initialize_operations head operations) ≡ item_part head
unfolding initialize_operations
initialize_operations-item_part head [] = refl
initialize_operations-item_part head (value ∷ rest) =
    initialize_operations-item_part
      (record head {
        operations = head.operations ++ value ∷ [];
        operation_positions = put value.id (length head.operations) head.operation_positions;
      })
      rest

module _ (json : Json) where
  pub append_input-Extends :
      (head : SessionHead) (value : Input) (now : ℕ)
      → Holds (Extending head) (append_input json head value now)
  unfolding append_input inherit_head
  append_input-Extends head value now =
      >>=-Holds (Extending head) (with_error _ (validate json value)) _ λ u valid. record {
        admitted = (refl, ((validate_iff json value).0 (ground arith)).named);
        extended = refl;
      }

  -- The same for the item that the state keeps, in which the status has its operations.
  abbrev pub ExtendsWith :
      SessionHead → ToolCallStatus → List Operation → SessionHead × Item → Type 0
  ExtendsWith head status operations r = Extending head (with_operations status operations r)

  first_status-Extends :
      (head : SessionHead) (status : ToolCallStatus) (operations : List Operation) (now : ℕ)
      → head.owned_turns status.turn_id ≡ true
      → status.call_id ≢ ""
      → Holds (ExtendsWith head status operations) (first_status json head status operations now)
  unfolding first_status inherit_head
  first_status-Extends head status operations now owned named =
      >>=-Holds (ExtendsWith head status operations)
        (check_operations json head.operation_positions empty_set operations) _
        λ u checked.
          >>=-Holds (ExtendsWith head status operations)
            (validate_status_operation_references status.status operations) _
            λ v refers.
              let begun : SessionHead = record head {
                tool_call_statuses = include (key_of status) head.tool_call_statuses;
              } in
              let same = initialize_operations-item_part begun operations in
              record {
                admitted =
                    (ap (λ (k : SessionHead). next_sequence k.item_sequence) same, (owned, named));
                extended =
                    ap
                      (λ (k : SessionHead). record k {
                        item_sequence =
                            next_sequence (initialize_operations begun operations).item_sequence;
                      })
                      same;
              }

  pub append_tool_call_status-Extends :
      (head : SessionHead) (status : ToolCallStatus) (operations : List Operation) (now : ℕ)
      → Holds
          (ExtendsWith head status operations)
          (append_tool_call_status json head status operations now)
  unfolding append_tool_call_status inherit_head
  append_tool_call_status-Extends head status operations now =
      reject_if-Holds (ExtendsWith head status operations) (not (head.owned_turns status.turn_id)) _
        _
        λ owned.
          reject_if-Holds (ExtendsWith head status operations) (status.call_id == "") _ _ λ named.
            elim (Bool-cases (head.tool_call_statuses (key_of status))) [
              | inl known ↦ rw known (record {
                admitted = ground (arith, eq_iff status.call_id "");
                extended =
                    ap
                      (λ (s : KeySet CallKey). record (item_part head) {
                        item_sequence = next_sequence head.item_sequence;
                        tool_call_statuses = s;
                      })
                      (sym (include_known (key_of status) head.tool_call_statuses known));
              })
              | inr fresh ↦ rw fresh (
                  first_status-Extends head status operations now (ground arith)
                    (ground (arith, eq_iff status.call_id "")))
            ]
