-- ===== src/Coordinator/Carries.antt =====
-- What the parts of a round of harness/coordinator/loop.go keep: scheduled calls, responses, inputs and
-- updates.
use unreal_agent.Base.{
  ℕ, ◌≡◌, ap, ◌∙◌, String, true, List, [], ◌∷◌, Result, ◌>>=◌, with_error, with_error-eq-ok, Holds,
  >>=-Holds, Holds-ok, Holds-mono, Holds-with_error, Bool-cases, inl, inr, is_some, string_eq,
  arith,
}
use unreal_agent.Llm.{ToolCall}
use unreal_agent.Inbox.{Json, Input}
use unreal_agent.Operation.{Operation, CallStatus}
use unreal_agent.Store.{ItemData, ToolCallStatus, ModelResponse}
use unreal_agent.Store.Head.{CallKey}
use unreal_agent.Store.Commands.{Command, apply, Reachable, applied}
use unreal_agent.Coordinator.State.{CallEntry, add_operations, add_operation, is_empty}
use unreal_agent.Coordinator.Local.{Resolve}
use unreal_agent.Coordinator.Counts.{IsCounted, add_operations-SameCounts}
use unreal_agent.Coordinator.Handlers.{
  Coordinator, record_item, is_stop_hard, handle_inbox_inputs, handle_operation_update, not_stored,
}
use unreal_agent.Coordinator.Steps.{Keeps, record_item-Keeps, handle_inbox_inputs-keep}
use unreal_agent.Coordinator.Reconcile.{status_command}
use unreal_agent.Coordinator.Schedule.{
  Scheduled, schedule_tool_call, schedule_calls, schedule_tool_calls, first_status,
  handle_model_response,
}
use unreal_agent.Coordinator.Loop.{
  not_handled, process_operations, grace_for_siblings, all_siblings,
}

-- From `c` to `k` the counts stay in order, the session stays one that the store can hold, and the
-- loop stays asked to stop hard.
abbrev pub Carries : Json → Coordinator → Coordinator → Type 0
Carries json c k =
    (IsCounted c.local.loop → IsCounted k.local.loop)
    × (Reachable json c.stored → Reachable json k.stored)
    × (is_stop_hard c.stop.request ≡ true → is_stop_hard k.stop.request ≡ true)

pub Keeps-Carries : (json : Json) (c k : Coordinator) → Keeps json c k → Carries json c k
Keeps-Carries json c k (counted, reached, stopped) =
    (counted, reached, λ s. ap (λ t. is_stop_hard t.request) (stopped s) ∙ s)

pub Carries-trans :
    (json : Json) (c d k : Coordinator) → Carries json c d → Carries json d k → Carries json c k
Carries-trans json c d k (counted, reached, stopped) (counted', reached', stopped') =
    (λ h. counted' (counted h), λ r. reached' (reached r), λ s. stopped' (stopped s))

pub Carries-same : (json : Json) (c : Coordinator) → Carries json c c
Carries-same json c = (λ h. h, λ r. r, λ s. s)

-- A call, and another behind it.
pub Carries-then :
    {E A B : Type 0} (json : Json) (c : Coordinator) (r : Result E A) (f : A → Result E B)
    (of_a : A → Coordinator) (of_b : B → Coordinator)
    → Holds (λ a. Carries json c (of_a a)) r
    → ((a : A) → Holds (λ b. Carries json (of_a a) (of_b b)) (f a))
    → Holds (λ b. Carries json c (of_b b)) (r >>= f)
Carries-then json c r f of_a of_b first second =
    >>=-Holds (λ b. Carries json c (of_b b)) r f
      (λ a e.
        Holds-mono (λ b. Carries json (of_a a) (of_b b)) (λ b. Carries json c (of_b b)) (f a)
          (λ b later.
            Carries-trans json c (of_a a) (of_b b) (Holds-ok (λ a. Carries json c (of_a a)) e first)
              later)
          (second a))

module _ (json : Json) (resolve : Resolve) (unavailable : String → CallStatus)
    (compaction_prompt : String) where
  pub with_operations-Carries :
      (c : Coordinator) (values : List Operation)
      → Carries json c
          (record c { local = record c.local { loop = add_operations c.local.loop values } })
  with_operations-Carries c values =
      let (a, d, t) = add_operations-SameCounts c.local.loop values in
      (λ h. (omega arith, omega arith), λ r. r, λ s. s)

  pub schedule_tool_call-Carries :
      (ids : CallKey → ℕ → String) (now : ℕ) (c : Coordinator) (key : CallKey) (call : ToolCall)
      → Holds
          (λ (p : Coordinator × ToolCallStatus). Carries json c p.0)
          (schedule_tool_call json resolve unavailable ids now c key call)
  unfolding schedule_tool_call
  schedule_tool_call-Carries ids now c key call =
      let status = first_status json resolve unavailable ids now key call in
      let begun : Coordinator = record c {
        local = record c.local { loop = add_operations c.local.loop status.operations };
      } in
      >>=-Holds (λ (p : Coordinator × ToolCallStatus). Carries json c p.0)
        (record_item json resolve begun (ItemData.tool_call_status status)
          (status_command status now))
        _
        (λ next e. Carries-trans json c begun next (with_operations-Carries c status.operations) (
          Keeps-Carries json begun next (
            Holds-ok (Keeps json begun) e (
              record_item-Keeps json resolve begun (ItemData.tool_call_status status)
                (status_command status now)))))

  pub schedule_calls-Carries :
      (ids : CallKey → ℕ → String) (now : ℕ) (entries : List CallEntry) (c : Coordinator)
      → Holds
          (λ (p : Scheduled). Carries json c p.0)
          (schedule_calls json resolve unavailable ids now c entries)
  unfolding schedule_calls
  schedule_calls-Carries ids now [] c = Carries-same json c
  schedule_calls-Carries ids now (entry ∷ entries) c =
      elim (Bool-cases (is_some entry.call.status)) [
        | inl noted ↦ rw noted (schedule_calls-Carries ids now entries c)
        | inr fresh ↦ rw fresh (
            Carries-then json c
              (schedule_tool_call json resolve unavailable ids now c entry.key entry.call.tool_call)
              _ (λ p. p.0) (λ (p : Scheduled). p.0)
              (schedule_tool_call-Carries ids now c entry.key entry.call.tool_call)
              (λ p.
                Carries-then json p.0 (schedule_calls json resolve unavailable ids now p.0 entries)
                  _ (λ (q : Scheduled). q.0) (λ (q : Scheduled). q.0)
                  (schedule_calls-Carries ids now entries p.0) (λ q. Carries-same json q.0)))
      ]

  pub handle_model_response-Carries :
      (ids : CallKey → ℕ → String) (now : ℕ) (c : Coordinator) (r : ModelResponse)
      → Holds
          (λ (p : Scheduled). Carries json c p.0)
          (handle_model_response json resolve unavailable ids now c r)
  unfolding handle_model_response schedule_tool_calls
  handle_model_response-Carries ids now c r =
      Carries-then json c
        (record_item json resolve c (ItemData.model_response r) (Command.model_response r now)) _
        (λ k. k) (λ (p : Scheduled). p.0)
        (Holds-mono (Keeps json c) (Carries json c) _ (Keeps-Carries json c) (
          record_item-Keeps json resolve c (ItemData.model_response r)
            (Command.model_response r now)))
        (λ k.
          Carries-then json k
            (schedule_calls json resolve unavailable ids now k k.local.loop.tool_calls) _
            (λ (p : Scheduled). p.0) (λ (p : Scheduled). p.0)
            (schedule_calls-Carries ids now k.local.loop.tool_calls k) (λ p. Carries-same json p.0))

  pub handle_operation_update-Carries :
      (c : Coordinator) (value : Operation)
      → Holds (Carries json c) (handle_operation_update json resolve c value)
  unfolding handle_operation_update add_operation
  handle_operation_update-Carries c value =
      >>=-Holds (Carries json c)
        (with_error not_stored (apply json c.stored (Command.operation value))) _
        (λ stored e. (
          λ h. h,
          λ r. applied (Command.operation value) r (with_error-eq-ok not_stored _ e),
          λ s. s,
        ))

  pub process_operations-Carries :
      (updates : List Operation) (c : Coordinator)
      → Holds
          (Carries json c)
          (process_operations json resolve unavailable compaction_prompt c updates)
  unfolding process_operations
  process_operations-Carries [] c = Carries-same json c
  process_operations-Carries (value ∷ updates) c =
      Carries-then json c (handle_operation_update json resolve c value) _ (λ k. k) (λ k. k)
        (handle_operation_update-Carries c value) (process_operations-Carries updates)

  pub inputs-Carries :
      (now : ℕ) (inputs : List Input) (c : Coordinator)
      → Holds
          (Carries json c)
          (with_error not_handled (handle_inbox_inputs json resolve now c inputs))
  inputs-Carries now inputs c =
      Holds-with_error (Carries json c) not_handled (handle_inbox_inputs json resolve now c inputs)
        (Holds-mono (Keeps json c) (Carries json c) _ (Keeps-Carries json c)
          (handle_inbox_inputs-keep json resolve now inputs c))

  pub operations-Carries :
      (updates : List Operation) (c : Coordinator)
      → Holds (Carries json c) (
          with_error not_handled
            (process_operations json resolve unavailable compaction_prompt c updates))
  operations-Carries updates c =
      Holds-with_error (Carries json c) not_handled _ (process_operations-Carries updates c)

  pub grace_for_siblings-Carries :
      (completed : List ToolCallStatus) (c : Coordinator)
      → Carries json c (grace_for_siblings completed c)
  grace_for_siblings-Carries completed c =
      elim (Bool-cases (is_empty (all_siblings completed c.local.loop.tool_calls))) [
        | inl alone ↦ rw alone (Carries-same json c)
        | inr pending ↦ rw pending (λ h. h, λ r. r, λ s. s)
      ]
