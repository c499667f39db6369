-- ===== src/Coordinator/Runs.antt =====
-- What the event loop of harness/coordinator/loop.go keeps, from its start on.
use unreal_agent.Base.{
  ◌≡◌, String, Bool, true, false, not, ◌&&◌, none, List, [], ◌∷◌, if◌then◌else◌, Result, ok, ◌>>=◌,
  with_error, Holds, Holds-ok, Holds-mono, Holds-with_error, Bool-cases, inl, inr, string_eq,
  Option-cases, subst, sym,
}
use unreal_agent.Llm.{Request}
use unreal_agent.Inbox.{Json}
use unreal_agent.Operation.{Operation, CallStatus}
use unreal_agent.Store.{ToolCallStatus}
use unreal_agent.Store.Commands.{Reachable}
use unreal_agent.Coordinator.State.{is_empty}
use unreal_agent.Coordinator.Local.{Resolve}
use unreal_agent.Coordinator.Counts.{IsCounted}
use unreal_agent.Coordinator.Handlers.{
  Coordinator, is_stop_hard, handle_inbox_inputs, request_model_response, interrupt_model,
}
use unreal_agent.Coordinator.Steps.{request_model_response-Keeps}
use unreal_agent.Coordinator.Reconcile.{reconcile_tool_calls, reconcile_calls-Keeps, KeepsAll}
use unreal_agent.Coordinator.Schedule.{
  Scheduled, Reply, schedule_calls, schedule_tool_calls, handle_model_response, grace_after,
}
use unreal_agent.Coordinator.Loop.{
  Supply, Event, Round, Error, not_handled, not_reconciled, process_operations, process_events,
  stop_round, ask_round, decide, round, process_model_response, handle_event, start, run, end_round,
}
use unreal_agent.Coordinator.Carries.{
  Keeps-Carries, Carries-same, Carries-then, schedule_calls-Carries, handle_model_response-Carries,
  inputs-Carries, operations-Carries, grace_for_siblings-Carries, Carries,
}
use unreal_agent.Coordinator.Stopping.{stop_round-Holds}

module _ (json : Json) (resolve : Resolve) (unavailable : String → CallStatus)
    (compaction_prompt : String) where
  pub process_events-Carries :
      (c : Coordinator) (s : Supply)
      → Holds
          (λ (p : Coordinator × Bool). Carries json c p.0)
          (process_events json resolve unavailable compaction_prompt c s)
  unfolding process_events reconcile_tool_calls
  process_events-Carries c s =
      Carries-then json c
        (with_error not_handled (handle_inbox_inputs json resolve s.now c s.inputs)) _ (λ k. k)
        (λ (p : Coordinator × Bool). p.0)
        (inputs-Carries json resolve unavailable compaction_prompt s.now s.inputs c)
        (λ heard.
          Carries-then json heard
            (with_error not_handled
              (process_operations json resolve unavailable compaction_prompt heard s.updates))
            _ (λ k. k) (λ (p : Coordinator × Bool). p.0)
            (operations-Carries json resolve unavailable compaction_prompt s.updates heard)
            (λ updated.
              Carries-then json updated
                (with_error not_reconciled (reconcile_tool_calls json resolve s.now updated)) _
                (λ (p : Scheduled). p.0) (λ (p : Coordinator × Bool). p.0)
                (Holds-with_error (λ (p : Scheduled). Carries json updated p.0) not_reconciled _
                  (Holds-mono (KeepsAll json resolve s.now updated) _ _
                    (λ p. Keeps-Carries json updated p.0)
                    (reconcile_calls-Keeps json resolve s.now updated.local.loop.tool_calls
                      updated)))
                (λ p.
                  grace_for_siblings-Carries json resolve unavailable compaction_prompt p.1 p.0)))

  pub stop_round-Carries :
      (c : Coordinator) (s : Supply)
      → Holds
          (λ (r : Round). Carries json c r.next)
          (stop_round json resolve unavailable compaction_prompt c s)
  stop_round-Carries c s =
      stop_round-Holds json resolve unavailable compaction_prompt
        (λ (r : Round). Carries json c r.next) c s
        (λ k canceled left. elim left as (λ _. Carries json c k) [
          | inl same ↦ subst (Carries json c) (sym same) (Carries-same json c)
          | inr marked ↦ subst (Carries json c) (sym marked) (λ h. h, λ r. r, λ s. s)
        ])

  ask_round-Carries :
      (c : Coordinator) (s : Supply)
      → Holds
          (λ (r : Round). Carries json c r.next)
          (ask_round json resolve unavailable compaction_prompt c s)
  unfolding ask_round
  ask_round-Carries c s =
      Carries-then json c
        (with_error not_handled
          (request_model_response json resolve compaction_prompt s.turn_id s.now c))
        _ (λ (p : Coordinator × Request). p.0) (λ (r : Round). r.next)
        (Holds-with_error (λ (p : Coordinator × Request). Carries json c p.0) not_handled _
          (Holds-mono _ (λ (p : Coordinator × Request). Carries json c p.0) _
            (λ p h. Keeps-Carries json c p.0 h)
            (request_model_response-Keeps json resolve compaction_prompt s.turn_id s.now c)))
        (λ p. (λ h. h, λ r. r, λ s. s))

  decide-cases :
      (hard call_model : Bool) (c : Coordinator) (s : Supply)
      → Holds
          (λ (r : Round). Carries json c r.next)
          (if hard
            then stop_round json resolve unavailable compaction_prompt c s
            else if call_model
            then ask_round json resolve unavailable compaction_prompt c s
            else ok (end_round c [] none))
  decide-cases true call_model c s = stop_round-Carries c s
  decide-cases false true c s = ask_round-Carries c s
  decide-cases false false c s = Carries-same json c

  round-Carries :
      (c : Coordinator) (s : Supply)
      → Holds
          (λ (r : Round). Carries json c r.next)
          (round json resolve unavailable compaction_prompt c s)
  unfolding round decide
  round-Carries c s =
      Carries-then json c (process_events json resolve unavailable compaction_prompt c s) _
        (λ (p : Coordinator × Bool). p.0) (λ (r : Round). r.next) (process_events-Carries c s)
        (λ p. decide-cases (is_stop_hard p.0.stop.request) p.1 p.0 s)

  grace_after-Carries :
      (statuses : List ToolCallStatus) (c : Coordinator) → Carries json c (grace_after statuses c)
  grace_after-Carries statuses c =
      elim (Bool-cases (not c.local.loop.call_model && not (is_empty statuses))) [
        | inl begun ↦ rw begun (λ h. h, λ r. r, λ s. s)
        | inr kept ↦ rw kept (Carries-same json c)
      ]

  process_model_response-Carries :
      (c : Coordinator) (s : Supply) (r : Reply)
      → Holds
          (λ (p : Coordinator × List Operation). Carries json c p.0)
          (process_model_response json resolve unavailable compaction_prompt c s r)
  unfolding process_model_response
  process_model_response-Carries c s r = elim (Option-cases r.response) [
    | inl missing ↦ rw missing tt
    | inr (response, found) ↦ rw found (
        Carries-then json (interrupt_model c)
          (with_error not_handled (
            handle_model_response json resolve unavailable s.ids s.now (interrupt_model c)
              (record { turn_id = r.turn_id; response = response })))
          _ (λ (p : Scheduled). p.0) (λ (p : Coordinator × List Operation). p.0)
          (Holds-with_error (λ (p : Scheduled). Carries json c p.0) not_handled _
            (handle_model_response-Carries json resolve unavailable compaction_prompt s.ids s.now
              (interrupt_model c) _))
          (λ p. grace_after-Carries p.1 p.0))
  ]

  reply-cases :
      (dropped : Bool) (c : Coordinator) (s : Supply) (r : Reply)
      → Holds
          (λ (p : Coordinator × List Operation). Carries json c p.0)
          (if dropped
            then ok (c, [])
            else process_model_response json resolve unavailable compaction_prompt c s r)
  reply-cases true c s r = Carries-same json c
  reply-cases false c s r = process_model_response-Carries c s r

  handle_event-Carries :
      (c : Coordinator) (s : Supply) (e : Event)
      → Holds
          (λ (p : Coordinator × List Operation). Carries json c p.0)
          (handle_event json resolve unavailable compaction_prompt c s e)
  unfolding handle_event
  handle_event-Carries c s (Event.input i) =
      Carries-then json c
        (with_error not_handled (handle_inbox_inputs json resolve s.now c (i ∷ []))) _ (λ k. k)
        (λ (p : Coordinator × List Operation). p.0)
        (inputs-Carries json resolve unavailable compaction_prompt s.now (i ∷ []) c)
        (λ k. Carries-same json k)
  handle_event-Carries c s (Event.update value) =
      Carries-then json c
        (with_error not_handled
          (process_operations json resolve unavailable compaction_prompt c (value ∷ [])))
        _ (λ k. k) (λ (p : Coordinator × List Operation). p.0)
        (operations-Carries json resolve unavailable compaction_prompt (value ∷ []) c)
        (λ k. Carries-same json k)
  handle_event-Carries c s Event.heartbeat = Carries-same json c
  handle_event-Carries c s Event.grace = (λ h. h, λ r. r, λ s. s)
  handle_event-Carries c s (Event.reply r) = reply-cases _ c s r

  start-Carries :
      (c : Coordinator) (s : Supply)
      → Holds
          (λ (p : Coordinator × List Operation). Carries json c p.0)
          (start json resolve unavailable compaction_prompt c s)
  unfolding start schedule_tool_calls
  start-Carries c s =
      Carries-then json c
        (with_error not_handled
          (schedule_calls json resolve unavailable s.ids s.now c c.local.loop.tool_calls))
        _ (λ (p : Scheduled). p.0) (λ (p : Coordinator × List Operation). p.0)
        (Holds-with_error (λ (p : Scheduled). Carries json c p.0) not_handled _
          (schedule_calls-Carries json resolve unavailable compaction_prompt s.ids s.now
            c.local.loop.tool_calls c))
        (λ p. Carries-same json p.0)

  continue-Carries :
      (stops : Bool) (k : Coordinator) (s : Supply) (e : Event)
      (rest : Coordinator → Result Error Coordinator)
      → ((j : Coordinator) → Holds (Carries json j) (rest j))
      → Holds (Carries json k) (
          if stops
          then ok k
          else (handle_event json resolve unavailable compaction_prompt k s e >>= λ p. rest p.0))
  continue-Carries true k s e rest h = Carries-same json k
  continue-Carries false k s e rest h =
      Carries-then json k (handle_event json resolve unavailable compaction_prompt k s e) _
        (λ (p : Coordinator × List Operation). p.0) (λ k. k) (handle_event-Carries k s e)
        (λ p. h p.0)

  run-Carries :
      (steps : List (Supply × Event)) (c : Coordinator)
      → Holds (Carries json c) (run json resolve unavailable compaction_prompt c steps)
  unfolding run
  run-Carries [] c = Carries-same json c
  run-Carries ((s, e) ∷ steps) c =
      Carries-then json c (round json resolve unavailable compaction_prompt c s) _
        (λ (r : Round). r.next) (λ k. k) (round-Carries c s)
        (λ r. continue-Carries r.stops r.next s e _ (run-Carries steps))

  -- The event loop, from the start on and for any number of rounds, whatever is received, from a
  -- session that the store can hold and with the counts of inputs in order, ends in such a session and
  -- such counts if no call fails.
  pub run-Reachable :
      (c : Coordinator) (first : Supply) (steps : List (Supply × Event)) {begun k : Coordinator}
      {given : List Operation}
      → IsCounted c.local.loop
      → Reachable json c.stored
      → start json resolve unavailable compaction_prompt c first ≡ ok (begun, given)
      → run json resolve unavailable compaction_prompt begun steps ≡ ok k
      → IsCounted k.local.loop × Reachable json k.stored
  run-Reachable c first steps {begun} h r started ran =
      let (counted, reached, _) =
        Holds-ok (λ (p : Coordinator × List Operation). Carries json c p.0) started
          (start-Carries c first) in
      let (counted', reached', _) = Holds-ok (Carries json begun) ran (run-Carries steps begun) in
      (counted' (counted h), reached' (reached r))
