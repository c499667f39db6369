-- ===== src/Coordinator/Untranslated.antt =====
-- The event loop never comes to an open call without a status (harness/coordinator/loop.go).
use unreal_agent.Base.{
  ℕ, ◌≡◌, refl, String, Bool, true, false, not, ◌&&◌, none, List, [], ◌∷◌, if◌then◌else◌, Result,
  ok, err, ◌>>=◌, with_error, Holds, >>=-Holds, Holds-mono, Holds-ok, Bool-cases, Option-cases, inl,
  inr, string_eq, subst, with_error-eq-ok, map_ok, sym,
}
use unreal_agent.Llm.{Request}
use unreal_agent.Inbox.{Json}
use unreal_agent.Operation.{Operation, CallStatus}
use unreal_agent.Store.{ItemData, ToolCallStatus, ModelResponse}
use unreal_agent.Store.Head.{CallKey, call_key_eq}
use unreal_agent.Store.Commands.{Command}
use unreal_agent.Coordinator.State.{is_empty}
use unreal_agent.Coordinator.Local.{Resolve}
use unreal_agent.Coordinator.Handlers.{
  Coordinator, record_item, react, obey, handle_inbox_input, handle_inbox_inputs,
  handle_operation_update, handle_stop, request_model_response, build_model_request, not_added,
  not_stored, not_decoded, set_call_model, clear_grace, interrupt_model, is_stop_hard,
}
use unreal_agent.Coordinator.Handlers
use unreal_agent.Coordinator.Reconcile.{Closed, reconcile_tool_calls}
use unreal_agent.Coordinator.Schedule.{
  Scheduled, Reply, schedule_tool_calls, handle_model_response, grace_after,
}
use unreal_agent.Coordinator.Loop.{
  Supply, Event, Round, Error, not_handled, not_reconciled, process_operations, process_events,
  stop_round, ask_round, decide, round, process_model_response, handle_event, start, run,
  grace_for_siblings, end_round, all_siblings, not_canceled,
}
use unreal_agent.Coordinator.Translated.{
  AllNoted, NotesTo, Sound, reconcile_untranslated, Notes-AllNoted, Sound-then, with_error-Sound,
  Holds-Sound, inputs-Notes, update-Notes, reconcile_calls-Sound, request-AllNoted,
}
use unreal_agent.Coordinator.Noting.{schedule_tool_calls-AllNoted}
use unreal_agent.Coordinator.Stopping.{stop_round-Holds}

abbrev pub is_untranslated : Error → Bool
is_untranslated (not_reconciled e) = reconcile_untranslated e
is_untranslated e = false

module _ (json : Json) (resolve : Resolve) (unavailable : String → CallStatus)
    (prompt : String) where
  handled-Sound :
      {A : Type 0} (of : A → Coordinator) (r : Result Handlers.Error A)
      → Holds (λ a. AllNoted (of a)) r
      → Sound is_untranslated of (with_error not_handled r)
  handled-Sound of r h =
      with_error-Sound (λ e. false) is_untranslated not_handled of r (λ e _. refl)
        (Holds-Sound of r h)

  from-Notes :
      (c : Coordinator) (r : Result Handlers.Error Coordinator)
      → AllNoted c
      → Holds (NotesTo c) r
      → Sound is_untranslated (λ k. k) (with_error not_handled r)
  from-Notes c r noted h =
      handled-Sound (λ k. k) r
        (Holds-mono (NotesTo c) AllNoted r (λ k n. Notes-AllNoted c k noted n) h)

  operations-Notes :
      (updates : List Operation) (c : Coordinator)
      → Holds (NotesTo c) (process_operations json resolve unavailable prompt c updates)
  unfolding process_operations
  operations-Notes [] c = λ key h. h
  operations-Notes (value ∷ updates) c =
      >>=-Holds (NotesTo c) (handle_operation_update json resolve c value) _ (λ next e.
        let first = Holds-ok (NotesTo c) e (update-Notes json resolve c value) in
        Holds-mono (NotesTo next) (NotesTo c) _ (λ k later key h. first key (later key h))
          (operations-Notes updates next))

  siblings-AllNoted :
      (completed : List ToolCallStatus) (c : Coordinator)
      → AllNoted c
      → AllNoted (grace_for_siblings completed c)
  siblings-AllNoted completed c noted =
      elim (Bool-cases (is_empty (all_siblings completed c.local.loop.tool_calls))) [
        | inl alone ↦ rw alone noted
        | inr pending ↦ rw pending noted
      ]

  process_events-Sound :
      (c : Coordinator) (s : Supply)
      → AllNoted c
      → Sound is_untranslated
          (λ (p : Coordinator × Bool). p.0)
          (process_events json resolve unavailable prompt c s)
  unfolding process_events reconcile_tool_calls
  process_events-Sound c s noted =
      Sound-then is_untranslated (λ k. k) (λ (p : Coordinator × Bool). p.0)
        (with_error not_handled (handle_inbox_inputs json resolve s.now c s.inputs)) _
        (from-Notes c _ noted (inputs-Notes json resolve s.now s.inputs c))
        (λ heard still.
          Sound-then is_untranslated (λ k. k) (λ (p : Coordinator × Bool). p.0)
            (with_error not_handled
              (process_operations json resolve unavailable prompt heard s.updates))
            _ (from-Notes heard _ still (operations-Notes s.updates heard))
            (λ updated yet.
              Sound-then is_untranslated (λ (p : Closed). p.0) (λ (p : Coordinator × Bool). p.0)
                (with_error not_reconciled (reconcile_tool_calls json resolve s.now updated)) _
                (with_error-Sound reconcile_untranslated is_untranslated not_reconciled
                  (λ (p : Closed). p.0) _ (λ e h. h)
                  (reconcile_calls-Sound json resolve s.now updated.local.loop.tool_calls updated
                    yet))
                (λ p closed. siblings-AllNoted p.1 p.0 closed)))

  ask_round-Sound :
      (c : Coordinator) (s : Supply)
      → AllNoted c
      → Sound is_untranslated
          (λ (r : Round). r.next)
          (ask_round json resolve unavailable prompt c s)
  unfolding ask_round
  ask_round-Sound c s noted =
      Sound-then is_untranslated (λ (p : Coordinator × Request). p.0) (λ (r : Round). r.next)
        (with_error not_handled (request_model_response json resolve prompt s.turn_id s.now c)) _
        (handled-Sound (λ (p : Coordinator × Request). p.0) _
          (request-AllNoted json resolve prompt s.turn_id s.now c noted))
        (λ p still. still)

  canceled-Sound :
      (k : Coordinator) (canceled : List String) (r : Result (List String) Bool)
      → let stopped : Result Error Round =
          map_ok
            (λ stopped. record { next = k; stops = stopped; canceled = canceled; asked = none })
            (with_error not_canceled r) in
        Holds (λ (r : Round). AllNoted r.next) stopped
        → Sound is_untranslated (λ (r : Round). r.next) stopped
  canceled-Sound k canceled (ok stopped) h = h
  canceled-Sound k canceled (err failed) h = refl

  stop_round-Sound :
      (c : Coordinator) (s : Supply)
      → AllNoted c
      → Sound is_untranslated
          (λ (r : Round). r.next)
          (stop_round json resolve unavailable prompt c s)
  unfolding stop_round
  stop_round-Sound c s noted =
      let stopped = handle_stop s.cancel_fails c in
      canceled-Sound stopped.0 stopped.1 stopped.2 (
        stop_round-Holds json resolve unavailable prompt (λ (r : Round). AllNoted r.next) c s
          (λ k canceled left. elim left as (λ _. AllNoted k) [
            | inl same ↦ subst AllNoted (sym same) noted
            | inr marked ↦ subst AllNoted (sym marked) noted
          ]))

  decide-cases-Sound :
      (hard call_model : Bool) (c : Coordinator) (s : Supply)
      → AllNoted c
      → Sound is_untranslated
          (λ (r : Round). r.next)
          (if hard
            then stop_round json resolve unavailable prompt c s
            else if call_model
            then ask_round json resolve unavailable prompt c s
            else ok (end_round c [] none))
  decide-cases-Sound true call_model c s noted = stop_round-Sound c s noted
  decide-cases-Sound false true c s noted = ask_round-Sound c s noted
  decide-cases-Sound false false c s noted = noted

  round-Sound :
      (c : Coordinator) (s : Supply)
      → AllNoted c
      → Sound is_untranslated (λ (r : Round). r.next) (round json resolve unavailable prompt c s)
  unfolding round decide
  round-Sound c s noted =
      Sound-then is_untranslated (λ (p : Coordinator × Bool). p.0) (λ (r : Round). r.next)
        (process_events json resolve unavailable prompt c s) _ (process_events-Sound c s noted)
        (λ p still. decide-cases-Sound (is_stop_hard p.0.stop.request) p.1 p.0 s still)

  response-AllNoted :
      (ids : CallKey → ℕ → String) (now : ℕ) (c : Coordinator) (r : ModelResponse)
      → Holds
          (λ (p : Scheduled). AllNoted p.0)
          (handle_model_response json resolve unavailable ids now c r)
  unfolding handle_model_response
  response-AllNoted ids now c r =
      >>=-Holds (λ (p : Scheduled). AllNoted p.0)
        (record_item json resolve c (ItemData.model_response r) (Command.model_response r now)) _
        (λ k e.
          >>=-Holds (λ (p : Scheduled). AllNoted p.0)
            (schedule_tool_calls json resolve unavailable ids now k) _
            (λ p f.
              Holds-ok (λ (p : Scheduled). AllNoted p.0) f
                (schedule_tool_calls-AllNoted json resolve unavailable prompt ids now k)))

  grace_after-AllNoted :
      (statuses : List ToolCallStatus) (c : Coordinator)
      → AllNoted c
      → AllNoted (grace_after statuses c)
  grace_after-AllNoted statuses c noted =
      elim (Bool-cases (not c.local.loop.call_model && not (is_empty statuses))) [
        | inl begun ↦ rw begun noted
        | inr kept ↦ rw kept noted
      ]

  reply-Sound :
      (c : Coordinator) (s : Supply) (r : Reply)
      → Sound is_untranslated
          (λ (p : Coordinator × List Operation). p.0)
          (process_model_response json resolve unavailable prompt c s r)
  unfolding process_model_response
  reply-Sound c s r = elim (Option-cases r.response) [
    | inl missing ↦ rw missing refl
    | inr (response, found) ↦ rw found (
        Sound-then is_untranslated (λ (p : Scheduled). p.0)
          (λ (p : Coordinator × List Operation). p.0)
          (with_error not_handled (
            handle_model_response json resolve unavailable s.ids s.now (interrupt_model c)
              (record { turn_id = r.turn_id; response = response })))
          _
          (handled-Sound (λ (p : Scheduled). p.0) _
            (response-AllNoted s.ids s.now (interrupt_model c) _))
          (λ p still. grace_after-AllNoted p.1 p.0 still))
  ]

  reply-cases-Sound :
      (dropped : Bool) (c : Coordinator) (s : Supply) (r : Reply)
      → AllNoted c
      → Sound is_untranslated
          (λ (p : Coordinator × List Operation). p.0)
          (if dropped
            then ok (c, [])
            else process_model_response json resolve unavailable prompt c s r)
  reply-cases-Sound true c s r noted = noted
  reply-cases-Sound false c s r noted = reply-Sound c s r

  handle_event-Sound :
      (c : Coordinator) (s : Supply) (e : Event)
      → AllNoted c
      → Sound is_untranslated
          (λ (p : Coordinator × List Operation). p.0)
          (handle_event json resolve unavailable prompt c s e)
  unfolding handle_event
  handle_event-Sound c s (Event.input i) noted =
      Sound-then is_untranslated (λ k. k) (λ (p : Coordinator × List Operation). p.0)
        (with_error not_handled (handle_inbox_inputs json resolve s.now c (i ∷ []))) _
        (from-Notes c _ noted (inputs-Notes json resolve s.now (i ∷ []) c)) (λ k still. still)
  handle_event-Sound c s (Event.update value) noted =
      Sound-then is_untranslated (λ k. k) (λ (p : Coordinator × List Operation). p.0)
        (with_error not_handled (process_operations json resolve unavailable prompt c (value ∷ [])))
        _ (from-Notes c _ noted (operations-Notes (value ∷ []) c)) (λ k still. still)
  handle_event-Sound c s Event.heartbeat noted = noted
  handle_event-Sound c s Event.grace noted = noted
  handle_event-Sound c s (Event.reply r) noted = reply-cases-Sound _ c s r noted

  continue-Sound :
      (stops : Bool) (k : Coordinator) (s : Supply) (e : Event)
      (rest : Coordinator → Result Error Coordinator)
      → AllNoted k
      → ((j : Coordinator) → AllNoted j → Sound is_untranslated (λ m. m) (rest j))
      → Sound is_untranslated
          (λ m. m)
          (if stops
            then ok k
            else (handle_event json resolve unavailable prompt k s e >>= λ p. rest p.0))
  continue-Sound true k s e rest noted h = noted
  continue-Sound false k s e rest noted h =
      Sound-then is_untranslated (λ (p : Coordinator × List Operation). p.0) (λ m. m)
        (handle_event json resolve unavailable prompt k s e) _ (handle_event-Sound k s e noted)
        (λ p still. h p.0 still)

  run-Sound :
      (steps : List (Supply × Event)) (c : Coordinator)
      → AllNoted c
      → Sound is_untranslated (λ m. m) (run json resolve unavailable prompt c steps)
  unfolding run
  run-Sound [] c noted = noted
  run-Sound ((s, e) ∷ steps) c noted =
      Sound-then is_untranslated (λ (r : Round). r.next) (λ m. m)
        (round json resolve unavailable prompt c s) _ (round-Sound c s noted)
        (λ r still. continue-Sound r.stops r.next s e _ still (run-Sound steps))

  start-AllNoted :
      (c : Coordinator) (s : Supply) {begun : Coordinator} {given : List Operation}
      → start json resolve unavailable prompt c s ≡ ok (begun, given)
      → AllNoted begun
  unfolding start
  start-AllNoted c s {begun} h =
      Holds-ok (λ (p : Coordinator × List Operation). AllNoted p.0) h
        (>>=-Holds (λ (p : Coordinator × List Operation). AllNoted p.0)
          (with_error not_handled (schedule_tool_calls json resolve unavailable s.ids s.now c)) _
          (λ p e.
            Holds-ok (λ (p : Scheduled). AllNoted p.0) (with_error-eq-ok not_handled _ e)
              (schedule_tool_calls-AllNoted json resolve unavailable prompt s.ids s.now c)))

  -- Whatever was restored, and whatever is received: once the event loop has started, it never fails
  -- with the error for a call that is reconciled before it is translated.
  pub run-translated :
      (c : Coordinator) (first : Supply) (steps : List (Supply × Event)) {begun : Coordinator}
      {given : List Operation} {e : Error}
      → start json resolve unavailable prompt c first ≡ ok (begun, given)
      → run json resolve unavailable prompt begun steps ≡ err e
      → is_untranslated e ≡ false
  run-translated c first steps {begun} started failed =
      subst (Sound is_untranslated (λ m. m)) failed
        (run-Sound steps begun (start-AllNoted c first started))
