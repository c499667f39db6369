-- ===== src/Coordinator/Stops.antt =====
-- When a round of harness/coordinator/loop.go stops the loop.
use unreal_agent.Base.{
  ◌≡◌, refl, String, Bool, true, false, ◌&&◌, none, [], if◌then◌else◌, ok, with_error, Holds,
  >>=-Holds, Holds-ok, inl, inr, string_eq, arith, ◌↔◌, All, >>=-eq-ok, ◌⊎◌, Holds-intro,
}
use unreal_agent.Inbox.{Json}
use unreal_agent.Operation.{Operation, CallStatus, is_terminal}
use unreal_agent.Coordinator.Local.{Resolve}
use unreal_agent.Coordinator.Handlers.{
  Coordinator, is_stop_hard, request_model_response, has_pending_operations, is_stop_when_idle,
  is_idle,
}
use unreal_agent.Coordinator.Steps.{has_pending_iff}
use unreal_agent.Coordinator.Loop.{
  Supply, Round, not_handled, process_events, stop_round, ask_round, decide, round, end_round,
}
use unreal_agent.Coordinator.Carries.{Carries}
use unreal_agent.Coordinator.Runs.{process_events-Carries, stop_round-Carries}
use unreal_agent.Coordinator.Stopping.{stop_round-Holds}

abbrev pub IsFinished : Coordinator → Type 0
IsFinished c = All (λ (value : Operation). is_terminal value.status ≡ true) c.local.loop.operations

both : (a b : Bool) → a && b ≡ true → (a ≡ true) × (b ≡ true)
both a b h = (ground arith, ground arith)

module _ (json : Json) (resolve : Resolve) (unavailable : String → CallStatus)
    (compaction_prompt : String) where
  stop_round_lem :
      (c : Coordinator) (s : Supply)
      → Holds
          (λ (r : Round). (r.asked ≡ none) × ((r.stops ≡ true) ↔ IsFinished r.next))
          (stop_round json resolve unavailable compaction_prompt c s)
  unfolding has_pending_operations
  stop_round_lem c s =
      stop_round-Holds json resolve unavailable compaction_prompt
        (λ (r : Round). (r.asked ≡ none) × ((r.stops ≡ true) ↔ IsFinished r.next)) c s
        (λ k canceled left. (refl, has_pending_iff k.local.loop.operations))

  decided-stop_hard :
      (hard call_model : Bool) (c : Coordinator) (s : Supply)
      → hard ≡ true
      → Holds
          (λ (r : Round). (r.asked ≡ none) × ((r.stops ≡ true) ↔ IsFinished r.next))
          (if hard
            then stop_round json resolve unavailable compaction_prompt c s
            else if call_model
            then ask_round json resolve unavailable compaction_prompt c s
            else ok (end_round c [] none))
  decided-stop_hard true call_model c s h = stop_round_lem c s
  decided-stop_hard false call_model c s h = cc

  -- Once a hard stop is asked for, no round asks the model, and a round stops the loop exactly when all
  -- operations are finished.
  pub round-stop_hard :
      (c : Coordinator) (s : Supply) {r : Round}
      → is_stop_hard c.stop.request ≡ true
      → round json resolve unavailable compaction_prompt c s ≡ ok r
      → (r.asked ≡ none) × ((r.stops ≡ true) ↔ IsFinished r.next)
  unfolding round decide
  round-stop_hard c s h e =
      let (p, happened, decided) =
        >>=-eq-ok (process_events json resolve unavailable compaction_prompt c s) _ e in
      let (_, _, hard) =
        Holds-ok (λ (p : Coordinator × Bool). Carries json c p.0) happened
          (process_events-Carries json resolve unavailable compaction_prompt c s) in
      Holds-ok (λ (r : Round). (r.asked ≡ none) × ((r.stops ≡ true) ↔ IsFinished r.next)) decided
        (decided-stop_hard (is_stop_hard p.0.stop.request) p.1 p.0 s (hard h))

  decided-stops :
      (hard call_model : Bool) (c : Coordinator) (s : Supply)
      → is_stop_hard c.stop.request ≡ hard
      → Holds
          (λ (r : Round).
            r.stops ≡ true
            → ((is_stop_hard r.next.stop.request ≡ true) × IsFinished r.next)
              ⊎ ((is_stop_when_idle r.next.stop.request ≡ true) × (is_idle r.next ≡ true)))
          (if hard
            then stop_round json resolve unavailable compaction_prompt c s
            else if call_model
            then ask_round json resolve unavailable compaction_prompt c s
            else ok (end_round c [] none))
  unfolding ask_round
  decided-stops true call_model c s h =
      Holds-intro _ (stop_round json resolve unavailable compaction_prompt c s) (λ r e stops.
        let (_, _, hard) =
          Holds-ok (λ (r : Round). Carries json c r.next) e
            (stop_round-Carries json resolve unavailable compaction_prompt c s) in
        let (_, finished) =
          Holds-ok (λ (r : Round). (r.asked ≡ none) × ((r.stops ≡ true) ↔ IsFinished r.next)) e
            (stop_round_lem c s) in
        inl (hard h, finished.0 stops))
  decided-stops false true c s h =
      >>=-Holds
        (λ (r : Round).
          r.stops ≡ true
          → ((is_stop_hard r.next.stop.request ≡ true) × IsFinished r.next)
            ⊎ ((is_stop_when_idle r.next.stop.request ≡ true) × (is_idle r.next ≡ true)))
        (with_error not_handled
          (request_model_response json resolve compaction_prompt s.turn_id s.now c))
        _ (λ p e stops. inr (both _ _ stops))
  decided-stops false false c s h = λ stops. inr (both _ _ stops)

  -- A round that stops the loop was asked to stop hard, and all operations are finished, or to stop
  -- when idle, and the coordinator is idle.
  pub round-stops :
      (c : Coordinator) (s : Supply) {r : Round}
      → round json resolve unavailable compaction_prompt c s ≡ ok r
      → r.stops ≡ true
      → ((is_stop_hard r.next.stop.request ≡ true) × IsFinished r.next)
        ⊎ ((is_stop_when_idle r.next.stop.request ≡ true) × (is_idle r.next ≡ true))
  unfolding round decide
  round-stops c s e stops =
      let (p, happened, decided) =
        >>=-eq-ok (process_events json resolve unavailable compaction_prompt c s) _ e in
      Holds-ok
        (λ (r : Round).
          r.stops ≡ true
          → ((is_stop_hard r.next.stop.request ≡ true) × IsFinished r.next)
            ⊎ ((is_stop_when_idle r.next.stop.request ≡ true) × (is_idle r.next ≡ true)))
        decided (decided-stops (is_stop_hard p.0.stop.request) p.1 p.0 s refl) stops
