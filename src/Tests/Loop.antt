-- ===== src/Tests/Loop.antt =====
-- The event loop at concrete inputs (harness/coordinator/loop.go).
use unreal_agent.Base.{
  ◌≡◌, refl, ◌↔◌, ◌⊎◌, ℕ, String, true, false, none, some, List, [], ◌∷◌, ok, err, Result, arith,
  pos,
}
use unreal_agent.Llm.{Response, complete, tool_call}
use unreal_agent.Inbox.{validate}
use unreal_agent.Operation.{CallStatus, Operation}
use unreal_agent.Store.State
use unreal_agent.Store.State.{new_stored_state}
use unreal_agent.Store.Head
use unreal_agent.Store.Head.{CallKey}
use unreal_agent.Store.Status
use unreal_agent.Store.Commands.{Reachable, created, apply}
use unreal_agent.Context.Builder.{new_builder}
use unreal_agent.Coordinator.State.{new_loop_state}
use unreal_agent.Coordinator.Counts.{IsCounted}
use unreal_agent.Coordinator.Handlers.{
  Coordinator, is_stop_hard, is_stop_when_idle, is_idle, handle_inbox_inputs,
}
use unreal_agent.Coordinator.Loop.{Supply, Event, Round, Error, start, run, round, model_failed}
use unreal_agent.Coordinator.Runs.{run-Reachable}
use unreal_agent.Coordinator.Stops.{round-stop_hard, round-stops, IsFinished}
use unreal_agent.Coordinator.Untranslated.{run-translated, is_untranslated}
use unreal_agent.Tests.Store.{s4}
use unreal_agent.Tests.Samples.{sample_json, hello}
use unreal_agent.Tests.Coordinator.{no_tools, started, quit, stopped}

abbrev unavailable : String → CallStatus
unavailable name = record { error = "not available"; error_truncated = false; waiting_for = [] }

abbrev id_of : CallKey → ℕ → String
id_of key n = "op"

abbrev supply : Supply
supply = record {
  inputs = hello ∷ [];
  updates = [];
  turn_id = "turn-1";
  ids = id_of;
  cancel_fails = λ id. false;
  now = 5;
}

abbrev quiet : Supply
quiet = record {
  inputs = [];
  updates = [];
  turn_id = "turn-2";
  ids = id_of;
  cancel_fails = λ id. false;
  now = 6;
}

-- The model calls a tool that is not there.
abbrev response : Response
response = record {
  id = "response-1";
  stop = complete;
  output =
      record {
        provider_id = "";
        content = tool_call (record { call_id = "call-1"; name = "bash"; arguments = "{}" });
      }
      ∷ [];
  usage = record { input_tokens = pos 10; output_tokens = pos 5 };
}

abbrev steps : List (Supply × Event)
steps =
    (supply, Event.reply (record { turn_id = "turn-1"; response = some response }))
    ∷ (quiet, Event.input quit)
    ∷ (quiet, Event.grace)
    ∷ []

abbrev or_started : Result Error Coordinator → Coordinator
or_started (ok c) = c
or_started (err e) = started

abbrev ran : Coordinator
ran = or_started (run sample_json no_tools unavailable "Summarize." started steps)

ran_calls_twice :
    (ran.local.loop.current_turn_id ≡ "turn-2") × (ran.stop.request ≡ stopped.stop.request)
unfolding run new_loop_state new_stored_state new_builder State.append_input Head.append_input
    State.append_turn Head.append_turn State.append_model_response Head.append_model_response
    State.append_tool_call_status Status.append_tool_call_status validate handle_inbox_inputs
ran_calls_twice = (refl, refl)

run-Reachable_example : IsCounted ran.local.loop × Reachable sample_json ran.stored
unfolding start run new_loop_state new_stored_state new_builder State.append_input Head.append_input
    State.append_turn Head.append_turn State.append_model_response Head.append_model_response
    State.append_tool_call_status Status.append_tool_call_status validate
run-Reachable_example =
    run-Reachable sample_json no_tools unavailable "Summarize." started quiet steps
      {begun = started} {k = ran} {given = []} (omega arith, omega arith) (created "s" 1) refl refl

abbrev or_rested : Result Error Round → Round
or_rested (ok r) = r
or_rested (err e) = record { next = started; stops = false; canceled = []; asked = none }

abbrev last_round : Round
last_round = or_rested (round sample_json no_tools unavailable "Summarize." stopped quiet)

round-stop_hard_example :
    (last_round.asked ≡ none) × ((last_round.stops ≡ true) ↔ IsFinished last_round.next)
unfolding round new_loop_state new_stored_state new_builder State.append_input Head.append_input
    validate handle_inbox_inputs
round-stop_hard_example =
    round-stop_hard sample_json no_tools unavailable "Summarize." stopped quiet {r = last_round}
      refl refl

round-stops_example :
    ((is_stop_hard last_round.next.stop.request ≡ true) × IsFinished last_round.next)
    ⊎ ((is_stop_when_idle last_round.next.stop.request ≡ true) × (is_idle last_round.next ≡ true))
unfolding round new_loop_state new_stored_state new_builder State.append_input Head.append_input
    validate handle_inbox_inputs
round-stops_example =
    round-stops sample_json no_tools unavailable "Summarize." stopped quiet {r = last_round} refl
      refl

-- A call that was restored without a status.
abbrev restored : Coordinator
restored = record started {
  stored = s4;
  local = record started.local {
    loop = record started.local.loop {
      current_turn_id = "turn-1";
      tool_calls =
          record {
            key = record { turn_id = "turn-1"; call_id = "call-1" };
            call = record {
              tool_call = record { call_id = "call-1"; name = "bash"; arguments = "{}" };
              status = none;
              operations = [];
            };
          }
          ∷ [];
    };
  };
}

abbrev or_restored : Result Error (Coordinator × List Operation) → Coordinator × List Operation
or_restored (ok p) = p
or_restored (err e) = (restored, [])

abbrev begun : Coordinator × List Operation
begun = or_restored (start sample_json no_tools unavailable "Summarize." restored quiet)

abbrev fails : List (Supply × Event)
fails =
    (
      record supply { turn_id = "turn-8"; inputs = [] },
      Event.reply (record { turn_id = "turn-8"; response = none }),
    )
    ∷ []

run-translated_example : is_untranslated (model_failed "turn-8") ≡ false
unfolding start run new_loop_state new_stored_state new_builder State.append_input Head.append_input
    State.append_turn Head.append_turn State.append_tool_call_status Status.append_tool_call_status
    State.save_operation Status.save_operation apply validate
run-translated_example =
    run-translated sample_json no_tools unavailable "Summarize." restored quiet fails
      {begun = begun.0} {given = begun.1} {e = model_failed "turn-8"} refl refl
