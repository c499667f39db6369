-- ===== src/Tests/Coordinator.antt =====
-- The coordinator at concrete inputs (harness/coordinator).
use unreal_agent.Base.{
  ◌≤◌, ◌≡◌, refl, true, false, none, some, List, [], ◌∷◌, length, ok, err, Result, filter_by, ◌==◌,
  string_eq, ◌++◌,
}
use unreal_agent.Llm.{Request}
use unreal_agent.Inbox.{Input, control, validate}
use unreal_agent.Store.{Item, ItemData}
use unreal_agent.Store.State
use unreal_agent.Store.Head
use unreal_agent.Store.Status
use unreal_agent.Coordinator.Reconcile
use unreal_agent.Store.State.{new_stored_state, StoredState}
use unreal_agent.Store.Commands.{apply}
use unreal_agent.Context.Builder.{new_builder, build}
use unreal_agent.Coordinator.State.{new_loop_state, key_of}
use unreal_agent.Coordinator.Local.{Local, Error as LocalError, Resolve, restore_item}
use unreal_agent.Coordinator.Load.{restore_items}
use unreal_agent.Coordinator.Counts.{IsCounted, restored-IsCounted}
use unreal_agent.Coordinator.Handlers.{
  Coordinator, handle_inbox_inputs, Error, request_model_response, handle_stop,
}
use unreal_agent.Coordinator.Steps.{handle_inbox_inputs-stop_hard}
use unreal_agent.Tests.Samples.{
  sample_json, hello, new_settings, waiting_status, done_operation, ready_operation,
}
use unreal_agent.Tests.Store.{s4}
use unreal_agent.Coordinator.Reconcile.{Closed, reconcile_tool_calls}
use unreal_agent.Coordinator.Stopping.{handle_stop_lem, unfinished, Leaves}
use unreal_agent.Coordinator.Recorded.{contents, has_external, WakesIf, handle_inbox_inputs-WakesIf}
use unreal_agent.Coordinator.Asked.{AsksTurn, request_model_response-Commits}

abbrev pub no_tools : Resolve
no_tools name = none

abbrev pub started : Coordinator
started = record {
  local = record { loop = new_loop_state; builder = new_builder "You are an agent." };
  stop = record { request = none; cancellation_requested = false };
  model_runs = false;
  stored = new_stored_state "s" 1;
}

abbrev pub quit : Input
quit = record { id = "in-9"; kind = control; payload = some "quit" }

abbrev or_else : Result Error Coordinator → Coordinator → Coordinator
or_else (ok c) d = c
or_else (err e) d = d

abbrev greeted : Coordinator
greeted = or_else (handle_inbox_inputs sample_json no_tools 2 started (hello ∷ [])) started

abbrev pub stopped : Coordinator
stopped = or_else (handle_inbox_inputs sample_json no_tools 3 greeted (quit ∷ [])) started

abbrev twice : Coordinator
twice = or_else (handle_inbox_inputs sample_json no_tools 2 started (hello ∷ quit ∷ [])) started

abbrev changed : Coordinator
changed = or_else (handle_inbox_inputs sample_json no_tools 4 stopped (new_settings ∷ [])) started

handle_inbox_inputs-stop_hard_example : changed.stop ≡ stopped.stop
unfolding handle_inbox_inputs new_loop_state new_stored_state new_builder State.append_input
    Head.append_input
handle_inbox_inputs-stop_hard_example =
    handle_inbox_inputs-stop_hard sample_json no_tools 4 (new_settings ∷ []) stopped {k = changed}
      refl refl

abbrev or_these :
    Result Error (Coordinator × Request) → Coordinator × Request → Coordinator × Request
or_these (ok c) d = c
or_these (err e) d = d

abbrev asked : Coordinator × Request
asked =
    or_these (request_model_response sample_json no_tools "Summarize." "turn-1" 5 greeted)
      (started, build started.local.builder)

handle_inbox_inputs-WakesIf_example :
    (contents twice.stored
      ≡ contents started.stored ++ ItemData.input hello ∷ ItemData.input quit ∷ [])
    × WakesIf (has_external (hello ∷ quit ∷ [])) twice
unfolding handle_inbox_inputs new_loop_state new_stored_state new_builder State.append_input
    Head.append_input
handle_inbox_inputs-WakesIf_example =
    handle_inbox_inputs-WakesIf sample_json no_tools 2 (hello ∷ quit ∷ []) started {k = twice} refl

request_model_response-Commits_example : AsksTurn "turn-1" greeted asked
unfolding handle_inbox_inputs request_model_response new_loop_state new_stored_state new_builder
    State.append_turn Head.append_turn State.append_input Head.append_input
request_model_response-Commits_example =
    request_model_response-Commits sample_json no_tools "Summarize." "turn-1" 5 greeted
      {k = asked.0} {request = asked.1} refl

abbrev greeting : List Item
greeting = greeted.stored.items

abbrev or_fresh : Result LocalError Local → Local
or_fresh (ok l) = l
or_fresh (err e) = started.local

abbrev restored : Local
restored = or_fresh (restore_items (restore_item no_tools sample_json) started.local greeting)

restored-IsCounted_example :
    IsCounted restored.loop × (restored.loop.available_inputs ≤ length greeting)
unfolding restore_items restore_item handle_inbox_inputs new_loop_state new_stored_state new_builder
    State.append_input Head.append_input
restored-IsCounted_example =
    restored-IsCounted no_tools sample_json (new_builder "You are an agent.") greeting
      {l = restored} refl

abbrev any_tool : Resolve
any_tool name = some (record {
  translate = λ fresh call. (waiting_status.status, []);
  translate_result = λ id status values. some [];
})

-- A call is open whose operation is finished.
abbrev waiting : Coordinator
waiting = record started {
  stored = s4;
  local = record started.local {
    loop = record started.local.loop {
      current_turn_id = "turn-1";
      operations = done_operation ∷ [];
      tool_calls =
          record {
            key = key_of waiting_status;
            call = record {
              tool_call = record {
                call_id = waiting_status.call_id;
                name = "bash";
                arguments = "{}";
              };
              status = some waiting_status.status;
              operations = "op-1" ∷ [];
            };
          }
          ∷ [];
    };
  };
}

abbrev or_waiting : Result Reconcile.Error Closed → Closed
or_waiting (ok closed) = closed
or_waiting (err e) = (waiting, [])

abbrev reconciled : Closed
reconciled = or_waiting (reconcile_tool_calls sample_json any_tool 7 waiting)

call_is_closed : reconciled.0.local.loop.tool_calls ≡ []
unfolding reconcile_tool_calls new_loop_state new_stored_state new_builder State.append_input
    Head.append_input State.append_turn Head.append_turn State.append_tool_call_status
    Status.append_tool_call_status State.save_operation Status.save_operation apply validate
call_is_closed = refl

abbrev stopping : Coordinator
stopping = record waiting {
  model_runs = true;
  local = record waiting.local {
    loop = record waiting.local.loop {
      operations = record done_operation { id = "op-0" } ∷ ready_operation ∷ [];
    };
  };
}

-- The cancellation of the operation that runs fails.
handle_stop_lem_example :
    let ids = unfinished stopping.local.loop.operations in
    let (k, tried, result) = handle_stop (λ id. id == "op-1") stopping in
    (tried ≡ ids)
    × (k.model_runs ≡ false)
    × Leaves (filter_by (λ id. id == "op-1") ids) stopping.local.loop.operations k result
handle_stop_lem_example = handle_stop_lem (λ id. id == "op-1") stopping refl

cancel_has_failed : (handle_stop (λ id. id == "op-1") stopping).2 ≡ err ("op-1" ∷ [])
unfolding handle_stop
cancel_has_failed = refl
