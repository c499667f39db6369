-- ===== src/Tests/Store.antt =====
-- The session store at concrete inputs (harness/sessionstore/localfile).
use unreal_agent.Base.{
  ℕ, ◌≡◌, refl, ◌≢◌, String, false, not, ◌||◌, some, [], ◌∷◌, ok, err, Result, with_error,
  filter_by, take, arith, suc, if◌then◌else◌, ◌==◌, string_eq,
}
use unreal_agent.Inbox.{validate}
use unreal_agent.Operation.{Operation, is_terminal}
use unreal_agent.Store.{Item}
use unreal_agent.Store.State
use unreal_agent.Store.Status
use unreal_agent.Store.Head
use unreal_agent.Store.Head.{Error, index_out_of_range}
use unreal_agent.Store.State.{
  StoredState, new_stored_state, save_operation, fork_stored_state, resume, find_boundary,
}
use unreal_agent.Store.Commands.{Command, apply, Reachable, created, applied}
use unreal_agent.Store.Invariant.{IsConsistent}
use unreal_agent.Store.Forks.{Reachable-IsConsistent}
use unreal_agent.Store.Resume.{recorded, inputs_of, last_is_open, resume_lem, fork-resume}
use unreal_agent.Store.Updates.{operation_of, save_operation-operation_of, save_operation_in_range}
use unreal_agent.Coordinator.Load.{
  load_history, restore_items, not_restored, load_history-restore_items,
}
use unreal_agent.Tests.Samples.{
  sample_json, hello, first_turn, ready_operation, done_operation, waiting_status,
}

abbrev or_else : Result Error StoredState → StoredState → StoredState
or_else (ok s) t = s
or_else (err e) t = t

abbrev after : StoredState → Command → StoredState
after s c = or_else (apply sample_json s c) s

abbrev s0 : StoredState
s0 = new_stored_state "s" 1

abbrev s1 : StoredState
s1 = after s0 (Command.input hello 2)

abbrev s2 : StoredState
s2 = after s1 (Command.turn first_turn 3)

abbrev s3 : StoredState
s3 = after s2 (Command.tool_call_status waiting_status (ready_operation ∷ []) 4)

abbrev pub s4 : StoredState
s4 = after s3 (Command.operation done_operation)

s3-Reachable : Reachable sample_json s3
unfolding apply new_stored_state State.append_input Head.append_input validate State.append_turn
    Head.append_turn State.append_tool_call_status Status.append_tool_call_status
s3-Reachable =
    applied (Command.tool_call_status waiting_status (ready_operation ∷ []) 4)
      (applied (Command.turn first_turn 3) (applied (Command.input hello 2) (created "s" 1) refl)
        refl)
      refl

pub s4-Reachable : Reachable sample_json s4
unfolding apply new_stored_state State.append_input Head.append_input validate State.append_turn
    Head.append_turn State.append_tool_call_status Status.append_tool_call_status save_operation
    Status.save_operation
s4-Reachable = applied (Command.operation done_operation) s3-Reachable refl

Reachable-IsConsistent_example : IsConsistent sample_json s4
Reachable-IsConsistent_example = Reachable-IsConsistent sample_json s4-Reachable

abbrev op_1 : String
op_1 = "op-1"

save_operation-operation_of_example :
    (operation_of s4 "op-1"
      ≡ (if op_1 == done_operation.id then some done_operation else operation_of s3 op_1))
    × ((old : Operation) × (operation_of s3 "op-1" ≡ some old)
        × (old.type ≡ "shell")
        × (old.version ≡ 1))
    × (s4.items ≡ s3.items)
unfolding apply new_stored_state State.append_input Head.append_input validate State.append_turn
    Head.append_turn State.append_tool_call_status Status.append_tool_call_status save_operation
    Status.save_operation
save_operation-operation_of_example =
    save_operation-operation_of sample_json {s = s3} {s' = s4} done_operation op_1 s3-Reachable refl

save_operation_in_range_example :
    save_operation sample_json s3 done_operation ≢ err index_out_of_range
save_operation_in_range_example = save_operation_in_range sample_json done_operation s3-Reachable

-- The operation is finished, but the history does not record it yet.
s4_resumes : (resume s4).operations ≡ done_operation ∷ []
unfolding apply new_stored_state State.append_input Head.append_input validate State.append_turn
    Head.append_turn State.append_tool_call_status Status.append_tool_call_status save_operation
    Status.save_operation resume
s4_resumes = refl

resume_lem_example :
    let r = resume s4 in
    (r.session ≡ s4.head.session)
    × (r.operations
        ≡ filter_by
            (λ value.
              not (is_terminal value.status) || last_is_open false value.id (recorded s4.items))
            s4.head.operations)
    × (r.input_ids ≡ inputs_of s4.items)
resume_lem_example = resume_lem s4

abbrev child : StoredState
child = or_else (fork_stored_state s4 "t" "turn-1" 9) s4

fork-resume_example :
    ((resume child).operations ≡ [])
    × ((resume child).input_ids ≡ inputs_of (take (find_boundary "turn-1" s4.items 0 0) s4.items))
unfolding apply new_stored_state State.append_input Head.append_input validate State.append_turn
    Head.append_turn State.append_tool_call_status Status.append_tool_call_status save_operation
    Status.save_operation fork_stored_state
fork-resume_example = fork-resume s4 "t" "turn-1" 9 {child = child} refl

-- Restoring that only counts the items.
abbrev count_item : ℕ → Item → Result Error ℕ
count_item n item = ok (suc n)

load_history-restore_items_example :
    load_history count_item 5 s4.items 0
    ≡ with_error not_restored (restore_items count_item 0 s4.items)
unfolding apply new_stored_state State.append_input Head.append_input validate State.append_turn
    Head.append_turn State.append_tool_call_status Status.append_tool_call_status save_operation
    Status.save_operation
load_history-restore_items_example =
    load_history-restore_items count_item sample_json 5 0 s4-Reachable (omega arith) (omega arith)
