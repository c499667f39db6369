-- ===== src/Context/Reached.antt =====
-- The builders that calls of harness/contextbuilder reach, and where a history is cut.
use mathlib.Core.Option
use unreal_agent.Base.{
  ℕ, refl, sym, subst, String, Option, none, some, List, [], ◌∷◌, arith, ok, err, Result, Holds,
  >>=-Holds, reject_if-Holds, or_fail, not,
}
use unreal_agent.Llm.{Response}
use unreal_agent.Inbox.{Input, Json, is_external}
use unreal_agent.Text.{raw}
use unreal_agent.Context.Builder.{
  Builder, Error, new_builder, add_external_input, set_model, add_control_message, add_tool,
  not_external, malformed_input,
}
use unreal_agent.Context.Compaction.{compact, compact_at, cutoff_index}
use unreal_agent.Context.Carried.{compact_at_lem}
use unreal_agent.Context.Invariant.{
  IsWellFormed, new_builder-IsWellFormed, set_system_prompt-IsWellFormed, commit-IsWellFormed,
  add_model_response-IsWellFormed, add_tool_result-IsWellFormed,
}
use unreal_agent.Context.Changes.{
  Change, external_input, control_message, model, system_prompt, model_response, tool, result,
  committed, compacted, change, changes, or_same, stage_message-IsWellFormed, add_mode-IsWellFormed,
}

compact_at-IsWellFormed :
    (b : Builder) (r : Response) (start : ℕ) → IsWellFormed b → IsWellFormed (compact_at b r start)
compact_at-IsWellFormed b r start v =
    let (carried, _, e) = compact_at_lem b r start in
    subst IsWellFormed (sym e)
      (record { system = refl; checkpoints = omega arith; single = v.single })

compact-IsWellFormed :
    (b : Builder) (r : Response) (at : Option ℕ)
    → IsWellFormed b
    → IsWellFormed (or_same b (Option.map (compact_at b r) at))
compact-IsWellFormed b r none v = v
compact-IsWellFormed b r (some start) v = compact_at-IsWellFormed b r start v

module _ (json : Json) where
  text-IsWellFormed :
      (b : Builder) (input : Input)
      → IsWellFormed b
      → Holds IsWellFormed (add_external_input json b input)
  unfolding add_external_input
  text-IsWellFormed b input v =
      reject_if-Holds IsWellFormed (not (is_external input.kind)) not_external _ (λ _.
        >>=-Holds IsWellFormed (or_fail (json.text (raw input.payload)) malformed_input) _
          (λ _ _. stage_message-IsWellFormed b _ v))

  change-IsWellFormed :
      (b : Builder) (c : Change) → IsWellFormed b → Holds IsWellFormed (change json b c)
  unfolding change set_model add_control_message add_tool compact
  change-IsWellFormed b (external_input input) v = text-IsWellFormed b input v
  change-IsWellFormed b (control_message m) v = add_mode-IsWellFormed m.mode m b v
  change-IsWellFormed b (model m) v = record {
    system = v.system;
    checkpoints = v.checkpoints;
    single = v.single;
  }
  change-IsWellFormed b (system_prompt prompt) v = set_system_prompt-IsWellFormed b prompt v
  change-IsWellFormed b (model_response r) v = add_model_response-IsWellFormed b r v
  change-IsWellFormed b (tool t) v = record {
    system = v.system;
    checkpoints = v.checkpoints;
    single = v.single;
  }
  change-IsWellFormed b (result id payload running) v =
      add_tool_result-IsWellFormed b id payload running v
  change-IsWellFormed b committed v = commit-IsWellFormed b v
  change-IsWellFormed b (compacted r) v = compact-IsWellFormed b r (cutoff_index b) v

  changes-keep-IsWellFormed :
      (b : Builder) (cs : List Change) → IsWellFormed b → IsWellFormed (changes json b cs)
  unfolding changes
  changes-keep-IsWellFormed b [] v = v
  changes-keep-IsWellFormed b (c ∷ cs) v =
      go (λ k. changes-keep-IsWellFormed k cs) (change json b c) (change-IsWellFormed b c v)
    where
      go :
          ((k : Builder) → IsWellFormed k → IsWellFormed (changes json k cs))
          → (r : Result Error Builder) → Holds IsWellFormed r
          → IsWellFormed (elim r [ ok next ↦ changes json next cs | err e ↦ changes json b cs ])
      go later (ok next) h = later next h
      go later (err e) h = later b v

  -- After any calls on a new builder the first item is the system prompt of its preamble and its
  -- prompt, the checkpoints' indices rise from 1 to the length of the committed prefix at most, and
  -- the staged suffix holds at most one running result of a call.
  pub changes-IsWellFormed :
      (preamble : String) (cs : List Change) → IsWellFormed (changes json (new_builder preamble) cs)
  changes-IsWellFormed preamble cs =
      changes-keep-IsWellFormed (new_builder preamble) cs (new_builder-IsWellFormed preamble)
