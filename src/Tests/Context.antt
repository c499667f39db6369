-- ===== src/Tests/Context.antt =====
-- The context builder at concrete inputs (harness/contextbuilder).
use unreal_agent.Base.{
  String, wrap64, ◌+ℤ◌, ◌-ℤ◌, ◌-◌, ◌≡◌, refl, true, false, some, List, [], ◌∷◌, ◌++◌, drop, All,
  pos, if◌then◌else◌, ◌==◌, string_eq, nat_eq, ◌<◌, length,
}
use unreal_agent.Llm.{Item, Response, StopReason, Role, tool_call, ToolResultOutput, ToolResultKind}
use unreal_agent.Context.Builder.{
  Builder, add_external_input, add_tool_result, add_model_response, commit, new_builder,
  system_item, message_item, plain_item, put_result, result_item, PrefixToken,
}
use unreal_agent.Context.Compaction.{compact_at, summary_of, compaction_cutoff, retained}
use unreal_agent.Context.Carried.{IsCarried, compact_at_lem}
use unreal_agent.Context.Invariant.{IsWellFormed, running_count, running_count-put_result}
use unreal_agent.Context.Changes.{
  Change, model_response, system_prompt, result, committed, external_input, changes, change,
}
use unreal_agent.Context.Reached.{changes-IsWellFormed}
use unreal_agent.Tests.Samples.{sample_json, hello}
use unreal_agent.Context.Cutoff.{passing_from, compaction_cutoff_lem}

abbrev answer : Response
answer = record {
  id = "r-1";
  stop = StopReason.complete;
  output =
      message_item Role.assistant "working on it"
      ∷ plain_item (tool_call (record { call_id = "call-1"; name = "bash"; arguments = "{}" }))
      ∷ [];
  usage = record { input_tokens = pos 100; output_tokens = pos 50 };
}

abbrev long_answer : Response
long_answer = record answer { usage = record { input_tokens = pos 30000; output_tokens = pos 50 } }

abbrev output : List ToolResultOutput
output = record { kind = ToolResultKind.text; value = "done" } ∷ []

abbrev session : List Change
session =
    system_prompt "Be brief."
    ∷ external_input hello
    ∷ committed
    ∷ model_response answer
    ∷ result "call-1" [] true
    ∷ committed
    ∷ model_response long_answer
    ∷ result "call-2" output false
    ∷ []

abbrev grown : Builder
grown = changes sample_json (new_builder "You are an agent.") session

-- The first of two checkpoints is too far back: all behind the second is kept.
grown_cutoff : compaction_cutoff grown ≡ some 1
unfolding changes change add_external_input add_tool_result add_model_response commit new_builder
    compaction_cutoff wrap64 ◌+ℤ◌ ◌-ℤ◌
grown_cutoff = refl

changes-IsWellFormed_example :
    IsWellFormed (changes sample_json (new_builder "You are an agent.") session)
changes-IsWellFormed_example = changes-IsWellFormed sample_json "You are an agent." session

compact_at_lem_example :
    (carried : List Item) × All (λ (i : Item). IsCarried i.content) carried
    × (compact_at grown answer 3 ≡ record grown {
      committed_prefix =
          system_item grown.preamble grown.system_prompt
          ∷ message_item Role.user (summary_of answer.output)
          ∷ (carried ++ drop 3 grown.committed_prefix);
      prefix_tokens = [];
    })
compact_at_lem_example = compact_at_lem grown answer 3

abbrev call_1 : String
call_1 = "call-1"

running_count-put_result_example :
    running_count call_1 (put_result call_1 (result_item call_1 output false) grown.staged_suffix)
    ≡ (if call_1 == call_1
        then if false
          then if running_count call_1 grown.staged_suffix == 0
            then 1
            else running_count call_1 grown.staged_suffix
          else running_count call_1 grown.staged_suffix - 1
        else running_count call_1 grown.staged_suffix)
running_count-put_result_example =
    running_count-put_result call_1 call_1 output false grown.staged_suffix

abbrev last_checkpoint : PrefixToken
last_checkpoint = record { committed_prefix_index = 7; tokens = pos 30050 }

compaction_cutoff_lem_example :
    (compaction_cutoff grown
      ≡ some (passing_from (retained last_checkpoint.tokens) grown.prefix_tokens))
    × (passing_from (retained last_checkpoint.tokens) grown.prefix_tokens
        < length grown.prefix_tokens)
unfolding changes change add_external_input add_tool_result add_model_response commit new_builder
    wrap64 ◌+ℤ◌ ◌-ℤ◌
compaction_cutoff_lem_example = compaction_cutoff_lem grown last_checkpoint refl refl
