-- ===== src/Context/Compaction.antt =====
-- harness/contextbuilder/compaction.go: when a history is compacted, up to where, and what of it is
-- carried over. `compaction_prompt` is the embedded file prompts/compaction.md.
use mathlib.Core.Option
use unreal_agent.Base.{
  ℕ, zero, suc, String, Bool, true, false, Option, none, some, List, [], ◌∷◌, ◌++◌, Result, ok,
  ◌>>=◌, or_fail, if◌then◌else◌, length, get_elem?, get_last?, take, drop, ℤ, pos, ◌-ℤ◌, wrap64,
  leb_ℤ,
}
use unreal_agent.Text.{is_blank}
use unreal_agent.Llm.{Item, ItemData, message, Role, Tool, Request, Response}
use unreal_agent.Context.Builder.{
  PrefixToken, Builder, Error, no_history, message_item, set_system_prompt, new_builder,
  stage_items, set_model, add_tool, add_tool_result, commit, build,
}
use unreal_agent.Context.Calls.{PendingCall, PendingCalls, collect_pending_tool_calls}

abbrev pub compaction_retained_tokens : ℤ
compaction_retained_tokens = pos 20000

abbrev reaches : Option PrefixToken → ℤ → Bool
reaches none threshold = false
reaches (some last) threshold = leb_ℤ threshold last.tokens

unfoldable pub needs_compaction : Builder → Bool
needs_compaction b = reaches (get_last? b.prefix_tokens) b.model.compaction_threshold

abbrev pub retained : ℤ → PrefixToken → Bool
retained latest checkpoint = leb_ℤ (wrap64 (latest -ℤ checkpoint.tokens)) compaction_retained_tokens

-- A round of the loop of `compactionCutoff`: `rest` is what the next rounds find.
abbrev pub keep_or_stop : Option PrefixToken → ℤ → ℕ → ℕ → ℕ
keep_or_stop none latest rest start = start
keep_or_stop (some checkpoint) latest rest start =
    if retained latest checkpoint then rest else start

-- The loop over the first `n` checkpoints, from the last of them backwards.
unfoldable pub cutoff_loop : ℤ → List PrefixToken → ℕ → ℕ → ℕ
cutoff_loop latest checkpoints zero start = start
cutoff_loop latest checkpoints (suc n) start =
    let rest = cutoff_loop latest checkpoints n n in
    keep_or_stop (get_elem? checkpoints n) latest rest start

unfoldable pub cutoff_of : Option PrefixToken → List PrefixToken → Option ℕ
unfolding cutoff_loop
cutoff_of none checkpoints = none
cutoff_of (some last) checkpoints =
    if leb_ℤ last.tokens compaction_retained_tokens
    then none
    else some (cutoff_loop last.tokens checkpoints (length checkpoints) 0)

unfoldable pub compaction_cutoff : Builder → Option ℕ
unfolding cutoff_of
compaction_cutoff b = cutoff_of (get_last? b.prefix_tokens) b.prefix_tokens

-- `current.prefixTokens[cutoff].committedPrefixIndex`
unfoldable pub cutoff_index : Builder → Option ℕ
cutoff_index b = elim (compaction_cutoff b) [
  | none ↦ none
  | some cutoff ↦ Option.map (λ t. t.committed_prefix_index) (get_elem? b.prefix_tokens cutoff)
]

-- `committedPrefix[1:end]`
abbrev pub history_until : Builder → ℕ → List Item
history_until b end = drop 1 (take end b.committed_prefix)

abbrev answer_pending : Option PendingCall → String → Builder → Builder
answer_pending none id b = b
answer_pending (some call) id b = elim call.result [
  | none ↦ add_tool_result b id [] true
  | some r ↦ b
]

-- The loop of `BuildCompaction` over the pending calls.
answer_calls : PendingCalls → List String → Builder → Builder
answer_calls p [] b = b
answer_calls p (id ∷ ids) b = answer_calls p ids (answer_pending (p.calls id) id b)

abbrev pub compaction_request_text : String
compaction_request_text =
    "This is system message. You are performing context compaction. Return only the text of a handoff summary for another LLM assistant to resume the original task."

unfoldable pub build_compaction : String → Builder → Result Error Request
unfolding answer_calls
build_compaction compaction_prompt b = do
  end ← or_fail (cutoff_index b) no_history
  let history = history_until b end
  let pending = collect_pending_tool_calls history
  let summarizer = stage_items (set_model (new_builder compaction_prompt) b.model) history
  let answered = answer_calls pending pending.order summarizer
  ok (build (stage_items answered (message_item Role.user compaction_request_text ∷ [])))

abbrev assistant_text : Role → String → Option String
assistant_text Role.assistant text = if is_blank text then none else some text
assistant_text _ text = none

abbrev summary_text : ItemData → Option String
summary_text (message m) = assistant_text m.role m.text
summary_text _ = none

abbrev or_this : Option String → String → String
or_this none text = text
or_this (some found) text = found

-- The text of the last assistant message that is not blank, and `""` where there is none.
unfoldable pub summary_from : String → List Item → String
unfolding is_blank
summary_from text [] = text
summary_from text (item ∷ items) = summary_from (or_this (summary_text item.content) text) items

unfoldable pub summary_of : List Item → String
unfolding summary_from
summary_of = summary_from ""

-- `addCompactionSummary`
unfoldable pub add_compaction_summary : Builder → Response → Builder
unfolding summary_of
add_compaction_summary b r = stage_items b (message_item Role.user (summary_of r.output) ∷ [])

abbrev pub carry_call : Option PendingCall → String → Builder → Builder
carry_call none id b = b
carry_call (some call) id b = elim call.result [
  | none ↦ stage_items b (call.item ∷ [])
  | some r ↦ add_tool_result (stage_items b (call.item ∷ [])) id r.output r.running
]

-- The loop of `carryForwardContext`.
unfoldable pub carry_calls : PendingCalls → List String → Builder → Builder
carry_calls p [] b = b
carry_calls p (id ∷ ids) b = carry_calls p ids (carry_call (p.calls id) id b)

unfoldable pub carry_forward_context : Builder → Builder → ℕ → Builder
unfolding carry_calls commit
carry_forward_context b source start =
    let pending = collect_pending_tool_calls (history_until source start) in
    let carried = commit (carry_calls pending pending.order b) in
    record carried {
      committed_prefix = carried.committed_prefix ++ drop start source.committed_prefix;
      staged_suffix = carried.staged_suffix ++ source.staged_suffix;
    }

unfoldable pub add_tools : Builder → List Tool → Builder
unfolding add_tool
add_tools b [] = b
add_tools b (tool ∷ tools) = add_tools (add_tool b tool) tools

unfoldable pub compact_at : Builder → Response → ℕ → Builder
unfolding carry_forward_context add_compaction_summary add_tools set_system_prompt set_model
    new_builder
compact_at b r start =
    let fresh = set_system_prompt (set_model (new_builder b.preamble) b.model) b.system_prompt in
    carry_forward_context (add_compaction_summary (add_tools fresh b.tools) r) b start

-- `none` where `Compact` returns the builder itself and false.
unfoldable pub compact : Builder → Response → Option Builder
unfolding compact_at
compact b r = Option.map (compact_at b r) (cutoff_index b)
