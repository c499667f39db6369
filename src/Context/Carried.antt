-- ===== src/Context/Carried.antt =====
-- What a compacted builder holds (harness/contextbuilder/compaction.go).
use unreal_agent.Base.{
  ℕ, ◌≡◌, refl, ap, sym, ◌∙◌, subst, String, Bool, true, false, Option, none, some, List, [], ◌∷◌,
  ◌++◌, eq_iff, drop, All, Option-cases, inl, inr, ◌==◌, string_eq, if◌then◌else◌, Bool-cases,
}
use unreal_agent.Llm.{
  Item, ItemData, message, tool_call, tool_result, provider, Role, ToolResult, Response,
  ToolResultOutput,
}
use unreal_agent.Context.Builder.{
  Builder, message_item, system_item, stage_items, set_system_prompt, new_builder, set_model,
  add_tool_result, put_result, result_item, commit, is_running_result,
}
use unreal_agent.Context.Calls.{
  PendingCalls, PendingCall, collect_pending_tool_calls, collect_from, note_item, record_result,
}
use unreal_agent.Context.Compaction.{
  compact_at, carry_calls, carry_call, carry_forward_context, add_compaction_summary, history_until,
  summary_of,
}
use unreal_agent.Context.Changes.{carry_calls-staged, add_tools-only}

abbrev pub IsCallOf : String → ItemData → Type 0
IsCallOf id (tool_call call) = call.call_id ≡ id
IsCallOf id _ = ⊥

abbrev pub IsRunning : Option ToolResult → Type 0
IsRunning none = Unit {0}
IsRunning (some r) = r.running ≡ true

abbrev pub IsPending : String → Option PendingCall → Type 0
IsPending id none = Unit {0}
IsPending id (some c) = IsCallOf id c.item.content × IsRunning c.result

abbrev pub AreCalls : PendingCalls → Type 0
AreCalls p = (id : String) → IsPending id (p.calls id)

IsPending-put :
    (k id : String) (c : PendingCall) (o : Option PendingCall)
    → IsPending k (some c)
    → IsPending id o
    → IsPending id (if k == id then some c else o)
IsPending-put k id c o new old = elim (Bool-cases (k == id)) [
  | inl same ↦ rw same (subst (λ j. IsPending j (some c)) ((eq_iff k id).0 same) new)
  | inr other ↦ rw other old
]

record_result-AreCalls :
    (o : Option PendingCall) (r : ToolResult) (p : PendingCalls)
    → IsPending r.call_id o
    → AreCalls p
    → AreCalls (record_result o r p)
record_result-AreCalls none r p old h = h
record_result-AreCalls (some c) r p old h = λ id. elim (Bool-cases r.running) [
  | inl running ↦ simp running (
      IsPending-put r.call_id id (record c { result = some r }) (p.calls id) (old.0, running)
        (h id))
  | inr final ↦
      rw final (elim (Bool-cases (r.call_id == id)) [
        | inl same ↦ rw same tt
        | inr other ↦ rw other (h id)
      ])
]

note_item-AreCalls :
    (p : PendingCalls) (item : Item) (content : ItemData)
    → item.content ≡ content
    → AreCalls p
    → AreCalls (note_item p item content)
unfolding note_item
note_item-AreCalls p item (message m) e h = h
note_item-AreCalls p item (provider m) e h = h
note_item-AreCalls p item (tool_call call) e h = λ id.
    IsPending-put call.call_id id (record { item = item; result = none }) (p.calls id)
      (subst (IsCallOf call.call_id) (sym e) refl, tt) (h id)
note_item-AreCalls p item (tool_result r) e h =
    record_result-AreCalls (p.calls r.call_id) r p (h r.call_id) h

collect_from-AreCalls :
    (p : PendingCalls) (items : List Item) → AreCalls p → AreCalls (collect_from p items)
unfolding collect_from
collect_from-AreCalls p [] h = h
collect_from-AreCalls p (item ∷ items) h =
    collect_from-AreCalls (note_item p item item.content) items
      (note_item-AreCalls p item item.content refl h)

pub collect-AreCalls : (items : List Item) → AreCalls (collect_pending_tool_calls items)
unfolding collect_pending_tool_calls
collect-AreCalls items = collect_from-AreCalls _ items (λ id. tt)

-- A call, or a result that says that the call is running.
abbrev pub IsCarried : ItemData → Type 0
IsCarried (tool_call call) = Unit {0}
IsCarried (tool_result r) = r.running ≡ true
IsCarried _ = ⊥

-- The staged items: some message first, then what is carried over.
abbrev pub StagedCalls : Item → List Item → Type 0
StagedCalls first staged =
    (carried : List Item) × (staged ≡ first ∷ carried)
    × All (λ (i : Item). IsCarried i.content) carried

All-snoc :
    (xs : List Item) (x : Item)
    → All (λ (i : Item). IsCarried i.content) xs
    → IsCarried x.content
    → All (λ (i : Item). IsCarried i.content) (xs ++ x ∷ [])
All-snoc [] x h c = (c, tt)
All-snoc (y ∷ xs) x h c = (h.0, All-snoc xs x h.1 c)

put_result-IsCarried :
    (id : String) (payload : List ToolResultOutput) (items : List Item)
    → All (λ (i : Item). IsCarried i.content) items
    → All (λ (i : Item). IsCarried i.content) (put_result id (result_item id payload true) items)
unfolding put_result
put_result-IsCarried id payload [] h = (refl, tt)
put_result-IsCarried id payload (item ∷ items) h =
    elim (Bool-cases (is_running_result id item.content)) [
      | inl old ↦ rw old (refl, h.1)
      | inr other ↦ rw other (h.0, put_result-IsCarried id payload items h.1)
    ]

put_result-StagedCalls :
    (id : String) (payload : List ToolResultOutput) (running : Bool) (first : Item)
    (staged : List Item)
    → running ≡ true
    → is_running_result id first.content ≡ false
    → StagedCalls first staged
    → StagedCalls first (put_result id (result_item id payload running) staged)
unfolding put_result
put_result-StagedCalls id payload running first staged r plain (carried, e, all) = (
  put_result id (result_item id payload running) carried,
  ap (put_result id (result_item id payload running)) e ∙ rw plain,
  subst
      (λ b.
        All (λ (i : Item). IsCarried i.content) (put_result id (result_item id payload b) carried))
      (sym r) (put_result-IsCarried id payload carried all),
)

IsCallOf-IsCarried : (id : String) (content : ItemData) → IsCallOf id content → IsCarried content
IsCallOf-IsCarried id (tool_call call) h = tt
IsCallOf-IsCarried id (tool_result r) h = absurd h
IsCallOf-IsCarried id (message m) h = h
IsCallOf-IsCarried id (provider p) h = h

carry_call-StagedCalls :
    (o : Option PendingCall) (id : String) (b : Builder) (first : Item)
    → IsPending id o
    → is_running_result id first.content ≡ false
    → StagedCalls first b.staged_suffix
    → StagedCalls first (carry_call o id b).staged_suffix
unfolding stage_items add_tool_result put_result
carry_call-StagedCalls none id b first h plain st = st
carry_call-StagedCalls (some c) id b first h plain (carried, e, all) =
    let staged : b.staged_suffix ++ c.item ∷ [] ≡ first ∷ (carried ++ c.item ∷ []) =
      ap (λ (xs : List Item). xs ++ c.item ∷ []) e in
    let more = All-snoc carried c.item all (IsCallOf-IsCarried id c.item.content h.0) in
    elim (Option-cases c.result) [
      | inl none_yet ↦ rw none_yet (carried ++ c.item ∷ [], staged, more)
      | inr (r, shown) ↦ simp shown (
          put_result-StagedCalls id r.output r.running first _ (subst IsRunning shown h.1) plain
            (carried ++ c.item ∷ [], staged, more))
    ]

carry_calls-StagedCalls :
    (p : PendingCalls) (ids : List String) (b : Builder) (first : Item)
    → AreCalls p
    → ((id : String) → is_running_result id first.content ≡ false)
    → StagedCalls first b.staged_suffix
    → StagedCalls first (carry_calls p ids b).staged_suffix
unfolding carry_calls
carry_calls-StagedCalls p [] b first h plain st = st
carry_calls-StagedCalls p (id ∷ ids) b first h plain st =
    carry_calls-StagedCalls p ids (carry_call (p.calls id) id b) first h plain
      (carry_call-StagedCalls (p.calls id) id b first (h id) (plain id) st)

-- The builder that is made of one with the carried calls staged.
abbrev over : Builder → ℕ → Builder → Builder
over b start k = record (commit k) {
  committed_prefix = (commit k).committed_prefix ++ drop start b.committed_prefix;
  staged_suffix = (commit k).staged_suffix ++ b.staged_suffix;
}

over-staged :
    (b k : Builder) (start : ℕ) (staged items : List Item)
    → k ≡ record (new_builder b.preamble) {
      model = b.model;
      system_prompt = b.system_prompt;
      tools = b.tools;
      committed_prefix = system_item b.preamble b.system_prompt ∷ [];
      staged_suffix = staged;
    }
    → staged ≡ items
    → over b start k ≡ record b {
      committed_prefix =
          system_item b.preamble b.system_prompt ∷ (items ++ drop start b.committed_prefix);
      prefix_tokens = [];
    }
unfolding commit new_builder
over-staged b k start staged items e f =
    ap (over b start) e
    ∙ ap
        (λ (xs : List Item). record b {
          committed_prefix =
              system_item b.preamble b.system_prompt ∷ (xs ++ drop start b.committed_prefix);
          prefix_tokens = [];
        })
        f

-- What the compacted builder is before calls are carried over.
summarized : Builder → Response → Builder
summarized b r = record (new_builder b.preamble) {
  model = b.model;
  system_prompt = b.system_prompt;
  tools = b.tools;
  committed_prefix = system_item b.preamble b.system_prompt ∷ [];
  staged_suffix = message_item Role.user (summary_of r.output) ∷ [];
}

compact_at-summarized :
    (b : Builder) (r : Response) (start : ℕ)
    → compact_at b r start
      ≡ over b start (
          carry_calls
            (collect_pending_tool_calls (history_until b start))
            (collect_pending_tool_calls (history_until b start)).order
            (summarized b r))
unfolding compact_at summarized commit stage_items
compact_at-summarized b r start =
    ap (λ (k : Builder). carry_forward_context (add_compaction_summary k r) b start)
      (add_tools-only b.tools
        (set_system_prompt (set_model (new_builder b.preamble) b.model) b.system_prompt))

-- A compacted builder has the model, the tools and the prompts of the builder that it is made from,
-- no checkpoint, and for its input the system prompt, the summary, calls that are still pending with
-- their running results, and everything behind the cutoff as it was.
pub compact_at_lem :
    (b : Builder) (r : Response) (start : ℕ)
    → (carried : List Item) × All (λ (i : Item). IsCarried i.content) carried
      × (compact_at b r start ≡ record b {
        committed_prefix =
            system_item b.preamble b.system_prompt
            ∷ message_item Role.user (summary_of r.output)
            ∷ (carried ++ drop start b.committed_prefix);
        prefix_tokens = [];
      })
unfolding summarized
compact_at_lem b r start =
    let pending = collect_pending_tool_calls (history_until b start) in
    let (carried, e, all) =
      carry_calls-StagedCalls pending pending.order (summarized b r)
        (message_item Role.user (summary_of r.output)) (collect-AreCalls (history_until b start))
        (λ id. refl) ([], refl, tt) in
    (
      carried,
      all,
      compact_at-summarized b r start
          ∙ over-staged b _ start _ _ (carry_calls-staged pending pending.order (summarized b r)) e,
    )
