-- ===== src/Context/Changes.antt =====
-- The calls of a builder that change it (harness/contextbuilder), and the builders that they reach.
use unreal_agent.Base.{
  ℕ, ◌≤◌, ◌≡◌, refl, ap, sym, ◌∙◌, String, Bool, true, false, Option, none, some, List, [], ◌∷◌,
  ◌++◌, arith, ok, err, Result, Option-cases, inl, inr, if◌then◌else◌, not, ◌&&◌, ◌==◌, string_eq,
}
use unreal_agent.Llm.{message, Tool, ToolResultOutput, Model, Response, Message}
use unreal_agent.Inbox.{
  Input, ControlMessage, ControlMode, heartbeat, update_settings, Json, Settings,
}
use unreal_agent.Context.Builder.{
  Builder, Error, stage_items, set_system_prompt, add_external_input, set_model, apply_settings,
  add_mode, add_control_message, add_model_response, add_tool, add_tool_result, commit, plain_item,
  PrefixToken,
}
use unreal_agent.Context.Calls.{PendingCalls, PendingCall}
use unreal_agent.Context.Compaction.{compact, carry_calls, carry_call, add_tools}
use unreal_agent.Context.Invariant.{IsWellFormed, running_count-append, Rising}
use mathlib.Core.List.{append-nil, append_assoc}

pub data Change : Type 0 where
  external_input : Input → Change
  control_message : ControlMessage → Change
  model : Model → Change
  system_prompt : String → Change
  model_response : Response → Change
  tool : Tool → Change
  result : String → List ToolResultOutput → Bool → Change
  committed : Change
  compacted : Response → Change

abbrev pub or_same : Builder → Option Builder → Builder
or_same b none = b
or_same b (some c) = c

module _ (json : Json) where
  unfoldable pub change : Builder → Change → Result Error Builder
  change b (external_input input) = add_external_input json b input
  change b (control_message m) = ok (add_control_message b m)
  change b (model m) = ok (set_model b m)
  change b (system_prompt prompt) = ok (set_system_prompt b prompt)
  change b (model_response r) = ok (add_model_response b r)
  change b (tool t) = ok (add_tool b t)
  change b (result id payload running) = ok (add_tool_result b id payload running)
  change b committed = ok (commit b)
  change b (compacted r) = ok (or_same b (compact b r))

  -- Some calls in a row; a call that fails changes nothing.
  unfoldable pub changes : Builder → List Change → Builder
  changes b [] = b
  changes b (c ∷ cs) = elim (change b c) [ ok b' ↦ changes b' cs | err e ↦ changes b cs ]

pub stage_message-IsWellFormed :
    (b : Builder) (m : Message)
    → IsWellFormed b
    → IsWellFormed (stage_items b (plain_item (message m) ∷ []))
unfolding stage_items
stage_message-IsWellFormed b m v = record {
  system = v.system;
  checkpoints = v.checkpoints;
  single = λ id.
      omega
        (arith, v.single id, running_count-append id b.staged_suffix (plain_item (message m) ∷ []));
}

Rising-le : (lo hi : ℕ) (ts : List PrefixToken) → Rising lo hi ts → lo ≤ hi
Rising-le lo hi [] r = r
Rising-le lo hi (t ∷ ts) r = omega (arith, Rising-le t.committed_prefix_index hi ts r.1)

Rising-cleared :
    (clear : Bool) (lo hi : ℕ) (ts : List PrefixToken)
    → Rising lo hi ts
    → Rising lo hi (if clear then [] else ts)
Rising-cleared true lo hi ts r = Rising-le lo hi ts r
Rising-cleared false lo hi ts r = r

apply_settings-IsWellFormed :
    (b : Builder) (s : Settings) → IsWellFormed b → IsWellFormed (apply_settings b s)
unfolding apply_settings
apply_settings-IsWellFormed b s v = record {
  system = v.system;
  checkpoints =
      Rising-cleared (not (s.model == "") && not (b.model.id == s.model)) 1 _ b.prefix_tokens
        v.checkpoints;
  single = v.single;
}

apply_parameters :
    (o : Option Settings) (b : Builder)
    → IsWellFormed b
    → IsWellFormed (elim o [ none ↦ b | some s ↦ apply_settings b s ])
apply_parameters none b v = v
apply_parameters (some s) b v = apply_settings-IsWellFormed b s v

pub add_mode-IsWellFormed :
    (mode : ControlMode) (m : ControlMessage) (b : Builder)
    → IsWellFormed b
    → IsWellFormed (add_mode mode m b)
unfolding add_mode
add_mode-IsWellFormed update_settings m b v = apply_parameters m.parameters b v
add_mode-IsWellFormed heartbeat m b v = stage_message-IsWellFormed b _ v
add_mode-IsWellFormed ControlMode.stop_hard m b v = v
add_mode-IsWellFormed ControlMode.stop_when_idle m b v = v
add_mode-IsWellFormed (ControlMode.other s) m b v = v

carry_call-staged :
    (o : Option PendingCall) (id : String) (b : Builder)
    → carry_call o id b ≡ record b { staged_suffix = (carry_call o id b).staged_suffix }
unfolding stage_items add_tool_result
carry_call-staged none id b = refl
carry_call-staged (some call) id b = elim (Option-cases call.result) [
  | inl none_yet ↦ rw none_yet
  | inr (r, shown) ↦ rw shown
]

-- The calls that are carried over are staged, and nothing else of the builder changes.
pub carry_calls-staged :
    (p : PendingCalls) (ids : List String) (b : Builder)
    → carry_calls p ids b ≡ record b { staged_suffix = (carry_calls p ids b).staged_suffix }
unfolding carry_calls
carry_calls-staged p [] b = refl
carry_calls-staged p (id ∷ ids) b =
    carry_calls-staged p ids (carry_call (p.calls id) id b)
    ∙ ap
        (λ (k : Builder). record k {
          staged_suffix = (carry_calls p ids (carry_call (p.calls id) id b)).staged_suffix;
        })
        (carry_call-staged (p.calls id) id b)

pub add_tools-only :
    (tools : List Tool) (b : Builder) → add_tools b tools ≡ record b { tools = b.tools ++ tools }
unfolding add_tools add_tool
add_tools-only [] b = ap (λ (t : List Tool). record b { tools = t }) (sym (append-nil b.tools))
add_tools-only (t ∷ ts) b =
    add_tools-only ts (record b { tools = b.tools ++ t ∷ [] })
    ∙ ap (λ (u : List Tool). record b { tools = u }) (append_assoc b.tools (t ∷ []) ts)
