-- ===== src/Coordinator/Steps.antt =====
-- What the handlers of harness/coordinator/loop.go keep, and when the loop stops.
use unreal_agent.Base.{
  ℕ, ◌≡◌, refl, ap, ◌∙◌, ◌↔◌, String, true, false, not, List, [], ◌∷◌, arith, ok, with_error, Holds,
  >>=-Holds, Holds-ok, Bool-cases, inl, inr, All, with_error-eq-ok, Holds-mono,
}
use unreal_agent.Inbox.{
  Json, Input, InputKind, external, control, crash, ControlMessage, ControlMode, stop_hard,
  stop_when_idle, update_settings, heartbeat, decode_control_message,
}
use unreal_agent.Operation.{Operation, is_terminal}
use unreal_agent.Store.{ItemData, Turn}
use unreal_agent.Store.Commands.{Command, apply, Reachable, applied}
use unreal_agent.Coordinator.State.{clear_tool_grace}
use unreal_agent.Coordinator.Local.{Local, Resolve, add_item}
use unreal_agent.Coordinator.Counts.{IsCounted, Counts, add_item-Counts}
use unreal_agent.Coordinator.Handlers.{
  Coordinator, StopState, not_added, not_stored, not_decoded, is_stop_hard, accept_stop,
  has_pending, obey, set_call_model, record_item, react, handle_inbox_input, handle_inbox_inputs,
  request_model_response, build_model_request, interrupt_model,
}
use unreal_agent.Llm.{Request}

pub has_pending_iff :
    (values : List Operation)
    → (not (has_pending values) ≡ true)
      ↔ All (λ (value : Operation). is_terminal value.status ≡ true) values
unfolding has_pending
has_pending_iff [] = (λ h. tt, λ h. refl)
has_pending_iff (value ∷ values) =
    let (there, back) = has_pending_iff values in
    (λ h. (ground arith, there (ground arith)), λ (ends, rest). ground (arith, back rest))

-- From `c` to `k` the counts stay in order, the session stays one that the store can hold, and a
-- hard stop stays.
abbrev pub Keeps : Json → Coordinator → Coordinator → Type 0
Keeps json c k =
    (IsCounted c.local.loop → IsCounted k.local.loop)
    × (Reachable json c.stored → Reachable json k.stored)
    × (is_stop_hard c.stop.request ≡ true → k.stop ≡ c.stop)

accept_stop_lem :
    (s : StopState) (m : ControlMessage) → is_stop_hard s.request ≡ true → accept_stop s m ≡ s
unfolding accept_stop
accept_stop_lem s m h = rw h

obey-Keeps :
    (json : Json) (mode : ControlMode) (m : ControlMessage) (c : Coordinator)
    → Keeps json c (obey mode m c)
unfolding clear_tool_grace
obey-Keeps json update_settings m c = elim (Bool-cases c.model_runs) [
  | inl runs ↦ rw runs (λ h. h, λ r. r, λ s. refl)
  | inr waits ↦ rw waits (λ h. h, λ r. r, λ s. refl)
]
obey-Keeps json stop_hard m c = (λ h. h, λ r. r, accept_stop_lem c.stop m)
obey-Keeps json stop_when_idle m c = (λ h. h, λ r. r, accept_stop_lem c.stop m)
obey-Keeps json heartbeat m c = (λ h. h, λ r. r, λ s. refl)
obey-Keeps json (ControlMode.other s) m c = (λ h. h, λ r. r, λ s. refl)

pub Keeps-trans :
    (json : Json) (c d k : Coordinator) → Keeps json c d → Keeps json d k → Keeps json c k
Keeps-trans json c d k (counted, reached, stopped) (counted', reached', stopped') = (
  λ h. counted' (counted h),
  λ r. reached' (reached r),
  λ s. stopped' (ap (λ t. is_stop_hard t.request) (stopped s) ∙ s) ∙ stopped s,
)

module _ (json : Json) (resolve : Resolve) where
  react-Keeps :
      (kind : InputKind) (c : Coordinator) (input : Input)
      → Holds (Keeps json c) (react json resolve kind c input)
  unfolding react clear_tool_grace
  react-Keeps external c input = (λ h. h, λ r. r, λ s. refl)
  react-Keeps control c input =
      >>=-Holds (Keeps json c) (with_error not_decoded (decode_control_message json input)) _
        (λ m _. obey-Keeps json m.mode m c)
  react-Keeps crash c input = (λ h. h, λ r. r, λ s. refl)
  react-Keeps (InputKind.other k) c input = (λ h. h, λ r. r, λ s. refl)

  pub record_item-Keeps :
      (c : Coordinator) (content : ItemData) (command : Command)
      → Holds (Keeps json c) (record_item json resolve c content command)
  unfolding record_item
  record_item-Keeps c content command =
      >>=-Holds (Keeps json c) (with_error not_added (add_item resolve json c.local content)) _
        (λ l added.
          >>=-Holds (Keeps json c) (with_error not_stored (apply json c.stored command)) _
            (λ stored wrote.
              let (more, most, kept) =
                Holds-ok (λ (k : Local). Counts c.local.loop k.loop)
                  (with_error-eq-ok not_added _ added)
                  (add_item-Counts resolve json c.local content) in
              (kept, λ r. applied command r (with_error-eq-ok not_stored _ wrote), λ s. refl)))

  handle_inbox_input-Keeps :
      (now : ℕ) (c : Coordinator) (input : Input)
      → Holds (Keeps json c) (handle_inbox_input json resolve now c input)
  unfolding handle_inbox_input
  handle_inbox_input-Keeps now c input =
      >>=-Holds (Keeps json c)
        (record_item json resolve c (ItemData.input input) (Command.input input now)) _
        (λ recorded e.
          let first =
            Holds-ok (Keeps json c) e
              (record_item-Keeps c (ItemData.input input) (Command.input input now)) in
          Holds-mono (Keeps json recorded) (Keeps json c)
            (react json resolve input.kind recorded input)
            (λ k second. Keeps-trans json c recorded k first second)
            (react-Keeps input.kind recorded input))

  pub handle_inbox_inputs-keep :
      (now : ℕ) (inputs : List Input) (c : Coordinator)
      → Holds (Keeps json c) (handle_inbox_inputs json resolve now c inputs)
  unfolding handle_inbox_inputs
  handle_inbox_inputs-keep now [] c = (λ h. h, λ r. r, λ s. refl)
  handle_inbox_inputs-keep now (input ∷ inputs) c =
      >>=-Holds (Keeps json c) (handle_inbox_input json resolve now c input) _ (λ next e.
        let first = Holds-ok (Keeps json c) e (handle_inbox_input-Keeps now c input) in
        Holds-mono (Keeps json next) (Keeps json c)
          (handle_inbox_inputs json resolve now next inputs)
          (λ k second. Keeps-trans json c next k first second)
          (handle_inbox_inputs-keep now inputs next))

  -- Once a hard stop is accepted, no input that is handled changes the stop that is asked for.
  pub handle_inbox_inputs-stop_hard :
      (now : ℕ) (inputs : List Input) (c : Coordinator) {k : Coordinator}
      → is_stop_hard c.stop.request ≡ true
      → handle_inbox_inputs json resolve now c inputs ≡ ok k
      → k.stop ≡ c.stop
  handle_inbox_inputs-stop_hard now inputs c s e =
      (Holds-ok (Keeps json c) e (handle_inbox_inputs-keep now inputs c)).2 s

  pub request_model_response-Keeps :
      (compaction_prompt turn_id : String) (now : ℕ) (c : Coordinator)
      → Holds
          (λ (p : Coordinator × Request). Keeps json c p.0)
          (request_model_response json resolve compaction_prompt turn_id now c)
  unfolding request_model_response
  request_model_response-Keeps compaction_prompt turn_id now c =
      let turn : Turn = record {
        id = turn_id;
        previous_turn_id = c.local.loop.current_turn_id;
        type = (build_model_request compaction_prompt c.local.builder).1;
      } in
      >>=-Holds (λ (p : Coordinator × Request). Keeps json c p.0)
        (record_item json resolve (interrupt_model c) (ItemData.turn turn) (Command.turn turn now))
        (λ recorded. ok (
          set_call_model false (record recorded { model_runs = true }),
          (build_model_request compaction_prompt c.local.builder).0,
        ))
        (λ recorded e.
          Holds-ok (Keeps json (interrupt_model c)) e
            (record_item-Keeps (interrupt_model c) (ItemData.turn turn) (Command.turn turn now)))
