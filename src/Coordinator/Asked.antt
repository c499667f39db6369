-- ===== src/Coordinator/Asked.antt =====
-- `requestModelResponse` of harness/coordinator/loop.go: what a turn stores and commits.
use unreal_agent.Base.{
  ℕ, ◌≡◌, refl, String, Bool, true, false, [], Result, ok, err, with_error, Holds, Holds-ok,
  >>=-Holds, with_error-eq-ok, Bool-cases, inl, inr,
}
use unreal_agent.Llm.{Request}
use unreal_agent.Inbox.{Json}
use unreal_agent.Store.{ItemData, Turn, TurnType}
use unreal_agent.Store.Commands.{Command, apply}
use unreal_agent.Context.Builder.{Builder, build, commit}
use unreal_agent.Context.Compaction.{needs_compaction, build_compaction}
use unreal_agent.Coordinator.Local.{Local, Resolve, add_item, add_turn, is_compaction}
use unreal_agent.Coordinator.Handlers.{
  Coordinator, not_stored, record_item, request_model_response, build_model_request,
  interrupt_model, Error, set_call_model,
}
use unreal_agent.Coordinator.Recorded.{Adds, turn-Adds}

build_model_request-regular :
    (prompt : String) (b : Builder)
    → is_compaction (build_model_request prompt b).1 ≡ false
    → (build_model_request prompt b).0 ≡ build b
unfolding build_model_request
build_model_request-regular prompt b = elim (Bool-cases (needs_compaction b)) [
  | inl over ↦ rw over (chosen (build_compaction prompt b))
  | inr under ↦ rw under (λ h. refl)
]
  where
    chosen :
        {E : Type 0} (r : Result E Request)
        → is_compaction
            (elim r as (λ _. Request × TurnType) [
              | ok request ↦ (request, TurnType.compaction)
              | err e ↦ (build b, TurnType.regular)
            ]).1
          ≡ false
        → (elim r as (λ _. Request × TurnType) [
          | ok request ↦ (request, TurnType.compaction)
          | err e ↦ (build b, TurnType.regular)
        ]).0
          ≡ build b
    chosen (ok request) h = cc
    chosen (err e) h = refl

-- What a turn with this request makes of the context: a regular one commits what is staged, and what
-- is committed then is what the model is asked; a compaction leaves the context as it is.
abbrev pub Commits : (compacts : Bool) → Request → Builder → Builder → Type 0
Commits true request b b' = b' ≡ b
Commits false request b b' = (b'.committed_prefix ≡ request.input) × (b'.staged_suffix ≡ [])

-- The session and the coordinator behind a turn.
abbrev pub AsksTurn : String → Coordinator → Coordinator × Request → Type 0
AsksTurn turn_id c (k, request) =
    (type : TurnType) × Adds
      (ItemData.turn
        (record { id = turn_id; previous_turn_id = c.local.loop.current_turn_id; type = type }))
      c.stored k.stored
    × Commits (is_compaction type) request c.local.builder k.local.builder
    × (k.local.loop.current_turn_id ≡ turn_id)
    × (k.local.loop.current_turn_inputs ≡ c.local.loop.available_inputs)
    × (k.model_runs ≡ true)
    × (k.local.loop.call_model ≡ false)

add_turn-Commits :
    (json : Json) (resolve : Resolve) (l : Local) (turn : Turn) (request : Request)
    → (is_compaction turn.type ≡ false → request ≡ build l.builder)
    → Commits (is_compaction turn.type) request l.builder (add_turn resolve json l turn).builder
unfolding commit build
add_turn-Commits json resolve l turn request asked = elim (Bool-cases (is_compaction turn.type)) [
  | inl compacts ↦ rw compacts refl
  | inr regular ↦ rw (regular, asked regular) (refl, refl)
]

module _ (json : Json) (resolve : Resolve) (prompt turn_id : String) (now : ℕ) where
  request_model_response-AsksTurn :
      (c : Coordinator)
      → Holds (AsksTurn turn_id c) (request_model_response json resolve prompt turn_id now c)
  unfolding request_model_response record_item add_item
  request_model_response-AsksTurn c =
      let b = c.local.builder in
      let turn : Turn = record {
        id = turn_id;
        previous_turn_id = c.local.loop.current_turn_id;
        type = (build_model_request prompt b).1;
      } in
      let asked = (build_model_request prompt b).0 in
      let finish : Coordinator → Result Error (Coordinator × Request) =
        λ recorded. ok (set_call_model false (record recorded { model_runs = true }), asked) in
      >>=-Holds (AsksTurn turn_id c)
        (record_item json resolve (interrupt_model c) (ItemData.turn turn) (Command.turn turn now))
        finish
        (λ recorded e.
          Holds-ok
            (λ (k : Coordinator).
              AsksTurn turn_id c (set_call_model false (record k { model_runs = true }), asked))
            e
            (>>=-Holds
              (λ (k : Coordinator).
                AsksTurn turn_id c (set_call_model false (record k { model_runs = true }), asked))
              (with_error not_stored (apply json c.stored (Command.turn turn now))) _
              (λ stored wrote. (
                turn.type,
                Holds-ok (Adds (ItemData.turn turn) c.stored) (with_error-eq-ok not_stored _ wrote)
                    (turn-Adds json c.stored turn now),
                add_turn-Commits json resolve c.local turn asked
                    (build_model_request-regular prompt b),
                refl,
                refl,
                refl,
                refl,
              ))))

  -- A turn that is requested is stored behind the session's items, following the turn before it, and
  -- counts the inputs that are available; the model runs and is not to be called again. A regular turn
  -- commits the staged items, so that what is committed is what the model is asked; a compaction
  -- leaves the context as it is.
  pub request_model_response-Commits :
      (c : Coordinator) {k : Coordinator} {request : Request}
      → request_model_response json resolve prompt turn_id now c ≡ ok (k, request)
      → AsksTurn turn_id c (k, request)
  request_model_response-Commits c e =
      Holds-ok (AsksTurn turn_id c) e (request_model_response-AsksTurn c)
