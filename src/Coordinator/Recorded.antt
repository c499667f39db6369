-- ===== src/Coordinator/Recorded.antt =====
-- What the handlers of harness/coordinator/loop.go leave in the session and in the model's context:
-- the items of the inputs and of the turn, and the request's input.
use mathlib.Core.List.{append-nil, append_assoc}
use unreal_agent.Base.{
  ℕ, ◌≡◌, refl, ap, sym, ◌∙◌, subst, Bool, true, false, List, [], ◌∷◌, ◌++◌, map, Result, ok, err,
  with_error, Holds, Holds-ok, Holds-mono, >>=-Holds, with_error-eq-ok, Bool-cases, inl, inr, ◌||◌,
}
use unreal_agent.Inbox.{
  Json, Input, InputKind, external, control, crash, ControlMessage, ControlMode, stop_hard,
  stop_when_idle, update_settings, heartbeat, decode_control_message, is_external, validate,
}
use unreal_agent.Store.{Item, ItemData, Turn}
use unreal_agent.Store.Head.{SessionHead, Error}
use unreal_agent.Store.State.{StoredState, append_input, append_turn, keep_item}
use unreal_agent.Store.Commands.{Command, apply}
use unreal_agent.Store.Files.Heads.{IsAppended, append_input-IsAppended, append_turn-IsAppended}
use unreal_agent.Coordinator.State.{clear_tool_grace}
use unreal_agent.Coordinator.Local
use unreal_agent.Coordinator.Local.{
  Local, Resolve, add_item, add_input, not_in_context, invalid_input,
}
use unreal_agent.Coordinator.Handlers.{
  Coordinator, not_added, not_stored, not_decoded, obey, record_item, react, handle_inbox_input,
  handle_inbox_inputs,
}
use unreal_agent.Context.Builder.{add_external_input}

-- What the items of a session say.
abbrev pub contents : StoredState → List ItemData
contents s = map (λ (i : Item). i.content) s.items

pub map-append {ℓ κ} :
    {A : Type ℓ} {B : Type κ} (f : A → B) (xs ys : List A) → map f (xs ++ ys) ≡ map f xs ++ map f ys
map-append f [] ys = refl
map-append f (x ∷ xs) ys = ap (◌∷◌ (f x)) (map-append f xs ys)

-- One item more, of this content.
abbrev pub Adds : ItemData → StoredState → StoredState → Type 0
Adds content s next = contents next ≡ contents s ++ content ∷ []

keep_item-Adds :
    (s : StoredState) (now : ℕ) (content : ItemData) (r : Result Error (SessionHead × Item))
    → Holds (IsAppended s.head content now) r
    → Holds (Adds content s) (keep_item s r)
keep_item-Adds s now content (err e) made = tt
keep_item-Adds s now content (ok (head, i)) made =
    map-append (λ (i : Item). i.content) s.items (i ∷ [])
    ∙ ap (λ (k : Item). contents s ++ k.content ∷ []) made.made

module _ (json : Json) (s : StoredState) where
  input-Adds :
      (value : Input) (now : ℕ)
      → Holds (Adds (ItemData.input value) s) (apply json s (Command.input value now))
  unfolding apply append_input
  input-Adds value now =
      keep_item-Adds s now (ItemData.input value) _ (append_input-IsAppended json s.head value now)

  pub turn-Adds :
      (value : Turn) (now : ℕ)
      → Holds (Adds (ItemData.turn value) s) (apply json s (Command.turn value now))
  unfolding apply append_turn
  turn-Adds value now =
      keep_item-Adds s now (ItemData.turn value) _ (append_turn-IsAppended json s.head value now)

-- The model is to be called, and no tool call is in its grace period.
abbrev pub IsWoken : Coordinator → Type 0
IsWoken c =
    (c.local.loop.call_model ≡ true)
    × (c.local.loop.grace ≡ false)
    × (c.local.loop.grace_tool_calls ≡ [])

abbrev pub has_external : List Input → Bool
has_external [] = false
has_external (input ∷ inputs) = is_external input.kind || has_external inputs

abbrev FlagsStay : Local → Local → Type 0
FlagsStay l k =
    (k.loop.call_model ≡ l.loop.call_model)
    × (k.loop.grace ≡ l.loop.grace)
    × (k.loop.grace_tool_calls ≡ l.loop.grace_tool_calls)

abbrev pub WakesIf : Bool → Coordinator → Type 0
WakesIf true c = IsWoken c
WakesIf false c = Unit {0}

woken : (b : Bool) (c : Coordinator) → (b ≡ true → IsWoken c) → WakesIf b c
woken true c h = h refl
woken false c h = tt

-- From `c` to `k` the input is stored, and if it is external the model is to be called.
record Hears (input : Input) (c k : Coordinator) : Type 0 where
  adds : Adds (ItemData.input input) c.stored k.stored
  wakes : is_external input.kind ≡ true → IsWoken k
  stays : IsWoken c → IsWoken k

obey-IsWoken :
    (mode : ControlMode) (m : ControlMessage) (c : Coordinator)
    → IsWoken c
    → IsWoken (obey mode m c)
unfolding clear_tool_grace
obey-IsWoken update_settings m c w = elim (Bool-cases c.model_runs) [
  | inl runs ↦ rw runs (refl, w.1, w.2)
  | inr waits ↦ rw waits w
]
obey-IsWoken stop_hard m c w = (w.0, refl, refl)
obey-IsWoken stop_when_idle m c w = (w.0, refl, refl)
obey-IsWoken heartbeat m c w = (w.0, refl, refl)
obey-IsWoken (ControlMode.other s) m c w = (w.0, refl, refl)

obey-stored :
    (mode : ControlMode) (m : ControlMessage) (c : Coordinator) → (obey mode m c).stored ≡ c.stored
obey-stored update_settings m c = elim (Bool-cases c.model_runs) [
  | inl runs ↦ rw runs refl
  | inr waits ↦ rw waits refl
]
obey-stored stop_hard m c = refl
obey-stored stop_when_idle m c = refl
obey-stored heartbeat m c = refl
obey-stored (ControlMode.other s) m c = refl

module _ (json : Json) (resolve : Resolve) where
  add_input-FlagsStay :
      (kind : InputKind) (l : Local) (input : Input)
      → Holds (FlagsStay l) (add_input resolve json kind l input)
  unfolding add_input
  add_input-FlagsStay external l input =
      >>=-Holds (FlagsStay l) (with_error not_in_context (add_external_input json l.builder input))
        _ (λ b e. (refl, refl, refl))
  add_input-FlagsStay control l input =
      >>=-Holds (FlagsStay l) (with_error Local.not_decoded (decode_control_message json input)) _
        (λ m e. (refl, refl, refl))
  add_input-FlagsStay crash l input = (refl, refl, refl)
  add_input-FlagsStay (InputKind.other s) l input = (refl, refl, refl)

  -- An input that is recorded is stored, and does not put the call of the model off.
  recorded-Adds :
      (now : ℕ) (c : Coordinator) (input : Input)
      → Holds
          (λ k. Adds (ItemData.input input) c.stored k.stored × FlagsStay c.local k.local)
          (record_item json resolve c (ItemData.input input) (Command.input input now))
  unfolding record_item add_item
  recorded-Adds now c input =
      let P : Coordinator → Type 0 =
        λ k. Adds (ItemData.input input) c.stored k.stored × FlagsStay c.local k.local in
      >>=-Holds P (with_error not_added (add_item resolve json c.local (ItemData.input input))) _
        (λ l added.
          >>=-Holds P (with_error not_stored (apply json c.stored (Command.input input now))) _
            (λ stored wrote. (
              Holds-ok (Adds (ItemData.input input) c.stored) (with_error-eq-ok not_stored _ wrote)
                  (input-Adds json c.stored input now),
              Holds-ok (FlagsStay c.local) (with_error-eq-ok not_added _ added) (
                  >>=-Holds (FlagsStay c.local) (with_error invalid_input (validate json input)) _
                    (λ u valid. add_input-FlagsStay input.kind c.local input)),
            )))

  react-Hears :
      (kind : InputKind) (c recorded : Coordinator) (input : Input)
      → input.kind ≡ kind
      → Adds (ItemData.input input) c.stored recorded.stored
      → FlagsStay c.local recorded.local
      → Holds (Hears input c) (react json resolve kind recorded input)
  unfolding react clear_tool_grace
  react-Hears external c recorded input is adds flags = record {
    adds = adds;
    wakes = λ h. (refl, refl, refl);
    stays = λ w. (refl, refl, refl);
  }
  react-Hears control c recorded input is adds flags =
      >>=-Holds (Hears input c) (with_error not_decoded (decode_control_message json input)) _
        (λ m e. record {
          adds =
              subst (Adds (ItemData.input input) c.stored) (sym (obey-stored m.mode m recorded))
                adds;
          wakes = λ h. cc (rw is at h);
          stays = λ w. obey-IsWoken m.mode m recorded (flags.0 ∙ w.0, flags.1 ∙ w.1, flags.2 ∙ w.2);
        })
  react-Hears crash c recorded input is adds flags = record {
    adds = adds;
    wakes = λ h. cc (rw is at h);
    stays = λ w. (flags.0 ∙ w.0, refl, refl);
  }
  react-Hears (InputKind.other s) c recorded input is adds flags = record {
    adds = adds;
    wakes = λ h. cc (rw is at h);
    stays = λ w. (flags.0 ∙ w.0, refl, refl);
  }

  handle_inbox_input-Hears :
      (now : ℕ) (c : Coordinator) (input : Input)
      → Holds (Hears input c) (handle_inbox_input json resolve now c input)
  unfolding handle_inbox_input
  handle_inbox_input-Hears now c input =
      >>=-Holds (Hears input c)
        (record_item json resolve c (ItemData.input input) (Command.input input now)) _
        (λ recorded e.
          let (adds, flags) =
            Holds-ok
              (λ k. Adds (ItemData.input input) c.stored k.stored × FlagsStay c.local k.local) e
              (recorded-Adds now c input) in
          react-Hears input.kind c recorded input refl adds flags)

  -- From `c` to `k` the inputs are stored, and if one is external the model is to be called.
  abbrev HearsAll : List Input → Coordinator → Coordinator → Type 0
  HearsAll inputs c k =
      (contents k.stored ≡ contents c.stored ++ map ItemData.input inputs)
      × (has_external inputs ≡ true → IsWoken k)
      × (IsWoken c → IsWoken k)

  HearsAll-cons :
      (input : Input) (inputs : List Input) (c next k : Coordinator)
      → Hears input c next
      → HearsAll inputs next k
      → HearsAll (input ∷ inputs) c k
  HearsAll-cons input inputs c next k first (more, wakes, stays) = (
    more
        ∙ ap (λ (xs : List ItemData). xs ++ map ItemData.input inputs) first.adds
        ∙ append_assoc (contents c.stored) (ItemData.input input ∷ []) (map ItemData.input inputs),
    λ h. elim (Bool-cases (is_external input.kind)) [
      | inl now_external ↦ stays (first.wakes now_external)
      | inr other ↦ wakes (rw other at h)
    ],
    λ w. stays (first.stays w),
  )

  handle_inbox_inputs-hear :
      (now : ℕ) (inputs : List Input) (c : Coordinator)
      → Holds (HearsAll inputs c) (handle_inbox_inputs json resolve now c inputs)
  unfolding handle_inbox_inputs
  handle_inbox_inputs-hear now [] c = (sym (append-nil (contents c.stored)), λ h. cc, λ w. w)
  handle_inbox_inputs-hear now (input ∷ inputs) c =
      >>=-Holds (HearsAll (input ∷ inputs) c) (handle_inbox_input json resolve now c input) _
        (λ next e.
          let first = Holds-ok (Hears input c) e (handle_inbox_input-Hears now c input) in
          Holds-mono (HearsAll inputs next) (HearsAll (input ∷ inputs) c)
            (handle_inbox_inputs json resolve now next inputs)
            (λ k rest. HearsAll-cons input inputs c next k first rest)
            (handle_inbox_inputs-hear now inputs next))

  -- Inputs that are all handled are stored, each as an item behind those of the session and in their
  -- order, and if one of them is external, then the model is to be called and no tool call is in its
  -- grace period any more, whatever comes behind that input.
  pub handle_inbox_inputs-WakesIf :
      (now : ℕ) (inputs : List Input) (c : Coordinator) {k : Coordinator}
      → handle_inbox_inputs json resolve now c inputs ≡ ok k
      → (contents k.stored ≡ contents c.stored ++ map ItemData.input inputs)
        × WakesIf (has_external inputs) k
  handle_inbox_inputs-WakesIf now inputs c {k} e =
      let (stored, wakes, _) =
        Holds-ok (HearsAll inputs c) e (handle_inbox_inputs-hear now inputs c) in
      (stored, woken (has_external inputs) k wakes)
