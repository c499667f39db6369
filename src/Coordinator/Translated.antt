-- ===== src/Coordinator/Translated.antt =====
-- Every open call has a status when the calls are reconciled (harness/coordinator/loop.go), so that the
-- error of `reconcileToolCalls` for an untranslated call does not come up.
use unreal_agent.Base.{
  ℕ, ◌≡◌, refl, ap, sym, ◌∙◌, String, Bool, true, false, Option, none, some, List, [], ◌∷◌,
  if◌then◌else◌, Result, ok, err, ◌>>=◌, with_error, Holds, >>=-Holds, Holds-mono, Holds-ok,
  Bool-cases, Option-cases, inl, inr, is_some, string_eq, arith, with_error-eq-ok, map,
}
use unreal_agent.Llm.{Request}
use unreal_agent.Inbox.{
  Json, Input, InputKind, external, control, crash, ControlMessage, ControlMode, stop_hard,
  stop_when_idle, update_settings, heartbeat, decode_control_message,
}
use unreal_agent.Operation.{Operation}
use unreal_agent.Store.{ItemData, ToolCallStatus, Turn}
use unreal_agent.Store.Head.{CallKey, call_key_eq}
use unreal_agent.Store.Commands.{Command, apply}
use unreal_agent.Coordinator.State.{
  CallEntry, ToolCallState, add_operation, find_call, key_of, clear_tool_grace,
  tool_call_operations_are_terminal, find_operation,
}
use unreal_agent.Coordinator.Local.{Local, Resolve, add_item}
use unreal_agent.Coordinator.Noted.{
  is_untold, Notes, NotesCall, input-Notes, turn-Notes, status-NotesCall,
}
use unreal_agent.Coordinator.Handlers.{
  Coordinator, record_item, react, obey, handle_inbox_input, handle_inbox_inputs,
  handle_operation_update, handle_stop, request_model_response, build_model_request, not_added,
  not_stored, not_decoded, set_call_model, clear_grace, interrupt_model, is_stop_hard,
}
use unreal_agent.Coordinator.Handlers
use unreal_agent.Coordinator.Reconcile
use unreal_agent.Coordinator.Reconcile.{
  Closed, reconcile_tool_calls, reconcile_calls, reconcile_call, close_call, last_status,
  untranslated, recorded_or, status_command, or_zero,
}

abbrev pub AllNoted : Coordinator → Type 0
AllNoted c = (key : CallKey) → is_untold key c.local.loop.tool_calls ≡ false

abbrev pub NotesTo : Coordinator → Coordinator → Type 0
NotesTo c k = Notes c.local.loop k.local.loop

pub Notes-AllNoted : (c k : Coordinator) → AllNoted c → NotesTo c k → AllNoted k
Notes-AllNoted c k noted n key = elim (Bool-cases (is_untold key k.local.loop.tool_calls)) [
  | inr told ↦ told
  | inl untold ↦ absurd (ground (arith, n key untold, noted key))
]

-- A result whose coordinator has a status for each open call, or whose error is not of this kind.
abbrev pub Sound : {E A : Type 0} → (E → Bool) → (A → Coordinator) → Result E A → Type 0
Sound bad of (ok a) = AllNoted (of a)
Sound bad of (err e) = bad e ≡ false

pub Sound-then :
    {E A B : Type 0} (bad : E → Bool) (of : A → Coordinator) (of' : B → Coordinator)
    (r : Result E A) (f : A → Result E B)
    → Sound bad of r
    → ((a : A) → AllNoted (of a) → Sound bad of' (f a))
    → Sound bad of' (r >>= f)
Sound-then bad of of' (ok a) f h rest = rest a h
Sound-then bad of of' (err e) f h rest = h

pub with_error-Sound :
    {E F A : Type 0} (bad : E → Bool) (bad' : F → Bool) (g : E → F) (of : A → Coordinator)
    (r : Result E A)
    → ((e : E) → bad e ≡ false → bad' (g e) ≡ false)
    → Sound bad of r
    → Sound bad' of (with_error g r)
with_error-Sound bad bad' g of (ok a) h s = s
with_error-Sound bad bad' g of (err e) h s = h e s

pub Holds-Sound :
    {E A : Type 0} (of : A → Coordinator) (r : Result E A)
    → Holds (λ a. AllNoted (of a)) r
    → Sound (λ e. false) of r
Holds-Sound of (ok a) h = h
Holds-Sound of (err e) h = refl

abbrev pub reconcile_untranslated : Reconcile.Error → Bool
reconcile_untranslated (Reconcile.untranslated key) = true
reconcile_untranslated e = false

obey-same :
    (mode : ControlMode) (m : ControlMessage) (c : Coordinator)
    → (obey mode m c).local.loop.tool_calls ≡ c.local.loop.tool_calls
unfolding clear_tool_grace
obey-same update_settings m c = elim (Bool-cases c.model_runs) [
  | inl runs ↦ rw runs refl
  | inr waits ↦ rw waits refl
]
obey-same stop_hard m c = refl
obey-same stop_when_idle m c = refl
obey-same heartbeat m c = refl
obey-same (ControlMode.other s) m c = refl

pub same-Notes :
    (c k : Coordinator) → k.local.loop.tool_calls ≡ c.local.loop.tool_calls → NotesTo c k
same-Notes c k e key h = ap (is_untold key) (sym e) ∙ h

module _ (json : Json) (resolve : Resolve) where
  -- What adding an item to the local state gives, recording it gives.
  pub record_item-Holds :
      (P : Local → Type 0) (c : Coordinator) (content : ItemData) (command : Command)
      → Holds P (add_item resolve json c.local content)
      → Holds (λ (k : Coordinator). P k.local) (record_item json resolve c content command)
  unfolding record_item
  record_item-Holds P c content command h =
      >>=-Holds (λ (k : Coordinator). P k.local)
        (with_error not_added (add_item resolve json c.local content)) _
        (λ l added.
          >>=-Holds (λ (k : Coordinator). P k.local)
            (with_error not_stored (apply json c.stored command)) _
            (λ stored wrote. Holds-ok P (with_error-eq-ok not_added _ added) h))

  react-Notes :
      (kind : InputKind) (c : Coordinator) (input : Input)
      → Holds (NotesTo c) (react json resolve kind c input)
  unfolding react clear_tool_grace
  react-Notes external c input = λ key h. h
  react-Notes control c input =
      >>=-Holds (NotesTo c) (with_error not_decoded (decode_control_message json input)) _
        (λ m e. same-Notes c (obey m.mode m c) (obey-same m.mode m c))
  react-Notes crash c input = λ key h. h
  react-Notes (InputKind.other k) c input = λ key h. h

  pub inputs-Notes :
      (now : ℕ) (inputs : List Input) (c : Coordinator)
      → Holds (NotesTo c) (handle_inbox_inputs json resolve now c inputs)
  unfolding handle_inbox_inputs handle_inbox_input
  inputs-Notes now [] c = λ key h. h
  inputs-Notes now (i ∷ inputs) c =
      >>=-Holds (NotesTo c) (handle_inbox_input json resolve now c i) _ (λ next e.
        let first = Holds-ok (NotesTo c) e (
          >>=-Holds (NotesTo c)
            (record_item json resolve c (ItemData.input i) (Command.input i now)) _
            (λ recorded f.
              let noted = Holds-ok (NotesTo c) f (
                record_item-Holds (λ l. Notes c.local.loop l.loop) c (ItemData.input i)
                  (Command.input i now) (input-Notes resolve json c.local i)) in
              Holds-mono (NotesTo recorded) (NotesTo c) _ (λ k later key h. noted key (later key h))
                (react-Notes i.kind recorded i))) in
        Holds-mono (NotesTo next) (NotesTo c) _ (λ k later key h. first key (later key h))
          (inputs-Notes now inputs next))

  pub update-Notes :
      (c : Coordinator) (value : Operation)
      → Holds (NotesTo c) (handle_operation_update json resolve c value)
  unfolding handle_operation_update add_operation
  update-Notes c value =
      >>=-Holds (NotesTo c) (with_error not_stored (apply json c.stored (Command.operation value)))
        _ (λ stored e key h. h)

  status-AllNoted :
      (c : Coordinator) (status : ToolCallStatus) (command : Command)
      → AllNoted c
      → Holds AllNoted (record_item json resolve c (ItemData.tool_call_status status) command)
  status-AllNoted c status command noted =
      Holds-mono _ AllNoted (record_item json resolve c (ItemData.tool_call_status status) command)
        (λ k n. Notes-AllNoted c k noted (λ key h. (n key h).0))
        (record_item-Holds (λ (l : Local). NotesCall (key_of status) c.local.loop l.loop) c
          (ItemData.tool_call_status status) command (status-NotesCall resolve json c.local status))

  recorded_or-Sound :
      (r : Result Handlers.Error Coordinator)
      → Holds AllNoted r
      → Sound reconcile_untranslated (λ k. k) (recorded_or r)
  recorded_or-Sound (ok c) h = h
  recorded_or-Sound (err e) h = refl

  close_with-Sound :
      (now : ℕ) (key : CallKey) (c : Coordinator) (status : ToolCallStatus)
      → AllNoted c
      → Sound reconcile_untranslated
          (λ (p : Closed). p.0)
          (recorded_or (
              record_item json resolve c
                (ItemData.tool_call_status status)
                (status_command status now))
            >>= λ next. ok (
              next,
              if is_some (find_call key next.local.loop.tool_calls) then [] else status ∷ [],
            ))
  close_with-Sound now key c status noted =
      let wrote =
        record_item json resolve c (ItemData.tool_call_status status) (status_command status now) in
      Sound-then reconcile_untranslated (λ k. k) (λ (p : Closed). p.0) (recorded_or wrote) _
        (recorded_or-Sound wrote (status-AllNoted c status (status_command status now) noted))
        (λ next still. still)

  -- A call that has a status is closed without the error for an untranslated one.
  close_call-Sound :
      (now : ℕ) (key : CallKey) (c : Coordinator) (o : Option ToolCallState)
      → find_call key c.local.loop.tool_calls ≡ o
      → AllNoted c
      → Sound reconcile_untranslated (λ (p : Closed). p.0) (close_call json resolve now key c o)
  unfolding close_call
  close_call-Sound now key c none found noted = noted
  close_call-Sound now key c (some call) found noted = elim (Option-cases call.status) [
    | inl missing ↦ absurd (ground (arith, noted key, found, missing))
    | inr (status, has) ↦ rw has (
        close_with-Sound now key c
          (record {
            turn_id = key.turn_id;
            call_id = key.call_id;
            status = status;
            operations =
                map (λ id. or_zero (find_operation id c.local.loop.operations)) status.waiting_for;
          })
          noted)
  ]

  reconcile_call-Sound :
      (now : ℕ) (c : Coordinator) (key : CallKey)
      → AllNoted c
      → Sound reconcile_untranslated (λ (p : Closed). p.0) (reconcile_call json resolve now c key)
  unfolding reconcile_call
  reconcile_call-Sound now c key noted =
      elim (Bool-cases (tool_call_operations_are_terminal c.local.loop key)) [
        | inl finished ↦ rw finished (close_call-Sound now key c _ refl noted)
        | inr runs ↦ rw runs noted
      ]

  pub reconcile_calls-Sound :
      (now : ℕ) (entries : List CallEntry) (c : Coordinator)
      → AllNoted c
      → Sound reconcile_untranslated
          (λ (p : Closed). p.0)
          (reconcile_calls json resolve now c entries)
  unfolding reconcile_calls
  reconcile_calls-Sound now [] c noted = noted
  reconcile_calls-Sound now (entry ∷ entries) c noted =
      Sound-then reconcile_untranslated (λ (p : Closed). p.0) (λ (p : Closed). p.0)
        (reconcile_call json resolve now c entry.key) _ (reconcile_call-Sound now c entry.key noted)
        (λ p still.
          Sound-then reconcile_untranslated (λ (q : Closed). q.0) (λ (q : Closed). q.0)
            (reconcile_calls json resolve now p.0 entries) _
            (reconcile_calls-Sound now entries p.0 still) (λ q last. last))

  pub request-AllNoted :
      (prompt turn_id : String) (now : ℕ) (c : Coordinator)
      → AllNoted c
      → Holds
          (λ (p : Coordinator × Request). AllNoted p.0)
          (request_model_response json resolve prompt turn_id now c)
  unfolding request_model_response
  request-AllNoted prompt turn_id now c noted =
      let turn : Turn = record {
        id = turn_id;
        previous_turn_id = c.local.loop.current_turn_id;
        type = (build_model_request prompt c.local.builder).1;
      } in
      >>=-Holds (λ (p : Coordinator × Request). AllNoted p.0)
        (record_item json resolve (interrupt_model c) (ItemData.turn turn) (Command.turn turn now))
        _
        (λ k e. Notes-AllNoted c k noted (
          Holds-ok (NotesTo c) e (
            record_item-Holds (λ (l : Local). Notes c.local.loop l.loop) (interrupt_model c)
              (ItemData.turn turn) (Command.turn turn now) (turn-Notes resolve json c.local turn))))
