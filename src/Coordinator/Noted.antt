-- ===== src/Coordinator/Noted.antt =====
-- The open calls that have no status yet (harness/coordinator/loop.go): what an item does to them.
use unreal_agent.Base.{
  ◌≡◌, refl, ap, sym, ◌∙◌, Bool, true, false, not, Option, none, some, List, [], ◌∷◌, if◌then◌else◌,
  with_error, Holds, >>=-Holds, Bool-cases, inl, inr, is_some, ◌==◌, string_eq, arith, filter_by,
  or_fail, Holds-mono,
}
use unreal_agent.Inbox.{
  Json, Input, InputKind, external, control, crash, validate, decode_control_message,
}
use unreal_agent.Operation.{Operation}
use unreal_agent.Store.{ItemData, ToolCallStatus, Turn}
use unreal_agent.Store.Head.{CallKey, call_key_eq, call_key_beq_iff}
use unreal_agent.Context.Builder.{add_external_input}
use unreal_agent.Coordinator.State.{
  LoopState, CallEntry, ToolCallState, find_call, put_call, add_operations, add_operation,
  add_tool_call_operations, note_status, finish_tool_call, is_empty, key_of, clear_tool_grace,
  tool_call_operations_are_terminal, add_ids,
}
use unreal_agent.Coordinator.Local.{
  Local, Resolve, Translator, add_item, add_input, add_result_with, add_result_of, add_waited,
  add_tool_result_to_local, tool_call_requires_translator, invalid_input, not_in_context,
  not_decoded, not_translated,
}

abbrev untold : Option ToolCallState → Bool
untold none = false
untold (some call) = not (is_some call.status)

-- The call is open and has no status.
abbrev pub is_untold : CallKey → List CallEntry → Bool
is_untold key entries = untold (find_call key entries)

same_key : (j k : CallKey) → (j == k) ≡ true → j ≡ k
same_key j k h = (call_key_beq_iff j k).0 h

find_call-put_call :
    (k key : CallKey) (call : ToolCallState) (entries : List CallEntry)
    → find_call key (put_call k call entries)
      ≡ (if k == key then some call else find_call key entries)
unfolding put_call
find_call-put_call k key call [] = refl
find_call-put_call k key call (entry ∷ entries) =
    let rest = find_call-put_call k key call entries in
    elim (Bool-cases (entry.key == k)) [
      | inl same ↦
          let moved : (entry.key == key) ≡ (k == key) =
            ap (λ (j : CallKey). j == key) (same_key entry.key k same) in
          elim (Bool-cases (k == key)) [
            | inl found ↦ rw (same, found) refl
            | inr missed ↦ rw (same, missed, moved ∙ missed) refl
          ]
      | inr other ↦ elim (Bool-cases (k == key)) [
        | inl found ↦
            let apart : (entry.key == key) ≡ false =
              ap (λ (j : CallKey). entry.key == j) (sym (same_key k key found)) ∙ other in
            rw (other, apart, rest, found) refl
        | inr missed ↦ rw (other, rest, missed) refl
      ]
    ]

find_call-filter_by :
    (k key : CallKey) (entries : List CallEntry)
    → find_call key (filter_by (λ (entry : CallEntry). not (entry.key == k)) entries)
      ≡ (if k == key then none else find_call key entries)
find_call-filter_by k key [] = elim (Bool-cases (k == key)) [
  | inl found ↦ rw found refl
  | inr missed ↦ rw missed refl
]
find_call-filter_by k key (entry ∷ entries) =
    let rest = find_call-filter_by k key entries in
    elim (Bool-cases (entry.key == k)) [
      | inl same ↦
          let moved : (entry.key == key) ≡ (k == key) =
            ap (λ (j : CallKey). j == key) (same_key entry.key k same) in
          elim (Bool-cases (k == key)) [
            | inl found ↦ rw (same, rest, found) refl
            | inr missed ↦ rw (same, rest, missed, moved ∙ missed) refl
          ]
      | inr other ↦ elim (Bool-cases (k == key)) [
        | inl found ↦
            let apart : (entry.key == key) ≡ false =
              ap (λ (j : CallKey). entry.key == j) (sym (same_key k key found)) ∙ other in
            rw (other, apart, rest, found) refl
        | inr missed ↦ rw (other, rest, missed) refl
      ]
    ]

-- The calls of `t` that have no status had none in `s`.
abbrev pub Notes : LoopState → LoopState → Type 0
Notes s t = (key : CallKey) → is_untold key t.tool_calls ≡ true → is_untold key s.tool_calls ≡ true

-- The same, and the call of this key is not among them.
abbrev pub NotesCall : CallKey → LoopState → LoopState → Type 0
NotesCall k s t =
    (key : CallKey)
    → is_untold key t.tool_calls ≡ true
    → (is_untold key s.tool_calls ≡ true) × ((k == key) ≡ false)

pub add_operations-calls :
    (s : LoopState) (values : List Operation) → (add_operations s values).tool_calls ≡ s.tool_calls
unfolding add_operations add_operation
add_operations-calls s [] = refl
add_operations-calls s (value ∷ values) = add_operations-calls (add_operation s value) values

untold-find :
    (key k : CallKey) (o : Option ToolCallState) (entries : List CallEntry)
    → find_call k entries ≡ o
    → untold o ≡ false
    → is_untold key entries ≡ true
    → (k == key) ≡ false
untold-find key k o entries found told open_ = elim (Bool-cases (k == key)) [
  | inr other ↦ other
  | inl same ↦ absurd (
      ground (arith, ap (λ j. untold (find_call j entries)) (same_key k key same), ap untold found))
]

noted_as :
    (s : LoopState) (status : ToolCallStatus) (o : Option ToolCallState)
    → find_call (key_of status) s.tool_calls ≡ o
    → NotesCall (key_of status) s (note_status o s status)
unfolding note_status
noted_as s status none found key h =
    (h, untold-find key (key_of status) none s.tool_calls found refl h)
noted_as s status (some call) found key h =
    let noted : ToolCallState = record call {
      status = some status.status;
      operations = add_ids status.status.waiting_for call.operations;
    } in
    let put = ap untold (find_call-put_call (key_of status) key noted s.tool_calls) in
    elim (Bool-cases (key_of status == key)) [
      | inl same ↦
          let told : untold
                (if key_of status == key then some noted else find_call key s.tool_calls)
              ≡ false =
            rw same refl in
          absurd (ground (arith, put, h, told))
      | inr other ↦
          let kept : untold
                (if key_of status == key then some noted else find_call key s.tool_calls)
              ≡ is_untold key s.tool_calls =
            rw other refl in
          (sym kept ∙ sym put ∙ h, other)
    ]

finish_tool_call-calls :
    (s : LoopState) (k : CallKey)
    → (finish_tool_call s k).tool_calls
      ≡ filter_by (λ (entry : CallEntry). not (entry.key == k)) s.tool_calls
unfolding finish_tool_call clear_tool_grace
finish_tool_call-calls s k =
    elim (Bool-cases (is_empty (filter_by (λ j. not (j == k)) s.grace_tool_calls))) [
      | inl none_left ↦ rw none_left refl
      | inr some_left ↦ rw some_left refl
    ]

finish_tool_call-Notes : (s : LoopState) (k : CallKey) → Notes s (finish_tool_call s k)
finish_tool_call-Notes s k key h =
    let left =
      ap (is_untold key) (finish_tool_call-calls s k)
      ∙ ap untold (find_call-filter_by k key s.tool_calls) in
    elim (Bool-cases (k == key)) [
      | inl same ↦
          let gone : untold (if k == key then none else find_call key s.tool_calls) ≡ false =
            rw same refl in
          absurd (ground (arith, left, h, gone))
      | inr other ↦
          let kept : untold (if k == key then none else find_call key s.tool_calls)
              ≡ is_untold key s.tool_calls =
            rw other refl in
          sym kept ∙ sym left ∙ h
    ]

add_waited-Notes :
    (t : Translator) (l : Local) (s : ToolCallStatus) (o : Option (List Operation))
    → Holds (λ (k : Local). Notes l.loop k.loop) (add_waited t l s o)
unfolding add_waited
add_waited-Notes t l s none = λ key h. h
add_waited-Notes t l s (some values) =
    >>=-Holds (λ (k : Local). Notes l.loop k.loop)
      (or_fail (t.translate_result s.call_id s.status values) (not_translated s.call_id)) _
      (λ output e. running-Notes (not (tool_call_operations_are_terminal l.loop (key_of s))))
  where
    running-Notes :
        (running : Bool)
        → Notes l.loop (if running then l.loop else finish_tool_call l.loop (key_of s))
    running-Notes true = λ key h. h
    running-Notes false = finish_tool_call-Notes l.loop (key_of s)

module _ (resolve : Resolve) where
  add_result_with-Notes :
      (o : Option Translator) (l : Local) (call : ToolCallState) (s : ToolCallStatus)
      → Holds (λ (k : Local). Notes l.loop k.loop) (add_result_with resolve o l call s)
  unfolding add_result_with
  add_result_with-Notes none l call s = elim (Bool-cases (tool_call_requires_translator s)) [
    | inl needed ↦ rw needed (λ key h. h)
    | inr not_needed ↦ rw not_needed (finish_tool_call-Notes l.loop (key_of s))
  ]
  add_result_with-Notes (some t) l call s = add_waited-Notes t l s _

  add_result_of-Notes :
      (o : Option ToolCallState) (l : Local) (s : ToolCallStatus)
      → Holds (λ (k : Local). Notes l.loop k.loop) (add_result_of resolve o l s)
  unfolding add_result_of
  add_result_of-Notes none l s = λ key h. h
  add_result_of-Notes (some call) l s = add_result_with-Notes (resolve call.tool_call.name) l call s

  module _ (json : Json) where
    add_input-Notes :
        (kind : InputKind) (l : Local) (input : Input)
        → Holds (λ (k : Local). Notes l.loop k.loop) (add_input resolve json kind l input)
    unfolding add_input
    add_input-Notes external l input =
        >>=-Holds (λ (k : Local). Notes l.loop k.loop)
          (with_error not_in_context (add_external_input json l.builder input)) _ (λ b _ key h. h)
    add_input-Notes control l input =
        >>=-Holds (λ (k : Local). Notes l.loop k.loop)
          (with_error not_decoded (decode_control_message json input)) _ (λ m _ key h. h)
    add_input-Notes crash l input = λ key h. h
    add_input-Notes (InputKind.other k) l input = λ key h. h

    -- An input leaves the calls without a status as they are.
    pub input-Notes :
        (l : Local) (i : Input)
        → Holds (λ (k : Local). Notes l.loop k.loop) (add_item resolve json l (ItemData.input i))
    unfolding add_item
    input-Notes l i =
        >>=-Holds (λ (k : Local). Notes l.loop k.loop) (with_error invalid_input (validate json i))
          _ (λ _ _. add_input-Notes i.kind l i)

    pub turn-Notes :
        (l : Local) (turn : Turn)
        → Holds (λ (k : Local). Notes l.loop k.loop) (add_item resolve json l (ItemData.turn turn))
    unfolding add_item
    turn-Notes l turn = λ key h. h

    -- A status notes its call, and no call loses its status.
    pub status-NotesCall :
        (l : Local) (s : ToolCallStatus)
        → Holds
            (λ (k : Local). NotesCall (key_of s) l.loop k.loop)
            (add_item resolve json l (ItemData.tool_call_status s))
    unfolding add_item add_tool_call_operations add_tool_result_to_local
    status-NotesCall l s =
        let begun = add_operations l.loop s.operations in
        let noted : Local = record l { loop = add_tool_call_operations begun s } in
        Holds-mono (λ (k : Local). Notes noted.loop k.loop)
          (λ (k : Local). NotesCall (key_of s) l.loop k.loop) _
          (λ k later key h.
            let (was, other) =
              noted_as begun s (find_call (key_of s) begun.tool_calls) refl key (later key h) in
            (sym (ap (is_untold key) (add_operations-calls l.loop s.operations)) ∙ was, other))
          (add_result_of-Notes (find_call (key_of s) noted.loop.tool_calls) noted s)
