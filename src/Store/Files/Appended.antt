-- ===== src/Store/Files/Appended.antt =====
-- The line that a method of the session store writes (`append_to_head`, `encode_decoded`): it is a
-- line more of the session's log (harness/sessionstore/localfile/store.go, codec.go).
use unreal_agent.Base.{
  ℕ, ◌≡◌, refl, ap, sym, ◌∙◌, subst, false, not, ◌&&◌, List, [], ◌∷◌, ◌++◌, Result, ok, Holds,
  Holds-ok, map_ok, map_ok-eq-ok, is_empty, ◌==◌, nat_eq, Option, none, some, All, inr,
}
use unreal_agent.Inbox.{Json}
use unreal_agent.Operation.{Operation}
use unreal_agent.Store.{ToolCallStatus, Item, ItemData}
use unreal_agent.Store.Head.{SessionHead}
use unreal_agent.Store.Head
use unreal_agent.Store.Status
use unreal_agent.Store.State.{
  StoredState, append_input, append_turn, append_model_response, append_tool_call_status,
  save_operation, with_operations,
}
use unreal_agent.Store.Commands.{Command, apply}
use unreal_agent.Store.Lines.{Bytes, newline, IsLine}
use unreal_agent.Store.Codec.{
  Codec, ItemRecord, IsLawful, RecordType, encode_item_record_lem, encode_record_lem, IsFormatted,
  IsFormattedOperation,
}
use unreal_agent.Store.Log.{Decoded, replay_item, is_status, is_fork}
use unreal_agent.Store.Log.Whole.{IsLogOf, item-IsLogOf, operation-IsLogOf}
use unreal_agent.Store.Files.{Append, append_to_head, encode_decoded, record_with, told}
use unreal_agent.Store.Files.Heads.{
  IsAppended, append_input-IsAppended, append_turn-IsAppended, append_model_response-IsAppended,
  append_tool_call_status-IsAppended, save_operation-kept,
}

-- The command of the session's state that a call is.
abbrev pub command : Append → ℕ → Command
command (Append.input i) now = Command.input i now
command (Append.turn t) now = Command.turn t now
command (Append.model_response r) now = Command.model_response r now
command (Append.tool_call_status s) now =
    Command.tool_call_status (record s { operations = [] }) s.operations now
command (Append.operation value) now = Command.operation value

-- The raw texts of a call's value stand as JSON writes them.
abbrev pub IsFormattedCall : Codec → Append → Type 0
IsFormattedCall c (Append.input i) = IsFormatted c (ItemData.input i)
IsFormattedCall c (Append.turn t) = Unit {0}
IsFormattedCall c (Append.model_response r) = IsFormatted c (ItemData.model_response r)
IsFormattedCall c (Append.tool_call_status s) = IsFormatted c (ItemData.tool_call_status s)
IsFormattedCall c (Append.operation value) = IsFormattedOperation c value

-- The item that the observers are told of is the one that the state keeps.
abbrev pub Shows : List Item → Option Item → List Item → Type 0
Shows items none items' = items' ≡ items
Shows items (some i) items' = items' ≡ items ++ i ∷ []

module _ (json : Json) (c : Codec) where
  -- The bytes are a line that takes the log from the state to the one that the command gives.
  pub record IsAppend (lines : List Bytes) (s : StoredState) (a : Append) (now : ℕ) (out : Bytes)
      (p : SessionHead × Decoded) : Type 0 where
    pub line : Bytes
    pub next : StoredState
    pub ended : out ≡ line ++ newline ∷ []
    pub free : IsLine line
    pub log : IsLogOf json c (lines ++ line ∷ []) next
    pub applied : apply json s (command a now) ≡ ok next
    pub headed : next.head ≡ p.0
    pub named : p.0.session ≡ s.head.session
    pub shows : Shows s.items (told a p.1) next.items

  module _ (l : IsLawful c) (lines : List Bytes) (s : StoredState) (v : IsLogOf json c lines s)
      (now : ℕ) (time : (now == 0) ≡ false) where
    -- An item that the head's method made, beside its operations.
    item-IsAppend :
        (a : Append) (content : ItemData) (operations : List Operation) (next : StoredState)
        (p : SessionHead × Item) {out : Bytes}
        → IsFormatted c content
        → All (IsFormattedOperation c) operations
        → IsAppended s.head content now p
        → encode_decoded json c (Decoded.item (record { item = p.1; operations = operations }))
          ≡ ok out
        → (not (is_status content) && not (is_empty operations)) ≡ false
        → is_fork content ≡ false
        → ((i : Item)
            → i.content ≡ content
            → i.recorded_at ≡ now
            → replay_item json c s (record { item = i; operations = operations }) ≡ ok next)
        → next.head ≡ p.0
        → apply json s (command a now) ≡ ok next
        → Shows s.items
            (told a (Decoded.item (record { item = p.1; operations = operations })))
            next.items
        → IsAppend lines s a now out (record_with operations p)
    unfolding encode_decoded
    item-IsAppend a content operations next (head, i) formatted formatted_operations made wrote
          clean own played headed applied shows =
        let r : ItemRecord = record { item = i; operations = operations } in
        let same : i.content ≡ content = ap (λ (j : Item). j.content) made.made in
        let (line, b, ended, free, decoded, back) =
          encode_item_record_lem json c l r (subst (IsFormatted c) (sym same) formatted)
            formatted_operations wrote in
        let recorded : i.recorded_at ≡ now = ap (λ (j : Item). j.recorded_at) made.made in
        let counted = ap (λ (j : Item). j.sequence) made.made in
        record {
          line = line;
          next = next;
          ended = ended;
          free = free;
          log =
              item-IsLogOf json c lines s next line b r v free decoded back counted
                (ap (λ n. n == 0) recorded ∙ time)
                (ap (λ k. not (is_status k) && not (is_empty operations)) same ∙ clean)
                (ap is_fork same ∙ own) (played i same recorded)
                (ap (λ (k : SessionHead). k.item_sequence) headed ∙ made.counted ∙ sym counted);
          applied = applied;
          headed = headed;
          named = made.kept;
          shows = shows;
        }

    -- The same on the result of the head's method; `shown` is the item that the state keeps.
    made-IsAppend :
        (a : Append) (content : ItemData) (operations : List Operation)
        (shown : SessionHead × Item → Item) (r : Result Head.Error (SessionHead × Item))
        (p : SessionHead × Decoded) {out : Bytes}
        → IsFormatted c content
        → All (IsFormattedOperation c) operations
        → Holds (IsAppended s.head content now) r
        → map_ok (record_with operations) r ≡ ok p
        → encode_decoded json c p.1 ≡ ok out
        → (not (is_status content) && not (is_empty operations)) ≡ false
        → is_fork content ≡ false
        → ((q : SessionHead × Item) (i : Item)
            → r ≡ ok q
            → i.content ≡ content
            → i.recorded_at ≡ now
            → replay_item json c s (record { item = i; operations = operations })
              ≡ ok (record { head = q.0; items = s.items ++ shown q ∷ [] }))
        → ((q : SessionHead × Item)
            → r ≡ ok q
            → apply json s (command a now)
              ≡ ok (record { head = q.0; items = s.items ++ shown q ∷ [] }))
        → ((q : SessionHead × Item) → told a (record_with operations q).1 ≡ some (shown q))
        → IsAppend lines s a now out p
    made-IsAppend a content operations shown r p {out} formatted formatted_operations good taken
          wrote clean own played applied shows =
        let (q, made, e) = map_ok-eq-ok (record_with operations) r taken in
        subst (λ p'. encode_decoded json c p'.1 ≡ ok out → IsAppend lines s a now out p') e
          (λ written.
            item-IsAppend a content operations
              (record { head = q.0; items = s.items ++ shown q ∷ [] }) q formatted
              formatted_operations (Holds-ok (IsAppended s.head content now) made good) written
              clean own (λ i. played q i made) refl (applied q made)
              (subst (λ t. Shows s.items t (s.items ++ shown q ∷ [])) (sym (shows q)) refl))
          wrote

    -- What is written for a call is a line more of the log, and it takes it to the state that the
    -- call's command gives.
    pub append_to_head-IsAppend :
        (a : Append) (p : SessionHead × Decoded) {out : Bytes}
        → IsFormattedCall c a
        → append_to_head json c s.head a now ≡ ok p
        → encode_decoded json c p.1 ≡ ok out
        → IsAppend lines s a now out p
    unfolding append_to_head apply replay_item append_input append_turn append_model_response
        append_tool_call_status save_operation encode_decoded
    append_to_head-IsAppend (Append.input value) p formatted taken wrote =
        let made = append_input-IsAppended json s.head value now in
        made-IsAppend (Append.input value) (ItemData.input value) [] (λ q. q.1)
          (Head.append_input json s.head value now) p formatted tt made taken wrote refl refl
          (λ q i e same at. rw (same, at, e) refl) (λ q e. rw e refl) (λ q. refl)
    append_to_head-IsAppend (Append.turn value) p formatted taken wrote =
        let made = append_turn-IsAppended json s.head value now in
        made-IsAppend (Append.turn value) (ItemData.turn value) [] (λ q. q.1)
          (Head.append_turn s.head value now) p tt tt made taken wrote refl refl
          (λ q i e same at. rw (same, at, e) refl) (λ q e. rw e refl) (λ q. refl)
    append_to_head-IsAppend (Append.model_response value) p formatted taken wrote =
        let made = append_model_response-IsAppended json s.head value now in
        made-IsAppend (Append.model_response value) (ItemData.model_response value) [] (λ q. q.1)
          (Head.append_model_response s.head value now) p formatted tt made taken wrote refl refl
          (λ q i e same at. rw (same, at, e) refl) (λ q e. rw e refl) (λ q. refl)
    append_to_head-IsAppend (Append.tool_call_status value) p formatted taken wrote =
        let bare : ToolCallStatus = record value { operations = [] } in
        let made = append_tool_call_status-IsAppended json s.head bare value.operations now in
        made-IsAppend (Append.tool_call_status value) (ItemData.tool_call_status bare)
          value.operations (λ q. (with_operations bare value.operations q).1)
          (Status.append_tool_call_status json s.head bare value.operations now) p tt formatted made
          taken wrote refl refl (λ q i e same at. rw (same, at, e) refl) (λ q e. rw e refl)
          (λ q. refl)
    append_to_head-IsAppend (Append.operation value) p {out} formatted taken wrote =
        let (head, saved, e) =
          map_ok-eq-ok (λ head'. (head', Decoded.operation value))
            (Status.save_operation json s.head value) taken in
        subst
          (λ (p' : SessionHead × Decoded).
            encode_decoded json c p'.1 ≡ ok out
            → IsAppend lines s (Append.operation value) now out p')
          e
          (λ written.
            let (line, b, ended, free, contents, decoded) =
              encode_record_lem json c l RecordType.operation (c.encode_operation value)
                (λ b e. inr (inr (value, e))) written in
            let (counted, kept) =
              Holds-ok
                (λ (next : SessionHead).
                  (next.item_sequence ≡ s.head.item_sequence) × (next.session ≡ s.head.session))
                saved (save_operation-kept json s.head value) in
            record {
              line = line;
              next = record s { head = head };
              ended = ended;
              free = free;
              log =
                  operation-IsLogOf json c lines s (record s { head = head }) line b value v free
                    decoded (l.operation_back value b contents ∙ ap some formatted) (rw saved refl)
                    counted;
              applied = rw saved refl;
              headed = refl;
              named = kept;
              shows = refl;
            })
          wrote
