-- ===== src/Store/Log/Initial.antt =====
-- The log that `encodeInitialLog` of harness/sessionstore/localfile/codec.go writes for a new session.
use mathlib.Core.List.{append-nil, append_assoc}
use unreal_agent.Base.{
  ℕ, suc, ◌+◌, ◌%◌, ◌^◌, ◌≡◌, refl, ap, sym, ◌∙◌, String, true, false, not, ◌&&◌, some, List, [],
  ◌∷◌, ◌++◌, map, ok, with_error, reject_if, arith, length, All, is_empty, ◌==◌, nat_eq, string_eq,
  if◌then◌else◌, >>=-eq-ok, with_error-eq-ok, ok-injective, inl,
}
use unreal_agent.Inbox.{Json}
use unreal_agent.Store.{Item, ItemData, Session}
use unreal_agent.Store.State.{new_stored_state, without_operations}
use unreal_agent.Store.Lines.{Bytes, newline, join, IsLine}
use unreal_agent.Store.Codec.{
  Codec, IsLawful, RecordType, SessionRecord, encode_record_lem, encode_item_record_lem,
  encode_record, encode_item_record, decode_item_record, IsFormatted, IsFormattedOperation,
}
use unreal_agent.Store.Log.{
  Scan, no_scan, Decoded, codec, scan_line, scan_lines, scan_record, scan_item, scan_session,
  replay_records, is_status, is_fork, record_of, operations_of, encode_items, encode_initial_log,
  format_version, validate_session_id, not_contiguous, no_time,
}
use unreal_agent.Store.Log.Whole.{IsLogOf}

-- What the first loop makes of `inheritedItemCount` over the items behind `count`.
abbrev pub inherited_after : ℕ → ℕ → List Item → ℕ
inherited_after count inherited [] = inherited
inherited_after count inherited (i ∷ items) =
    inherited_after (suc count) (if is_fork i.content then suc count else inherited) items

abbrev pub AreNumbered : ℕ → List Item → Type 0
AreNumbered index [] = Unit {0}
AreNumbered index (i ∷ items) = (i.sequence ≡ (index + 1) % 2 ^ 64) × AreNumbered (suc index) items

pub is_fork-without_operations :
    (content : ItemData) → is_fork (without_operations content) ≡ is_fork content
is_fork-without_operations (ItemData.tool_call_status s) = refl
is_fork-without_operations (ItemData.fork f) = refl
is_fork-without_operations (ItemData.input f) = refl
is_fork-without_operations (ItemData.turn f) = refl
is_fork-without_operations (ItemData.model_response f) = refl

pub record_of-initializes :
    (content : ItemData)
    → (not (is_status (without_operations content)) && not (is_empty (operations_of content)))
      ≡ false
record_of-initializes (ItemData.tool_call_status s) = refl
record_of-initializes (ItemData.fork f) = refl
record_of-initializes (ItemData.input f) = refl
record_of-initializes (ItemData.turn f) = refl
record_of-initializes (ItemData.model_response f) = refl

-- The contents of items stand as JSON writes them.
abbrev pub AreFormatted : Codec → List Item → Type 0
AreFormatted c = All (λ (i : Item). IsFormatted c i.content)

pub without_operations-IsFormatted :
    (c : Codec) (content : ItemData)
    → IsFormatted c content
    → IsFormatted c (without_operations content)
      × All (IsFormattedOperation c) (operations_of content)
without_operations-IsFormatted c (ItemData.tool_call_status s) h = (tt, h)
without_operations-IsFormatted c (ItemData.fork f) h = (h, tt)
without_operations-IsFormatted c (ItemData.input f) h = (h, tt)
without_operations-IsFormatted c (ItemData.turn f) h = (h, tt)
without_operations-IsFormatted c (ItemData.model_response f) h = (h, tt)

module _ (json : Json) (c : Codec) where
  -- The lines that items are written as, from an index on, and what scanning them gives.
  record Encoded (index : ℕ) (items : List Item) (out : Bytes) : Type 0 where
    lines : List Bytes
    joined : out ≡ join lines
    whole : All IsLine lines
    numbered : AreNumbered index items
    scanned :
        (scan : Scan)
        → scan.item_count ≡ index
        → scan_lines json c (suc index) scan lines
          ≡ ok (record scan {
            records = scan.records ++ map (λ i. Decoded.item (record_of i)) items;
            item_count = index + length items;
            inherited_item_count = inherited_after index scan.inherited_item_count items;
          })

  same_scan :
      (scan : Scan) {rs rs' : List Decoded} {n n' k k' : ℕ}
      → rs ≡ rs'
      → n ≡ n'
      → k ≡ k'
      → ◌≡◌ {A = Scan}
          (record scan { records = rs; item_count = n; inherited_item_count = k })
          (record scan { records = rs'; item_count = n'; inherited_item_count = k' })
  same_scan scan p q r = cc

  scan_item_line_any :
      (index : ℕ) (scan : Scan) (line b : Bytes) (i : Item)
      → c.decode_line line ≡ some (record { type = RecordType.item; contents = b })
      → decode_item_record json c b ≡ ok (record_of i)
      → (i.sequence == (scan.item_count + 1) % 2 ^ 64) ≡ true
      → (i.recorded_at == 0) ≡ false
      → scan_line json c (suc index) scan line
        ≡ ok (record scan {
          records = scan.records ++ Decoded.item (record_of i) ∷ [];
          item_count = suc scan.item_count;
          inherited_item_count =
              if is_fork i.content then suc scan.item_count else scan.inherited_item_count;
        })
  unfolding scan_line scan_record scan_item
  scan_item_line_any index scan line b i decoded read number time =
      let later : (suc index == 0) ≡ false = ground arith in
      rw
        (
          decoded,
          later,
          read,
          number,
          time,
          record_of-initializes i.content,
          is_fork-without_operations i.content,
        )
        refl

  module _ (l : IsLawful c) where
    encode_items-Encoded :
        (index : ℕ) (items : List Item) {out : Bytes}
        → AreFormatted c items
        → encode_items json c index items ≡ ok out
        → Encoded index items out
    unfolding encode_items scan_lines
    encode_items-Encoded index [] formatted h = record {
      lines = [];
      joined = sym (ok-injective h);
      whole = tt;
      numbered = tt;
      scanned =
          λ scan e. ap ok (same_scan scan (sym (append-nil scan.records)) (e ∙ omega arith) refl);
    }
    encode_items-Encoded index (i ∷ items) formatted h =
        let (_, number, h1) =
          >>=-eq-ok (reject_if (not (i.sequence == (index + 1) % 2 ^ 64)) not_contiguous) _ h in
        let (_, time, h2) = >>=-eq-ok (reject_if (i.recorded_at == 0) no_time) _ h1 in
        let (first, written, h3) =
          >>=-eq-ok (with_error codec (encode_item_record json c (record_of i))) _ h2 in
        let (rest, more, h4) = >>=-eq-ok (encode_items json c (suc index) items) _ h3 in
        let (data_formatted, operations_formatted) =
          without_operations-IsFormatted c i.content formatted.0 in
        let (line, b, made, whole, decoded, read) =
          encode_item_record_lem json c l (record_of i) data_formatted operations_formatted
            (with_error-eq-ok codec _ written) in
        let later = encode_items-Encoded (suc index) items formatted.1 more in
        record {
          lines = line ∷ later.lines;
          joined =
              sym (ok-injective h4)
              ∙ ap (λ f. f ++ rest) made
              ∙ append_assoc line (newline ∷ []) rest
              ∙ ap (λ r. line ++ newline ∷ r) later.joined;
          whole = (whole, later.whole);
          numbered = (ground arith, later.numbered);
          scanned = λ scan e.
              let step =
                scan_item_line_any index scan line b i decoded read (ground (arith, number))
                  (ground arith) in
              rw step (
                later.scanned _ (ap suc e)
                ∙ ap ok (
                    same_scan scan
                      (append_assoc scan.records (Decoded.item (record_of i) ∷ [])
                        (map (λ j. Decoded.item (record_of j)) items))
                      (omega arith)
                      (ap
                        (λ n.
                          inherited_after (suc index)
                            (if is_fork i.content then suc n else scan.inherited_item_count) items)
                        e)));
        }

    pub record Started (value : Session) (items : List Item) (out : Bytes) : Type 0 where
      pub first : Bytes
      pub lines : List Bytes
      pub joined : out ≡ join (first ∷ lines)
      pub whole : All IsLine (first ∷ lines)
      pub numbered : AreNumbered 0 items
      pub scanned :
          scan_lines json c 0 no_scan (first ∷ lines)
          ≡ ok (record {
            value = new_stored_state value.id value.created_at;
            records = map (λ i. Decoded.item (record_of i)) items;
            item_count = length items;
            inherited_item_count = inherited_after 0 0 items;
          })

    scan_session_line :
        (value : Session) (line b : Bytes)
        → validate_session_id value.id ≡ ok tt
        → (value.created_at == 0) ≡ false
        → c.decode_line line ≡ some (record { type = RecordType.session; contents = b })
        → c.decode_session b ≡ some (record { version = format_version; session = value })
        → scan_line json c 0 no_scan line
          ≡ ok (record no_scan { value = new_stored_state value.id value.created_at })
    unfolding scan_line scan_record scan_session
    scan_session_line value line b valid time decoded read = rw (decoded, read, valid, time) refl

    pub encode_initial_log-Started :
        (value : Session) (items : List Item) {out : Bytes}
        → AreFormatted c items
        → (value.created_at == 0) ≡ false
        → encode_initial_log json c value items ≡ ok out
        → Started value items out
    unfolding encode_initial_log scan_lines
    encode_initial_log-Started value items formatted time h =
        let header : SessionRecord = record { version = format_version; session = value } in
        let (_, valid, h1) = >>=-eq-ok (validate_session_id value.id) _ h in
        let (first, written, h2) =
          >>=-eq-ok
            (with_error codec (encode_record json c RecordType.session (c.encode_session header))) _
            h1 in
        let (rest, more, h3) = >>=-eq-ok (encode_items json c 0 items) _ h2 in
        let (line, b, made, whole, some_b, decoded) =
          encode_record_lem json c l RecordType.session (c.encode_session header)
            (λ b e. inl (header, e)) (with_error-eq-ok codec _ written) in
        let later = encode_items-Encoded 0 items formatted more in
        record {
          first = line;
          lines = later.lines;
          joined =
              sym (ok-injective h3)
              ∙ ap (λ f. f ++ rest) made
              ∙ append_assoc line (newline ∷ []) rest
              ∙ ap (λ r. line ++ newline ∷ r) later.joined;
          whole = (whole, later.whole);
          numbered = later.numbered;
          scanned =
              rw
                (scan_session_line value line b valid time decoded (l.session_back header b some_b))
                (later.scanned _ refl
                  ∙ ap ok (
                      same_scan
                        (record no_scan { value = new_stored_state value.id value.created_at }) refl
                        (omega arith) refl));
        }

    -- What is written for a new session holds the new session.
    pub created-IsLogOf :
        (id : String) (now : ℕ) {out : Bytes}
        → (now == 0) ≡ false
        → encode_initial_log json c (record { id = id; created_at = now }) [] ≡ ok out
        → (lines : List Bytes) × (out ≡ join lines) × IsLogOf json c lines (new_stored_state id now)
    unfolding replay_records new_stored_state
    created-IsLogOf id now time h =
        let st = encode_initial_log-Started (record { id = id; created_at = now }) [] tt time h in
        (
          st.first ∷ st.lines,
          st.joined,
          record {
            begins = (st.first, st.lines, refl);
            whole = st.whole;
            scan = _;
            scanned = st.scanned;
            replayed = refl;
            counted = omega arith;
            inherited = omega arith;
          },
        )
