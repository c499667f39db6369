-- ===== src/Store/Log/Whole.antt =====
-- A log of whole lines that holds a state: reading it, and a line more
-- (harness/sessionstore/localfile/codec.go).
use unreal_agent.Base.{
  ℕ, suc, ◌+◌, ◌%◌, ◌^◌, ◌≤◌, ◌≡◌, refl, ap, sym, ◌∙◌, true, false, not, ◌&&◌, List, [], ◌∷◌, ◌++◌,
  ok, ◌>>=◌, arith, length, take, All, is_empty, ltb, ◌==◌, nat_eq, some, >>=-ok, >>=-assoc,
  >>=-cong,
}
use unreal_agent.Inbox.{Json}
use unreal_agent.Operation.{Operation}
use unreal_agent.Store.Head.{next_sequence}
use unreal_agent.Store.State.{StoredState, save_operation}
use unreal_agent.Store.Lines.{
  Bytes, newline, join, IsLine, split, drop_last, last_index_byte, split-lines,
  last_index_byte-join, All-append_one, take-append,
}
use unreal_agent.Store.Codec.{Codec, ItemRecord, RecordType, decode_item_record}
use unreal_agent.Store.Log.{
  Scan, no_scan, Replay, Decoded, scan_line, scan_lines, scan_record, scan_item, scan_operation,
  replay_record, replay_records, replay_item, decode_lines, decode_log, is_status, is_fork,
}

module _ (json : Json) (c : Codec) where
  -- The lines hold the state: reading them scans and replays to it.
  pub record IsLogOf (lines : List Bytes) (s : StoredState) : Type 0 where
    pub begins : (first : Bytes) × (rest : List Bytes) × (lines ≡ first ∷ rest)
    pub whole : All IsLine lines
    pub scan : Scan
    pub scanned : scan_lines json c 0 no_scan lines ≡ ok scan
    pub replayed :
        replay_records json c scan.inherited_item_count
          (record { value = scan.value; replayed_items = 0 })
          scan.records
        ≡ ok (record { value = s; replayed_items = scan.item_count })
    pub counted : s.head.item_sequence ≡ scan.item_count % 2 ^ 64
    pub inherited : scan.inherited_item_count ≤ scan.item_count

  decode_lines_lem :
      (lines : List Bytes) (s : StoredState) → IsLogOf lines s → decode_lines json c lines ≡ ok s
  unfolding decode_lines
  decode_lines_lem lines s v = rw (v.scanned, v.replayed) refl

  -- A file of whole lines that make up the log of a state, with torn bytes behind them that have no
  -- newline, decodes to that state, and the committed size is the length of the whole lines.
  pub decode_log-join :
      (lines : List Bytes) (s : StoredState) (torn : Bytes)
      → IsLogOf lines s
      → IsLine torn
      → decode_log json c (join lines ++ torn) ≡ ok (s, length (join lines))
  unfolding decode_log
  decode_log-join lines s torn v free =
      let (first, rest, begins) = v.begins in
      let (i, found, count) = last_index_byte-join first rest torn free in
      let same : last_index_byte (join lines ++ torn) newline ≡ some i =
        ap (λ ls. last_index_byte (join ls ++ torn) newline) begins ∙ found in
      let long : suc i ≡ length (join lines) = count ∙ ap (λ ls. length (join ls)) (sym begins) in
      let read : decode_lines json c (drop_last (split (take (suc i) (join lines ++ torn)) newline))
          ≡ ok s =
        ap (λ n. decode_lines json c (drop_last (split (take n (join lines ++ torn)) newline))) long
        ∙ ap (λ b. decode_lines json c (drop_last (split b newline)))
            (take-append (join lines) torn)
        ∙ ap (decode_lines json c) (split-lines lines v.whole)
        ∙ decode_lines_lem lines s v in
      rw (same, read) (ap (λ n. ok (s, n)) long)

  pub scan_lines-append_one :
      (index : ℕ) (scan : Scan) (lines : List Bytes) (line : Bytes)
      → scan_lines json c index scan (lines ++ line ∷ []) ≡ (
          scan_lines json c index scan lines >>= λ k.
          scan_line json c (index + length lines) k line)
  unfolding scan_lines
  scan_lines-append_one index scan [] line =
      >>=-ok (scan_line json c index scan line)
      ∙ ap (λ n. scan_line json c n scan line) (omega arith)
  scan_lines-append_one index scan (first ∷ lines) line =
      let moved : suc index + length lines ≡ index + length (first ∷ lines) = omega arith in
      >>=-cong (scan_line json c index scan first) _ _ (λ next.
        scan_lines-append_one (suc index) next lines line
        ∙ ap (λ n. scan_lines json c (suc index) next lines >>= λ k. scan_line json c n k line)
            moved)
      ∙ sym (>>=-assoc (scan_line json c index scan first) _ _)

  pub replay_records-append_one :
      (inherited : ℕ) (r : Replay) (ds : List Decoded) (d : Decoded)
      → replay_records json c inherited r (ds ++ d ∷ [])
        ≡ (replay_records json c inherited r ds >>= λ k. replay_record json c inherited k d)
  unfolding replay_records
  replay_records-append_one inherited r [] d = >>=-ok (replay_record json c inherited r d)
  replay_records-append_one inherited r (first ∷ ds) d =
      >>=-cong (replay_record json c inherited r first) _ _
        (λ next. replay_records-append_one inherited next ds d)
      ∙ sym (>>=-assoc (replay_record json c inherited r first) _ _)

  scan_item_line :
      (index : ℕ) (scan : Scan) (line b : Bytes) (r : ItemRecord)
      → (index == 0) ≡ false
      → c.decode_line line ≡ some (record { type = RecordType.item; contents = b })
      → decode_item_record json c b ≡ ok r
      → (r.item.sequence == (scan.item_count + 1) % 2 ^ 64) ≡ true
      → (r.item.recorded_at == 0) ≡ false
      → (not (is_status r.item.content) && not (is_empty r.operations)) ≡ false
      → is_fork r.item.content ≡ false
      → scan_line json c index scan line
        ≡ ok (record scan {
          records = scan.records ++ Decoded.item r ∷ [];
          item_count = suc scan.item_count;
        })
  unfolding scan_line scan_record scan_item
  scan_item_line index scan line b r later decoded read number time ops own =
      rw (decoded, later, read, number, time, ops, own) refl

  replay_item_own :
      (inherited : ℕ) (p : Replay) (r : ItemRecord) {s' : StoredState}
      → inherited ≤ p.replayed_items
      → replay_item json c p.value r ≡ ok s'
      → replay_record json c inherited p (Decoded.item r)
        ≡ ok (record { value = s'; replayed_items = suc p.replayed_items })
  unfolding replay_record
  replay_item_own inherited p r behind played =
      let own : ltb p.replayed_items inherited ≡ false = ground arith in rw (own, played) refl

  later-lines :
      {lines : List Bytes} {s : StoredState} → IsLogOf lines s → (0 + length lines == 0) ≡ false
  later-lines v = let (first, rest, e) = v.begins in ap (λ ls. 0 + length ls == 0) e ∙ ground arith

  -- The line of an item that the state can take.
  pub item-IsLogOf :
      (lines : List Bytes) (s s' : StoredState) (line b : Bytes) (r : ItemRecord)
      → IsLogOf lines s
      → IsLine line
      → c.decode_line line ≡ some (record { type = RecordType.item; contents = b })
      → decode_item_record json c b ≡ ok r
      → r.item.sequence ≡ next_sequence s.head.item_sequence
      → (r.item.recorded_at == 0) ≡ false
      → (not (is_status r.item.content) && not (is_empty r.operations)) ≡ false
      → is_fork r.item.content ≡ false
      → replay_item json c s r ≡ ok s'
      → s'.head.item_sequence ≡ r.item.sequence
      → IsLogOf (lines ++ line ∷ []) s'
  item-IsLogOf lines s s' line b r v whole decoded read number time ops own played next = record {
    begins =
        let (first, rest, e) = v.begins in (first, rest ++ line ∷ [], ap (λ ls. ls ++ line ∷ []) e);
    whole = All-append_one IsLine lines line v.whole whole;
    scan = record v.scan {
      records = v.scan.records ++ Decoded.item r ∷ [];
      item_count = suc v.scan.item_count;
    };
    scanned =
        scan_lines-append_one 0 no_scan lines line
        ∙ rw v.scanned (
            scan_item_line (0 + length lines) v.scan line b r (later-lines v) decoded read
              (ground (arith, v.counted, number)) time ops own);
    replayed =
        replay_records-append_one v.scan.inherited_item_count _ v.scan.records (Decoded.item r)
        ∙ rw v.replayed (
            replay_item_own v.scan.inherited_item_count
              (record { value = s; replayed_items = v.scan.item_count }) r v.inherited played);
    counted = omega (arith, next, number, v.counted);
    inherited = omega (arith, v.inherited);
  }

  -- The line of an update that the state can take.
  pub operation-IsLogOf :
      (lines : List Bytes) (s s' : StoredState) (line b : Bytes) (value : Operation)
      → IsLogOf lines s
      → IsLine line
      → c.decode_line line ≡ some (record { type = RecordType.operation; contents = b })
      → c.decode_operation b ≡ some value
      → save_operation json s value ≡ ok s'
      → s'.head.item_sequence ≡ s.head.item_sequence
      → IsLogOf (lines ++ line ∷ []) s'
  unfolding scan_line scan_record scan_operation replay_record
  operation-IsLogOf lines s s' line b value v whole decoded read saved same = record {
    begins =
        let (first, rest, e) = v.begins in (first, rest ++ line ∷ [], ap (λ ls. ls ++ line ∷ []) e);
    whole = All-append_one IsLine lines line v.whole whole;
    scan = record v.scan { records = v.scan.records ++ Decoded.operation value ∷ [] };
    scanned =
        scan_lines-append_one 0 no_scan lines line
        ∙ rw v.scanned (rw (decoded, later-lines v, read) refl);
    replayed =
        let own : ltb v.scan.item_count v.scan.inherited_item_count ≡ false =
          ground (arith, v.inherited) in
        replay_records-append_one v.scan.inherited_item_count _ v.scan.records
          (Decoded.operation value)
        ∙ rw v.replayed (rw (own, saved) refl);
    counted = same ∙ v.counted;
    inherited = v.inherited;
  }
