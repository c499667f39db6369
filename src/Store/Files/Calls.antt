-- ===== src/Store/Files/Calls.antt =====
-- The five methods that write to a session, on a store that has it
-- (harness/sessionstore/localfile/store.go): where the file ends up when a write fails or is torn.
use mathlib.Core.List.{append-nil}
use unreal_agent.Base.{
  ℕ, ◌+◌, ◌≡◌, refl, ap, sym, ◌∙◌, subst, String, Bool, true, false, Option, some, List, [], ◌∷◌,
  ◌++◌, Result, ok, err, ◌==◌, string_eq, nat_eq, eq_iff, length, length-append, take, put, inl,
  inr, ◌⊎◌, Holds,
}
use unreal_agent.Inbox.{Json}
use unreal_agent.Store.{Item, Session}
use unreal_agent.Store.Head.{SessionHead}
use unreal_agent.Store.Head
use unreal_agent.Store.State.{StoredState}
use unreal_agent.Store.Commands.{apply}
use unreal_agent.Store.Lines.{Bytes, join, IsLine, join-append_one}
use unreal_agent.Store.Codec
use unreal_agent.Store.Codec.{Codec, IsLawful}
use unreal_agent.Store.Log.{Decoded}
use unreal_agent.Store.Log.Whole.{IsLogOf}
use unreal_agent.Store.Files.{
  Cached, Store, Written, Append, Error, append_file, settle, encode_decoded, append, append_to,
  append_to_head, append_recorded, append_loaded, append_checked, check_append, evict, tell,
  truncate,
}
use unreal_agent.Store.Files.Appended.{
  IsAppend, command, Shows, append_to_head-IsAppend, IsFormattedCall,
}
use unreal_agent.Store.Files.Kept.{Keeps, IsLoaded, take-IsLine-cases, load_write_state-IsLoaded}

truncate-append : (file torn : Bytes) → truncate (length file) (file ++ torn) ≡ file
truncate-append [] torn = refl
truncate-append (b ∷ file) torn = ap (◌∷◌ b) (truncate-append file torn)

module _ (json : Json) (c : Codec) (id : String) (s : StoredState) where
  -- The store has the session in the state that the call's command gives.
  abbrev pub Advances : Append → ℕ → Store → StoredState → Type 0
  Advances a now store next = (apply json s (command a now) ≡ ok next) × Keeps json c store id next

  -- After a call that succeeds the command is done, and the observers are told of the item that it
  -- added; after one that fails it is done or it is not.
  abbrev pub Follows : Append → ℕ → Store × Result Error (Option Item) → Type 0
  Follows a now (store, ok t) =
      (next : StoredState) × Advances a now store next × Shows s.items t next.items
  Follows a now (store, err e) =
      Keeps json c store id s ⊎ ((next : StoredState) × Advances a now store next)

  -- A file that was written, with its cached head thrown away.
  abbrev left_with : Store → Bytes → Store
  left_with store file = record {
    files = put id file store.files;
    write_state_cache = evict id store.write_state_cache;
  }

  left_with-Keeps :
      (store : Store) (k : Keeps json c store id s) (lines : List Bytes) (torn : Bytes)
      (next : StoredState) {file : Bytes}
      → next.head.session ≡ s.head.session
      → file ≡ join lines ++ torn
      → IsLine torn
      → IsLogOf json c lines next
      → Keeps json c (left_with store file) id next
  left_with-Keeps store k lines torn next named file free log =
      let same : (id == id) ≡ true = (eq_iff id id).1 refl in
      record {
        valid = k.valid;
        named = ap (λ (u : Session). u.id) named ∙ k.named;
        lines = lines;
        torn = torn;
        file = rw (same, file) refl;
        free = free;
        log = log;
        cache = rw same tt;
      }

  module _ (store : Store) (k : Keeps json c store id s) (a : Append) (now : ℕ)
      (p : SessionHead × Decoded) {out : Bytes} (w : IsAppend json c k.lines s a now out p) where
    -- What stands in the file behind the whole lines is cut off before the write.
    cut-file :
        (size : ℕ) (written : Bytes)
        → size ≡ length (join k.lines)
        → truncate size (join k.lines ++ k.torn) ++ written ≡ join k.lines ++ written
    cut-file size written e =
        ap (λ n. truncate n (join k.lines ++ k.torn) ++ written) e
        ∙ ap (λ b. b ++ written) (truncate-append (join k.lines) k.torn)

    more-lines : join (k.lines ++ w.line ∷ []) ≡ join k.lines ++ out
    more-lines = join-append_one k.lines w.line ∙ ap (λ b. join k.lines ++ b) (sym w.ended)

    -- The end of `Store.append`.
    settle-Follows :
        (size : ℕ) (how : Written)
        → size ≡ length (join k.lines)
        → Follows a now (
            tell json c a p.1 (
              settle json c store id p.0
                (size + length out)
                (append_file (join k.lines ++ k.torn) size out how)))
    settle-Follows size Written.unopened e =
        inl (left_with-Keeps store k k.lines k.torn s refl refl k.free k.log)
    settle-Follows size Written.untruncated e =
        inl (left_with-Keeps store k k.lines k.torn s refl refl k.free k.log)
    settle-Follows size (Written.torn_at n) e = elim (take-IsLine-cases n w.line w.free) [
      | inl all ↦
          let wrote : take n out ≡ out = ap (take n) w.ended ∙ all ∙ sym w.ended in
          inr (
            w.next,
            (
              w.applied,
              left_with-Keeps store k (k.lines ++ w.line ∷ []) [] w.next
                  (ap (λ (h : SessionHead). h.session) w.headed ∙ w.named)
                  (cut-file size (take n out) e
                    ∙ ap (λ b. join k.lines ++ b) wrote
                    ∙ sym more-lines
                    ∙ sym (append-nil (join (k.lines ++ w.line ∷ []))))
                  refl w.log,
            ),
          )
      | inr part ↦ inl (
          left_with-Keeps store k k.lines (take n out) s refl (cut-file size (take n out) e)
            (subst (λ b. IsLine (take n b)) (sym w.ended) part) k.log)
    ]
    settle-Follows size Written.complete e =
        let same : (id == id) ≡ true = (eq_iff id id).1 refl in
        (
          w.next,
          (
            w.applied,
            record {
              valid = k.valid;
              named =
                  ap (λ (h : SessionHead). h.session.id) w.headed
                  ∙ ap (λ (u : Session). u.id) w.named
                  ∙ k.named;
              lines = k.lines ++ w.line ∷ [];
              torn = [];
              file = rw same (
                  ap some (
                    cut-file size out e
                    ∙ sym more-lines
                    ∙ sym (append-nil (join (k.lines ++ w.line ∷ [])))));
              free = refl;
              log = w.log;
              cache = rw same (
                sym w.headed,
                ap (λ n. n + length out) e
                    ∙ sym (length-append (join k.lines) out)
                    ∙ ap length (sym more-lines),
              );
            },
          ),
          w.shows,
        )

    -- `Store.append`, on a store that loaded the head.
    append-Follows :
        (size : ℕ) (how : Written)
        → size ≡ length (join k.lines)
        → encode_decoded json c p.1 ≡ ok out
        → Follows a now (tell json c a p.1 (append json c store id p.0 size p.1 how))
    unfolding append
    append-Follows size how e wrote = rw (wrote, k.file) (settle-Follows size how e)

  evicted-Keeps :
      (store : Store)
      → Keeps json c store id s
      → Keeps json c (record store { write_state_cache = evict id store.write_state_cache }) id s
  evicted-Keeps store k =
      let same : (id == id) ≡ true = (eq_iff id id).1 refl in
      record {
        valid = k.valid;
        named = k.named;
        lines = k.lines;
        torn = k.torn;
        file = k.file;
        free = k.free;
        log = k.log;
        cache = rw same tt;
      }

  module _ (l : IsLawful c) (a : Append) (formatted : IsFormattedCall c a) (now : ℕ)
      (time : (now == 0) ≡ false) (how : Written) where
    append_made-Follows :
        (store : Store) (k : Keeps json c store id s) (size : ℕ) (p : SessionHead × Decoded)
        (encoded : Result Codec.Error Bytes)
        → size ≡ length (join k.lines)
        → append_to_head json c s.head a now ≡ ok p
        → encode_decoded json c p.1 ≡ encoded
        → Follows a now (tell json c a p.1 (append json c store id p.0 size p.1 how))
    unfolding append
    append_made-Follows store k size p (ok out) e made wrote =
        append-Follows store k a now p
          (append_to_head-IsAppend json c l k.lines s k.log now time a p formatted made wrote) size
          how e wrote
    append_made-Follows store k size p (err x) e made wrote = rw wrote (inl (evicted-Keeps store k))

    append_recorded-Follows :
        (store : Store) (k : Keeps json c store id s) (size : ℕ)
        (made : Result Head.Error (SessionHead × Decoded))
        → size ≡ length (join k.lines)
        → append_to_head json c s.head a now ≡ made
        → Follows a now (append_recorded json c store id size a made how)
    append_recorded-Follows store k size (err x) e made = inl k
    append_recorded-Follows store k size (ok p) e made =
        append_made-Follows store k size p (encode_decoded json c p.1) e made refl

    append_loaded-Follows :
        (store : Store) (loaded : Result Error (Store × Cached))
        → Keeps json c store id s
        → Holds (IsLoaded json c id s) loaded
        → Follows a now (append_loaded json c store loaded id a now how)
    append_loaded-Follows store (err x) k h = inl k
    append_loaded-Follows store (ok (next, cached)) k h =
        append_recorded-Follows next h.kept cached.committed_size _ h.sized
          (ap (λ head. append_to_head json c head a now) (sym h.headed))

    append_checked-Follows :
        (store : Store) (is_canceled : Bool) (checked : Result Head.Error (Unit {0}))
        → Keeps json c store id s
        → Follows a now (append_checked json c checked store is_canceled id a now how)
    append_checked-Follows store is_canceled (err x) k = inl k
    append_checked-Follows store is_canceled (ok u) k =
        append_loaded-Follows store _ k (load_write_state-IsLoaded json c store id s is_canceled k)

    -- A call that writes to a session which the store has in a state, under the laws of JSON, with
    -- raw texts that stand as JSON writes them or a model response that it reads back, and at a
    -- time that is not zero: if it succeeds, the store has the session in the state that the call's
    -- command gives, and the observers are told of the item that it added and of no other; if it
    -- fails, at whatever byte the write was cut off, the store has the session in the old state or
    -- in that new one.
    pub append_to-Follows :
        (store : Store) (is_canceled : Bool)
        → Keeps json c store id s
        → Follows a now (append_to json c store is_canceled id a now how)
    unfolding append_to
    append_to-Follows store is_canceled k =
        append_checked-Follows store is_canceled (check_append json c a) k
