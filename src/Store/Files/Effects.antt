-- ===== src/Store/Files/Effects.antt =====
-- What the calls on the session store (harness/sessionstore/localfile/store.go) do at all: a write to a
-- session leaves the others alone, and one that nothing hinders comes through.
use unreal_agent.Base.{
  ℕ, ◌≡◌, refl, ap, sym, ◌∙◌, subst, String, Bool, true, false, Option, none, some, Result, ok, err,
  with_error, ◌==◌, string_eq, nat_eq, put, length, Holds, >>=-Holds, reject_if-Holds, map_ok-eq-ok,
  >>=-eq-ok, Option-cases, inl, inr, Holds-ok,
}
use unreal_agent.Inbox.{Json}
use unreal_agent.Store.Head.{SessionHead, validate_operation}
use unreal_agent.Store.Head
use unreal_agent.Store.Status
use unreal_agent.Store.Status.{save_operation}
use unreal_agent.Store.State.{StoredState}
use unreal_agent.Store.Lines.{Bytes, join}
use unreal_agent.Store.Codec
use unreal_agent.Store.Codec.{Codec}
use unreal_agent.Store.Log.{Decoded, validate_session_id}
use unreal_agent.Store.Files.{
  Cached, Store, Written, Append, Error, unreadable, settle, write_encoded, write_record,
  encode_decoded, append, append_to, append_to_head, append_recorded, append_loaded, append_checked,
  check_append, load_uncached, load_cached, load_write_state, read_state, tell, told,
}
use unreal_agent.Store.Files.Kept.{Keeps, IsLoaded, load_write_state-IsLoaded, read_state-Keeps}

-- What a store has of a session: its file, and what is cached of it.
pub record IsSameAt (id : String) (store store' : Store) : Type 0 where
  pub file : store'.files id ≡ store.files id
  pub cache : store'.write_state_cache id ≡ store.write_state_cache id

pub same_at : (id : String) (store : Store) → IsSameAt id store store
same_at id store = record { file = refl; cache = refl }

module _ (json : Json) (c : Codec) (id other : String) (differ : (id == other) ≡ false) where
  append-IsSameAt :
      (store : Store) (head : SessionHead) (size : ℕ) (d : Decoded) (how : Written)
      → IsSameAt other store (append json c store id head size d how).0
  unfolding append
  append-IsSameAt store head size d how = write_record-IsSameAt (encode_decoded json c d)
    where
      settle-IsSameAt :
          (end : ℕ) (r : Bytes × Bool) → IsSameAt other store (settle json c store id head end r).0
      settle-IsSameAt end (file, true) = record { file = rw differ refl; cache = rw differ refl }
      settle-IsSameAt end (file, false) = record { file = rw differ refl; cache = rw differ refl }

      write_encoded-IsSameAt :
          (file : Option Bytes) (out : Bytes)
          → IsSameAt other store (write_encoded json c file store id head size out how).0
      write_encoded-IsSameAt none out = record { file = refl; cache = rw differ refl }
      write_encoded-IsSameAt (some file) out = settle-IsSameAt _ _

      write_record-IsSameAt :
          (encoded : Result Codec.Error Bytes)
          → IsSameAt other store (write_record json c encoded store id head size how).0
      write_record-IsSameAt (err e) = record { file = refl; cache = rw differ refl }
      write_record-IsSameAt (ok out) = write_encoded-IsSameAt (store.files id) out

  load_cached-IsSameAt :
      (cached : Option Cached) (store : Store) (is_canceled : Bool)
      → Holds
          (λ (p : Store × Cached). IsSameAt other store p.0)
          (load_cached json c cached store is_canceled id)
  unfolding load_cached load_uncached
  load_cached-IsSameAt (some k) store is_canceled = same_at other store
  load_cached-IsSameAt none store is_canceled =
      >>=-Holds (λ (p : Store × Cached). IsSameAt other store p.0)
        (read_state json c store is_canceled id) _
        (λ q read. record { file = refl; cache = rw differ refl })

  load_write_state-IsSameAt :
      (store : Store) (is_canceled : Bool)
      → Holds
          (λ (p : Store × Cached). IsSameAt other store p.0)
          (load_write_state json c store is_canceled id)
  unfolding load_write_state
  load_write_state-IsSameAt store is_canceled =
      let P : Store × Cached → Type 0 = λ p. IsSameAt other store p.0 in
      >>=-Holds P (with_error unreadable (validate_session_id id)) _ (λ u valid.
        reject_if-Holds P is_canceled Error.canceled _
          (λ e. load_cached-IsSameAt (store.write_state_cache id) store is_canceled))

  tell-store :
      (a : Append) (d : Decoded) (r : Store × Result Error (Unit {0})) → (tell json c a d r).0 ≡ r.0
  tell-store a d (store, ok u) = refl
  tell-store a d (store, err e) = refl

  append_recorded-IsSameAt :
      (store : Store) (size : ℕ) (a : Append) (made : Result Head.Error (SessionHead × Decoded))
      (how : Written)
      → IsSameAt other store (append_recorded json c store id size a made how).0
  append_recorded-IsSameAt store size a (err e) how = same_at other store
  append_recorded-IsSameAt store size a (ok (head, d)) how =
      subst (λ s. IsSameAt other store s)
        (sym (tell-store a d (append json c store id head size d how)))
        (append-IsSameAt store head size d how)

  append_loaded-IsSameAt :
      (store : Store) (loaded : Result Error (Store × Cached)) (a : Append) (now : ℕ)
      (how : Written)
      → Holds (λ (p : Store × Cached). IsSameAt other store p.0) loaded
      → IsSameAt other store (append_loaded json c store loaded id a now how).0
  append_loaded-IsSameAt store (err e) a now how h = same_at other store
  append_loaded-IsSameAt store (ok (next, k)) a now how h =
      let later =
        append_recorded-IsSameAt next k.committed_size a (append_to_head json c k.head a now) how in
      record { file = later.file ∙ h.file; cache = later.cache ∙ h.cache }

  append_checked-IsSameAt :
      (checked : Result Head.Error (Unit {0})) (store : Store) (is_canceled : Bool) (a : Append)
      (now : ℕ) (how : Written)
      → IsSameAt other store (append_checked json c checked store is_canceled id a now how).0
  append_checked-IsSameAt (err e) store is_canceled a now how = same_at other store
  append_checked-IsSameAt (ok u) store is_canceled a now how =
      append_loaded-IsSameAt store _ a now how (load_write_state-IsSameAt store is_canceled)

  -- A call that writes to a session changes neither the file of a session with another ID nor what is
  -- cached of it, however the call ends.
  pub append_to-IsSameAt :
      (store : Store) (is_canceled : Bool) (a : Append) (now : ℕ) (how : Written)
      → IsSameAt other store (append_to json c store is_canceled id a now how).0
  unfolding append_to
  append_to-IsSameAt store is_canceled a now how =
      append_checked-IsSameAt (check_append json c a) store is_canceled a now how

module _ (json : Json) (c : Codec) (store : Store) (id : String) (s : StoredState)
    (k : Keeps json c store id s) where
  load_uncached-ok : (p : Store × Cached) × (load_uncached json c store false id ≡ ok p)
  unfolding load_uncached
  load_uncached-ok =
      let cached : Cached = record { head = s.head; committed_size = length (join k.lines) } in
      (
        (record store { write_state_cache = put id cached store.write_state_cache }, cached),
        rw (read_state-Keeps json c store id s false k) refl,
      )

  load_write_state-ok : (p : Store × Cached) × (load_write_state json c store false id ≡ ok p)
  unfolding load_write_state load_cached
  load_write_state-ok = elim (Option-cases (store.write_state_cache id)) [
    | inl missing ↦ let (p, e) = load_uncached-ok in (p, rw (k.valid, missing, e) refl)
    | inr (cached, found) ↦ ((store, cached), rw (k.valid, found) refl)
  ]

  check_append-ok :
      (a : Append) (now : ℕ) {p : SessionHead × Decoded}
      → append_to_head json c s.head a now ≡ ok p
      → check_append json c a ≡ ok tt
  unfolding append_to_head save_operation
  check_append-ok (Append.input i) now h = refl
  check_append-ok (Append.turn t) now h = refl
  check_append-ok (Append.model_response r) now h = refl
  check_append-ok (Append.tool_call_status s) now h = refl
  check_append-ok (Append.operation value) now h =
      let (head, saved, e) = map_ok-eq-ok _ (Status.save_operation json s.head value) h in
      (>>=-eq-ok (validate_operation json value) _ saved).1

  -- A call that writes to a session which the store has, that is not canceled, that the head takes,
  -- whose record can be encoded and whose write is complete, succeeds and tells the observers of the
  -- item, whether or not the head was cached.
  pub append_to-complete :
      (a : Append) (now : ℕ) (p : SessionHead × Decoded) {out : Bytes}
      → append_to_head json c s.head a now ≡ ok p
      → encode_decoded json c p.1 ≡ ok out
      → (append_to json c store false id a now Written.complete).1 ≡ ok (told a p.1)
  unfolding append_to append
  append_to-complete a now p made wrote =
      let (q, loaded) = load_write_state-ok in
      let is_loaded =
        Holds-ok (IsLoaded json c id s) loaded
          (load_write_state-IsLoaded json c store id s false k) in
      let at : append_to_head json c q.1.head a now ≡ ok p =
        ap (λ head. append_to_head json c head a now) is_loaded.headed ∙ made in
      rw (check_append-ok a now made, loaded, at, wrote, is_loaded.kept.file) refl
