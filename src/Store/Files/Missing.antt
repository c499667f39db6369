-- ===== src/Store/Files/Missing.antt =====
-- Calls on a session that has no file (harness/sessionstore/localfile/store.go).
use unreal_agent.Base.{
  ℕ, ◌≡◌, refl, ap, ◌∙◌, String, Bool, true, false, Option, none, some, Result, ok, err, with_error,
  ◌==◌, string_eq, nat_eq, Holds, Holds-ok, >>=-Holds, reject_if-Holds, arith,
}
use unreal_agent.Inbox.{Json}
use unreal_agent.Store.Head.{SessionHead}
use unreal_agent.Store.Head
use unreal_agent.Store.State.{StoredState}
use unreal_agent.Store.Lines.{Bytes}
use unreal_agent.Store.Codec
use unreal_agent.Store.Codec.{Codec, IsLawful}
use unreal_agent.Store.Log.{Decoded, validate_session_id}
use unreal_agent.Store.Files.{
  Cached, Store, Written, Published, Append, Error, unreadable, write_record, encode_decoded,
  append, append_to, append_to_head, append_recorded, append_loaded, append_checked, check_append,
  load_uncached, load_cached, load_write_state, read_state, tell, publish_checked, fork,
  forked_state,
}

module _ (json : Json) (c : Codec) where
  append-missing :
      (store : Store) (id : String) (head : SessionHead) (size : ℕ) (d : Decoded) (how : Written)
      → store.files id ≡ none
      → (append json c store id head size d how).0.files ≡ store.files
  unfolding append
  append-missing store id head size d how missing = record-missing (encode_decoded json c d)
    where
      record-missing :
          (r : Result Codec.Error Bytes)
          → (write_record json c r store id head size how).0.files ≡ store.files
      record-missing (err e) = refl
      record-missing (ok b) = rw missing refl

  tell-files :
      (a : Append) (d : Decoded) (r : Store × Result Error (Unit {0}))
      → (tell json c a d r).0.files ≡ r.0.files
  tell-files a d (store, ok u) = refl
  tell-files a d (store, err e) = refl

  load_cached-files :
      (cached : Option Cached) (store : Store) (is_canceled : Bool) (id : String)
      → Holds
          (λ (p : Store × Cached). p.0.files ≡ store.files)
          (load_cached json c cached store is_canceled id)
  unfolding load_cached load_uncached
  load_cached-files (some k) store is_canceled id = refl
  load_cached-files none store is_canceled id =
      >>=-Holds (λ (p : Store × Cached). p.0.files ≡ store.files)
        (read_state json c store is_canceled id) _ (λ q e. refl)

  load-files :
      (store : Store) (is_canceled : Bool) (id : String)
      → Holds
          (λ (p : Store × Cached). p.0.files ≡ store.files)
          (load_write_state json c store is_canceled id)
  unfolding load_write_state
  load-files store is_canceled id =
      let P : Store × Cached → Type 0 = λ p. p.0.files ≡ store.files in
      >>=-Holds P (with_error unreadable (validate_session_id id)) _ (λ u valid.
        reject_if-Holds P is_canceled Error.canceled _
          (λ e. load_cached-files (store.write_state_cache id) store is_canceled id))

  recorded-missing :
      (store : Store) (id : String) (size : ℕ) (a : Append)
      (made : Result Head.Error (SessionHead × Decoded)) (how : Written)
      → store.files id ≡ none
      → (append_recorded json c store id size a made how).0.files ≡ store.files
  recorded-missing store id size a (err e) how missing = refl
  recorded-missing store id size a (ok (head, d)) how missing =
      tell-files a d (append json c store id head size d how)
      ∙ append-missing store id head size d how missing

  loaded-missing :
      (store : Store) (loaded : Result Error (Store × Cached)) (id : String) (a : Append) (now : ℕ)
      (how : Written)
      → store.files id ≡ none
      → Holds (λ (p : Store × Cached). p.0.files ≡ store.files) loaded
      → (append_loaded json c store loaded id a now how).0.files ≡ store.files
  loaded-missing store (err e) id a now how missing h = refl
  loaded-missing store (ok (next, k)) id a now how missing h =
      recorded-missing next id k.committed_size a (append_to_head json c k.head a now) how
        (ap (λ f. f id) h ∙ missing)
      ∙ h

  checked-missing :
      (checked : Result Head.Error (Unit {0})) (store : Store) (is_canceled : Bool) (id : String)
      (a : Append) (now : ℕ) (how : Written)
      → store.files id ≡ none
      → (append_checked json c checked store is_canceled id a now how).0.files ≡ store.files
  checked-missing (err e) store is_canceled id a now how missing = refl
  checked-missing (ok u) store is_canceled id a now how missing =
      loaded-missing store _ id a now how missing (load-files store is_canceled id)

  -- A write to a session that has no file leaves it without one.
  pub append_to-missing :
      (store : Store) (is_canceled : Bool) (id : String) (a : Append) (now : ℕ) (how : Written)
      → store.files id ≡ none
      → (append_to json c store is_canceled id a now how).0.files ≡ store.files
  unfolding append_to
  append_to-missing store is_canceled id a now how missing =
      checked-missing (check_append json c a) store is_canceled id a now how missing

  read_state-missing :
      (store : Store) (is_canceled : Bool) (id : String)
      → store.files id ≡ none
      → Holds (λ (q : StoredState × ℕ). true ≡ false) (read_state json c store is_canceled id)
  unfolding read_state
  read_state-missing store is_canceled id missing =
      >>=-Holds (λ (q : StoredState × ℕ). true ≡ false)
        (with_error unreadable (validate_session_id id)) _
        (λ u valid.
          reject_if-Holds (λ (q : StoredState × ℕ). true ≡ false) is_canceled Error.canceled _
            (λ e. rw missing tt))

  -- A fork of a session that has no file fails before anything is written.
  pub fork-missing :
      (store : Store) (is_canceled : Bool) (id parent_id turn_id : String) (now : ℕ)
      (how : Published)
      → store.files parent_id ≡ none
      → (fork json c store is_canceled id parent_id turn_id now how).0 ≡ store
  unfolding fork
  fork-missing store is_canceled id parent_id turn_id now how missing =
      unpublished (forked_state json c store is_canceled id parent_id turn_id now) (
        >>=-Holds No (with_error unreadable (validate_session_id id)) _ (λ u valid.
          reject_if-Holds No (id == parent_id) Error.onto_itself _ (λ e.
            >>=-Holds No (read_state json c store is_canceled parent_id) _ (λ q read. absurd (
              ground (
                arith,
                Holds-ok (λ (q : StoredState × ℕ). true ≡ false) read
                    (read_state-missing store is_canceled parent_id missing),
              ))))))
    where
      No : StoredState → Type 0
      No s = true ≡ false

      unpublished :
          (made : Result Error StoredState)
          → Holds No made
          → (publish_checked json c store made how).0 ≡ store
      unpublished (err e) h = refl
      unpublished (ok s) h = absurd (ground arith)
