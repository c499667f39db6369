-- ===== src/Store/Files/Publication.antt =====
-- `Create` and `Fork` of the session store (harness/sessionstore/localfile/store.go): the file that
-- they publish, and what is there when publishing fails.
use mathlib.Core.List.{append-nil}
use unreal_agent.Base.{
  ℕ, ◌≡◌, refl, ap, sym, ◌∙◌, subst, String, Bool, true, false, some, List, [], Result, ok, err,
  with_error, ◌==◌, string_eq, nat_eq, eq_iff, length, inl, inr, ◌⊎◌, Holds, Holds-ok, >>=-Holds,
  reject_if-Holds, Bool-cases, with_error-eq-ok, take, Holds-intro, none,
}
use unreal_agent.Inbox.{Json}
use unreal_agent.Store.{Session}
use unreal_agent.Store.State.{
  StoredState, new_stored_state, append_fork, fork_stored_state, find_boundary,
}
use unreal_agent.Store.Lines.{Bytes, join}
use unreal_agent.Store.Codec.{Codec, IsLawful}
use unreal_agent.Store.Log
use unreal_agent.Store.Log.{validate_session_id, encode_initial_log}
use unreal_agent.Store.Log.Whole.{IsLogOf}
use unreal_agent.Store.Log.Initial.{created-IsLogOf, AreFormatted}
use unreal_agent.Store.Log.Inherited.{fork-IsLogOf, inherit_items-session}
use unreal_agent.Store.Files.{
  Store, Published, Error, unreadable, rejected, publish_file, publish_encoded, publish_checked,
  publish_initial_state, created_state, forked_state, create, fork, read_state, give, evict,
}
use unreal_agent.Store.Files.Kept.{Keeps, read_state-eq-ok}

pub fork_stored_state-session :
    (parent : StoredState) (id turn_id : String) (now : ℕ)
    → Holds
        (λ (child : StoredState). child.head.session ≡ record { id = id; created_at = now })
        (fork_stored_state parent id turn_id now)
unfolding fork_stored_state append_fork new_stored_state
fork_stored_state-session parent id turn_id now =
    elim (Bool-cases (find_boundary turn_id parent.items 0 0 == 0)) [
      | inl missing ↦ rw missing tt
      | inr found ↦ rw found (
          inherit_items-session (new_stored_state id now)
            (take (find_boundary turn_id parent.items 0 0) parent.items))
    ]

-- No file is changed, and what is cached is as it was or gone.
pub record IsLeft (store store' : Store) : Type 0 where
  pub files : store'.files ≡ store.files
  pub cached :
      (j : String)
      → (store'.write_state_cache j ≡ store.write_state_cache j)
        ⊎ (store'.write_state_cache j ≡ none)

pub IsLeft-same : (store : Store) → IsLeft store store
IsLeft-same store = record { files = refl; cached = λ j. inl refl }

IsLeft-evict :
    (i : String) (store : Store)
    → IsLeft store (record store { write_state_cache = evict i store.write_state_cache })
IsLeft-evict i store = record {
  files = refl;
  cached = λ j. elim (Bool-cases (i == j)) [
    | inl same ↦ inr (rw same refl)
    | inr other ↦ inl (rw other refl)
  ];
}

module _ (json : Json) (c : Codec) where
  -- After publishing well the store has the state. Otherwise no file is changed, or it has it as well.
  abbrev pub IsPublished : Store → String → StoredState → Store × Result Error (Unit {0}) → Type 0
  IsPublished store id s (store', ok u) = Keeps json c store' id s
  IsPublished store id s (store', err e) = IsLeft store store' ⊎ Keeps json c store' id s

  module _ (store : Store) (id : String) (s : StoredState) (valid : validate_session_id id ≡ ok tt)
      (named : s.head.session.id ≡ id) where
    publish_file-IsPublished :
        (encoded : Bytes) (lines : List Bytes) (how : Published)
        → encoded ≡ join lines
        → IsLogOf json c lines s
        → IsPublished store id s (publish_file json c store id encoded s.head how)
    publish_file-IsPublished encoded lines Published.not_renamed e v = inl (IsLeft-evict id store)
    publish_file-IsPublished encoded lines Published.not_synced e v =
        let same : (id == id) ≡ true = (eq_iff id id).1 refl in
        inr (record {
          valid = valid;
          named = named;
          lines = lines;
          torn = [];
          file = rw same (ap some (e ∙ sym (append-nil (join lines))));
          free = refl;
          log = v;
          cache = rw same tt;
        })
    publish_file-IsPublished encoded lines Published.published e v =
        let same : (id == id) ≡ true = (eq_iff id id).1 refl in
        record {
          valid = valid;
          named = named;
          lines = lines;
          torn = [];
          file = rw same (ap some (e ∙ sym (append-nil (join lines))));
          free = refl;
          log = v;
          cache = rw same (refl, ap length e);
        }

    publish_encoded-IsPublished :
        (encoded : Result Log.Error Bytes) (how : Published)
        → Holds (λ out. (lines : List Bytes) × (out ≡ join lines) × IsLogOf json c lines s) encoded
        → IsPublished store id s (publish_encoded json c store s encoded how)
    publish_encoded-IsPublished (err e) how h = inl (IsLeft-same store)
    publish_encoded-IsPublished (ok encoded) how (lines, e, v) =
        subst (λ i. IsPublished store id s (publish_file json c store i encoded s.head how))
          (sym named) (publish_file-IsPublished encoded lines how e v)

  -- After a success the caller is given such a state, and the store has it. After a failure no file is
  -- changed, or the store has such a state as well.
  abbrev pub Publishes :
      (StoredState → Type 0) → Store → String → Store × Result Error StoredState → Type 0
  Publishes P store id (store', ok s) = P s × Keeps json c store' id s
  Publishes P store id (store', err e) =
      IsLeft store store' ⊎ ((s : StoredState) × P s × Keeps json c store' id s)

  -- What has to hold of a state for it to be published.
  record IsReady (P : StoredState → Type 0) (id : String) (s : StoredState) : Type 0 where
    valid : validate_session_id id ≡ ok tt
    named : s.head.session.id ≡ id
    wanted : P s
    logged :
        Holds
          (λ out. (lines : List Bytes) × (out ≡ join lines) × IsLogOf json c lines s)
          (encode_initial_log json c s.head.session s.items)

  IsPublished-Publishes :
      (P : StoredState → Type 0) (store : Store) (id : String) (s : StoredState)
      (r : Store × Result Error (Unit {0}))
      → P s
      → IsPublished store id s r
      → Publishes P store id (give json c s r)
  IsPublished-Publishes P store id s (store', ok u) wanted k = (wanted, k)
  IsPublished-Publishes P store id s (store', err e) wanted (inl same) = inl same
  IsPublished-Publishes P store id s (store', err e) wanted (inr k) = inr (s, wanted, k)

  publish_checked-Publishes :
      (P : StoredState → Type 0) (store : Store) (id : String) (made : Result Error StoredState)
      (how : Published)
      → Holds (IsReady P id) made
      → Publishes P store id (publish_checked json c store made how)
  unfolding publish_initial_state
  publish_checked-Publishes P store id (err e) how h = inl (IsLeft-same store)
  publish_checked-Publishes P store id (ok s) how h =
      IsPublished-Publishes P store id s _ h.wanted (
        publish_encoded-IsPublished store id s h.valid h.named
          (encode_initial_log json c s.head.session s.items) how h.logged)

  forked-IsReady :
      (l : IsLawful c) (id turn_id : String) (parent : StoredState) (now : ℕ) {child : StoredState}
      → AreFormatted c parent.items
      → (now == 0) ≡ false
      → validate_session_id id ≡ ok tt
      → fork_stored_state parent id turn_id now ≡ ok child
      → IsReady (λ s. fork_stored_state parent id turn_id now ≡ ok s) id child
  forked-IsReady l id turn_id parent now formatted time valid made = record {
    valid = valid;
    named =
        ap (λ (u : Session). u.id)
          (Holds-ok (λ (s : StoredState). s.head.session ≡ record { id = id; created_at = now })
            made (fork_stored_state-session parent id turn_id now));
    wanted = made;
    logged =
        Holds-intro _ _
          (λ out e. fork-IsLogOf json c l parent id turn_id now formatted time made e);
  }

  module _ (l : IsLawful c) (store : Store) (is_canceled : Bool) (id : String) (now : ℕ)
      (how : Published) (time : (now == 0) ≡ false) where
    -- Creating a session under any ID, under the laws of JSON and at a time that is not zero: on
    -- success the caller is given the new state and the store has it; on failure no file is changed
    -- or the store has the new session.
    pub create-Publishes :
        Publishes
          (λ s. s ≡ new_stored_state id now)
          store
          id
          (create json c store is_canceled id now how)
    unfolding create new_stored_state
    create-Publishes =
        let P : StoredState → Type 0 = λ s. s ≡ new_stored_state id now in
        publish_checked-Publishes P store id (created_state json c is_canceled id now) how (
          >>=-Holds (IsReady P id) (with_error unreadable (validate_session_id id)) _ (λ u checked.
            reject_if-Holds (IsReady P id) is_canceled Error.canceled _ (λ e. record {
              valid = with_error-eq-ok unreadable (validate_session_id id) checked;
              named = refl;
              wanted = refl;
              logged = Holds-intro _ _ (λ out e. created-IsLogOf json c l id now time e);
            })))

    -- Forking a session that the store has, under the laws of JSON, with items whose raw texts
    -- stand as JSON writes them and whose model responses it reads back, and at a time that is not
    -- zero: on success the caller is given the fork of that session's state and the store has it
    -- under the new ID; on failure no file is changed or the store has the fork.
    pub fork-Publishes :
        (parent_id turn_id : String) (parent : StoredState)
        → Keeps json c store parent_id parent
        → AreFormatted c parent.items
        → Publishes
            (λ s. fork_stored_state parent id turn_id now ≡ ok s)
            store
            id
            (fork json c store is_canceled id parent_id turn_id now how)
    unfolding fork
    fork-Publishes parent_id turn_id parent k formatted =
        let P : StoredState → Type 0 = λ s. fork_stored_state parent id turn_id now ≡ ok s in
        publish_checked-Publishes P store id
          (forked_state json c store is_canceled id parent_id turn_id now) how
          (>>=-Holds (IsReady P id) (with_error unreadable (validate_session_id id)) _ (λ u checked.
            reject_if-Holds (IsReady P id) (id == parent_id) Error.onto_itself _ (λ e.
              >>=-Holds (IsReady P id) (read_state json c store is_canceled parent_id) _ (λ q read.
                Holds-intro (IsReady P id) _ (λ child made.
                  forked-IsReady l id turn_id parent now formatted time
                    (with_error-eq-ok unreadable (validate_session_id id) checked)
                    (ap (λ s. fork_stored_state s id turn_id now)
                        (read_state-eq-ok json c store parent_id parent is_canceled k read)
                      ∙ with_error-eq-ok rejected _ made))))))
