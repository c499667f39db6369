-- ===== src/Store/Files/Coherent.antt =====
-- The stores that creating, forking and writing sessions lead to, however each call ends
-- (harness/sessionstore/localfile/store.go).
use unreal_agent.Base.{
  ℕ, ◌≡◌, refl, ap, sym, ◌∙◌, subst, String, Bool, false, Option, none, some, List, [], ◌∷◌, Result,
  ok, err, with_error, ◌==◌, string_eq, nat_eq, eq_iff, inl, inr, ◌⊎◌, Holds, Holds-mono, >>=-Holds,
  reject_if-Holds, Bool-cases, All, empty_map, arith, Holds-with_error, length, Holds-ok,
}
use unreal_agent.Inbox.{Json}
use unreal_agent.Store.{Session, Item}
use unreal_agent.Store.State.{StoredState, new_stored_state, fork_stored_state}
use unreal_agent.Store.Commands.{Reachable, applied, created, forked, apply}
use unreal_agent.Store.Lines.{Bytes, join}
use unreal_agent.Store.Codec.{Codec, IsLawful}
use unreal_agent.Store.Log
use unreal_agent.Store.Log.{Decoded, validate_session_id, encode_initial_log, decode_log}
use unreal_agent.Store.Log.Whole.{decode_log-join}
use unreal_agent.Store.Files.{
  Store, Written, Published, Append, Error, unreadable, rejected, append_to, read_state,
  publish_file, publish_encoded, publish_initial_state, publish_checked, create, created_state,
  fork, forked_state, give,
}
use unreal_agent.Store.Files.Kept.{Keeps, CacheFits}
use unreal_agent.Store.Files.Appended.{command, IsFormattedCall}
use unreal_agent.Store.Files.Calls.{Follows, append_to-Follows}
use unreal_agent.Store.Files.Publication.{
  Publishes, IsLeft, create-Publishes, fork-Publishes, fork_stored_state-session,
}
use unreal_agent.Store.Files.Effects.{IsSameAt, same_at, append_to-IsSameAt}
use unreal_agent.Store.Files.Missing.{append_to-missing, fork-missing}
use unreal_agent.Store.Files.Formatted.{apply-AreFormatted}
use unreal_agent.Store.Log.Initial.{AreFormatted}
use unreal_agent.Store.Log.Inherited.{fork-AreFormatted}

-- A call that creates, forks or writes a session; whether it is canceled, and how it ends.
pub data Call : Type 0 where
  creation : Bool → String → ℕ → Published → Call
  forking : Bool → String → String → String → ℕ → Published → Call
  writing : Bool → String → Append → ℕ → Written → Call

-- The raw texts that a call writes stand as JSON writes them, and its time is not zero.
abbrev pub IsWellFormed : Codec → Call → Type 0
IsWellFormed c (creation is_canceled id now how) = (now == 0) ≡ false
IsWellFormed c (forking is_canceled id parent_id turn_id now how) = (now == 0) ≡ false
IsWellFormed c (writing is_canceled id a now how) = ((now == 0) ≡ false) × IsFormattedCall c a

-- A store in an empty directory.
abbrev pub empty_store : Store
empty_store = record { files = empty_map; write_state_cache = empty_map }

some-injective {ℓ} : {A : Type ℓ} {a b : A} → some a ≡ some b → a ≡ b
some-injective h = cc

module _ (json : Json) (c : Codec) where
  unfoldable pub call : Store → Call → Store
  call store (creation is_canceled id now how) = (create json c store is_canceled id now how).0
  call store (forking is_canceled id parent_id turn_id now how) =
      (fork json c store is_canceled id parent_id turn_id now how).0
  call store (writing is_canceled id a now how) =
      (append_to json c store is_canceled id a now how).0

  unfoldable pub calls : Store → List Call → Store
  unfolding call
  calls store [] = store
  calls store (first ∷ rest) = calls (call store first) rest

  -- The store has the session in a state that can be reached, if it has a file for it.
  abbrev IsSession : Store → String → Type 0
  IsSession store id =
      (store.files id ≡ none)
      ⊎ ((s : StoredState) × Keeps json c store id s × Reachable json s × AreFormatted c s.items)

  abbrev Coherent : Store → Type 0
  Coherent store = (id : String) → IsSession store id

  moved-Keeps :
      (store store' : Store) (id : String) (s : StoredState)
      → store'.files id ≡ store.files id
      → (store'.write_state_cache id ≡ store.write_state_cache id)
        ⊎ (store'.write_state_cache id ≡ none)
      → Keeps json c store id s
      → Keeps json c store' id s
  moved-Keeps store store' id s same cached k = record {
    valid = k.valid;
    named = k.named;
    lines = k.lines;
    torn = k.torn;
    file = same ∙ k.file;
    free = k.free;
    log = k.log;
    cache = elim cached [
      | inl e ↦ subst (λ o. CacheFits o s k.lines) (sym e) k.cache
      | inr e ↦ subst (λ o. CacheFits o s k.lines) (sym e) tt
    ];
  }

  moved-IsSession :
      (store store' : Store) (id : String)
      → store'.files id ≡ store.files id
      → (store'.write_state_cache id ≡ store.write_state_cache id)
        ⊎ (store'.write_state_cache id ≡ none)
      → IsSession store id
      → IsSession store' id
  moved-IsSession store store' id same cached (inl missing) = inl (same ∙ missing)
  moved-IsSession store store' id same cached (inr (s, k, r, f)) =
      inr (s, moved-Keeps store store' id s same cached k, r, f)

  left-Coherent : (store store' : Store) → IsLeft store store' → Coherent store → Coherent store'
  left-Coherent store store' left h id =
      moved-IsSession store store' id (ap (λ f. f id) left.files) (left.cached id) (h id)

  -- A change of one session, and of no other.
  changed-Coherent :
      (store store' : Store) (id : String)
      → ((j : String) → (id == j) ≡ false → IsSameAt j store store')
      → IsSession store' id
      → Coherent store
      → Coherent store'
  changed-Coherent store store' id others new h j = elim (Bool-cases (id == j)) [
    | inl same ↦ subst (IsSession store') ((eq_iff id j).0 same) new
    | inr differ ↦
        let there = others j differ in
        moved-IsSession store store' j there.file (inl there.cache) (h j)
  ]

  published-others :
      (store : Store) (id : String) (made : Result Error StoredState) (how : Published) (j : String)
      → (id == j) ≡ false
      → Holds (λ (s : StoredState). s.head.session.id ≡ id) made
      → IsSameAt j store (publish_checked json c store made how).0
  unfolding publish_initial_state
  published-others store id (err e) how j differ h = same_at j store
  published-others store id (ok s) how j differ h =
      encoded-others (encode_initial_log json c s.head.session s.items)
    where
      apart : (s.head.session.id == j) ≡ false
      apart = ap (λ i. i == j) h ∙ differ

      file-others :
          (b : Bytes) (how : Published)
          → IsSameAt j store
              (give json c s (publish_file json c store s.head.session.id b s.head how)).0
      file-others b Published.not_renamed = record { file = refl; cache = rw apart refl }
      file-others b Published.not_synced = record { file = rw apart refl; cache = rw apart refl }
      file-others b Published.published = record { file = rw apart refl; cache = rw apart refl }

      encoded-others :
          (r : Result Log.Error Bytes)
          → IsSameAt j store (give json c s (publish_encoded json c store s r how)).0
      encoded-others (err e) = same_at j store
      encoded-others (ok b) = file-others b how

  created_state-named :
      (is_canceled : Bool) (id : String) (now : ℕ)
      → Holds
          (λ (s : StoredState). s.head.session.id ≡ id)
          (created_state json c is_canceled id now)
  unfolding new_stored_state
  created_state-named is_canceled id now =
      let P : StoredState → Type 0 = λ s. s.head.session.id ≡ id in
      >>=-Holds P (with_error unreadable (validate_session_id id)) _
        (λ u valid. reject_if-Holds P is_canceled Error.canceled _ (λ e. refl))

  forked_state-named :
      (store : Store) (is_canceled : Bool) (id parent_id turn_id : String) (now : ℕ)
      → Holds
          (λ (s : StoredState). s.head.session.id ≡ id)
          (forked_state json c store is_canceled id parent_id turn_id now)
  forked_state-named store is_canceled id parent_id turn_id now =
      let P : StoredState → Type 0 = λ s. s.head.session.id ≡ id in
      >>=-Holds P (with_error unreadable (validate_session_id id)) _ (λ u valid.
        reject_if-Holds P (id == parent_id) Error.onto_itself _ (λ e.
          >>=-Holds P (read_state json c store is_canceled parent_id) _ (λ q read.
            Holds-with_error P rejected (fork_stored_state q.0 id turn_id now) (
              Holds-mono _ P (fork_stored_state q.0 id turn_id now)
                (λ s made. ap (λ (u : Session). u.id) made)
                (fork_stored_state-session q.0 id turn_id now)))))

  module _ (l : IsLawful c) where
    abbrev IsKept : StoredState → Type 0
    IsKept s = Reachable json s × AreFormatted c s.items

    forked-IsKept :
        {parent s : StoredState} (id turn_id : String) (now : ℕ)
        → Reachable json parent
        → AreFormatted c parent.items
        → fork_stored_state parent id turn_id now ≡ ok s
        → IsKept s
    forked-IsKept {parent} id turn_id now reached formatted e = (
      forked id turn_id now reached e,
      Holds-ok (λ (s : StoredState). AreFormatted c s.items) e
          (fork-AreFormatted json c l parent id turn_id now formatted),
    )

    written-IsKept :
        {s next : StoredState} (a : Append) (now : ℕ)
        → Reachable json s
        → AreFormatted c s.items
        → IsFormattedCall c a
        → apply json s (command a now) ≡ ok next
        → IsKept next
    written-IsKept {s} a now reached formatted h e = (
      applied (command a now) reached e,
      Holds-ok (λ (s : StoredState). AreFormatted c s.items) e
          (apply-AreFormatted json c s now formatted a h),
    )

    created-IsSession :
        (store : Store) (id : String) (now : ℕ) (r : Store × Result Error StoredState)
        → Publishes json c (λ s. s ≡ new_stored_state id now) store id r
        → ((j : String) → (id == j) ≡ false → IsSameAt j store r.0)
        → Coherent store
        → Coherent r.0
    unfolding new_stored_state
    created-IsSession store id now (store', ok s) (e, k) others h =
        changed-Coherent store store' id others
          (let kept = subst IsKept (sym e) (created id now, tt) in inr (s, k, kept.0, kept.1)) h
    created-IsSession store id now (store', err e) (inl left) others h =
        left-Coherent store store' left h
    created-IsSession store id now (store', err x) (inr (s, e, k)) others h =
        changed-Coherent store store' id others
          (let kept = subst IsKept (sym e) (created id now, tt) in inr (s, k, kept.0, kept.1)) h

    forked-IsSession :
        (store : Store) (id turn_id : String) (now : ℕ) (parent : StoredState)
        (r : Store × Result Error StoredState)
        → Reachable json parent
        → AreFormatted c parent.items
        → Publishes json c (λ s. fork_stored_state parent id turn_id now ≡ ok s) store id r
        → ((j : String) → (id == j) ≡ false → IsSameAt j store r.0)
        → Coherent store
        → Coherent r.0
    forked-IsSession store id turn_id now parent (store', ok s) reached formatted (e, k) others h =
        changed-Coherent store store' id others
          (let kept = forked-IsKept id turn_id now reached formatted e in
            inr (s, k, kept.0, kept.1))
          h
    forked-IsSession store id turn_id now parent (store', err e) reached formatted (inl left) others
          h =
        left-Coherent store store' left h
    forked-IsSession store id turn_id now parent (store', err x) reached formatted (inr (s, e, k))
          others h =
        changed-Coherent store store' id others
          (let kept = forked-IsKept id turn_id now reached formatted e in
            inr (s, k, kept.0, kept.1))
          h

    written-IsSession :
        (id : String) (s : StoredState) (a : Append) (now : ℕ)
        (r : Store × Result Error (Option Item))
        → Reachable json s
        → AreFormatted c s.items
        → IsFormattedCall c a
        → Follows json c id s a now r
        → IsSession r.0 id
    written-IsSession id s a now (store', ok t) reached formatted h (next, (e, k), shown) =
        let kept = written-IsKept a now reached formatted h e in inr (next, k, kept.0, kept.1)
    written-IsSession id s a now (store', err e) reached formatted h (inl k) =
        inr (s, k, reached, formatted)
    written-IsSession id s a now (store', err x) reached formatted h (inr (next, (e, k))) =
        let kept = written-IsKept a now reached formatted h e in inr (next, k, kept.0, kept.1)

    call-Coherent :
        (store : Store) (k : Call) → IsWellFormed c k → Coherent store → Coherent (call store k)
    unfolding call create fork new_stored_state
    call-Coherent store (creation is_canceled id now how) time h =
        created-IsSession store id now (create json c store is_canceled id now how)
          (create-Publishes json c l store is_canceled id now how time)
          (λ j differ.
            published-others store id (created_state json c is_canceled id now) how j differ
              (created_state-named is_canceled id now))
          h
    call-Coherent store (forking is_canceled id parent_id turn_id now how) time h =
        elim (h parent_id) [
          | inl missing ↦
              subst Coherent
                (sym (fork-missing json c store is_canceled id parent_id turn_id now how missing)) h
          | inr (parent, k, reached, formatted) ↦
              forked-IsSession store id turn_id now parent
                (fork json c store is_canceled id parent_id turn_id now how) reached formatted
                (fork-Publishes json c l store is_canceled id now how time parent_id turn_id parent
                  k formatted)
                (λ j differ.
                  published-others store id
                    (forked_state json c store is_canceled id parent_id turn_id now) how j differ
                    (forked_state-named store is_canceled id parent_id turn_id now))
                h
        ]
    call-Coherent store (writing is_canceled id a now how) (time, writes) h =
        changed-Coherent store (append_to json c store is_canceled id a now how).0 id
          (λ j differ. append_to-IsSameAt json c id j differ store is_canceled a now how)
          (elim (h id) [
            | inl missing ↦ inl (
                ap (λ f. f id) (append_to-missing json c store is_canceled id a now how missing)
                ∙ missing)
            | inr (s, k, reached, formatted) ↦
                written-IsSession id s a now (append_to json c store is_canceled id a now how)
                  reached formatted writes
                  (append_to-Follows json c id s l a writes now time how store is_canceled k)
          ])
          h

    calls-Coherent :
        (ks : List Call) (store : Store)
        → All (IsWellFormed c) ks
        → Coherent store
        → Coherent (calls store ks)
    unfolding calls
    calls-Coherent [] store times h = h
    calls-Coherent (k ∷ ks) store (time, times) h =
        calls-Coherent ks (call store k) times (call-Coherent store k time h)

    -- Whatever sessions are created, forked and written, in a directory that is empty at first,
    -- however each call ends, under the laws of JSON, with raw texts that stand as JSON writes them
    -- and model responses that it reads back, and at times that are not zero: every session file
    -- decodes, to a state that the session of that ID can reach.
    pub calls-decode :
        (ks : List Call) (id : String) {file : Bytes}
        → All (IsWellFormed c) ks
        → (calls empty_store ks).files id ≡ some file
        → (s : StoredState) × (size : ℕ) × (decode_log json c file ≡ ok (s, size))
          × (s.head.session.id ≡ id)
          × Reachable json s
    calls-decode ks id {file} times stands =
        elim (calls-Coherent ks empty_store times (λ j. inl refl) id) [
          | inl missing ↦ absurd (ground (arith, missing, stands))
          | inr (s, k, reached, formatted) ↦ (
            s,
            length (join k.lines),
            ap (decode_log json c) (some-injective (sym stands ∙ k.file))
                ∙ decode_log-join json c k.lines s k.torn k.log k.free,
            k.named,
            reached,
          )
        ]
