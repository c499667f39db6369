-- ===== src/Store/Files/Kept.antt =====
-- What a session's file and its cached head say of the session's state, whatever is torn behind the
-- last line (harness/sessionstore/localfile/store.go).
use unreal_agent.Base.{
  ℕ, zero, suc, ◌≡◌, refl, ap, sym, ◌∙◌, subst, String, Bool, true, false, Option, none, some, List,
  [], ◌∷◌, ◌++◌, ok, err, with_error, ◌==◌, string_eq, nat_eq, eq_iff, arith, length, take,
  if◌then◌else◌, Bool-cases, inl, inr, ◌⊎◌, Holds, reject_if-Holds, >>=-Holds, ok-injective, ℤ,
  leb_ℤ, pos,
}
use unreal_agent.Inbox.{Json}
use unreal_agent.Store.State.{StoredState, resume}
use unreal_agent.Store.Paging.{page}
use unreal_agent.Store.Lines.{Bytes, newline, join, IsLine}
use unreal_agent.Store.Codec.{Codec}
use unreal_agent.Store.Log.{validate_session_id}
use unreal_agent.Store.Log.Whole.{IsLogOf, decode_log-join}
use unreal_agent.Store.Files.{
  Cached, Store, Error, read_state, load_uncached, load_cached, load_write_state, unreadable,
  inspect, items, resume_session,
}

-- A cached head is that of the state, and the size behind it ends at the last whole line.
abbrev pub CacheFits : Option Cached → StoredState → List Bytes → Type 0
CacheFits none s lines = Unit
CacheFits (some k) s lines = (k.head ≡ s.head) × (k.committed_size ≡ length (join lines))

pub take-IsLine-cases :
    (n : ℕ) (line : Bytes)
    → IsLine line
    → (take n (line ++ newline ∷ []) ≡ line ++ newline ∷ [])
      ⊎ IsLine (take n (line ++ newline ∷ []))
take-IsLine-cases zero line h = inr refl
take-IsLine-cases (suc zero) [] h = inl refl
take-IsLine-cases (suc (suc n)) [] h = inl refl
take-IsLine-cases (suc n) (b ∷ bs) h = elim (Bool-cases (b == newline)) [
  | inl same ↦ absurd (ground (arith, h))
  | inr other ↦ elim (take-IsLine-cases n bs (ground (arith, h))) [
    | inl all ↦ inl (ap (◌∷◌ b) all)
    | inr part ↦ inr (rw (other, part) refl)
  ]
]

module _ (json : Json) (c : Codec) where
  -- The store has the session in this state: its file is a log of it with no newline behind the log.
  pub record Keeps (store : Store) (id : String) (s : StoredState) : Type 0 where
    pub valid : validate_session_id id ≡ ok tt
    pub named : s.head.session.id ≡ id
    pub lines : List Bytes
    pub torn : Bytes
    pub file : store.files id ≡ some (join lines ++ torn)
    pub free : IsLine torn
    pub log : IsLogOf json c lines s
    pub cache : CacheFits (store.write_state_cache id) s lines

  pub read_state-Keeps :
      (store : Store) (id : String) (s : StoredState) (is_canceled : Bool) (k : Keeps store id s)
      → read_state json c store is_canceled id
        ≡ (if is_canceled then err Error.canceled else ok (s, length (join k.lines)))
  unfolding read_state
  read_state-Keeps store id s true k = rw k.valid refl
  read_state-Keeps store id s false k =
      let same : (s.head.session.id == id) ≡ true = (eq_iff s.head.session.id id).1 k.named in
      rw (k.valid, k.file, decode_log-join json c k.lines s k.torn k.log k.free, same) refl

  pub read_state-eq-ok :
      (store : Store) (id : String) (s : StoredState) (is_canceled : Bool) {p : StoredState × ℕ}
      → Keeps store id s
      → read_state json c store is_canceled id ≡ ok p
      → s ≡ p.0
  read_state-eq-ok store id s true k h = cc (read_state-Keeps store id s true k, h)
  read_state-eq-ok store id s false k h =
      ap (λ q. q.0) (ok-injective (sym (read_state-Keeps store id s false k) ∙ h))

  -- Of a session that the store has in a state, whatever is torn behind its log, an inspection that is
  -- not canceled gives the state's session, a page is the page of its items, and resuming gives what
  -- the state resumes to.
  pub reads-Keeps :
      (store : Store) (id : String) (s : StoredState) (after : ℕ) (limit : ℤ)
      → Keeps store id s
      → (inspect json c store false id ≡ ok s.head.session)
        × (items json c store false id after limit
            ≡ with_error Error.not_paged (page s.items after limit))
        × (resume_session json c store false id ≡ ok (resume s))
  unfolding inspect items resume_session page
  reads-Keeps store id s after limit k =
      let read = read_state-Keeps store id s false k in
      (
        rw read refl,
        elim (Bool-cases (leb_ℤ limit (pos 0))) [
          | inl none_wanted ↦ rw none_wanted refl
          | inr wanted ↦ rw (wanted, read) refl
        ],
        rw read refl,
      )

  -- A head that is loaded is the state's, and loading it leaves the session as it is.
  pub record IsLoaded (id : String) (s : StoredState) (p : Store × Cached) : Type 0 where
    pub kept : Keeps p.0 id s
    pub headed : p.1.head ≡ s.head
    pub sized : p.1.committed_size ≡ length (join kept.lines)

  load_uncached-IsLoaded :
      (store : Store) (id : String) (s : StoredState) (is_canceled : Bool)
      → Keeps store id s
      → Holds (IsLoaded id s) (load_uncached json c store is_canceled id)
  unfolding load_uncached
  load_uncached-IsLoaded store id s true k = rw (read_state-Keeps store id s true k) tt
  load_uncached-IsLoaded store id s false k =
      let same : (id == id) ≡ true = (eq_iff id id).1 refl in
      rw (read_state-Keeps store id s false k) (record {
        kept = record {
          valid = k.valid;
          named = k.named;
          lines = k.lines;
          torn = k.torn;
          file = k.file;
          free = k.free;
          log = k.log;
          cache = rw same (refl, refl);
        };
        headed = refl;
        sized = refl;
      })

  load_cached-IsLoaded :
      (cached : Option Cached) (store : Store) (id : String) (s : StoredState) (is_canceled : Bool)
      → store.write_state_cache id ≡ cached
      → Keeps store id s
      → Holds (IsLoaded id s) (load_cached json c cached store is_canceled id)
  unfolding load_cached
  load_cached-IsLoaded none store id s is_canceled e k =
      load_uncached-IsLoaded store id s is_canceled k
  load_cached-IsLoaded (some cached) store id s is_canceled e k =
      let fits = subst (λ o. CacheFits o s k.lines) e k.cache in
      record { kept = k; headed = fits.0; sized = fits.1 }

  pub load_write_state-IsLoaded :
      (store : Store) (id : String) (s : StoredState) (is_canceled : Bool)
      → Keeps store id s
      → Holds (IsLoaded id s) (load_write_state json c store is_canceled id)
  unfolding load_write_state
  load_write_state-IsLoaded store id s is_canceled k =
      >>=-Holds (IsLoaded id s) (with_error unreadable (validate_session_id id)) _ (λ u valid.
        reject_if-Holds (IsLoaded id s) is_canceled Error.canceled _
          (λ e. load_cached-IsLoaded (store.write_state_cache id) store id s is_canceled refl k))
