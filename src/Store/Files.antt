-- ===== src/Store/Files.antt =====
-- harness/sessionstore/localfile/store.go: the session files, the cache of heads in front of them,
-- and the methods that write. How the system's calls end is an argument: `Written` for `appendFile`
-- and `Published` for `publishFile`. Contexts are a flag, observers the item that they are told.
pub mod Heads
pub mod Appended
pub mod Kept
pub mod Formatted
pub mod Calls
pub mod Publication
pub mod Effects
pub mod Missing
pub mod Coherent
use unreal_agent.Base.{
  ℕ, zero, suc, ◌+◌, String, Bool, true, false, not, Option, none, some, List, [], ◌∷◌, ◌++◌,
  Result, ok, err, ◌>>=◌, ◌>>◌, reject_if, or_fail, with_error, map_ok, ◌==◌, string_eq, length,
  take, get_last?, KeyMap, put, if◌then◌else◌, ℤ, leb_ℤ, pos,
}
use unreal_agent.Inbox.{Input, Json}
use unreal_agent.Operation.{Operation}
use unreal_agent.Store.{
  Session, Turn, ModelResponse, ToolCallStatus, Item, ItemData, Page, ResumeState,
}
use unreal_agent.Store.Head.{SessionHead, validate_operation}
use unreal_agent.Store.Head
use unreal_agent.Store.Status
use unreal_agent.Store.State.{
  StoredState, new_stored_state, fork_stored_state, with_operations, resume,
}
use unreal_agent.Store.Paging.{PageError, page}
use unreal_agent.Store.Lines.{Bytes}
use unreal_agent.Store.Codec
use unreal_agent.Store.Codec.{Codec, ItemRecord, RecordType, encode_record, encode_item_record}
use unreal_agent.Store.Log
use unreal_agent.Store.Log.{Decoded, decode_log, encode_initial_log, validate_session_id}

-- `cachedWriteState`
pub record Cached : Type 0 where
  pub head : SessionHead
  pub committed_size : ℕ

-- `Store` and its directory: what stands under each session's path.
pub record Store : Type 0 where
  pub files : KeyMap String Bytes
  pub write_state_cache : KeyMap String Cached

-- How `appendFile` ends: it fails before the write, it has written some of the bytes when it fails,
-- or it succeeds.
pub data Written : Type 0 where
  unopened untruncated complete : Written
  torn_at : ℕ → Written

-- How `publishFile` ends: before or after the rename, or well.
pub data Published : Type 0 where
  not_renamed not_synced published : Published

pub data Error : Type 0 where
  canceled onto_itself no_file wrong_session not_written : Error
  unreadable : Log.Error → Error
  rejected : Head.Error → Error
  not_encoded : Codec.Error → Error
  not_paged : PageError → Error

-- A call of one of the five methods that write to a session.
pub data Append : Type 0 where
  input : Input → Append
  turn : Turn → Append
  model_response : ModelResponse → Append
  tool_call_status : ToolCallStatus → Append
  operation : Operation → Append

abbrev plain_record : SessionHead × Item → SessionHead × Decoded
plain_record (head, item) = (head, Decoded.item (record { item = item; operations = [] }))

abbrev record_with : List Operation → SessionHead × Item → SessionHead × Decoded
record_with operations (head, item) =
    (head, Decoded.item (record { item = item; operations = operations }))

-- The item that the observers are told of: a status has its operations again.
abbrev pub told : Append → Decoded → Option Item
told (tool_call_status s) (Decoded.item r) =
    some (record r.item {
      content = ItemData.tool_call_status (record s { operations = r.operations });
    })
told a (Decoded.item r) = some r.item
told a (Decoded.operation value) = none

abbrev pub evict : String → KeyMap String Cached → KeyMap String Cached
evict id cache j = if id == j then none else cache j

-- `file.Truncate`, which also makes a file longer that is too short.
abbrev pub truncate : ℕ → Bytes → Bytes
truncate zero file = []
truncate (suc n) [] = 0 ∷ truncate n []
truncate (suc n) (b ∷ file) = b ∷ truncate n file

-- What is in the file after `appendFile`, and whether it succeeds.
abbrev pub append_file : Bytes → ℕ → Bytes → Written → Bytes × Bool
append_file file size encoded unopened = (file, false)
append_file file size encoded untruncated = (file, false)
append_file file size encoded (torn_at n) = (truncate size file ++ take n encoded, false)
append_file file size encoded complete = (truncate size file ++ encoded, true)

module _ (json : Json) (c : Codec) where
  -- What the method does with the head: the head behind it and the record to write.
  unfoldable pub append_to_head :
      SessionHead → Append → ℕ → Result Head.Error (SessionHead × Decoded)
  append_to_head head (input i) now = map_ok plain_record (Head.append_input json head i now)
  append_to_head head (turn t) now = map_ok plain_record (Head.append_turn head t now)
  append_to_head head (model_response r) now =
      map_ok plain_record (Head.append_model_response head r now)
  append_to_head head (tool_call_status s) now =
      map_ok (record_with s.operations)
        (Status.append_tool_call_status json head (record s { operations = [] }) s.operations now)
  append_to_head head (operation value) now =
      map_ok (λ head'. (head', Decoded.operation value)) (Status.save_operation json head value)

  -- `encodeRecord` at the record's type.
  unfoldable pub encode_decoded : Decoded → Result Codec.Error Bytes
  unfolding encode_item_record encode_record
  encode_decoded (Decoded.item r) = encode_item_record json c r
  encode_decoded (Decoded.operation value) =
      encode_record json c RecordType.operation (c.encode_operation value)

  -- `readState`
  unfoldable pub read_state : Store → Bool → String → Result Error (StoredState × ℕ)
  unfolding validate_session_id decode_log
  read_state store is_canceled id = do
    with_error unreadable (validate_session_id id)
    reject_if is_canceled canceled
    encoded ← or_fail (store.files id) no_file
    (state, size) ← with_error unreadable (decode_log json c encoded)
    reject_if (not (state.head.session.id == id)) wrong_session
    ok (state, size)

  -- `loadWriteState` where nothing is cached: the head that is read is put in the cache.
  unfoldable pub load_uncached : Store → Bool → String → Result Error (Store × Cached)
  unfolding read_state
  load_uncached store is_canceled id = do
    (state, size) ← read_state store is_canceled id
    let cached : Cached = record { head = state.head; committed_size = size }
    ok (record store { write_state_cache = put id cached store.write_state_cache }, cached)

  unfoldable pub load_cached : Option Cached → Store → Bool → String → Result Error (Store × Cached)
  unfolding load_uncached
  load_cached (some cached) store is_canceled id = ok (store, cached)
  load_cached none store is_canceled id = load_uncached store is_canceled id

  -- `loadWriteState`
  unfoldable pub load_write_state : Store → Bool → String → Result Error (Store × Cached)
  unfolding load_cached validate_session_id
  load_write_state store is_canceled id = do
    with_error unreadable (validate_session_id id)
    reject_if is_canceled canceled
    load_cached (store.write_state_cache id) store is_canceled id

  -- The end of `Store.append`, on what `appendFile` left in the file.
  abbrev settle : Store → String → SessionHead → ℕ → Bytes × Bool → Store × Result Error (Unit {0})
  settle store id head size (file, true) = (
    record {
      files = put id file store.files;
      write_state_cache =
          put id (record { head = head; committed_size = size }) store.write_state_cache;
    },
    ok tt,
  )
  settle store id head size (file, false) = (
    record {
      files = put id file store.files;
      write_state_cache = evict id store.write_state_cache;
    },
    err not_written,
  )

  -- `Store.append` behind `encodeRecord`; a file that is not there cannot be opened.
  abbrev write_encoded :
      Option Bytes
      → Store
      → String
      → SessionHead
      → ℕ
      → Bytes
      → Written
      → Store × Result Error (Unit {0})
  write_encoded none store id head size encoded how =
      (record store { write_state_cache = evict id store.write_state_cache }, err not_written)
  write_encoded (some file) store id head size encoded how =
      settle store id head (size + length encoded) (append_file file size encoded how)

  abbrev write_record :
      Result Codec.Error Bytes
      → Store
      → String
      → SessionHead
      → ℕ
      → Written
      → Store × Result Error (Unit {0})
  write_record (err e) store id head size how =
      (record store { write_state_cache = evict id store.write_state_cache }, err (not_encoded e))
  write_record (ok encoded) store id head size how =
      write_encoded (store.files id) store id head size encoded how

  -- `Store.append`
  unfoldable pub append :
      Store → String → SessionHead → ℕ → Decoded → Written → Store × Result Error (Unit {0})
  unfolding encode_decoded
  append store id head size d how = write_record (encode_decoded d) store id head size how

  abbrev tell :
      Append → Decoded → Store × Result Error (Unit {0}) → Store × Result Error (Option Item)
  tell a d (store, ok u) = (store, ok (told a d))
  tell a d (store, err e) = (store, err e)

  abbrev append_recorded :
      Store
      → String
      → ℕ
      → Append
      → Result Head.Error (SessionHead × Decoded)
      → Written
      → Store × Result Error (Option Item)
  append_recorded store id size a (err e) how = (store, err (rejected e))
  append_recorded store id size a (ok (head, d)) how = tell a d (append store id head size d how)

  abbrev append_loaded :
      Store
      → Result Error (Store × Cached)
      → String
      → Append
      → ℕ
      → Written
      → Store × Result Error (Option Item)
  append_loaded store (err e) id a now how = (store, err e)
  append_loaded store (ok (loaded, cached)) id a now how =
      append_recorded loaded id cached.committed_size a (append_to_head cached.head a now) how

  -- What `SaveOperation` does before the session is loaded.
  abbrev check_append : Append → Result Head.Error (Unit {0})
  check_append (operation value) = validate_operation json value
  check_append a = ok tt

  abbrev append_checked :
      Result Head.Error (Unit {0})
      → Store
      → Bool
      → String
      → Append
      → ℕ
      → Written
      → Store × Result Error (Option Item)
  append_checked (err e) store is_canceled id a now how = (store, err (rejected e))
  append_checked (ok u) store is_canceled id a now how =
      append_loaded store (load_write_state store is_canceled id) id a now how

  -- `AppendInput`, `AppendTurn`, `AppendModelResponse`, `AppendToolCallStatus`, `SaveOperation`
  unfoldable pub append_to :
      Store → Bool → String → Append → ℕ → Written → Store × Result Error (Option Item)
  unfolding append load_write_state append_to_head validate_operation
  append_to store is_canceled id a now how =
      append_checked (check_append a) store is_canceled id a now how

  abbrev publish_file :
      Store → String → Bytes → SessionHead → Published → Store × Result Error (Unit {0})
  publish_file store id encoded head not_renamed =
      (record store { write_state_cache = evict id store.write_state_cache }, err not_written)
  publish_file store id encoded head not_synced = (
    record {
      files = put id encoded store.files;
      write_state_cache = evict id store.write_state_cache;
    },
    err not_written,
  )
  publish_file store id encoded head published = (
    record {
      files = put id encoded store.files;
      write_state_cache =
          put id (record { head = head; committed_size = length encoded }) store.write_state_cache;
    },
    ok tt,
  )

  abbrev publish_encoded :
      Store → StoredState → Result Log.Error Bytes → Published → Store × Result Error (Unit {0})
  publish_encoded store state (err e) how = (store, err (unreadable e))
  publish_encoded store state (ok encoded) how =
      publish_file store state.head.session.id encoded state.head how

  -- `publishInitialState`
  unfoldable pub publish_initial_state :
      Store → StoredState → Published → Store × Result Error (Unit {0})
  unfolding encode_initial_log
  publish_initial_state store state how =
      publish_encoded store state (encode_initial_log json c state.head.session state.items) how

  -- The caller is given the state: its snapshot, and to the observers of a fork its last item.
  abbrev give : StoredState → Store × Result Error (Unit {0}) → Store × Result Error StoredState
  give state (store, ok u) = (store, ok state)
  give state (store, err e) = (store, err e)

  abbrev publish_checked :
      Store → Result Error StoredState → Published → Store × Result Error StoredState
  publish_checked store (err e) how = (store, err e)
  publish_checked store (ok state) how = give state (publish_initial_state store state how)

  abbrev created_state : Bool → String → ℕ → Result Error StoredState
  created_state is_canceled id now = do
    with_error unreadable (validate_session_id id)
    reject_if is_canceled canceled
    ok (new_stored_state id now)

  abbrev forked_state : Store → Bool → String → String → String → ℕ → Result Error StoredState
  forked_state store is_canceled id parent_id turn_id now = do
    with_error unreadable (validate_session_id id)
    reject_if (id == parent_id) onto_itself
    (parent, size) ← read_state store is_canceled parent_id
    with_error rejected (fork_stored_state parent id turn_id now)

  -- `Create`; a session that stands there is replaced.
  unfoldable pub create : Store → Bool → String → ℕ → Published → Store × Result Error StoredState
  unfolding publish_initial_state validate_session_id new_stored_state
  create store is_canceled id now how = publish_checked store (created_state is_canceled id now) how

  -- `Fork`
  unfoldable pub fork :
      Store → Bool → String → String → String → ℕ → Published → Store × Result Error StoredState
  unfolding publish_initial_state validate_session_id read_state fork_stored_state
  fork store is_canceled id parent_id turn_id now how =
      publish_checked store (forked_state store is_canceled id parent_id turn_id now) how

  -- `Inspect`
  unfoldable pub inspect : Store → Bool → String → Result Error Session
  unfolding read_state
  inspect store is_canceled id = do
    (state, size) ← read_state store is_canceled id
    ok state.head.session

  -- `Items`
  unfoldable pub items : Store → Bool → String → ℕ → ℤ → Result Error Page
  unfolding read_state page
  items store is_canceled id after limit = do
    reject_if (leb_ℤ limit (pos 0)) (not_paged PageError.nonpositive_limit)
    (state, size) ← read_state store is_canceled id
    with_error not_paged (page state.items after limit)

  -- `Resume`
  unfoldable pub resume_session : Store → Bool → String → Result Error ResumeState
  unfolding read_state resume
  resume_session store is_canceled id = do
    (state, size) ← read_state store is_canceled id
    ok (resume state)
