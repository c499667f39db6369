-- ===== src/Lib.antt =====
-- unreal_agent: the core of a harness for language-model agents, written in Go.
--
-- The program. An agent session is an event loop (harness/coordinator) that owns one session. Inputs
-- reach it through an inbox (harness/inbox), it builds model requests in a context builder
-- (harness/contextbuilder), and every input, turn, model response and tool-call status becomes an
-- item of the session's history in a session store (harness/sessionstore). Tools start operations
-- (harness/operation), whose updates are saved to the store too. When a process starts again, the
-- coordinator reads the history and replays it, and gets the unfinished operations and the inputs
-- that were seen from the store; a session can also be forked after one of its turns.
--
-- The parts, and the files that model them:
--
-- - Llm: the items, requests and responses of harness/llm/model.go.
-- - Inbox (validation and decoding), Inbox/Queue (`New`, `Submit`, `run`): harness/inbox/inbox.go and
--   local.go. A select of `run` is an event of `step`; which events come, and in which order, is
--   arbitrary. Inbox/Validation and Inbox/Queue/Delivery are the proofs.
-- - Operation: the types of harness/operation/operation.go and the call status of
--   harness/tool/tool.go.
-- - Store: the types of harness/session and harness/sessionstore. Store/Head, Store/Status and
--   Store/State are harness/sessionstore/localfile/state.go (`sessionHead`, `storedState`: appends,
--   saved operations, `resume`, forks), with `SaveOperation` of store.go; Store/Paging is `Items` of
--   store.go. Store/Commands is what can happen to a session: a new one, any of the store's calls,
--   and forks. Store/Extension, History, Table, Invariant, Forks, Resume and Updates are the proofs.
-- - Store/Lines and Store/Log are harness/sessionstore/localfile/codec.go: what it uses of package
--   bytes, `encodeInitialLog`, `decodeLog` and `replayItem`. Store/Codec is `encodeRecord` with
--   harness/sessionstore/itemjson.go. Store/Files is store.go: the files, the cache of heads, and
--   the methods that create, fork, write and read a session. Store/Log/Whole, Initial and
--   Inherited, and Store/Files/Heads, Appended, Formatted, Kept, Calls, Publication, Effects,
--   Missing and Coherent are the proofs. A session that the store "has in a state" is `Keeps` of
--   Store/Files/Kept: its file is a log of the state with perhaps a torn line behind it, and what
--   is cached of it fits.
-- - Context/Builder is harness/contextbuilder/builder.go; Context/Calls and Context/Compaction are
--   compaction.go. Context/Changes is any sequence of calls on a builder; Context/Invariant, Carried,
--   Cutoff and Reached are the proofs.
-- - Coordinator/State, Local, Load, Handlers and Reconcile are harness/coordinator/loop.go: the
--   loop's state, `restoreItem` and `addItemToLocalState`, `loadHistory`, the handlers of inputs,
--   turns and operation updates with the tests for being idle and stopping, and
--   `reconcileToolCalls`. Coordinator/Schedule is `scheduleToolCalls` with `handleModelResponse`,
--   and Coordinator/Loop is `Run`: a round up to the select (`round`), and what is done with the
--   event that the select gives (`handle_event`); a run is a list of both. The store that the
--   handlers write to is the state of Store, the builder that of Context; the operation manager is
--   taken to accept operations, and it may fail to cancel any of them. Coordinator/Counts, Steps,
--   Stopping, Recorded, Asked, Closing, Carries, Runs, Stops, Noted, Translated, Noting and
--   Untranslated are the proofs.
-- - Base holds the shared names, lemmas and the `Result` of fallible calls, Text what is used of
--   package strings, and Tests the runs at concrete inputs.
--
-- How the code is carried over. A method that changes its receiver is a function from the state to
-- the next state; an error value is a constructor, one for each `fmt.Errorf`. A map that is only
-- looked up is a function of its key; one that is iterated is a list of its entries in any order.
-- Payloads and clones of JSON are texts, and `encoding/json` is the record `Json`, of any
-- behaviour. JSON of the records of a log is the record `Codec` of Store/Codec, whose laws
-- `IsLawful` say that what is written is read back, but for the texts of a `jsontext.Value` (the
-- payload of an input, the state and the idempotency of an operation), which the encoder
-- reformats. The theorems on files ask that these texts stand as the encoder writes them already
-- (`IsFormatted`); a text that does not is read back reformatted, and what the file then holds is
-- not stated. The JSON methods of a model response's items (harness/llm/itemjson.go) are not
-- modelled: of a response it is asked that it is read back as it is written. How a write or a
-- rename ends is an argument (`Written`, `Published`): before it begins, at any byte, or well. The
-- store is taken to be called by one caller at a time. Times and new UUIDs are arguments. `int64`
-- sums of tokens and the `uint64` addition of a page's end wrap around; sequence numbers and the
-- counts of inputs rise by one for each item of a history.
--
-- Fuel. The loop of `loadHistory` takes fuel, one for each page. The theorem about it asks for more
-- fuel than there are items, and then it never runs out. All other loops run over lists; the event
-- loop runs for as many rounds as its list of events has.
--
-- Not modelled: the text of a heartbeat, the timers and the goroutine that calls the model; the
-- directory of the session store with its listing, its temporary files and observers; the operation
-- manager and the operations themselves, which run processes; the tools' translators, a parameter of
-- the coordinator; the adapters and clients of model providers; the runner and the terminal interface.
mod Base
mod Text
pub mod Llm
pub mod Inbox
pub mod Operation
pub mod Store
pub mod Context
pub mod Coordinator
mod Tests
