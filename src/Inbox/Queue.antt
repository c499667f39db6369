-- ===== src/Inbox/Queue.antt =====
-- harness/inbox/local.go: the goroutine that deduplicates the inputs and queues them for the
-- coordinator. A `select` is an event that the environment chooses; an unready case is no step.
pub mod Delivery
use unreal_agent.Base.{
  String, ◌≡◌, refl, ap, sym, ◌∙◌, Bool, true, false, Option, none, some, List, [], ◌∷◌, ◌++◌,
  Result, ok, err, ◌>>=◌, ◌>>◌, reject_if, with_error, ◌==◌, string_eq, if◌then◌else◌, KeySet,
  include, empty_set, arith, eq_iff, All, Bool-cases, inl, inr,
}
use unreal_agent.Inbox.{Input, Json, Error, validate}

-- `seen` and `queued` are the loop's variables; `sent` is what has gone out through `output`.
pub record Loop : Type 0 where
  pub seen : KeySet String
  pub queued : List Input
  pub sent : List Input

pub data NewError : Type 0 where
  empty_seen_id : NewError

-- The loop of `New` over `seenIDs`.
mark_seen : KeySet String → List String → Result NewError (KeySet String)
mark_seen seen [] = ok seen
mark_seen seen (id ∷ ids) = do reject_if (id == "") empty_seen_id; mark_seen (include id seen) ids

unfoldable pub new : List String → Result NewError Loop
unfolding mark_seen
new seen_ids = do
  seen ← mark_seen empty_set seen_ids
  ok (record { seen = seen; queued = []; sent = [] })

-- What ends the `select` of `Submit`.
pub data Handover : Type 0 where
  accepted caller_done inbox_done : Handover

pub data SubmitError : Type 0 where
  invalid : Error → SubmitError
  caller_cause inbox_cause : SubmitError

hand_over : Handover → Input → Result SubmitError Input
hand_over accepted input = ok input
hand_over caller_done input = err caller_cause
hand_over inbox_done input = err inbox_cause

-- `Submit`, with whether each context is done when it is read. `ok` is the input that the loop
-- receives; `cloneInput` makes no difference to a value.
unfoldable pub submit : Json → Bool → Bool → Handover → Input → Result SubmitError Input
unfolding hand_over
submit json caller_is_done inbox_is_done chosen input = do
  with_error invalid (validate json input)
  reject_if caller_is_done caller_cause
  reject_if inbox_is_done inbox_cause
  hand_over chosen input

pub data Event : Type 0 where
  received : Input → Event
  delivered : Event

-- The case `input := <-submissions`.
receive : Loop → Input → Loop
receive l input =
    if l.seen input.id
    then l
    else record l { seen = include input.id l.seen; queued = l.queued ++ input ∷ [] }

-- The case `output <- next`, which is ready only while the queue holds an input.
deliver : List Input → Loop → Loop
deliver [] l = l
deliver (next ∷ rest) l = record l { queued = rest; sent = l.sent ++ next ∷ [] }

unfoldable pub step : Loop → Event → Loop
unfolding receive deliver
step l (received input) = receive l input
step l delivered = deliver l.queued l

unfoldable pub run : Loop → List Event → Loop
run l [] = l
run l (e ∷ es) = run (step l e) es
