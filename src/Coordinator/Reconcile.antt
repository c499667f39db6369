-- ===== src/Coordinator/Reconcile.antt =====
-- `reconcileToolCalls` of harness/coordinator/loop.go: the open calls whose operations are finished
-- get a last status. Which calls there are is read before the first of them is closed.
use mathlib.Core.Option
use unreal_agent.Base.{
  ℕ, not, Option, none, some, List, [], ◌∷◌, ◌++◌, map, if◌then◌else◌, Result, ok, err, ◌>>=◌,
  or_fail, pos, refl, Holds, >>=-Holds, Holds-ok, Bool-cases, inl, inr, is_some,
}
use unreal_agent.Inbox.{Json}
use unreal_agent.Operation.{Operation, Status}
use unreal_agent.Store.{ItemData, ToolCallStatus}
use unreal_agent.Store.Head.{CallKey, call_key_eq}
use unreal_agent.Store.Commands.{Command}
use unreal_agent.Coordinator.State.{
  LoopState, ToolCallState, CallEntry, find_call, find_operation, tool_call_operations_are_terminal,
}
use unreal_agent.Coordinator.Local.{Resolve}
use unreal_agent.Coordinator.Handlers.{Coordinator, record_item}
use unreal_agent.Coordinator.Handlers
use unreal_agent.Coordinator.Steps.{Keeps, Keeps-trans, record_item-Keeps}

-- What Go reads of a map where there is no operation.
abbrev pub zero_operation : Operation
zero_operation = record {
  max_output_length = pos 0;
  id = "";
  type = "";
  version = 0;
  status = Status.other "";
  state = none;
  idempotency = none;
}

abbrev pub or_zero : Option Operation → Operation
or_zero none = zero_operation
or_zero (some value) = value

abbrev pub last_status : LoopState → CallKey → ToolCallState → Option ToolCallStatus
last_status s key call =
    Option.map
      (λ status. record {
        turn_id = key.turn_id;
        call_id = key.call_id;
        status = status;
        operations = map (λ id. or_zero (find_operation id s.operations)) status.waiting_for;
      })
      call.status

pub data Error : Type 0 where
  untranslated : CallKey → Error
  not_recorded : Handlers.Error → Error

abbrev pub recorded_or : Result Handlers.Error Coordinator → Result Error Coordinator
recorded_or (ok c) = ok c
recorded_or (err e) = err (not_recorded e)

-- The command by which `AppendToolCallStatus` stores a status, its operations apart from it.
abbrev pub status_command : ToolCallStatus → ℕ → Command
status_command status now =
    Command.tool_call_status (record status { operations = [] }) status.operations now

-- What is closed: the coordinator behind it, and the statuses of the calls that it closed.
abbrev pub Closed : Type 0
Closed = Coordinator × List ToolCallStatus

module _ (json : Json) (resolve : Resolve) (now : ℕ) where
  unfoldable pub close_call : CallKey → Coordinator → Option ToolCallState → Result Error Closed
  unfolding record_item
  close_call key c none = ok (c, [])
  close_call key c (some call) = do
    status ← or_fail (last_status c.local.loop key call) (untranslated key)
    next ←
        recorded_or (
          record_item json resolve c (ItemData.tool_call_status status) (status_command status now))
    ok (next, if is_some (find_call key next.local.loop.tool_calls) then [] else status ∷ [])

  -- The body of the loop.
  unfoldable pub reconcile_call : Coordinator → CallKey → Result Error Closed
  unfolding close_call tool_call_operations_are_terminal
  reconcile_call c key =
      if not (tool_call_operations_are_terminal c.local.loop key)
      then ok (c, [])
      else close_call key c (find_call key c.local.loop.tool_calls)

  unfoldable pub reconcile_calls : Coordinator → List CallEntry → Result Error Closed
  unfolding reconcile_call
  reconcile_calls c [] = ok (c, [])
  reconcile_calls c (entry ∷ entries) = do
    (next, closed) ← reconcile_call c entry.key
    (last, more) ← reconcile_calls next entries
    ok (last, closed ++ more)

  -- `reconcileToolCalls`
  unfoldable pub reconcile_tool_calls : Coordinator → Result Error Closed
  unfolding reconcile_calls
  reconcile_tool_calls c = reconcile_calls c c.local.loop.tool_calls

  abbrev pub KeepsAll : Coordinator → Closed → Type 0
  KeepsAll c k = Keeps json c k.0

  close_call-Keeps :
      (key : CallKey) (c : Coordinator) (o : Option ToolCallState)
      → Holds (KeepsAll c) (close_call key c o)
  unfolding close_call
  close_call-Keeps key c none = (λ h. h, λ r. r, λ s. refl)
  close_call-Keeps key c (some call) =
      >>=-Holds (KeepsAll c) (or_fail (last_status c.local.loop key call) (untranslated key)) _
        (λ status _.
          recorded
            (record_item json resolve c (ItemData.tool_call_status status)
              (status_command status now))
            status
            (record_item-Keeps json resolve c (ItemData.tool_call_status status)
              (status_command status now)))
    where
      recorded :
          (r : Result Handlers.Error Coordinator) (status : ToolCallStatus)
          → Holds (Keeps json c) r
          → Holds (KeepsAll c) (
              recorded_or r >>= λ next. ok (
                next,
                if is_some (find_call key next.local.loop.tool_calls) then [] else status ∷ [],
              ))
      recorded (ok next) status h = h
      recorded (err e) status h = tt

  reconcile_call-Keeps :
      (c : Coordinator) (key : CallKey) → Holds (KeepsAll c) (reconcile_call c key)
  unfolding reconcile_call
  reconcile_call-Keeps c key =
      elim (Bool-cases (tool_call_operations_are_terminal c.local.loop key)) [
        | inl finished ↦
            rw finished (close_call-Keeps key c (find_call key c.local.loop.tool_calls))
        | inr runs ↦ rw runs (λ h. h, λ r. r, λ s. refl)
      ]

  pub reconcile_calls-Keeps :
      (entries : List CallEntry) (c : Coordinator) → Holds (KeepsAll c) (reconcile_calls c entries)
  unfolding reconcile_calls
  reconcile_calls-Keeps [] c = (λ h. h, λ r. r, λ s. refl)
  reconcile_calls-Keeps (entry ∷ entries) c =
      >>=-Holds (KeepsAll c) (reconcile_call c entry.key) _ (λ first e.
        let kept = Holds-ok (KeepsAll c) e (reconcile_call-Keeps c entry.key) in
        >>=-Holds (KeepsAll c) (reconcile_calls first.0 entries) _ (λ rest f.
          Keeps-trans json c first.0 rest.0 kept
            (Holds-ok (KeepsAll first.0) f (reconcile_calls-Keeps entries first.0))))
