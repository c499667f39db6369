-- ===== src/Coordinator/Stopping.antt =====
-- `handleStop` and `cancelOperations` of harness/coordinator/loop.go, and the round that they end.
use unreal_agent.Base.{
  ◌≡◌, refl, ◌↔◌, String, Bool, true, false, not, none, List, [], ◌∷◌, map, All, filter_by,
  Bool-cases, inl, inr, ok, err, map_ok, with_error, Holds, ◌⊎◌, Result,
}
use unreal_agent.Inbox.{Json}
use unreal_agent.Operation.{Operation, CallStatus, is_terminal}
use unreal_agent.Coordinator.Local.{Resolve}
use unreal_agent.Coordinator.Handlers.{
  Coordinator, handle_stop, cancel_operations, has_pending_operations, stop_requested,
  interrupt_model,
}
use unreal_agent.Coordinator.Steps.{has_pending_iff}
use unreal_agent.Coordinator.Loop.{Supply, Round, not_canceled, stop_round}

-- The IDs of the operations that are not finished.
abbrev pub unfinished : List Operation → List String
unfinished values =
    map (λ value. value.id) (filter_by (λ value. not (is_terminal value.status)) values)

cancel_operations_lem :
    (fails : String → Bool) (values : List Operation)
    → cancel_operations fails values ≡ (unfinished values, filter_by fails (unfinished values))
unfolding cancel_operations
cancel_operations_lem fails [] = refl
cancel_operations_lem fails (value ∷ values) = elim (Bool-cases (is_terminal value.status)) [
  | inl finished ↦ rw finished (cancel_operations_lem fails values)
  | inr runs ↦ rw (runs, cancel_operations_lem fails values) refl
]

-- What handling a stop for the first time gives and leaves, by the cancellations that failed.
abbrev pub Leaves :
    (failed : List String) → List Operation → Coordinator → Result (List String) Bool → Type 0
Leaves [] values k result =
    (stopped : Bool) × (result ≡ ok stopped)
    × ((later : String → Bool) → handle_stop later k ≡ (k, [], ok stopped))
    × ((stopped ≡ true) ↔ All (λ (value : Operation). is_terminal value.status ≡ true) values)
Leaves failed values k result =
    (result ≡ err failed) × ((later : String → Bool) → (handle_stop later k).1 ≡ unfinished values)

requested_lem :
    (failed : List String) (c : Coordinator)
    → c.stop.cancellation_requested ≡ false
    → let (k, result) =
        stop_requested failed (not (has_pending_operations c.local.loop)) (interrupt_model c) in
      (k.model_runs ≡ false) × Leaves failed c.local.loop.operations k result
unfolding handle_stop has_pending_operations
requested_lem [] c first = (refl, (_, refl, λ later. refl, has_pending_iff c.local.loop.operations))
requested_lem (id ∷ failed) c first = (
  refl,
  (refl, λ later. simp first (rw (cancel_operations_lem later c.local.loop.operations) refl)),
)

-- A hard stop that is handled first interrupts the model and asks for the cancellation of each
-- operation that is not finished. If one of these fails, the failed ones are given and the
-- cancellation still counts as not requested, so that handling the stop again asks for all of them
-- again. If none fails, handling it again asks for nothing and changes nothing, and the loop may stop
-- exactly when all operations are finished.
pub handle_stop_lem :
    (fails : String → Bool) (c : Coordinator)
    → c.stop.cancellation_requested ≡ false
    → let ids = unfinished c.local.loop.operations in
      let (k, tried, result) = handle_stop fails c in
      (tried ≡ ids)
      × (k.model_runs ≡ false)
      × Leaves (filter_by fails ids) c.local.loop.operations k result
unfolding handle_stop
handle_stop_lem fails c first =
    let (interrupted, left) =
      requested_lem (filter_by fails (unfinished c.local.loop.operations)) c first in
    simp first (rw (cancel_operations_lem fails c.local.loop.operations) (refl, interrupted, left))

-- What holds of the rounds that a hard stop may make holds of the one that it makes.
pub stop_round-Holds :
    (json : Json) (resolve : Resolve) (unavailable : String → CallStatus)
    (compaction_prompt : String) (P : Round → Type 0) (c : Coordinator) (s : Supply)
    → ((k : Coordinator) (canceled : List String)
        → (k ≡ c)
          ⊎ (k ≡ record c {
            model_runs = false;
            stop = record c.stop { cancellation_requested = true };
          })
        → P (record {
          next = k;
          stops = not (has_pending_operations k.local.loop);
          canceled = canceled;
          asked = none;
        }))
    → Holds P (stop_round json resolve unavailable compaction_prompt c s)
unfolding stop_round handle_stop
stop_round-Holds json resolve unavailable compaction_prompt P c s h =
    elim (Bool-cases c.stop.cancellation_requested) [
      | inl again ↦ simp again (h c [] (inl refl))
      | inr first ↦ simp first (
          requested (cancel_operations s.cancel_fails c.local.loop.operations).1
            (cancel_operations s.cancel_fails c.local.loop.operations).0)
    ]
  where
    requested :
        (failed tried : List String)
        → let (k, result) =
            stop_requested failed (not (has_pending_operations c.local.loop)) (interrupt_model c) in
          Holds P (
            map_ok
              (λ stopped. record { next = k; stops = stopped; canceled = tried; asked = none })
              (with_error not_canceled result))
    requested [] tried = h _ tried (inr refl)
    requested (id ∷ failed) tried = tt
