-- ===== src/Coordinator/Noting.antt =====
-- Scheduling gives each open call a status (harness/coordinator/loop.go).
use unreal_agent.Base.{
  ℕ, ◌≡◌, refl, ap, sym, ◌∙◌, String, Bool, true, false, not, ◌&&◌, ◌||◌, List, [], ◌∷◌, Holds,
  >>=-Holds, Holds-ok, Bool-cases, inl, inr, is_some, ◌==◌, string_eq, arith,
}
use unreal_agent.Llm.{ToolCall}
use unreal_agent.Inbox.{Json}
use unreal_agent.Operation.{CallStatus}
use unreal_agent.Store.{ItemData, ToolCallStatus}
use unreal_agent.Store.Head.{CallKey, call_key_eq}
use unreal_agent.Coordinator.State.{CallEntry, add_operations}
use unreal_agent.Coordinator.Local.{Local, Resolve}
use unreal_agent.Coordinator.Noted.{is_untold, NotesCall, status-NotesCall, add_operations-calls}
use unreal_agent.Coordinator.Handlers.{Coordinator, record_item}
use unreal_agent.Coordinator.Reconcile.{status_command}
use unreal_agent.Coordinator.Schedule.{
  Scheduled, schedule_tool_call, schedule_calls, schedule_tool_calls, first_status,
}
use unreal_agent.Coordinator.Translated.{AllNoted, record_item-Holds}

-- An entry of the key without a status.
abbrev has_untold : CallKey → List CallEntry → Bool
has_untold key [] = false
has_untold key (entry ∷ entries) =
    (entry.key == key && not (is_some entry.call.status)) || has_untold key entries

is_untold-has_untold :
    (key : CallKey) (entries : List CallEntry)
    → is_untold key entries ≡ true
    → has_untold key entries ≡ true
is_untold-has_untold key [] h = cc
is_untold-has_untold key (entry ∷ entries) h = elim (Bool-cases (entry.key == key)) [
  | inl same ↦ let at : not (is_some entry.call.status) ≡ true = rw same at h in rw (same, at) refl
  | inr other ↦
      let later : is_untold key entries ≡ true = rw other at h in
      rw (other, is_untold-has_untold key entries later) refl
]

module _ (json : Json) (resolve : Resolve) (unavailable : String → CallStatus)
    (prompt : String) where
  schedule_tool_call-NotesCall :
      (ids : CallKey → ℕ → String) (now : ℕ) (c : Coordinator) (key : CallKey) (call : ToolCall)
      → Holds
          (λ (p : Coordinator × ToolCallStatus). NotesCall key c.local.loop p.0.local.loop)
          (schedule_tool_call json resolve unavailable ids now c key call)
  unfolding schedule_tool_call
  schedule_tool_call-NotesCall ids now c key call =
      let status = first_status json resolve unavailable ids now key call in
      let begun : Coordinator = record c {
        local = record c.local { loop = add_operations c.local.loop status.operations };
      } in
      >>=-Holds (λ (p : Coordinator × ToolCallStatus). NotesCall key c.local.loop p.0.local.loop)
        (record_item json resolve begun (ItemData.tool_call_status status)
          (status_command status now))
        _
        (λ next e.
          let noted =
            Holds-ok (λ (k : Coordinator). NotesCall key begun.local.loop k.local.loop) e
              (record_item-Holds json resolve (λ (l : Local). NotesCall key begun.local.loop l.loop)
                begun (ItemData.tool_call_status status) (status_command status now)
                (status-NotesCall resolve json begun.local status)) in
          λ j h.
            let (was, other) = noted j h in
            (
              sym (ap (is_untold j) (add_operations-calls c.local.loop status.operations)) ∙ was,
              other,
            ))

  schedule_calls-AllNoted :
      (ids : CallKey → ℕ → String) (now : ℕ) (entries : List CallEntry) (c : Coordinator)
      → ((key : CallKey)
          → is_untold key c.local.loop.tool_calls ≡ true
          → has_untold key entries ≡ true)
      → Holds
          (λ (p : Scheduled). AllNoted p.0)
          (schedule_calls json resolve unavailable ids now c entries)
  unfolding schedule_calls
  schedule_calls-AllNoted ids now [] c left = λ key.
      elim (Bool-cases (is_untold key c.local.loop.tool_calls)) [
        | inl untold ↦ absurd (ground (arith, left key untold))
        | inr told ↦ told
      ]
  schedule_calls-AllNoted ids now (entry ∷ entries) c left =
      elim (Bool-cases (is_some entry.call.status)) [
        | inl told ↦
            rw told (
              schedule_calls-AllNoted ids now entries c (λ key h. ground (arith, left key h, told)))
        | inr fresh ↦ rw fresh (
            >>=-Holds (λ (p : Scheduled). AllNoted p.0)
              (schedule_tool_call json resolve unavailable ids now c entry.key entry.call.tool_call)
              _
              (λ p e.
                let noted =
                  Holds-ok
                    (λ (p : Coordinator × ToolCallStatus).
                      NotesCall entry.key c.local.loop p.0.local.loop)
                    e (schedule_tool_call-NotesCall ids now c entry.key entry.call.tool_call) in
                >>=-Holds (λ (p : Scheduled). AllNoted p.0)
                  (schedule_calls json resolve unavailable ids now p.0 entries) _
                  (λ q f.
                    Holds-ok (λ (q : Scheduled). AllNoted q.0) f
                      (schedule_calls-AllNoted ids now entries p.0 (λ key h.
                        let (was, other) = noted key h in ground (arith, left key was, other))))))
      ]

  -- After the calls are scheduled, all have a status.
  pub schedule_tool_calls-AllNoted :
      (ids : CallKey → ℕ → String) (now : ℕ) (c : Coordinator)
      → Holds
          (λ (p : Scheduled). AllNoted p.0)
          (schedule_tool_calls json resolve unavailable ids now c)
  unfolding schedule_tool_calls
  schedule_tool_calls-AllNoted ids now c =
      schedule_calls-AllNoted ids now c.local.loop.tool_calls c
        (λ key h. is_untold-has_untold key c.local.loop.tool_calls h)
