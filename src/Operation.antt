-- ===== src/Operation.antt =====
-- harness/operation/operation.go: the durable description of asynchronous work, and its states.
use unreal_agent.Base.{ℕ, String, Bool, true, false, Option, List, ℤ}

-- `StatusUnsupported` is `other ""`.
pub data Status : Type 0 where
  ready awaiting canceling completed failed canceled : Status
  other : String → Status

pub record Spec : Type 0 where
  pub max_output_length : ℤ
  pub type : String
  pub version : ℕ
  pub state : Option String
  pub idempotency : Option String

pub record Operation : Type 0 where
  pub max_output_length : ℤ
  pub id : String
  pub type : String
  pub version : ℕ  -- uint32
  pub status : Status
  pub state : Option String
  pub idempotency : Option String

-- `terminalOperationStatus`, `operationIsTerminal` and `localOperationFinished`, which agree.
abbrev pub is_terminal : Status → Bool
is_terminal completed = true
is_terminal failed = true
is_terminal canceled = true
is_terminal _ = false

-- harness/tool/tool.go
pub record CallStatus : Type 0 where
  pub error : String
  pub error_truncated : Bool
  pub waiting_for : List String
