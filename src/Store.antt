-- ===== src/Store.antt =====
-- harness/session/session.go and harness/sessionstore/sessionstore.go: the items of a session's
-- history. `Item.Kind` is the constructor of the item's data; a time is a number.
pub mod Head
pub mod Status
pub mod State
pub mod History
pub mod Extension
pub mod Table
pub mod Commands
pub mod Invariant
pub mod Forks
pub mod Paging
pub mod Resume
pub mod Updates
pub mod Lines
pub mod Codec
pub mod Log
pub mod Files
use unreal_agent.Base.{ℕ, String, Bool, List, Option}
use unreal_agent.Llm.{Response}
use unreal_agent.Inbox.{Input}
use unreal_agent.Operation.{Operation, CallStatus}

pub record Session : Type 0 where
  pub id : String
  pub created_at : ℕ

pub data TurnType : Type 0 where
  regular compaction : TurnType
  other : String → TurnType

pub record Turn : Type 0 where
  pub id : String
  pub previous_turn_id : String
  pub type : TurnType

pub record Fork : Type 0 where
  pub parent_id : String
  pub previous_turn_id : String

pub record ModelResponse : Type 0 where
  pub turn_id : String
  pub response : Response

pub record ToolCallStatus : Type 0 where
  pub turn_id : String
  pub call_id : String
  pub status : CallStatus
  pub operations : List Operation

pub data ItemData : Type 0 where
  fork : Fork → ItemData
  input : Input → ItemData
  turn : Turn → ItemData
  model_response : ModelResponse → ItemData
  tool_call_status : ToolCallStatus → ItemData

pub record Item : Type 0 where
  pub sequence : ℕ  -- uint64
  pub recorded_at : ℕ
  pub content : ItemData

pub record Page : Type 0 where
  pub items : List Item
  pub next_after : ℕ
  pub more : Bool

pub record ResumeState : Type 0 where
  pub session : Session
  pub operations : List Operation
  pub input_ids : List String
