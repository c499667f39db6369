-- ===== src/Llm.antt =====
-- harness/llm/model.go: the normalized model items, requests and responses.
-- A field of type `any` is the data type of what the item type allows.
use unreal_agent.Base.{String, Bool, true, false, Option, List, ℤ}

pub data Role : Type 0 where
  user assistant system : Role

pub record Message : Type 0 where
  pub role : Role
  pub text : String
  pub phase : String

pub record ToolCall : Type 0 where
  pub call_id : String
  pub name : String
  pub arguments : String

pub data ToolResultKind : Type 0 where
  text image : ToolResultKind

pub record ToolResultOutput : Type 0 where
  pub kind : ToolResultKind
  pub value : String

pub record ToolResult : Type 0 where
  pub call_id : String
  pub output : List ToolResultOutput
  pub running : Bool

-- `ProviderItem`: its raw JSON is replayed as it is.
pub record ProviderItem : Type 0 where
  pub type : String
  pub raw_json : String

-- `Item.Type` with the `Item.Data` that goes with it.
pub data ItemData : Type 0 where
  message : Message → ItemData
  tool_call : ToolCall → ItemData
  tool_result : ToolResult → ItemData
  provider : ProviderItem → ItemData

pub record Item : Type 0 where
  pub provider_id : String
  pub content : ItemData

pub record Tool : Type 0 where
  pub name : String
  pub description : String

pub data ReasoningEffort : Type 0 where
  low medium high xhigh max : ReasoningEffort
  other : String → ReasoningEffort

-- `ReasoningEffort.Valid`
unfoldable pub effort_valid : ReasoningEffort → Bool
effort_valid (other s) = false
effort_valid _ = true

pub record Model : Type 0 where
  pub id : String
  pub compaction_threshold : ℤ
  pub max_output_tokens : Option ℤ
  pub reasoning_effort : ReasoningEffort

pub record Request : Type 0 where
  pub model : Model
  pub input : List Item
  pub tools : List Tool

pub data StopReason : Type 0 where
  complete max_output_tokens refused : StopReason
  other : String → StopReason

-- The `TokenUsage` counts that the harness reads.
pub record Usage : Type 0 where
  pub input_tokens : ℤ
  pub output_tokens : ℤ

pub record Response : Type 0 where
  pub id : String
  pub stop : StopReason
  pub output : List Item
  pub usage : Usage
