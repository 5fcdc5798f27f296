-- ===== src/Agent/Types.antt =====
-- The events of a run (internal/agent/types.go), and what the agent uses of the rest of the program:
-- the interfaces ConversationWindow and LLM of internal/agent/interfaces.go and ToolExecutor of
-- internal/tool/tools.go, as functions on a state that stands for everything behind them.
use kontekst.Prelude.Int.{ℤ}
use kontekst.Prelude.{List, Option, Bytes}
use kontekst.Core.{Fields, Message, ToolCall}
use kontekst.Conversation.Window.{BudgetParams}
use kontekst.Conversation.Snapshot.{Snapshot}

pub record Response : Type 0 where
  pub content : Bytes
  pub reasoning : Bytes
  pub tool_calls : List ToolCall
  pub completion_tokens : Option ℤ

pub record ProposedToolCall : Type 0 where
  pub call_id : Bytes
  pub name : Bytes
  pub arguments_json : Bytes
  pub preview : Bytes

-- An event with the fields that its type sets; the run's id is the same in all events of a run.
pub data Event : Type 0 where
  run_started : Event
  token_delta reasoning_delta : Bytes → Event
  turn_completed : Response → Snapshot → Event
  tools_proposed : List ProposedToolCall → Event
  tool_started : (call_id : Bytes) → Event
  tool_completed : (call_id output : Bytes) → Event
  tool_failed : (call_id error : Bytes) → Event
  tools_completed : Event
  run_completed : Option Response → Event
  run_cancelled : Event
  run_failed : (error : Bytes) → Event

-- A string and a nil error, or an error.
pub data Reply (A : Type 0) : Type 0 where
  reply : A → Reply A
  error : Bytes → Reply A

-- Each operation gives its result and the state behind it.
pub record Services (S : Type 0) : Type 0 where
  pub system_content : S → Bytes
  pub start_run : BudgetParams → S → Option Bytes × S
  pub complete_run : S → S
  pub add_message : Message → S → Option Bytes × S
  pub build_context : S → Reply (List Message) × S
  pub take_snapshot : S → Snapshot
  pub count_tokens : Bytes → S → ℤ × S
  pub generate_chat : List Message → S → Reply Response × S
  pub tool_definitions_json : S → Bytes
  pub execute : (name : Bytes) → Fields → S → Reply Bytes × S
  pub preview : (name : Bytes) → Fields → S → Reply Bytes × S
  pub json_of : Fields → Bytes
