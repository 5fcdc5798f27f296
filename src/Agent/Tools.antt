-- ===== src/Agent/Tools.antt =====
-- The execution of decided tool calls, internal/agent/tools.go.
use kontekst.Prelude.Int.{ℤ}
use kontekst.Prelude.{
  true, false, List, [], ◌∷◌, ◌++◌, Option, none, some, Bytes, codes, if◌then◌else◌,
}
use kontekst.Core.{tool, ToolResult, Message, is_empty}
use kontekst.Agent.Approvals.{ApprovalState, pending, granted, denied, PendingCall}
use kontekst.Agent.Types.{
  Event, tool_started, tool_completed, tool_failed, tools_completed, Reply, reply, error, Services,
}

abbrev pub denial : Bytes → Bytes
denial reason = codes "denied: " ++ (if is_empty reason then codes "user denied" else reason)

abbrev pub result_of : PendingCall → Reply Bytes → ToolResult
result_of call (reply output) = record {
  call_id = call.id;
  name = call.name;
  output = output;
  is_error = false;
}
result_of call (error text) = record {
  call_id = call.id;
  name = call.name;
  output = text;
  is_error = true;
}

abbrev pub tool_message : ToolResult → (tokens : ℤ) → Message
tool_message result tokens = record {
  role = tool;
  content = result.output;
  tool_calls = [];
  tool_result = some result;
  agent_name = [];
  tokens = tokens;
}

abbrev pub finished_event : Bytes → Reply Bytes → Event
finished_event call_id (reply output) = tool_completed call_id output
finished_event call_id (error text) = tool_failed call_id text

module _ {S : Type 0} (services : Services S) where
  -- The output or error, the events that it sends, and the state behind it.
  unfoldable pub run_tool : PendingCall → S → Reply Bytes × List Event × S
  run_tool call s =
      let (output, s') = services.execute call.name call.args s in
      (output, tool_started call.id ∷ finished_event call.id output ∷ [], s')

  unfoldable pub execute_as : ApprovalState → PendingCall → S → Reply Bytes × List Event × S
  execute_as denied call s = (error (denial call.reason), [], s)
  execute_as granted call s = run_tool call s
  execute_as pending call s = run_tool call s

  unfoldable pub execute_tool_call : PendingCall → S → Reply Bytes × List Event × S
  execute_tool_call call s = execute_as call.approval call s

  -- The error, if any, the events and the state.
  abbrev pub Executed : Type 0
  Executed = Option Bytes × List Event × S

  -- Behind AddMessage: its error ends the loop, or the calls that are left are executed.
  unfoldable pub go_on :
      (failure : Option Bytes) (events : List Event) → S → (rest : Executed) → Executed
  go_on (some e) events s rest = (some e, events, s)
  go_on none events s rest = (rest.0, events ++ rest.1, rest.2)

  unfoldable pub execute_tools : List PendingCall → S → Executed
  execute_tools [] s = (none, tools_completed ∷ [], s)
  execute_tools (call ∷ calls) s =
      let (output, events, s₁) = execute_tool_call call s in
      let result = result_of call output in
      let (tokens, s₂) = services.count_tokens result.output s₁ in
      let (failure, s₃) = services.add_message (tool_message result tokens) s₂ in
      go_on failure events s₃ (execute_tools calls s₃)
