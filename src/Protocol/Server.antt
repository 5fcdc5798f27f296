-- ===== src/Protocol/Server.antt =====
-- The events of a run on their way to the client, internal/protocol/server.go: forwardEvents and
-- processEvent with what they call. The client answers the permission requests in order.
pub mod Commands
pub mod Answers
pub mod Approval
mod Tests
use kontekst.Prelude.Int.{ℤ}
use kontekst.Prelude.{
  ℕ, suc, ◌+◌, length, Bool, true, false, List, [], ◌∷◌, ◌++◌, Option, none, some, Bytes, codes,
  bytes_eq, if◌then◌else◌,
}
use kontekst.Core.{Json, Fields, is_empty}
use kontekst.Conversation.Snapshot.{Snapshot}
use kontekst.Agent.Approvals.{Command, CommandType, approve_tool, deny_tool, cancel}
use kontekst.Agent.Types.{
  Response, ProposedToolCall, Event, run_started, token_delta, reasoning_delta, turn_completed,
  tools_proposed, tool_started, tool_completed, tool_failed, tools_completed, run_completed,
  run_cancelled, run_failed, Reply, reply, error,
}
use kontekst.Protocol.Messages.{RpcError, err_internal_error}
use kontekst.Protocol.Permission.{
  PermissionOption, PermissionOutcome, PermissionRequest, allow_once, reject_once,
  outcome_is_allowed, tool_kind_from_name, Update, agent_message_chunk, agent_thought_chunk,
  tool_call_start, tool_call_progress, tool_call_output, pending, in_progress, completed, failed,
}

-- The reasons that the server gives.
pub data StopReason : Type 0 where
  end_turn cancelled : StopReason

-- What the server sends, in order: notifications and permission requests to the client, commands to
-- the run.
pub data Sent : Type 0 where
  session_update : (sid : Bytes) → Update → Sent
  context_update : Snapshot → Sent
  permission_request : PermissionRequest → Sent
  command : Command → Sent

-- What the client gives to its `n`-th permission request: the outcome in its response, or the error of
-- the request or of its decoding. `unmarshal` and `unmarshal_any` are json.Unmarshal into
-- a map and into any value.
pub record Client : Type 0 where
  pub permission : (n : ℕ) → PermissionRequest → Reply PermissionOutcome
  pub unmarshal : Bytes → Option Fields
  pub unmarshal_any : Bytes → Option Json

-- sendCommand where it does not block: the run reads its channel, or one of its 16 places is free; `has_channel` says that
-- the session has one.
unfoldable pub send_command : (has_channel : Bool) → Command → List Sent
send_command has_channel c = if has_channel then command c ∷ [] else []

abbrev pub permission_options : List PermissionOption
permission_options =
    record { option_id = codes "allow"; name = codes "Allow"; kind = allow_once }
    ∷ record { option_id = codes "reject"; name = codes "Reject"; kind = reject_once }
    ∷ []

abbrev pub approve : (call_id : Bytes) → Command
approve call_id = record { kind = approve_tool; call_id = call_id; reason = [] }

abbrev pub deny : (call_id reason : Bytes) → Command
deny call_id reason = record { kind = deny_tool; call_id = call_id; reason = reason }

abbrev pub cancel_command : Command
cancel_command = record { kind = cancel; call_id = []; reason = [] }

-- The command for the answer to a call's request.
unfoldable pub command_for : (call_id : Bytes) → Reply PermissionOutcome → Command
command_for call_id (error e) = deny call_id (codes "permission request failed")
command_for call_id (reply outcome) =
    if outcome_is_allowed outcome permission_options
    then approve call_id
    else deny call_id (
        if bytes_eq outcome.outcome (codes "cancelled")
        then codes "cancelled"
        else codes "denied by user")

-- What processEvent returns.
pub data Handled : Type 0 where
  continues : Handled
  stops : StopReason → Handled
  fails : RpcError → Handled

-- A text that is empty is not sent.
unfoldable pub chunk : (sid : Bytes) → (Bytes → Update) → Bytes → List Sent
chunk sid update text = if is_empty text then [] else session_update sid (update text) ∷ []

module _ (client : Client) (sid : Bytes) (has_channel : Bool) where
  unfoldable pub parse_raw_input : Bytes → Option Fields
  parse_raw_input arguments_json =
      if is_empty arguments_json then none else client.unmarshal arguments_json

  unfoldable pub request_for : ProposedToolCall → PermissionRequest
  request_for call = record {
    session_id = sid;
    tool_call_id = call.call_id;
    title = call.name;
    kind = tool_kind_from_name call.name;
    status = pending;
    raw_input = parse_raw_input call.arguments_json;
    preview = if is_empty call.preview then none else client.unmarshal_any call.preview;
    options = permission_options;
  }

  unfoldable pub ask_permission : (n : ℕ) → ProposedToolCall → List Sent
  ask_permission n call =
      session_update sid (
        tool_call_start call.call_id call.name (tool_kind_from_name call.name)
          (parse_raw_input call.arguments_json))
      ∷ permission_request (request_for call)
      ∷ send_command has_channel (command_for call.call_id (client.permission n (request_for call)))

  -- The loop over the calls of a batch.
  unfoldable pub ask_permissions : (n : ℕ) → List ProposedToolCall → List Sent
  ask_permissions n [] = []
  ask_permissions n (call ∷ calls) = ask_permission n call ++ ask_permissions (suc n) calls

  -- What an event makes the server send; `n` permission requests came before it.
  unfoldable pub sent_for : (n : ℕ) → Event → List Sent
  sent_for n run_started = []
  sent_for n (token_delta token) = session_update sid (agent_message_chunk token) ∷ []
  sent_for n (reasoning_delta reasoning) = session_update sid (agent_thought_chunk reasoning) ∷ []
  sent_for n (turn_completed response snapshot) =
      chunk sid agent_thought_chunk response.reasoning
      ++ (chunk sid agent_message_chunk response.content ++ (context_update snapshot ∷ []))
  sent_for n (tools_proposed calls) = ask_permissions n calls
  sent_for n (tool_started id) = session_update sid (tool_call_progress id in_progress) ∷ []
  sent_for n (tool_completed id output) =
      session_update sid (tool_call_output id completed output (codes "content")) ∷ []
  sent_for n (tool_failed id text) =
      session_update sid (tool_call_output id failed text (codes "error")) ∷ []
  sent_for n tools_completed = []
  sent_for n (run_completed response) = []
  sent_for n run_cancelled = []
  sent_for n (run_failed text) = []

unfoldable pub handled_as : Event → Handled
handled_as (run_completed response) = stops end_turn
handled_as run_cancelled = stops cancelled
handled_as (run_failed text) = fails (record { code = err_internal_error; message = text })
handled_as run_started = continues
handled_as (token_delta token) = continues
handled_as (reasoning_delta reasoning) = continues
handled_as (turn_completed response snapshot) = continues
handled_as (tools_proposed calls) = continues
handled_as (tool_started id) = continues
handled_as (tool_completed id output) = continues
handled_as (tool_failed id text) = continues
handled_as tools_completed = continues

-- The permission requests that an event makes.
unfoldable pub requests_of : Event → ℕ
requests_of (tools_proposed calls) = length calls
requests_of run_started = 0
requests_of (token_delta token) = 0
requests_of (reasoning_delta reasoning) = 0
requests_of (turn_completed response snapshot) = 0
requests_of (tool_started id) = 0
requests_of (tool_completed id output) = 0
requests_of (tool_failed id text) = 0
requests_of tools_completed = 0
requests_of (run_completed response) = 0
requests_of run_cancelled = 0
requests_of (run_failed text) = 0

-- What the select of forwardEvents finds ready.
pub data Signal : Type 0 where
  event : Event → Signal
  events_closed connection_done context_done : Signal

-- What forwardEvents returns, or that it waits for a further signal.
pub data Forwarded : Type 0 where
  stopped : StopReason → Forwarded
  failed_with : RpcError → Forwarded
  waiting : Forwarded

module _ (client : Client) (sid : Bytes) (has_channel : Bool) where
  -- Behind processEvent: `rest` is what the following signals give.
  unfoldable pub go_on_from :
      Handled → (now : List Sent) → (rest : List Sent × Forwarded) → List Sent × Forwarded
  go_on_from continues now (sent, forwarded) = (now ++ sent, forwarded)
  go_on_from (stops reason) now rest = (now, stopped reason)
  go_on_from (fails e) now rest = (now, failed_with e)

  unfoldable pub forward_from : (n : ℕ) → List Signal → List Sent × Forwarded
  forward_from n [] = ([], waiting)
  forward_from n (event e ∷ signals) =
      let rest = forward_from (requests_of e + n) signals in
      go_on_from (handled_as e) (sent_for client sid has_channel n e) rest
  forward_from n (events_closed ∷ signals) = ([], stopped end_turn)
  forward_from n (connection_done ∷ signals) =
      (send_command has_channel cancel_command, stopped cancelled)
  forward_from n (context_done ∷ signals) =
      (send_command has_channel cancel_command, stopped cancelled)

  unfoldable pub forward_events : List Signal → List Sent × Forwarded
  forward_events signals = forward_from 0 signals
