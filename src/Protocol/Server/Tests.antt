-- ===== src/Protocol/Server/Tests.antt =====
-- A run that asks for one tool, and a client that allows it.
use kontekst.Prelude.Int.{pos}
use kontekst.Prelude.{ℕ, zero, suc, true, false, [], ◌∷◌, none, some, Bytes, codes, All}
use kontekst.Core.{ToolCall, no_fields}
use kontekst.Conversation.Snapshot.{Snapshot}
use kontekst.Agent.Approvals.{PendingBatch, PendingCall, pending, collect_approvals}
use kontekst.Agent.Types.{Response, ProposedToolCall, tools_proposed, reply, Services}
use kontekst.Agent.Loop.{RunConfig, run_loop, as_proposed}
use kontekst.Protocol.Permission.{PermissionOutcome, permission_selected, permission_cancelled}
use kontekst.Protocol.Server.{Client, event, forward_events, sent_for}
use kontekst.Protocol.Server.Commands.{commands_in, CollectedAll, proposed-decided}
use kontekst.Protocol.Server.Approval.{StartAllowed, started-UserAllowed}

abbrev tool_call : ToolCall
tool_call = record { id = codes "c1"; name = codes "run_command"; arguments = no_fields }

-- The first answer of the model asks for the tool, any other ends the run.
abbrev answer_at : ℕ → Response
answer_at zero = record {
  content = [];
  reasoning = [];
  tool_calls = tool_call ∷ [];
  completion_tokens = none;
}
answer_at (suc n) = record {
  content = codes "done";
  reasoning = [];
  tool_calls = [];
  completion_tokens = none;
}

abbrev no_snapshot : Snapshot
no_snapshot = record {
  context_size = pos 0;
  system_tokens = pos 0;
  tool_tokens = pos 0;
  history_tokens = pos 0;
  memory_tokens = pos 0;
  total_tokens = pos 0;
  remaining_tokens = pos 0;
  history_messages = 0;
  memory_messages = 0;
  total_messages = 0;
  history_budget = pos 0;
  messages = [];
}

abbrev services : Services ℕ
services = record {
  system_content = λ s. [];
  start_run = λ params s. (none, s);
  complete_run = λ s. s;
  add_message = λ m s. (none, s);
  build_context = λ s. (reply [], s);
  take_snapshot = λ s. no_snapshot;
  count_tokens = λ text s. (pos 0, s);
  generate_chat = λ messages s. (reply (answer_at s), suc s);
  tool_definitions_json = λ s. codes "[]";
  execute = λ name args s. (reply (codes "out"), s);
  preview = λ name args s. (reply [], s);
  json_of = λ args. codes "{}";
}

abbrev config : RunConfig
config = record { context_size = pos 100; agent_name = codes "default" }

abbrev fresh : ℕ → ℕ → Bytes
fresh turn i = codes "new"

abbrev as_is : ℕ → ℕ → PendingBatch → PendingBatch
as_is turn use_no batch = batch

-- The client allows the first request, and cancels any other.
abbrev client : Client
client = record {
  permission = λ n request. reply (answer n);
  unmarshal = λ json. some no_fields;
  unmarshal_any = λ json. none;
}
  where
    answer : ℕ → PermissionOutcome
    answer zero = permission_selected (codes "allow")
    answer (suc n) = permission_cancelled

abbrev proposed : ProposedToolCall
proposed = record {
  call_id = codes "c1";
  name = codes "run_command";
  arguments_json = codes "{}";
  preview = [];
}

abbrev pending_call : PendingCall
pending_call = record {
  id = codes "c1";
  name = codes "run_command";
  args = no_fields;
  approval = pending;
  reason = [];
}

proposed-decided_example : CollectedAll (pending_call ∷ []) (
    collect_approvals
      (commands_in (
        sent_for client
          (codes "s")
          true
          0
          (tools_proposed (as_proposed services config fresh (pending_call ∷ []) 0).0)))
      true
      (pending_call ∷ []))
proposed-decided_example =
    proposed-decided services config fresh client (codes "s") 0 (pending_call ∷ [])
      (pending_call ∷ []) 0 true (λ call place. place)

started-UserAllowed_example :
    All
      (StartAllowed client (codes "s") (event (tools_proposed (proposed ∷ [])) ∷ []))
      (run_loop services config fresh as_is 2
        (codes "hi")
        (commands_in
          (forward_events client (codes "s") true (event (tools_proposed (proposed ∷ [])) ∷ [])).0)
        false
        0).0
started-UserAllowed_example =
    started-UserAllowed client (codes "s") services config fresh as_is 2 (codes "hi")
      (event (tools_proposed (proposed ∷ [])) ∷ []) false 0 (λ turn use_no batch call place. place)
