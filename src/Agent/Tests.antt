-- ===== src/Agent/Tests.antt =====
-- A run over a real window: the model asks for one tool, then answers.
use kontekst.Prelude.Int.{pos}
use kontekst.Prelude.{
  ℕ, ◌≡◌, refl, true, List, [], ◌∷◌, Option, none, some, Bytes, codes, bytes_eq, length, All,
}
use kontekst.Core.{user, Message, ToolCall, no_fields}
use kontekst.Conversation.File.{not_exist, load_tail}
use kontekst.Conversation.Window.{
  Appending, encoded, add_appended, Window, new_window, set_params, append_line, history_budget_of,
  start_run, complete_run, add_message, build_context, system_content,
}
use kontekst.Conversation.Snapshot.{snapshot}
use kontekst.Agent.Approvals.{
  PendingCall, PendingBatch, approve_tool, Command, build_pending, build_pending_from, put_call,
  collect_approvals, are_all_decided, decide_call, judge, judge_as, any_was_denied, as_tool_calls,
  granted,
}
use kontekst.Agent.Types.{Event, Response, tool_started, tool_completed, reply, Services}
use kontekst.Agent.Tools.{execute_tools, execute_tool_call, execute_as, run_tool, go_on}
use kontekst.Agent.Loop.{
  RunConfig, run_loop, Run, turns, ask, respond, respond_with, act_on, after_tools, prepare,
  as_proposed,
}
use kontekst.Agent.Verdicts.{Ends}
use kontekst.Agent.Decisions.{collect_approvals-Ends}
use kontekst.Agent.Execution.{Allowed}
use kontekst.Agent.Trace.{run_loop-approved}
use kontekst.Agent.Ending.{run_loop-Ended, Ended}

abbrev decode : Bytes → Option Message
decode line = some (record {
  role = user;
  content = line;
  tool_calls = [];
  tool_result = none;
  agent_name = [];
  tokens = pos 1;
})

abbrev encode : Message → Appending
encode m = encoded m.content

abbrev call : ToolCall
call = record { id = codes "c1"; name = codes "list_files"; arguments = no_fields }

-- The model asks for the tool once, and answers a context of more than three messages.
abbrev answer_to : List Message → Response
answer_to (m ∷ (n ∷ (o ∷ (p ∷ ms)))) = record {
  content = codes "done";
  reasoning = [];
  tool_calls = [];
  completion_tokens = some (pos 1);
}
answer_to messages = record {
  content = [];
  reasoning = [];
  tool_calls = call ∷ [];
  completion_tokens = none;
}

abbrev services : Services Window
services = record {
  system_content = system_content;
  start_run = λ params cw. ((start_run decode params cw).1, (start_run decode params cw).0);
  complete_run = complete_run;
  add_message = λ m cw. ((add_message encode m cw).1, (add_message encode m cw).0);
  build_context = λ cw. (reply (build_context cw), cw);
  take_snapshot = snapshot;
  count_tokens = λ text cw. (pos (length text), cw);
  generate_chat = λ messages cw. (reply (answer_to messages), cw);
  tool_definitions_json = λ cw. codes "[]";
  execute = λ name args cw. (reply (codes "a.go"), cw);
  preview = λ name args cw. (reply [], cw);
  json_of = λ args. codes "{}";
}

abbrev config : RunConfig
config = record { context_size = pos 100; agent_name = codes "default" }

abbrev fresh : ℕ → ℕ → Bytes
fresh turn i = codes "new"

abbrev in_order : ℕ → ℕ → PendingBatch → PendingBatch
in_order turn use_no batch = batch

abbrev approve : Command
approve = record { kind = approve_tool; call_id = codes "c1"; reason = [] }

abbrev run_of : List Command → Run services config fresh
run_of commands =
    run_loop services config fresh in_order 5 (codes "hello") commands true (new_window not_exist)

abbrev tools_of : List Event → List Event
tools_of [] = []
tools_of (tool_started id ∷ events) = tool_started id ∷ tools_of events
tools_of (tool_completed id output ∷ events) = tool_completed id output ∷ tools_of events
tools_of (event ∷ events) = tools_of events

run_loop-approved_example : All (Allowed (approve ∷ [])) (run_of (approve ∷ [])).0
run_loop-approved_example =
    run_loop-approved services config fresh in_order 5 (codes "hello") (approve ∷ []) true
      (new_window not_exist) (λ turn use_no batch c place. place)

run_loop-Ended_example : Ended (run_of (approve ∷ [])).1 (run_of (approve ∷ [])).0
run_loop-Ended_example =
    run_loop-Ended services config fresh in_order 5 (codes "hello") (approve ∷ []) true
      (new_window not_exist)

collect_approvals-Ends_example :
    Ends
      (approve ∷ [])
      true
      (build_pending (fresh 0) (call ∷ []))
      (collect_approvals (approve ∷ []) true (build_pending (fresh 0) (call ∷ [])))
collect_approvals-Ends_example =
    collect_approvals-Ends (approve ∷ []) true (build_pending (fresh 0) (call ∷ []))

abbrev granted_calls : List PendingCall
granted_calls =
    record {
      id = codes "c1";
      name = codes "list_files";
      args = no_fields;
      approval = granted;
      reason = [];
    }
    ∷ []

approved_run :
    tools_of (run_of (approve ∷ [])).0
    ≡ tool_started (codes "c1") ∷ tool_completed (codes "c1") (codes "a.go") ∷ []
unfolding run_loop prepare turns ask respond respond_with act_on after_tools as_proposed
    build_pending build_pending_from put_call collect_approvals are_all_decided decide_call judge
    judge_as any_was_denied as_tool_calls execute_tools execute_tool_call execute_as run_tool go_on
    system_content start_run complete_run add_message add_appended build_context snapshot set_params
    append_line load_tail history_budget_of bytes_eq
approved_run = refl

refused_run : tools_of (run_of []).0 ≡ []
unfolding run_loop prepare turns ask respond respond_with act_on after_tools as_proposed
    build_pending build_pending_from put_call collect_approvals are_all_decided decide_call judge
    judge_as any_was_denied as_tool_calls execute_tools execute_tool_call execute_as run_tool go_on
    system_content start_run complete_run add_message add_appended build_context snapshot set_params
    append_line load_tail history_budget_of bytes_eq
refused_run = refl
