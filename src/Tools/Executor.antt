-- ===== src/Tools/Executor.antt =====
-- An agent that executes its calls with the tools of a registry: the calls that internal/agent/tools.go
-- and previews of internal/agent/approvals.go make of tool.ToolExecutor, with the callbacks of skills.
use kontekst.Prelude.{some, Bytes}
use kontekst.Core.{SkillMetadata}
use kontekst.Agent.Types.{Services}
use kontekst.Tools.Registry.{SkillCallbacks, ToolContext, ToolRegistry, execute_tool, preview_tool}
use kontekst.Tools.Builtin.{World, OwnFiles, on_conversation}

module _ {C : Type 0} (services : Services C) (set_active_skill : SkillMetadata → C → C) where
  unfoldable pub skill_callbacks : SkillCallbacks C
  skill_callbacks = record {
    context_injector = services.add_message;
    set_active_skill = some set_active_skill;
  }

  unfoldable pub call_context : (working_dir : Bytes) → ToolContext C
  call_context working_dir = record { working_dir = working_dir; callbacks = some skill_callbacks }

  -- The services of `services` for the conversation, whose files are among those of the world, and the
  -- tools.
  unfoldable pub with_tools :
      OwnFiles C → ToolRegistry C (World C) → (working_dir : Bytes) → Services (World C)
  with_tools own tools working_dir = record {
    system_content = λ w. services.system_content w.conversation;
    start_run = λ params. on_conversation own (services.start_run params);
    complete_run = λ w. (on_conversation own (λ c. (tt, services.complete_run c)) w).1;
    add_message = λ m. on_conversation own (services.add_message m);
    build_context = on_conversation own services.build_context;
    take_snapshot = λ w. services.take_snapshot w.conversation;
    count_tokens = λ text. on_conversation own (services.count_tokens text);
    generate_chat = λ messages. on_conversation own (services.generate_chat messages);
    tool_definitions_json = λ w. services.tool_definitions_json w.conversation;
    execute = λ name args w. execute_tool tools name args (call_context working_dir) w;
    preview = λ name args w. (preview_tool tools name args (call_context working_dir) w, w);
    json_of = services.json_of;
  }
