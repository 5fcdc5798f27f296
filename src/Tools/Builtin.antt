-- ===== src/Tools/Builtin.antt =====
-- The tools that internal/app/setup.go registers: RegisterAll of internal/tool/builtin/builtin.go,
-- RegisterSkill and RegisterCommand. The texts of results, their previews and globbing are parameters.
use kontekst.Prelude.{ℕ, Bool, if◌then◌else◌, true, false, [], Option, none, some, Bytes, codes}
use kontekst.Core.{Fields}
use kontekst.EditFile.Tool.{Stored, FileStore, FileTool, Outcome, execute}
use kontekst.FileTools.Read.{ReadText, read_file}
use kontekst.FileTools.Write.{DirectoryFailure, WriteOutcome, preview_write, execute_write}
use kontekst.FileTools.Listed.{Globs, list_files}
use kontekst.Skill.Registry.{Skills}
use kontekst.Command.Registry.{Commands}
use kontekst.Command.Tool.{Process, Ran, ToolOutcome, preview_command, execute_command}
use kontekst.Agent.Types.{Reply, reply}
use kontekst.Tools.Registry.{ToolContext, Tool, ToolRegistry, add_tool}
use kontekst.Tools.Skill.{execute_skill}
use kontekst.Tools.WebFetch.{HttpClient, WebToolsConfig, web_fetch}

-- The files, and the conversation `C` of the agent.
pub record World (C : Type 0) : Type 0 where
  pub files : FileStore
  pub conversation : C

-- The files that the conversation reads and writes, which are its session file and the request logs of
-- its provider: which they are, what it leaves in them, and how it finds them.
pub record OwnFiles (C : Type 0) : Type 0 where
  pub owns : Bytes → Bool
  pub stored : C → Bytes → Stored
  pub see : (Bytes → Stored) → C → C

-- A step of the conversation, which finds its files as they are in the store and writes them there.
unfoldable pub on_conversation : {C A : Type 0} → OwnFiles C → (C → A × C) → World C → A × World C
on_conversation own act w =
    let (result, c) = act (own.see w.files.at w.conversation) in
    (
      result,
      record {
        files = record {
          at = λ p. if own.owns p then own.stored c p else w.files.at p;
          write_error = w.files.write_error;
        };
        conversation = c;
      },
    )

-- What a result prints.
pub record Texts : Type 0 where
  pub of_read : ReadText → Reply Bytes
  pub of_write : Fields → WriteOutcome → Reply Bytes
  pub of_edit : Fields → Outcome ℕ → Reply Bytes
  pub of_command : ToolOutcome → Reply Bytes
  pub edit_preview : FileTool → (working_dir : Bytes) → FileStore → Fields → Reply Bytes

-- What the tools use.
pub record ToolSetup : Type 0 where
  pub base_dir : Bytes
  pub max_size_bytes : ℕ
  pub web_config : WebToolsConfig
  pub client : HttpClient
  pub globs : FileStore → Globs
  pub mkdir : (full_path : Bytes) → Option DirectoryFailure
  pub lookup_env : Bytes → Option Bytes
  pub exec : Process → FileStore → Ran × FileStore
  pub texts : Texts

abbrev pub file_tool : ToolSetup → FileTool
file_tool setup = record { base_dir = setup.base_dir; max_size_bytes = setup.max_size_bytes }

module _ {C : Type 0} (own : OwnFiles C) (setup : ToolSetup) where
  -- A tool that changes files does not touch the conversation, and the other way round.
  abbrev on_files :
      (Fields → ToolContext C → FileStore → Reply Bytes × FileStore)
      → Fields
      → ToolContext C
      → World C
      → Reply Bytes × World C
  on_files act args ctx w =
      let (output, files) = act args ctx w.files in
      (output, record { files = files; conversation = w.conversation })

  unfoldable pub read_file_tool : Tool C (World C)
  read_file_tool = record {
    name = codes "read_file";
    requires_approval = true;
    execute = λ args ctx w.
        (setup.texts.of_read (read_file setup.base_dir ctx.working_dir w.files args), w);
    preview = none;
  }

  unfoldable pub list_files_tool : Tool C (World C)
  list_files_tool = record {
    name = codes "list_files";
    requires_approval = true;
    execute =
        λ args ctx w. (list_files (setup.globs w.files) setup.base_dir ctx.working_dir args, w);
    preview = none;
  }

  unfoldable pub write_files : Fields → ToolContext C → FileStore → Reply Bytes × FileStore
  write_files args ctx files =
      let (output, files') =
        execute_write setup.mkdir (file_tool setup) ctx.working_dir files args in
      (setup.texts.of_write args output, files')

  unfoldable pub write_file_tool : Tool C (World C)
  write_file_tool = record {
    name = codes "write_file";
    requires_approval = true;
    execute = on_files write_files;
    preview =
        some (λ args ctx w. reply (preview_write (file_tool setup) ctx.working_dir w.files args));
  }

  unfoldable pub edit_files : Fields → ToolContext C → FileStore → Reply Bytes × FileStore
  edit_files args ctx files =
      let (output, files') = execute (file_tool setup) ctx.working_dir files args in
      (setup.texts.of_edit args output, files')

  unfoldable pub edit_file_tool : Tool C (World C)
  edit_file_tool = record {
    name = codes "edit_file";
    requires_approval = true;
    execute = on_files edit_files;
    preview =
        some
          (λ args ctx w. setup.texts.edit_preview (file_tool setup) ctx.working_dir w.files args);
  }

  unfoldable pub web_fetch_tool : Tool C (World C)
  web_fetch_tool = record {
    name = codes "web_fetch";
    requires_approval = true;
    execute = λ args ctx w. (web_fetch setup.client setup.web_config args, w);
    preview = none;
  }

  unfoldable pub skill_tool : Skills → Tool C (World C)
  skill_tool skills = record {
    name = codes "skill";
    requires_approval = false;
    execute = λ args ctx. on_conversation own (execute_skill skills args ctx);
    preview = none;
  }

  unfoldable pub run_files : Commands → Fields → ToolContext C → FileStore → Reply Bytes × FileStore
  run_files commands args ctx files =
      let (output, files') =
        execute_command setup.lookup_env setup.exec commands args ctx.working_dir files in
      (setup.texts.of_command output, files')

  unfoldable pub command_tool : Commands → Tool C (World C)
  command_tool commands = record {
    name = codes "run_command";
    requires_approval = true;
    execute = on_files (run_files commands);
    preview = some (λ args ctx w. reply (preview_command commands args ctx.working_dir));
  }

  -- RegisterAll
  unfoldable pub register_all : ToolRegistry C (World C) → ToolRegistry C (World C)
  register_all tools = add_tool web_fetch_tool (
      add_tool edit_file_tool
        (add_tool write_file_tool (add_tool list_files_tool (add_tool read_file_tool tools))))

  -- The registry of the program: RegisterAll, RegisterSkill and RegisterCommand.
  unfoldable pub setup_tools : Skills → Commands → ToolRegistry C (World C)
  setup_tools skills commands =
      add_tool (command_tool commands) (add_tool (skill_tool skills) (register_all []))
