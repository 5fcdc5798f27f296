-- ===== src/Tools/Sandbox.antt =====
-- What the tools of internal/tool/builtin, and a run of internal/agent/agent.go with them, change of the
-- files outside of the directory that they work in.
use mathlib.Core.Bool.{true≢false}
use kontekst.Prelude.{
  ◌≡◌, ◌⊎◌, inl, inr, refl, sym, ap, subst, ◌∙◌, Bool, true, false, [], ◌∷◌, Option, none, some,
  Bytes, bytes_eq, codes, All, if_ind, if◌then◌else◌, Bool-cases,
}
use kontekst.Core.{is_empty, Fields, SkillMetadata}
use kontekst.Paths.{get_string_arg}
use kontekst.EditFile.Tool.{FileStore, resolve_base_dir}
use kontekst.Skill.Registry.{Skills}
use kontekst.Command.Registry.{Commands, get_command}
use kontekst.Command.Tool.{ToolOutcome, execute_command, run_named, run_command}
use kontekst.Agent.Approvals.{Command}
use kontekst.Agent.Types.{Services}
use kontekst.Agent.Keeps.{Keeps}
use kontekst.Tools.Registry.{
  ToolContext, Tool, ToolRegistry, add_tool, get_tool, execute_found, execute_tool,
}
use kontekst.Tools.Builtin.{
  World, OwnFiles, on_conversation, ToolSetup, file_tool, read_file_tool, list_files_tool,
  write_files, write_file_tool, edit_files, edit_file_tool, web_fetch_tool, skill_tool, run_files,
  command_tool, register_all, setup_tools,
}
use kontekst.Tools.Below.{StaysAt}
use kontekst.Tools.Confined.{execute-Confined, execute_write-Confined}

-- There is no command that the tool could run, or the tool is another one.
abbrev pub NoCommand : (name : Bytes) → Commands → Type 0
NoCommand name commands = (commands ≡ []) ⊎ (bytes_eq (codes "run_command") name ≡ false)

no_commands :
    (setup : ToolSetup) (args : Fields) (working_dir : Bytes) (files : FileStore)
    → (execute_command setup.lookup_env setup.exec [] args working_dir files).1 ≡ files
unfolding execute_command run_named run_command get_command
no_commands setup args working_dir files = named (get_string_arg (codes "name") args)
  where
    named :
        (found : Option Bytes)
        → (run_named setup.lookup_env setup.exec [] args working_dir found files).1 ≡ files
    named none = refl
    named (some n) =
        if_ind (λ (out : ToolOutcome × FileStore). out.1 ≡ files) (is_empty n) (λ _. refl)
          (λ _. refl)

-- Every path that is no file of the conversation holds what it held, or is below the directory, or is one of
-- the directories that lead there and were missing.
abbrev pub Sandboxed :
    {C : Type 0} → OwnFiles C → (base : Bytes) → (before after : FileStore) → Type 0
Sandboxed own base before after = (p : Bytes) → (own.owns p ≡ true) ⊎ StaysAt base before after p

on_conversation-Sandboxed :
    {C A : Type 0} (own : OwnFiles C) (base : Bytes) (act : C → A × C) (w : World C)
    → Sandboxed own base w.files (on_conversation own act w).1.files
unfolding on_conversation
on_conversation-Sandboxed own base act w p = elim (Bool-cases (own.owns p)) [
  | inl owned ↦ inl owned
  | inr other ↦ inr (
      inl (
        ap
          (λ (b : Bool).
            if b then own.stored (act (own.see w.files.at w.conversation)).1 p else w.files.at p)
          other))
]

module _ (C : Type 0) (own : OwnFiles C) (setup : ToolSetup) where
  abbrev StaysInside : Tool C (World C) → Type 0
  StaysInside t =
      (args : Fields) (ctx : ToolContext C) (w : World C)
      → Sandboxed own (resolve_base_dir ctx.working_dir setup.base_dir) w.files
          (t.execute args ctx w).1.files

  unchanged : (base : Bytes) (store : FileStore) → Sandboxed own base store store
  unchanged base store p = inr (inl refl)

  module _ (name : Bytes) where
    -- A tool that stands under the name.
    abbrev Named : Tool C (World C) → Type 0
    Named t = bytes_eq t.name name ≡ true → StaysInside t

    add_tool-Named :
        (added : Tool C (World C)) (tools : ToolRegistry C (World C))
        → Named added
        → All Named tools
        → All Named (add_tool added tools)
    unfolding add_tool
    add_tool-Named added [] h hs = (h, tt)
    add_tool-Named added (t ∷ tools) h hs =
        if_ind (All Named) (bytes_eq t.name added.name) (λ _. (h, hs.1))
          (λ _. (hs.0, add_tool-Named added tools h hs.1))

    get_tool-Named :
        (tools : ToolRegistry C (World C)) (args : Fields) (ctx : ToolContext C) (w : World C)
        → All Named tools
        → Sandboxed own
            (resolve_base_dir ctx.working_dir setup.base_dir)
            w.files
            (execute_found (get_tool name tools) args ctx w).1.files
    unfolding get_tool execute_found
    get_tool-Named [] args ctx w hs = unchanged _ w.files
    get_tool-Named (t ∷ tools) args ctx w hs =
        if_ind
          (λ (found : Option (Tool C (World C))).
            Sandboxed own (resolve_base_dir ctx.working_dir setup.base_dir) w.files
              (execute_found found args ctx w).1.files)
          (bytes_eq t.name name) (λ same. hs.0 same args ctx w)
          (λ _. get_tool-Named tools args ctx w hs.1)

    command_tool-Named :
        (commands : Commands) → NoCommand name commands → Named (command_tool own setup commands)
    unfolding command_tool run_files
    command_tool-Named commands (inl empty) same args ctx w =
        subst
          (λ (files : FileStore).
            Sandboxed own (resolve_base_dir ctx.working_dir setup.base_dir) w.files files)
          (sym (
            ap
              (λ (cs : Commands).
                (execute_command setup.lookup_env setup.exec cs args ctx.working_dir w.files).1)
              empty
            ∙ no_commands setup args ctx.working_dir w.files))
          (unchanged _ w.files)
    command_tool-Named commands (inr other) same args ctx w = absurd (true≢false (sym same ∙ other))

    setup_tools-Named :
        (skills : Skills) (commands : Commands)
        → NoCommand name commands
        → All Named (setup_tools own setup skills commands)
    unfolding setup_tools register_all read_file_tool list_files_tool write_file_tool edit_file_tool
        web_fetch_tool skill_tool write_files edit_files
    setup_tools-Named skills commands h = add_tool-Named _ _ (command_tool-Named commands h) (
        add_tool-Named _ _ (λ _ args ctx w. on_conversation-Sandboxed own _ _ w)
          (add_tool-Named _ _ (λ _ args ctx w. unchanged _ w.files)
            (add_tool-Named _ _
              (λ _ args ctx w p.
                inr (execute-Confined (file_tool setup) ctx.working_dir w.files args p))
              (add_tool-Named _ _
                (λ _ args ctx w p. inr (
                  execute_write-Confined (file_tool setup) ctx.working_dir w.files args setup.mkdir
                    p))
                (add_tool-Named _ _ (λ _ args ctx w. unchanged _ w.files)
                  (add_tool-Named _ _ (λ _ args ctx w. unchanged _ w.files) tt))))))

    -- Whatever tool of the program's registry is executed with whatever arguments, if it is not run_command or there is no command, every path that is not below the directory that the call works in holds what it held, but for the files of the conversation, which the skill tool writes, and for missing directories that lead to a path below that directory, which write_file makes.
    pub execute_tool-Confined :
        (skills : Skills) (commands : Commands) (args : Fields) (ctx : ToolContext C) (w : World C)
        → NoCommand name commands
        → Sandboxed own
            (resolve_base_dir ctx.working_dir setup.base_dir)
            w.files
            (execute_tool (setup_tools own setup skills commands) name args ctx w).1.files
    unfolding execute_tool
    execute_tool-Confined skills commands args ctx w h =
        get_tool-Named (setup_tools own setup skills commands) args ctx w
          (setup_tools-Named skills commands h)

module _ {C : Type 0} (own : OwnFiles C) (setup : ToolSetup) (services : Services C)
    (set_active_skill : SkillMetadata → C → C) (skills : Skills) (working_dir : Bytes) where
  abbrev base : Bytes
  base = resolve_base_dir working_dir setup.base_dir

  abbrev Inside : (before : FileStore) → World C → Type 0
  Inside before w = Sandboxed own base before w.files
