-- ===== src/Command/Tool.antt =====
-- The run_command tool, internal/tool/builtin/command.go. Running a process is a parameter.
use kontekst.Prelude.{
  ℕ, ◌&&◌, not, List, [], ◌∷◌, ◌++◌, Option, none, some, Bytes, codes, bytes_eq, length, take, ltb,
  if◌then◌else◌,
}
use kontekst.Core.{Fields, is_empty, has_any}
use kontekst.Diff.Text.{decimal}
use kontekst.Paths.{get_string_arg, join_path}
use kontekst.Files.{is_stored}
use kontekst.EditFile.Tool.{FileStore}
use kontekst.Command.Manifest.{Argument, Command}
use kontekst.Command.Registry.{Commands, get_command}
use kontekst.Command.Environment.{
  max_output_bytes, Values, get_value, resolve_arguments, missing_from, to_upper, env_entry,
  build_env, resolve_work_dir, venv_of, interpreter_of,
}

-- A process: its words, its directory, its environment (none is the parent's) and its limit in seconds.
pub record Process : Type 0 where
  pub words : List Bytes
  pub dir : Bytes
  pub env : Option (List Bytes)
  pub timeout : ℕ

-- What a process printed, and the error of running it.
pub record Ran : Type 0 where
  pub output : Bytes
  pub error : Option Bytes

pub data ToolError : Type 0 where
  name_required : ToolError
  command_not_found missing_argument : (name : Bytes) → ToolError
  venv_failed pip_failed : (error output : Bytes) → ToolError
  command_failed : (name error output : Bytes) → ToolError

pub data ToolOutcome : Type 0 where
  prints : Bytes → ToolOutcome
  fails : ToolError → ToolOutcome

unfoldable pub capped : Bytes → Bytes
capped output =
    if ltb max_output_bytes (length output) then take max_output_bytes output else output

-- A process reads and changes the store.
module _ (lookup_env : Bytes → Option Bytes) (exec : Process → FileStore → Ran × FileStore) where
  unfoldable pub installed : Ran × FileStore → Option ToolError × FileStore
  installed (ran, store) =
      (elim ran.error [ none ↦ none | some e ↦ some (pip_failed e ran.output) ], store)

  -- The limit of both processes is one of 120 seconds for the two.
  abbrev venv_timeout : ℕ
  venv_timeout = 120

  unfoldable pub install : Command → FileStore → Option ToolError × FileStore
  install cmd store =
      let requirements = join_path cmd.dir cmd.requirements_file in
      let pip = join_path (venv_of cmd) (codes "bin/pip") in
      let ran =
        exec
          (record {
            words = pip ∷ codes "install" ∷ codes "-r" ∷ requirements ∷ [];
            dir = cmd.dir;
            env = none;
            timeout = venv_timeout;
          })
          store in
      if is_stored (store.at requirements) then installed ran else (none, store)

  -- Behind the creation of the environment.
  unfoldable pub created : Command → Option Bytes → Ran × FileStore → Option ToolError × FileStore
  created cmd (some e) (ran, store) = (some (venv_failed e ran.output), store)
  created cmd none (ran, store) = install cmd store

  unfoldable pub ensure_venv : Command → FileStore → Option ToolError × FileStore
  ensure_venv cmd store =
      let ran =
        exec
          (record {
            words = codes "python3" ∷ codes "-m" ∷ codes "venv" ∷ venv_of cmd ∷ [];
            dir = cmd.dir;
            env = none;
            timeout = venv_timeout;
          })
          store in
      if is_stored (store.at (venv_of cmd)) then (none, store) else created cmd ran.0.error ran

  -- A command is found under its own name, which the error repeats.
  unfoldable pub finished : Command → Ran × FileStore → ToolOutcome × FileStore
  finished cmd (ran, store) = (
    elim ran.error [
      | some e ↦ fails (command_failed cmd.name e (capped ran.output))
      | none ↦ prints (capped ran.output)
    ],
    store,
  )

  unfoldable pub process_for : FileStore → Command → Values → (working_dir : Bytes) → Process
  process_for store cmd resolved working_dir = record {
    words = interpreter_of store cmd ∷ cmd.script_path ∷ [];
    dir = resolve_work_dir cmd working_dir;
    env = some (build_env lookup_env cmd resolved working_dir);
    timeout = cmd.timeout;
  }

  unfoldable pub run_process :
      Command
      → Values
      → (working_dir : Bytes) → Option ToolError × FileStore
      → ToolOutcome × FileStore
  run_process cmd resolved working_dir (some e, store) = (fails e, store)
  run_process cmd resolved working_dir (none, store) =
      finished cmd (exec (process_for store cmd resolved working_dir) store)

  -- Behind validateArguments.
  unfoldable pub run_with :
      Command → Values → (working_dir : Bytes) → Option Bytes → FileStore → ToolOutcome × FileStore
  run_with cmd resolved working_dir (some name) store = (fails (missing_argument name), store)
  run_with cmd resolved working_dir none store = run_process cmd resolved working_dir (
      if bytes_eq cmd.runtime (codes "python") && not (is_empty cmd.requirements_file)
      then ensure_venv cmd store
      else (none, store))

  unfoldable pub run_command :
      (name : Bytes)
      → Fields
      → (working_dir : Bytes) → Option Command
      → FileStore
      → ToolOutcome × FileStore
  run_command name args working_dir none store = (fails (command_not_found name), store)
  run_command name args working_dir (some cmd) store =
      let resolved = resolve_arguments cmd args in
      run_with cmd resolved working_dir (missing_from cmd.arguments resolved) store

  unfoldable pub run_named :
      Commands → Fields → (working_dir : Bytes) → Option Bytes → FileStore → ToolOutcome × FileStore
  run_named commands args working_dir none store = (fails name_required, store)
  run_named commands args working_dir (some name) store =
      if is_empty name
      then (fails name_required, store)
      else run_command name args working_dir (get_command name commands) store

  -- Execute of run_command.
  unfoldable pub execute_command :
      Commands → Fields → (working_dir : Bytes) → FileStore → ToolOutcome × FileStore
  execute_command commands args working_dir store =
      run_named commands args working_dir (get_string_arg (codes "name") args) store

-- The lines of the environment in a preview.
unfoldable pub env_lines : List Argument → Values → Bytes
env_lines [] resolved = []
env_lines (arg ∷ arguments) resolved =
    let rest = env_lines arguments resolved in
    elim (get_value arg.name resolved) [
      | none ↦ rest
      | some value ↦
          codes "  "
          ++ (env_entry (codes "KONTEKST_ARG_" ++ to_upper arg.name) value ++ (10 ∷ rest))
    ]

unfoldable pub preview_of_command : Command → Values → (working_dir : Bytes) → Bytes
preview_of_command cmd resolved working_dir =
    codes "Command: "
    ++ (cmd.name
        ++ (10
            ∷ (codes "Runtime: "
                ++ (cmd.runtime
                    ++ (10
                        ∷ (codes "Script:  "
                            ++ (cmd.script_path
                                ++ (10
                                    ∷ (codes "Timeout: "
                                        ++ (decimal cmd.timeout
                                            ++ (codes "s"
                                                ++ (10
                                                    ∷ (codes "WorkDir: "
                                                        ++ (resolve_work_dir cmd working_dir
                                                            ++ (10
                                                            ∷ (if has_any resolved
                                                            then 10
                                                            ∷ (codes "Environment:"
                                                            ++ (10
                                                            ∷ env_lines cmd.arguments resolved))
                                                            else []))))))))))))))))

unfoldable pub preview_found :
    (name : Bytes) → Fields → (working_dir : Bytes) → Option Command → Bytes
preview_found name args working_dir none = codes "Command not found: " ++ name
preview_found name args working_dir (some cmd) =
    preview_of_command cmd (resolve_arguments cmd args) working_dir

-- Preview of run_command, whose error is always nil.
unfoldable pub preview_command : Commands → Fields → (working_dir : Bytes) → Bytes
preview_command commands args working_dir = elim (get_string_arg (codes "name") args) [
  | none ↦ []
  | some name ↦
      if is_empty name then [] else preview_found name args working_dir (get_command name commands)
]
