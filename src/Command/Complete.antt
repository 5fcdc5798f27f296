-- ===== src/Command/Complete.antt =====
-- What run_command of internal/tool/builtin/command.go starts: a command with all of its required arguments.
use mathlib.Core.Bool.{true≢false}
use kontekst.Prelude.{
  ◌≡◌, ◌⊎◌, inl, inr, refl, sym, ap₂, ◌∙◌, true, ◌&&◌, not, List, [], ◌∷◌, ◌++◌, Option, none, some,
  Bytes, bytes_eq, bytes_eq→eq, codes, All, In, first, later, In-append_right, Bool-cases,
  Option-cases, if_ind, if◌then◌else◌, arith,
}
use kontekst.Core.{Fields, is_empty}
use kontekst.Paths.{get_string_arg}
use kontekst.EditFile.Tool.{FileStore}
use kontekst.Command.Manifest.{Argument, Command}
use kontekst.Command.Registry.{Commands, get_command}
use kontekst.Command.Environment.{
  interpreter_of, resolve_work_dir, Values, get_value, resolve_arguments, missing_from, to_upper,
  env_entry, argument_env, build_env,
}
use kontekst.Command.Tool.{
  Process, Ran, ToolError, name_required, command_not_found, missing_argument, ToolOutcome, fails,
  ensure_venv, finished, process_for, run_process, run_with, run_command, run_named,
  execute_command,
}

-- An error in front of the first process.
abbrev pub IsRefusal : ToolError → Type 0
IsRefusal name_required = Unit
IsRefusal (command_not_found name) = Unit
IsRefusal (missing_argument name) = Unit
IsRefusal e = ⊥

-- The environment has a value for the argument.
abbrev pub Has : (env : List Bytes) → Argument → Type 0
Has env arg =
    (value : Bytes) × In (env_entry (codes "KONTEKST_ARG_" ++ to_upper arg.name) value) env

abbrev HasRequired : (env : List Bytes) → List Argument → Type 0
HasRequired env = All (λ arg. arg.required ≡ true → Has env arg)

get_value-argument_env :
    (name value : Bytes) (resolved : Values)
    → get_value name resolved ≡ some value
    → In (env_entry (codes "KONTEKST_ARG_" ++ to_upper name) value) (argument_env resolved)
unfolding get_value argument_env
get_value-argument_env name value [] h = ground arith
get_value-argument_env name value ((k, v) ∷ resolved) h = elim (Bool-cases (bytes_eq k name)) [
  | inl e ↦
      let same : v ≡ value = ground (arith, e, h) in
      first (
        ap₂ (λ (n x : Bytes). env_entry (codes "KONTEKST_ARG_" ++ to_upper n) x)
          (sym (bytes_eq→eq k name e)) (sym same))
  | inr e ↦ later (get_value-argument_env name value resolved (ground (arith, e, h)))
]

module _ (lookup_env : Bytes → Option Bytes) (cmd : Command) (resolved : Values)
    (working_dir : Bytes) where
  argument-build_env :
      (entry : Bytes)
      → In entry (argument_env resolved)
      → In entry (build_env lookup_env cmd resolved working_dir)
  unfolding build_env
  argument-build_env entry place = In-append_right _ _ (later (In-append_right _ _ place))

  missing_from-HasRequired :
      (arguments : List Argument)
      → missing_from arguments resolved ≡ none
      → HasRequired (build_env lookup_env cmd resolved working_dir) arguments
  unfolding missing_from
  missing_from-HasRequired [] h = tt
  missing_from-HasRequired (arg ∷ arguments) h = elim (Bool-cases arg.required) [
    | inr optional ↦ (
      (λ required. absurd (true≢false (sym required ∙ optional))),
      missing_from-HasRequired arguments (ground (arith, optional, h)),
    )
    | inl required ↦ elim (Option-cases (get_value arg.name resolved)) [
      | inl absent ↦ absurd (ground (arith, required, absent, h))
      | inr (value, found) ↦ (
        (λ _. (value, argument-build_env _ (get_value-argument_env arg.name value resolved found))),
        missing_from-HasRequired arguments (ground (arith, required, found, h)),
      )
    ]
  ]

module _ (lookup_env : Bytes → Option Bytes) (exec : Process → FileStore → Ran × FileStore)
    (commands : Commands) (args : Fields) (working_dir : Bytes) (store : FileStore) where
  -- The virtual environment of a Python command with requirements.
  abbrev pub prepared : Command → Option ToolError × FileStore
  prepared cmd =
      if bytes_eq cmd.runtime (codes "python") && not (is_empty cmd.requirements_file)
      then ensure_venv lookup_env exec cmd store
      else (none, store)

  -- The process runs the command's script in its working directory, with a value for every required
  -- argument in the environment that it is given.
  abbrev pub StartsScript : Command → FileStore → Process → Type 0
  StartsScript cmd store' process =
      (env : List Bytes) × (process.env ≡ some env)
      × HasRequired env cmd.arguments
      × (process.words ≡ interpreter_of store' cmd ∷ cmd.script_path ∷ [])
      × (process.dir ≡ resolve_work_dir cmd working_dir)
      × (process.timeout ≡ cmd.timeout)

  -- Refused, with the files as they were; or the command of the call's name is found, and behind what
  -- prepares it, an error, or the one process that starts its script and gives the result.
  abbrev pub Complete : ToolOutcome × FileStore → Type 0
  Complete out =
      ((e : ToolError) × IsRefusal e × (out ≡ (fails e, store)))
      ⊎ ((name : Bytes) × (cmd : Command) × (get_string_arg (codes "name") args ≡ some name)
          × (get_command name commands ≡ some cmd)
          × (((e : ToolError) × (store' : FileStore) × (prepared cmd ≡ (some e, store'))
                × (out ≡ (fails e, store')))
              ⊎ ((store' : FileStore) × (process : Process) × (prepared cmd ≡ (none, store'))
                  × StartsScript cmd store' process
                  × (out ≡ finished lookup_env exec cmd (exec process store')))))

  module _ (name : Bytes) (named : get_string_arg (codes "name") args ≡ some name) where
    run_process-Complete :
        (cmd : Command) (ready : Option ToolError × FileStore)
        → get_command name commands ≡ some cmd
        → missing_from cmd.arguments (resolve_arguments cmd args) ≡ none
        → prepared cmd ≡ ready
        → Complete (run_process lookup_env exec cmd (resolve_arguments cmd args) working_dir ready)
    unfolding run_process process_for
    run_process-Complete cmd (some e, store') found h is_ready =
        inr (name, cmd, named, found, inl (e, store', is_ready, refl))
    run_process-Complete cmd (none, store') found h is_ready = inr (
      name,
      cmd,
      named,
      found,
      inr (
        store',
        process_for lookup_env exec store' cmd (resolve_arguments cmd args) working_dir,
        is_ready,
        (
          build_env lookup_env cmd (resolve_arguments cmd args) working_dir,
          refl,
          missing_from-HasRequired lookup_env cmd (resolve_arguments cmd args) working_dir
              cmd.arguments h,
          refl,
          refl,
          refl,
        ),
        refl,
      ),
    )

    run_with-Complete :
        (cmd : Command) (missing : Option Bytes)
        → get_command name commands ≡ some cmd
        → missing_from cmd.arguments (resolve_arguments cmd args) ≡ missing
        → Complete
            (run_with lookup_env exec cmd (resolve_arguments cmd args) working_dir missing store)
    unfolding run_with
    run_with-Complete cmd (some absent) found h = inl (missing_argument absent, tt, refl)
    run_with-Complete cmd none found h = run_process-Complete cmd (prepared cmd) found h refl

    run_command-Complete :
        (cmd : Option Command)
        → get_command name commands ≡ cmd
        → Complete (run_command lookup_env exec name args working_dir cmd store)
    unfolding run_command
    run_command-Complete none found = inl (command_not_found name, tt, refl)
    run_command-Complete (some cmd) found =
        run_with-Complete cmd (missing_from cmd.arguments (resolve_arguments cmd args)) found refl

  named-Complete :
      (name : Option Bytes)
      → get_string_arg (codes "name") args ≡ name
      → Complete (run_named lookup_env exec commands args working_dir name store)
  unfolding run_named
  named-Complete none named = inl (name_required, tt, refl)
  named-Complete (some name) named =
      if_ind Complete (is_empty name) (λ _. inl (name_required, tt, refl))
        (λ _. run_command-Complete name named (get_command name commands) refl)

  -- Execute of run_command either refuses the call in front of its first process and leaves the files as they are; or it runs the command of the registry that the call names: behind the preparation of the virtual environment, whose error is the result, it starts one process, for the command's script in its working directory, with its time limit, and with an environment that has a value for each required argument.
  pub execute_command-Complete :
      Complete (execute_command lookup_env exec commands args working_dir store)
  unfolding execute_command
  execute_command-Complete = named-Complete (get_string_arg (codes "name") args) refl
