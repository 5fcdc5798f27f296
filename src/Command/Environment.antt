-- ===== src/Command/Environment.antt =====
-- What run_command of internal/tool/builtin/command.go makes of its arguments: the values, the
-- environment, the directory and the interpreter.
use kontekst.Prelude.{
  ℕ, ◌-◌, ◌&&◌, not, List, [], ◌∷◌, ◌++◌, Option, none, some, Bytes, codes, bytes_eq, leb,
  if◌then◌else◌,
}
use kontekst.Core.{Json, object, Fields, no_fields, is_empty}
use kontekst.Paths.{lookup, get_string_arg, join_path}
use kontekst.Files.{is_stored}
use kontekst.EditFile.Tool.{FileStore}
use kontekst.Command.Manifest.{Argument, Command}

abbrev pub max_output_bytes : ℕ
max_output_bytes = 131072

-- `map[string]string`, each key once.
abbrev pub Values : Type 0
Values = List (Bytes × Bytes)

unfoldable pub put_value : (key value : Bytes) → Values → Values
put_value key value [] = (key, value) ∷ []
put_value key value ((k, v) ∷ values) =
    let rest = put_value key value values in
    if bytes_eq k key then (key, value) ∷ values else (k, v) ∷ rest

unfoldable pub get_value : (key : Bytes) → Values → Option Bytes
get_value key [] = none
get_value key ((k, v) ∷ values) =
    let rest = get_value key values in if bytes_eq k key then some v else rest

-- extractArgumentMap: the strings among the values of the object "arguments".
unfoldable pub argument_fields : Option Json → Fields
argument_fields (some (object fields)) = fields
argument_fields value = no_fields

unfoldable pub provided : Fields → (name : Bytes) → Option Bytes
provided args name = get_string_arg name (argument_fields (lookup (codes "arguments") args))

unfoldable pub resolve_argument : Argument → Option Bytes → Values → Values
resolve_argument arg (some value) resolved = put_value arg.name value resolved
resolve_argument arg none resolved =
    if is_empty arg.default then resolved else put_value arg.name arg.default resolved

unfoldable pub resolve_from : (provided : Bytes → Option Bytes) → List Argument → Values → Values
resolve_from given [] resolved = resolved
resolve_from given (arg ∷ arguments) resolved =
    resolve_from given arguments (resolve_argument arg (given arg.name) resolved)

unfoldable pub resolve_arguments : Command → Fields → Values
resolve_arguments cmd args = resolve_from (provided args) cmd.arguments []

-- The first required argument without a value.
unfoldable pub missing_from : List Argument → Values → Option Bytes
missing_from [] resolved = none
missing_from (arg ∷ arguments) resolved =
    let rest = missing_from arguments resolved in
    if arg.required
    then elim (get_value arg.name resolved) [ none ↦ some arg.name | some v ↦ rest ]
    else rest

-- strings.ToUpper on ASCII.
unfoldable pub to_upper : Bytes → Bytes
to_upper [] = []
to_upper (c ∷ s) = (if leb 97 c && leb c 122 then c - 32 else c) ∷ to_upper s

abbrev pub allowed_env_keys : List Bytes
allowed_env_keys =
    codes "PATH"
    ∷ codes "HOME"
    ∷ codes "USER"
    ∷ codes "SHELL"
    ∷ codes "TMPDIR"
    ∷ codes "LANG"
    ∷ codes "TERM"
    ∷ []

unfoldable pub env_entry : (key value : Bytes) → Bytes
env_entry key value = key ++ (61 ∷ value)

unfoldable pub kept_env : (lookup_env : Bytes → Option Bytes) → List Bytes → List Bytes
kept_env lookup_env [] = []
kept_env lookup_env (key ∷ keys) =
    let rest = kept_env lookup_env keys in
    elim (lookup_env key) [ none ↦ rest | some value ↦ env_entry key value ∷ rest ]

unfoldable pub argument_env : Values → List Bytes
argument_env [] = []
argument_env ((name, value) ∷ values) =
    env_entry (codes "KONTEKST_ARG_" ++ to_upper name) value ∷ argument_env values

-- buildEnv. Go goes through a map in any order; here it is that of the first entries.
unfoldable pub build_env :
    (lookup_env : Bytes → Option Bytes) → Command → Values → (working_dir : Bytes) → List Bytes
build_env lookup_env cmd resolved working_dir =
    kept_env lookup_env allowed_env_keys
    ++ (env_entry (codes "KONTEKST_COMMAND_DIR") cmd.dir
        ∷ ((if is_empty working_dir
              then []
              else env_entry (codes "KONTEKST_WORKDIR") working_dir ∷ [])
            ++ argument_env resolved))

unfoldable pub resolve_work_dir : Command → (working_dir : Bytes) → Bytes
resolve_work_dir cmd working_dir =
    if bytes_eq cmd.working_dir (codes "agent") && not (is_empty working_dir)
    then working_dir
    else cmd.dir

unfoldable pub venv_of : Command → Bytes
venv_of cmd = join_path cmd.dir (codes ".venv")

unfoldable pub interpreter_of : FileStore → Command → Bytes
interpreter_of store cmd =
    let venv_python = join_path (venv_of cmd) (codes "bin/python") in
    if bytes_eq cmd.runtime (codes "python")
    then if is_stored (store.at venv_python) then venv_python else codes "python3"
    else codes "bash"
