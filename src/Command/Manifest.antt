-- ===== src/Command/Manifest.antt =====
-- A command and its manifest, internal/command/command.go and loader.go. The TOML library is a
-- parameter.
use kontekst.Prelude.Int.{ℤ, pos, negsuc}
use kontekst.Prelude.{
  ℕ, zero, suc, Bool, not, ◌&&◌, ◌||◌, List, [], ◌∷◌, Option, none, some, Bytes, codes, bytes_eq,
  ltb, if◌then◌else◌,
}
use kontekst.Prelude.Strings.{has_prefix}
use kontekst.Core.{is_empty}
use kontekst.Paths.{clean_relative, starts_with, join_path}
use kontekst.Files.{is_stored}
use kontekst.EditFile.Tool.{Stored, missing, unreadable, file, FileStore}
use kontekst.Agent.Types.{Reply, reply, error}

pub record Argument : Type 0 where
  pub name : Bytes
  pub type_ : Bytes
  pub description : Bytes
  pub required : Bool
  pub default : Bytes

pub record Command : Type 0 where
  pub name : Bytes
  pub description : Bytes
  pub runtime : Bytes
  pub working_dir : Bytes
  pub timeout : ℕ
  pub arguments : List Argument
  pub dir : Bytes
  pub script_path : Bytes
  pub requirements_file : Bytes

pub data CommandError : Type 0 where
  no_name no_argument_name : CommandError
  invalid_runtime invalid_working_dir invalid_requirements : Bytes → CommandError
  invalid_type : (name type_ : Bytes) → CommandError
  no_manifest bad_manifest : (error : Bytes) → CommandError
  no_script : (script_name dir_path : Bytes) → CommandError

-- The loop over the arguments; `none` is a nil error.
unfoldable pub validate_arguments_from : List Argument → Option CommandError
validate_arguments_from [] = none
validate_arguments_from (arg ∷ arguments) =
    let rest = validate_arguments_from arguments in
    if is_empty arg.name
    then some no_argument_name
    else if not (bytes_eq arg.type_ (codes "string"))
    then some (invalid_type arg.name arg.type_)
    else rest

-- filepath.Clean keeps a leading slash.
unfoldable pub leaves_directory : (path : Bytes) → Bool
leaves_directory path = starts_with 47 path || has_prefix (codes "..") (clean_relative path)

unfoldable pub validate : Command → Option CommandError
validate c =
    if is_empty c.name
    then some no_name
    else if not (bytes_eq c.runtime (codes "bash")) && not (bytes_eq c.runtime (codes "python"))
    then some (invalid_runtime c.runtime)
    else if not (bytes_eq c.working_dir (codes "command"))
        && not (bytes_eq c.working_dir (codes "agent"))
    then some (invalid_working_dir c.working_dir)
    else if not (is_empty c.requirements_file) && leaves_directory c.requirements_file
    then some (invalid_requirements c.requirements_file)
    else validate_arguments_from c.arguments

pub record Manifest : Type 0 where
  pub name : Bytes
  pub description : Bytes
  pub runtime : Bytes
  pub working_dir : Bytes
  pub timeout : ℤ
  pub arguments : List Argument
  pub requirements : Bytes

pub data LoadedCommand : Type 0 where
  loaded : Command → LoadedCommand
  fails : CommandError → LoadedCommand

-- The timeout in seconds: 60 if it is not positive, and at most 300.
unfoldable pub clamp_timeout : ℤ → ℕ
clamp_timeout (pos zero) = 60
clamp_timeout (pos (suc n)) = if ltb 300 (suc n) then 300 else suc n
clamp_timeout (negsuc n) = 60

-- The script that goes with a runtime.
unfoldable pub script_name_of : Bytes → Option Bytes
script_name_of runtime =
    if bytes_eq runtime (codes "bash")
    then some (codes "run.sh")
    else if bytes_eq runtime (codes "python")
    then some (codes "run.py")
    else none

unfoldable pub command_of : (dir_path script_path : Bytes) → Manifest → Command
command_of dir_path script_path m = record {
  name = m.name;
  description = m.description;
  runtime = m.runtime;
  working_dir = if is_empty m.working_dir then codes "command" else m.working_dir;
  timeout = clamp_timeout m.timeout;
  arguments = m.arguments;
  dir = dir_path;
  script_path = script_path;
  requirements_file = m.requirements;
}

unfoldable pub checked : Command → Option CommandError → LoadedCommand
checked c none = loaded c
checked c (some e) = fails e

unfoldable pub with_script :
    FileStore → (dir_path : Bytes) → Manifest → Option Bytes → LoadedCommand
with_script store dir_path m none = fails (invalid_runtime m.runtime)
with_script store dir_path m (some script_name) =
    let script_path = join_path dir_path script_name in
    let c = command_of dir_path script_path m in
    if is_stored (store.at script_path)
    then checked c (validate c)
    else fails (no_script script_name dir_path)

unfoldable pub with_manifest : FileStore → (dir_path : Bytes) → Reply Manifest → LoadedCommand
with_manifest store dir_path (error e) = fails (bad_manifest e)
with_manifest store dir_path (reply m) = with_script store dir_path m (script_name_of m.runtime)

module _ (unmarshal : Bytes → Reply Manifest) (store : FileStore) where
  unfoldable pub with_data : (dir_path : Bytes) → Stored → LoadedCommand
  with_data dir_path missing = fails (no_manifest (codes "no such file or directory"))
  with_data dir_path (unreadable e) = fails (no_manifest e)
  with_data dir_path (file bytes) = with_manifest store dir_path (unmarshal bytes)

  unfoldable pub load_command_dir : (dir_path : Bytes) → LoadedCommand
  load_command_dir dir_path =
      with_data dir_path (store.at (join_path dir_path (codes "command.toml")))
