-- ===== src/Command/Tests.antt =====
-- A directory with one command.
use kontekst.Prelude.Int.{pos}
use kontekst.Prelude.{
  ◌≡◌, refl, List, [], ◌∷◌, none, Bytes, bytes_eq, codes, true, false, All, if◌then◌else◌,
}
use kontekst.Core.{Fields, no_fields, field, text, object}
use kontekst.Paths.{
  parts_from, parts_of, is_dot, is_dot_dot, clean_parts, join_parts, joined_parts, join_path,
  lookup, get_string_arg,
}
use kontekst.Files.{Entry, entries}
use kontekst.EditFile.Tool.{missing, file, FileStore}
use kontekst.Agent.Types.{Reply, reply}
use kontekst.Command.Manifest.{
  Command, Manifest, validate, validate_arguments_from, leaves_directory, clamp_timeout,
  script_name_of, command_of, checked, with_script, with_manifest, with_data, load_command_dir,
}
use kontekst.Command.Registry.{
  put_command, put_loaded_command, load_commands, load_registry, get_command,
}
use kontekst.Command.Environment.{
  resolve_arguments, resolve_from, resolve_argument, provided, argument_fields, put_value,
  missing_from, get_value,
}
use kontekst.Command.Tool.{
  Process, Ran, prints, fails, missing_argument, execute_command, run_named, run_command, run_with,
  run_process, finished, process_for, capped,
}
use kontekst.Command.Valid.{Runnable, load_registry-Runnable}
use kontekst.Command.Complete.{Complete, execute_command-Complete}

abbrev manifest : Manifest
manifest = record {
  name = codes "hello";
  description = codes "Greets";
  runtime = codes "bash";
  working_dir = [];
  timeout = pos 900;
  arguments =
      record {
        name = codes "who";
        type_ = codes "string";
        description = [];
        required = true;
        default = [];
      }
      ∷ [];
  requirements = [];
}

abbrev store : FileStore
store = record {
  at = λ path.
      if bytes_eq path (codes "/c/hello/command.toml")
      then file (codes "toml")
      else if bytes_eq path (codes "/c/hello/run.sh")
      then file (codes "echo hi")
      else missing;
  write_error = λ path. none;
}

abbrev unmarshal : Bytes → Reply Manifest
unmarshal bytes = reply manifest

abbrev listing : List Entry
listing =
    record { name = codes "hello"; is_dir = true }
    ∷ record { name = codes "notes"; is_dir = false }
    ∷ []

abbrev hello : Command
hello = command_of (codes "/c/hello") (codes "/c/hello/run.sh") manifest

hello_loaded : (load_registry unmarshal store (codes "/c") (entries listing)).1 ≡ hello ∷ []
unfolding load_registry load_commands put_loaded_command put_command load_command_dir with_data
    with_manifest with_script script_name_of command_of checked validate validate_arguments_from
    leaves_directory clamp_timeout join_path joined_parts parts_of parts_from clean_parts is_dot
    is_dot_dot join_parts bytes_eq
hello_loaded = refl

load_registry-Runnable_example :
    All (Runnable store) (load_registry unmarshal store (codes "/c") (entries listing)).1
load_registry-Runnable_example =
    load_registry-Runnable unmarshal store (codes "/c") (entries listing)

abbrev exec : Process → FileStore → Ran × FileStore
exec process s = (record { output = codes "hi"; error = none }, s)

abbrev named_only : Fields
named_only = field (codes "name") (text (codes "hello")) no_fields

needs_argument :
    (execute_command (λ key. none) exec (hello ∷ []) named_only [] store).0
    ≡ fails (missing_argument (codes "who"))
unfolding execute_command run_named run_command run_with get_command command_of lookup
    get_string_arg resolve_arguments resolve_from resolve_argument provided argument_fields
    missing_from get_value bytes_eq
needs_argument = refl

runs :
    (execute_command
      (λ key. none)
      exec
      (hello ∷ [])
      (field (codes "name") (text (codes "hello")) (
        field
          (codes "arguments")
          (object (field (codes "who") (text (codes "me")) no_fields))
          no_fields))
      []
      store).0
    ≡ prints (codes "hi")
unfolding execute_command run_named run_command run_with run_process finished process_for capped
    get_command command_of lookup get_string_arg resolve_arguments resolve_from resolve_argument
    provided argument_fields put_value missing_from get_value bytes_eq
runs = refl

execute_command-Complete_example :
    Complete
      (λ key. none)
      exec
      (hello ∷ [])
      named_only
      []
      store
      (execute_command (λ key. none) exec (hello ∷ []) named_only [] store)
execute_command-Complete_example =
    execute_command-Complete (λ key. none) exec (hello ∷ []) named_only [] store
