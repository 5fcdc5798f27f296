-- ===== src/Command/Registry.antt =====
-- The commands by name, internal/command/registry.go.
use kontekst.Prelude.{
  Bool, true, false, List, [], ◌∷◌, ◌++◌, Option, none, some, Bytes, codes, bytes_eq, ltb, ◌==◌,
  if◌then◌else◌,
}
use kontekst.Core.{is_empty, has_any}
use kontekst.Paths.{join_path}
use kontekst.Conversation.Window.{quote}
use kontekst.Files.{Entry, Listing, no_directory, unlisted, entries}
use kontekst.EditFile.Tool.{FileStore}
use kontekst.Agent.Types.{Reply}
use kontekst.Command.Manifest.{
  Argument, Command, Manifest, LoadedCommand, loaded, fails, load_command_dir,
}

-- `map[string]*Command`: each command stands under its own name, once.
abbrev pub Commands : Type 0
Commands = List Command

unfoldable pub put_command : Command → Commands → Commands
put_command cmd [] = cmd ∷ []
put_command cmd (c ∷ commands) =
    let rest = put_command cmd commands in
    if bytes_eq c.name cmd.name then cmd ∷ commands else c ∷ rest

unfoldable pub get_command : (name : Bytes) → Commands → Option Command
get_command name [] = none
get_command name (c ∷ commands) =
    let rest = get_command name commands in if bytes_eq c.name name then some c else rest

-- A command that does not load is skipped.
unfoldable pub put_loaded_command : LoadedCommand → Commands → Commands
put_loaded_command (fails e) commands = commands
put_loaded_command (loaded cmd) commands = put_command cmd commands

module _ (unmarshal : Bytes → Reply Manifest) (store : FileStore) (commands_dir : Bytes) where
  unfoldable pub load_commands : List Entry → Commands → Commands
  load_commands [] commands = commands
  load_commands (e ∷ es) commands = load_commands es (
      if e.is_dir
      then put_loaded_command (load_command_dir unmarshal store (join_path commands_dir e.name))
          commands
      else commands)

  -- Load
  unfoldable pub load_registry : Listing → Option Bytes × Commands
  load_registry no_directory = (none, [])
  load_registry (unlisted e) = (some e, [])
  load_registry (entries es) = (none, load_commands es [])

-- The order of sort.Strings.
unfoldable pub bytes_below : Bytes → Bytes → Bool
bytes_below a [] = false
bytes_below [] (c ∷ b) = true
bytes_below (x ∷ a) (y ∷ b) =
    let rest = bytes_below a b in if ltb x y then true else if x == y then rest else false

unfoldable pub insert_command : Command → Commands → Commands
insert_command cmd [] = cmd ∷ []
insert_command cmd (c ∷ commands) =
    let rest = insert_command cmd commands in
    if bytes_below c.name cmd.name then c ∷ rest else cmd ∷ c ∷ commands

unfoldable pub sort_commands : Commands → Commands
sort_commands [] = []
sort_commands (c ∷ commands) = insert_command c (sort_commands commands)

unfoldable pub argument_text : Argument → Bytes
argument_text arg =
    arg.name
    ++ (codes " ("
        ++ (arg.type_
            ++ ((if arg.required then codes ", required" else codes ", optional")
                ++ ((if is_empty arg.default then [] else codes ", default: " ++ quote arg.default)
                    ++ codes ")"))))

unfoldable pub argument_texts : List Argument → Bytes
argument_texts [] = []
argument_texts (arg ∷ []) = argument_text arg
argument_texts (arg ∷ (next ∷ arguments)) =
    argument_text arg ++ (codes ", " ++ argument_texts (next ∷ arguments))

unfoldable pub command_text : Command → Bytes
command_text cmd =
    codes "- "
    ++ (cmd.name
        ++ (codes ": "
            ++ (cmd.description
                ++ (10
                    ∷ (if has_any cmd.arguments
                        then codes "  Arguments: " ++ (argument_texts cmd.arguments ++ (10 ∷ []))
                        else [])))))

unfoldable pub command_texts : Commands → Bytes
command_texts [] = []
command_texts (c ∷ commands) = command_text c ++ command_texts commands

-- Summaries
unfoldable pub command_summaries : Commands → Bytes
command_summaries commands = command_texts (sort_commands commands)
