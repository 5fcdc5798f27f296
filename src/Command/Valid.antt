-- ===== src/Command/Valid.antt =====
-- The commands that the registry of internal/command/registry.go holds.
use kontekst.Prelude.Int.{ℤ, pos, negsuc}
use kontekst.Prelude.{
  ℕ, zero, suc, ◌≤◌, ◌≡◌, ◌⊎◌, inl, inr, refl, sym, ap, ◌∙◌, Bool, true, false, not, ◌&&◌, List, [],
  ◌∷◌, ◌++◌, Option, none, some, Bytes, codes, bytes_eq, bytes_eq→eq, All, if_ind, arith,
  Bool-cases, ltb, if◌then◌else◌,
}
use kontekst.Core.{is_empty}
use kontekst.Paths.{clean_relative, has_dot_dot_prefix, join_path, joined_parts}
use kontekst.Paths.Inside.{Stays, base_parts, joined_parts_below}
use kontekst.Prelude.Strings.{has_prefix}
use kontekst.Files.{Entry, Listing, no_directory, unlisted, entries, is_stored}
use kontekst.EditFile.Tool.{Stored, missing, unreadable, file, FileStore}
use kontekst.Agent.Types.{Reply, reply, error}
use kontekst.Command.Manifest.{
  Argument, Command, CommandError, Manifest, LoadedCommand, loaded, fails, validate,
  validate_arguments_from, leaves_directory, clamp_timeout, script_name_of, command_of, checked,
  with_script, with_manifest, with_data, load_command_dir,
}
use kontekst.Command.Registry.{
  Commands, put_command, put_loaded_command, load_commands, load_registry,
}

-- The path of the file lies in the directory, below all of its parts.
abbrev pub Inside : (dir path : Bytes) → Type 0
Inside dir path =
    (rest : List Bytes) × (joined_parts dir path ≡ base_parts dir ++ rest) × Stays rest

-- The script that goes with the runtime.
abbrev pub HasScript : (runtime dir script_path : Bytes) → Type 0
HasScript runtime dir script_path =
    ((runtime ≡ codes "bash") × (script_path ≡ join_path dir (codes "run.sh")))
    ⊎ ((runtime ≡ codes "python") × (script_path ≡ join_path dir (codes "run.py")))

-- What holds of a command that the agent can run.
pub record Runnable (store : FileStore) (c : Command) : Type 0 where
  pub has_name : is_empty c.name ≡ false
  pub runtime : HasScript c.runtime c.dir c.script_path
  pub working_dir : (c.working_dir ≡ codes "command") ⊎ (c.working_dir ≡ codes "agent")
  pub at_least : 1 ≤ c.timeout
  pub at_most : c.timeout ≤ 300
  pub has_script : is_stored (store.at c.script_path) ≡ true
  pub requirements_inside : (c.requirements_file ≡ []) ⊎ Inside c.dir c.requirements_file
  pub arguments : All (λ a. (is_empty a.name ≡ false) × (a.type_ ≡ codes "string")) c.arguments

clamp_timeout_bounds : (t : ℤ) → (1 ≤ clamp_timeout t) × (clamp_timeout t ≤ 300)
unfolding clamp_timeout
clamp_timeout_bounds (pos zero) = (omega arith, omega arith)
clamp_timeout_bounds (pos (suc n)) =
    if_ind (λ (t : ℕ). (1 ≤ t) × (t ≤ 300)) (ltb 300 (suc n)) (λ _. (omega arith, omega arith))
      (λ h. (omega arith, ground (arith, h)))
clamp_timeout_bounds (negsuc n) = (omega arith, omega arith)

one_of : (s a b : Bytes) → (not (bytes_eq s a) && not (bytes_eq s b)) ≡ false → (s ≡ a) ⊎ (s ≡ b)
one_of s a b h = elim (Bool-cases (bytes_eq s a)) [
  | inl e ↦ inl (bytes_eq→eq s a e)
  | inr e ↦ inr (bytes_eq→eq s b (ground (arith, h, e)))
]

empty_text : (s : Bytes) → is_empty s ≡ true → s ≡ []
empty_text [] h = refl
empty_text (c ∷ s) h = ground arith

-- The two tests for ".." in front are one.
dot_dot_same : (s : Bytes) → has_prefix (codes "..") s ≡ has_dot_dot_prefix s
unfolding has_prefix
dot_dot_same [] = refl
dot_dot_same (c ∷ []) = ground arith
dot_dot_same (c ∷ (d ∷ s)) = ground arith

resolved_option :
    (dir s : Bytes) → (not (is_empty s) && leaves_directory s) ≡ false → (s ≡ []) ⊎ Inside dir s
unfolding leaves_directory
resolved_option dir s h = elim (Bool-cases (is_empty s)) [
  | inl e ↦ inl (empty_text s e)
  | inr e ↦
      inr (joined_parts_below dir s (sym (dot_dot_same (clean_relative s)) ∙ ground (arith, h, e)))
]

arguments_valid :
    (arguments : List Argument)
    → validate_arguments_from arguments ≡ none
    → All (λ a. (is_empty a.name ≡ false) × (a.type_ ≡ codes "string")) arguments
unfolding validate_arguments_from
arguments_valid [] h = tt
arguments_valid (arg ∷ arguments) h =
    let named : is_empty arg.name ≡ false = ground (arith, h) in
    let typed : bytes_eq arg.type_ (codes "string") ≡ true = ground (arith, h) in
    (
      (named, bytes_eq→eq arg.type_ (codes "string") typed),
      arguments_valid arguments (ground (arith, h, named, typed)),
    )

timeout_of :
    (dir_path script_path : Bytes) (m : Manifest)
    → (1 ≤ (command_of dir_path script_path m).timeout)
      × ((command_of dir_path script_path m).timeout ≤ 300)
unfolding command_of
timeout_of dir_path script_path m = clamp_timeout_bounds m.timeout

script_of :
    (store : FileStore) (dir_path script_path : Bytes) (m : Manifest)
    → is_stored (store.at script_path) ≡ true
    → is_stored (store.at (command_of dir_path script_path m).script_path) ≡ true
unfolding command_of
script_of store dir_path script_path m h = h

script_name_of-HasScript :
    (dir runtime name : Bytes)
    → script_name_of runtime ≡ some name
    → HasScript runtime dir (join_path dir name)
unfolding script_name_of
script_name_of-HasScript dir runtime name h = elim (Bool-cases (bytes_eq runtime (codes "bash"))) [
  | inl e ↦ inl (bytes_eq→eq runtime (codes "bash") e, ap (join_path dir) (ground (arith, e, h)))
  | inr n ↦ elim (Bool-cases (bytes_eq runtime (codes "python"))) [
    | inl e ↦
        inr (bytes_eq→eq runtime (codes "python") e, ap (join_path dir) (ground (arith, n, e, h)))
    | inr other ↦ absurd (ground (arith, n, other, h))
  ]
]

runs_of :
    (dir_path script_path : Bytes) (m : Manifest)
    → HasScript m.runtime dir_path script_path
    → HasScript
        (command_of dir_path script_path m).runtime
        (command_of dir_path script_path m).dir
        (command_of dir_path script_path m).script_path
unfolding command_of
runs_of dir_path script_path m runs = runs

passes :
    (b : Bool) (e : CommandError) (o : Option CommandError)
    → (if b then some e else o) ≡ none
    → (b ≡ false) × (o ≡ none)
passes true e o h = ground (arith, h)
passes false e o h = (refl, h)

-- A nil error of validate, with what the loader sees to.
validated-Runnable :
    (store : FileStore) (dir_path script_path : Bytes) (m : Manifest)
    → is_stored (store.at script_path) ≡ true
    → HasScript m.runtime dir_path script_path
    → validate (command_of dir_path script_path m) ≡ none
    → Runnable store (command_of dir_path script_path m)
unfolding validate
validated-Runnable store dir_path script_path m stored runs h =
    let c = command_of dir_path script_path m in
    let (named, h₁) = passes (is_empty c.name) _ _ h in
    let (known, h₂) =
      passes (not (bytes_eq c.runtime (codes "bash")) && not (bytes_eq c.runtime (codes "python")))
        _ _ h₁ in
    let (works, h₃) =
      passes
        (not (bytes_eq c.working_dir (codes "command"))
          && not (bytes_eq c.working_dir (codes "agent")))
        _ _ h₂ in
    let (stays, h₄) =
      passes (not (is_empty c.requirements_file) && leaves_directory c.requirements_file) _ _ h₃ in
    record {
      has_name = named;
      runtime = runs_of dir_path script_path m runs;
      working_dir = one_of c.working_dir (codes "command") (codes "agent") works;
      at_least = (timeout_of dir_path script_path m).0;
      at_most = (timeout_of dir_path script_path m).1;
      has_script = script_of store dir_path script_path m stored;
      requirements_inside = resolved_option c.dir c.requirements_file stays;
      arguments = arguments_valid c.arguments h₄;
    }

abbrev RunnableLoaded : FileStore → LoadedCommand → Type 0
RunnableLoaded store (fails e) = Unit
RunnableLoaded store (loaded c) = Runnable store c

checked-Runnable :
    (store : FileStore) (dir_path script_path : Bytes) (m : Manifest) (o : Option CommandError)
    → is_stored (store.at script_path) ≡ true
    → HasScript m.runtime dir_path script_path
    → validate (command_of dir_path script_path m) ≡ o
    → RunnableLoaded store (checked (command_of dir_path script_path m) o)
unfolding checked
checked-Runnable store dir_path script_path m none stored runs h =
    validated-Runnable store dir_path script_path m stored runs h
checked-Runnable store dir_path script_path m (some e) stored runs h = tt

script-Runnable :
    (store : FileStore) (dir_path : Bytes) (m : Manifest) (script : Option Bytes)
    → script_name_of m.runtime ≡ script
    → RunnableLoaded store (with_script store dir_path m script)
unfolding with_script
script-Runnable store dir_path m none named = tt
script-Runnable store dir_path m (some name) named =
    if_ind (RunnableLoaded store) (is_stored (store.at (join_path dir_path name)))
      (λ stored.
        checked-Runnable store dir_path (join_path dir_path name) m _ stored
          (script_name_of-HasScript dir_path m.runtime name named) refl)
      (λ _. tt)

manifest-Runnable :
    (store : FileStore) (dir_path : Bytes) (m : Reply Manifest)
    → RunnableLoaded store (with_manifest store dir_path m)
unfolding with_manifest
manifest-Runnable store dir_path (error e) = tt
manifest-Runnable store dir_path (reply m) =
    script-Runnable store dir_path m (script_name_of m.runtime) refl

put_command-Runnable :
    (store : FileStore) (c : Command) (commands : Commands)
    → Runnable store c
    → All (Runnable store) commands
    → All (Runnable store) (put_command c commands)
unfolding put_command
put_command-Runnable store c [] runs all = (runs, tt)
put_command-Runnable store c (d ∷ commands) runs all =
    if_ind (All (Runnable store)) (bytes_eq d.name c.name) (λ _. (runs, all.1))
      (λ _. (all.0, put_command-Runnable store c commands runs all.1))

put_loaded-Runnable :
    (store : FileStore) (c : LoadedCommand) (commands : Commands)
    → RunnableLoaded store c
    → All (Runnable store) commands
    → All (Runnable store) (put_loaded_command c commands)
unfolding put_loaded_command
put_loaded-Runnable store (fails e) commands runs all = all
put_loaded-Runnable store (loaded c) commands runs all =
    put_command-Runnable store c commands runs all

module _ (unmarshal : Bytes → Reply Manifest) (store : FileStore) (commands_dir : Bytes) where
  data-Runnable :
      (dir_path : Bytes) (stored : Stored)
      → RunnableLoaded store (with_data unmarshal store dir_path stored)
  unfolding with_data
  data-Runnable dir_path missing = tt
  data-Runnable dir_path (unreadable e) = tt
  data-Runnable dir_path (file bytes) = manifest-Runnable store dir_path (unmarshal bytes)

  load_commands-Runnable :
      (es : List Entry) (commands : Commands)
      → All (Runnable store) commands
      → All (Runnable store) (load_commands unmarshal store commands_dir es commands)
  unfolding load_commands load_command_dir
  load_commands-Runnable [] commands all = all
  load_commands-Runnable (e ∷ es) commands all = load_commands-Runnable es _ (
      if_ind (All (Runnable store)) e.is_dir
        (λ _.
          put_loaded-Runnable store _ commands
            (data-Runnable (join_path commands_dir e.name)
              (store.at (join_path (join_path commands_dir e.name) (codes "command.toml"))))
            all)
        (λ _. all))

  -- Every command that Load puts into the registry has a name, the runtime bash with the script run.sh or python with run.py, stored in the command's directory, one of the two working directories, a timeout from 1 to 300 seconds, only named arguments of type string, and a requirements file, if any, that lies in the command's directory.
  pub load_registry-Runnable :
      (listing : Listing)
      → All (Runnable store) (load_registry unmarshal store commands_dir listing).1
  unfolding load_registry
  load_registry-Runnable no_directory = tt
  load_registry-Runnable (unlisted e) = tt
  load_registry-Runnable (entries es) = load_commands-Runnable es [] tt
