-- ===== src/Agent/Registry.antt =====
-- The agents of a directory, internal/agent/registry.go with LoadTOML and LoadPrompt of
-- internal/config/agent/config.go. The TOML library is a parameter.
use kontekst.Prelude.Int.{ℤ, pos, negsuc}
use kontekst.Prelude.{
  ℕ, zero, suc, ◌-◌, ◌*◌, ◌%◌, ◌^◌, Bool, false, ◌&&◌, ◌||◌, List, [], ◌∷◌, ◌++◌, map, Option, none,
  some, Bytes, codes, ltb, if◌then◌else◌,
}
use kontekst.Prelude.Strings.{join_with}
use kontekst.Core.{SamplingConfig, is_empty, has_any}
use kontekst.Paths.{join_path}
use kontekst.Files.{Entry, Listing, no_directory, unlisted, entries, is_stored}
use kontekst.EditFile.Tool.{Stored, missing, unreadable, file, FileStore}
use kontekst.Agent.Types.{Reply, reply, error}

pub record ProviderToml : Type 0 where
  pub endpoint : Bytes
  pub model : Bytes
  pub http_timeout_seconds : ℤ

pub record AgentToml : Type 0 where
  pub name : Bytes
  pub context_size : ℤ
  pub provider : ProviderToml
  pub sampling : Option SamplingConfig
  pub tool_role : Bool

-- The timeout is a time.Duration, in nanoseconds.
pub record ProviderConfig : Type 0 where
  pub endpoint : Bytes
  pub model : Bytes
  pub http_timeout : ℤ

pub record AgentConfig : Type 0 where
  pub name : Bytes
  pub display_name : Bytes
  pub system_prompt : Bytes
  pub context_size : ℤ
  pub provider : ProviderConfig
  pub sampling : Option SamplingConfig
  pub tool_role : Bool

pub record Summary : Type 0 where
  pub name : Bytes
  pub display_name : Bytes
  pub has_prompt : Bool
  pub has_config : Bool

pub data RegistryError : Type 0 where
  not_found : (name : Bytes) → (available : List Bytes) → RegistryError
  config_error : (name : Bytes) → (error : Bytes) → RegistryError

unfoldable pub error_text : RegistryError → Bytes
error_text (not_found name available) =
    codes "agent not found: "
    ++ (name
        ++ (if has_any available
            then codes "; available: " ++ join_with (codes ", ") available
            else []))
error_text (config_error name e) = codes "invalid config for agent " ++ (name ++ (codes ": " ++ e))

pub data LoadedAgent : Type 0 where
  loaded : AgentConfig → LoadedAgent
  fails : RegistryError → LoadedAgent

-- n seconds as a time.Duration, an int64.
unfoldable pub seconds : ℕ → ℤ
seconds n =
    let ns = n * 1000000000 % 2 ^ 64 in if ltb ns (2 ^ 63) then pos ns else negsuc (2 ^ 64 - 1 - ns)

-- A timeout that is not positive is the default.
unfoldable pub http_timeout_of : ℤ → ℤ
http_timeout_of (pos (suc n)) = seconds (suc n)
http_timeout_of (pos zero) = seconds 300
http_timeout_of (negsuc n) = seconds 300

abbrev pub new_config : (name : Bytes) → AgentConfig
new_config name = record {
  name = name;
  display_name = name;
  system_prompt = [];
  context_size = pos 0;
  provider = record { endpoint = []; model = []; http_timeout = pos 0 };
  sampling = none;
  tool_role = false;
}

-- LoadPrompt
unfoldable pub load_prompt : Stored → Reply Bytes
load_prompt missing = reply []
load_prompt (unreadable e) = error e
load_prompt (file bytes) = reply bytes

unfoldable pub with_toml : AgentToml → AgentConfig → AgentConfig
with_toml toml cfg = record cfg {
  display_name = if is_empty toml.name then cfg.display_name else toml.name;
  provider = record {
    endpoint = toml.provider.endpoint;
    model = toml.provider.model;
    http_timeout = http_timeout_of toml.provider.http_timeout_seconds;
  };
  context_size = toml.context_size;
  sampling = toml.sampling;
  tool_role = toml.tool_role;
}

module _ (unmarshal : Bytes → Reply AgentToml) where
  unfoldable pub parse_toml : Reply AgentToml → Reply (Option AgentToml)
  parse_toml (error e) = error e
  parse_toml (reply toml) = reply (some toml)

  -- LoadTOML
  unfoldable pub load_toml : Stored → Reply (Option AgentToml)
  load_toml missing = reply none
  load_toml (unreadable e) = error e
  load_toml (file bytes) = parse_toml (unmarshal bytes)

  unfoldable pub configured : (name : Bytes) → Reply (Option AgentToml) → AgentConfig → LoadedAgent
  configured name (error e) cfg = fails (config_error name e)
  configured name (reply none) cfg = loaded cfg
  configured name (reply (some toml)) cfg = loaded (with_toml toml cfg)

  unfoldable pub prompted : (name : Bytes) → Reply Bytes → AgentConfig → LoadedAgent
  prompted name (error e) cfg = fails (config_error name e)
  prompted name (reply text) cfg = loaded (record cfg { system_prompt = text })

  -- The two files of an agent, one after the other.
  unfoldable pub then_prompt : (name : Bytes) → (prompt : Stored) → LoadedAgent → LoadedAgent
  then_prompt name prompt (fails e) = fails e
  then_prompt name prompt (loaded cfg) =
      if is_stored prompt then prompted name (load_prompt prompt) cfg else loaded cfg

  unfoldable pub load_files : (name : Bytes) → (config prompt : Stored) → LoadedAgent
  load_files name config prompt = then_prompt name prompt (
      if is_stored config
      then configured name (load_toml config) (new_config name)
      else loaded (new_config name))

  -- The display name of List: an error of the file is passed over.
  unfoldable pub display_name_of : (name : Bytes) → Reply (Option AgentToml) → Bytes
  display_name_of name (error e) = name
  display_name_of name (reply none) = name
  display_name_of name (reply (some toml)) = if is_empty toml.name then name else toml.name

  module _ (store : FileStore) (agents_dir : Bytes) where
    unfoldable pub config_file : (name : Bytes) → Stored
    config_file name = store.at (join_path (join_path agents_dir name) (codes "config.toml"))

    unfoldable pub prompt_file : (name : Bytes) → Stored
    prompt_file name = store.at (join_path (join_path agents_dir name) (codes "agent.md"))

    unfoldable pub exists : (name : Bytes) → Bool
    exists name = is_stored (config_file name) || is_stored (prompt_file name)

    unfoldable pub summary_of : (name : Bytes) → Summary
    summary_of name = record {
      name = name;
      display_name =
          if is_stored (config_file name)
          then display_name_of name (load_toml (config_file name))
          else name;
      has_prompt = is_stored (prompt_file name);
      has_config = is_stored (config_file name);
    }

    unfoldable pub list_entries : List Entry → List Summary
    list_entries [] = []
    list_entries (e ∷ es) =
        let rest = list_entries es in
        if e.is_dir && exists e.name then summary_of e.name ∷ rest else rest

    -- List
    unfoldable pub list_agents : Listing → Reply (List Summary)
    list_agents no_directory = reply []
    list_agents (unlisted e) = error e
    list_agents (entries es) = reply (list_entries es)

    unfoldable pub available_names : Reply (List Summary) → List Bytes
    available_names (error e) = []
    available_names (reply agents) = map (λ (a : Summary). a.name) agents

    -- Load
    unfoldable pub load_agent : Listing → (name : Bytes) → LoadedAgent
    load_agent listing name =
        if exists name
        then load_files name (config_file name) (prompt_file name)
        else fails (not_found name (available_names (list_agents listing)))
