-- ===== src/Protocol/Methods.antt =====
-- The methods of the server that answer at once, and what session/prompt needs to start a run,
-- internal/protocol/server.go. json.Unmarshal gives a request, or the text of an error.
use kontekst.Prelude.Int.{ℤ}
use kontekst.Prelude.{false, List, [], ◌∷◌, Option, none, some, Bytes, codes, if◌then◌else◌}
use kontekst.Prelude.Strings.{has_prefix}
use kontekst.Core.{Fields, is_empty, has_any}
use kontekst.Paths.{get_string_arg}
use kontekst.Agent.Registry.{AgentConfig}
use kontekst.Agent.Runner.{RunConfig}
use kontekst.Skill.Render.{Skill, render}
use kontekst.Skill.Registry.{Skills, get_skill, model_invocable_skills}
use kontekst.Protocol.Permission.{SlashCommand, available_commands}
use kontekst.Protocol.Server.{Sent, session_update, send_command, cancel_command}
use kontekst.Protocol.Sessions.{
  ClientCapabilities, has_acp_tools, parse_skill_invocation, SessionState, store_session,
  load_session, Handler,
}
use kontekst.Protocol.Requests.{
  initialized, nothing, session_created, session_loaded, answers, refuses, decoded, undecodable,
  err_invalid_params, Decoded, NewSessionRequest, LoadSessionRequest, Answer,
}

-- What a method leaves: the handler, what was sent to the client and the run, and the answer.
abbrev pub Dispatched : Type 0
Dispatched = Handler × List Sent × Answer

abbrev pub refuse : ℤ → (text : Bytes) → Handler → Dispatched
refuse code text h = (h, [], refuses (record { code = code; message = text }))

unfoldable pub handle_initialize : Handler → Decoded ClientCapabilities → Dispatched
handle_initialize h (undecodable e) = refuse err_invalid_params e h
handle_initialize h (decoded caps) = (record h { caps = caps }, [], answers initialized)

abbrev pub default_agent_name : Bytes
default_agent_name = codes "default"

unfoldable pub agent_name_of : Option Fields → Bytes
agent_name_of none = default_agent_name
agent_name_of (some meta) = elim (get_string_arg (codes "agentName") meta) [
  | none ↦ default_agent_name
  | some name ↦ if is_empty name then default_agent_name else name
]

abbrev pub new_state : (agent_name sid cwd : Bytes) → SessionState
new_state agent_name sid cwd = record {
  agent_name = agent_name;
  session_id = sid;
  cwd = cwd;
  has_channel = false;
}

unfoldable pub slash_commands : List Skill → List SlashCommand
slash_commands [] = []
slash_commands (s ∷ skills) =
    record { name = s.name; description = s.description } ∷ slash_commands skills

-- The notification of the commands, if the model may invoke a skill.
unfoldable pub announce : (sid : Bytes) → Option Skills → List Sent
announce sid none = []
announce sid (some skills) =
    let commands = slash_commands (model_invocable_skills skills) in
    if has_any commands then session_update sid (available_commands commands) ∷ [] else []

-- `sid` is the id that core.NewSessionID draws.
unfoldable pub handle_new_session :
    Option Skills → (sid : Bytes) → Handler → Decoded NewSessionRequest → Dispatched
handle_new_session skills sid h (undecodable e) = refuse err_invalid_params e h
handle_new_session skills sid h (decoded req) = (
  record h {
    sessions = store_session sid (new_state (agent_name_of req.meta) sid req.cwd) h.sessions;
  },
  announce sid skills,
  answers (session_created sid),
)

unfoldable pub handle_load_session : Handler → Decoded LoadSessionRequest → Dispatched
handle_load_session h (undecodable e) = refuse err_invalid_params e h
handle_load_session h (decoded req) = (
  record h {
    sessions =
        store_session req.session_id (new_state default_agent_name req.session_id req.cwd)
          h.sessions;
  },
  [],
  answers (session_loaded req.session_id),
)

unfoldable pub cancel_in : Option SessionState → List Sent
cancel_in none = []
cancel_in (some sess) = send_command sess.has_channel cancel_command

unfoldable pub handle_cancel : Handler → Decoded Bytes → Dispatched
handle_cancel h (undecodable e) = (h, [], answers nothing)
handle_cancel h (decoded sid) = (h, cancel_in (load_session sid h.sessions), answers nothing)

-- The skill that a prompt invokes, its rendered content, and what is left of the prompt.
pub record Invoked : Type 0 where
  pub skill : Option Skill
  pub content : Bytes
  pub prompt : Bytes

unfoldable pub invoked_skill : (prompt_text args : Bytes) → Option Skill → Invoked
invoked_skill prompt_text args none = record { skill = none; content = []; prompt = prompt_text }
invoked_skill prompt_text args (some skill) = record {
  skill = some skill;
  content = render skill args;
  prompt = args;
}

unfoldable pub invoke : Option Skills → (prompt_text : Bytes) → Invoked
invoke skills prompt_text =
    let (name, args) = parse_skill_invocation prompt_text in
    if has_prefix (codes "/") prompt_text
    then elim skills [
      | none ↦ record { skill = none; content = []; prompt = prompt_text }
      | some all ↦ invoked_skill prompt_text args (get_skill name all)
    ]
    else record { skill = none; content = []; prompt = prompt_text }

unfoldable pub run_config_of : ClientCapabilities → SessionState → Invoked → AgentConfig → RunConfig
run_config_of caps sess invoked cfg = record {
  prompt = invoked.prompt;
  session_id = sess.session_id;
  agent_name = sess.agent_name;
  agent_system_prompt = cfg.system_prompt;
  context_size = cfg.context_size;
  sampling = cfg.sampling;
  provider_endpoint = cfg.provider.endpoint;
  provider_model = cfg.provider.model;
  provider_http_timeout = cfg.provider.http_timeout;
  working_dir = sess.cwd;
  skill = invoked.skill;
  skill_content = invoked.content;
  tool_role = cfg.tool_role;
  has_client_tools = has_acp_tools caps;
}
