-- ===== src/Protocol/Handler.antt =====
-- session/prompt and Dispatch of internal/protocol/server.go, with the handler's services.
pub mod Keeps
pub mod Kept
pub mod Errors
mod Tests
use kontekst.Prelude.Int.{ℤ}
use kontekst.Prelude.{
  true, false, List, [], ◌∷◌, ◌++◌, Option, none, some, Bytes, codes, bytes_eq, if◌then◌else◌,
}
use kontekst.Prelude.Strings.{has_prefix}
use kontekst.Core.{Fields, is_empty, has_any}
use kontekst.Paths.{get_string_arg}
use kontekst.Agent.Types.{Reply, reply, error}
use kontekst.Agent.Registry.{AgentConfig, LoadedAgent, loaded, fails, error_text}
use kontekst.Agent.Runner.{RunConfig}
use kontekst.Skill.Render.{Skill, render}
use kontekst.Skill.Registry.{Skills, get_skill, model_invocable_skills}
use kontekst.Protocol.Messages.{err_method_not_found, err_internal_error}
use kontekst.Protocol.Permission.{SlashCommand, available_commands}
use kontekst.Protocol.Server.{
  Client, Sent, session_update, send_command, cancel_command, Signal, Forwarded, stopped,
  failed_with, waiting, forward_events,
}
use kontekst.Protocol.Sessions.{
  ClientCapabilities, no_capabilities, has_acp_tools, extract_text, parse_skill_invocation,
  SessionState, store_session, load_session, Handler,
}
use kontekst.Protocol.Requests.{
  initialized, authenticated, nothing, mode_set, config_set, session_created, session_loaded,
  prompted, answers, refuses, still_running, decoded, undecodable, err_invalid_params,
  err_not_found, Decoded, NewSessionRequest, LoadSessionRequest, PromptRequest, Decoders, Answer,
}
use kontekst.Protocol.Methods.{
  Dispatched, refuse, handle_initialize, default_agent_name, agent_name_of, new_state,
  slash_commands, announce, handle_new_session, handle_load_session, cancel_in, handle_cancel,
  Invoked, invoked_skill, invoke, run_config_of,
}

-- The answer to a prompt, from what forwardEvents returned. While it waits, the session has its
-- command channel; the deferred function takes it away.
unfoldable pub finish_prompt :
    (sid : Bytes) → SessionState → Handler → List Sent × Forwarded → Dispatched
finish_prompt sid sess h (sent, stopped reason) = (
  record h { sessions = store_session sid (record sess { has_channel = false }) h.sessions },
  sent,
  answers (prompted reason),
)
finish_prompt sid sess h (sent, failed_with e) = (
  record h { sessions = store_session sid (record sess { has_channel = false }) h.sessions },
  sent,
  refuses e,
)
finish_prompt sid sess h (sent, waiting) = (
  record h { sessions = store_session sid (record sess { has_channel = true }) h.sessions },
  sent,
  still_running,
)

-- What the handler uses: the skills, the agents, and the runner, whose run gives these signals.
pub record Services : Type 0 where
  pub skills : Option Skills
  pub load_agent : (name : Bytes) → LoadedAgent
  pub start_run : RunConfig → Reply (List Signal)
  pub client : Client
  pub decode : Decoders

pub data Method : Type 0 where
  initialize authenticate session_new session_load session_prompt session_cancel session_set_mode
        session_set_config :
      Method
  unknown : Bytes → Method

unfoldable pub method_of : Bytes → Method
method_of method =
    if bytes_eq method (codes "initialize")
    then initialize
    else if bytes_eq method (codes "authenticate")
    then authenticate
    else if bytes_eq method (codes "session/new")
    then session_new
    else if bytes_eq method (codes "session/load")
    then session_load
    else if bytes_eq method (codes "session/prompt")
    then session_prompt
    else if bytes_eq method (codes "session/cancel")
    then session_cancel
    else if bytes_eq method (codes "session/set_mode")
    then session_set_mode
    else if bytes_eq method (codes "session/set_config_option")
    then session_set_config
    else unknown method

module _ (services : Services) where
  unfoldable pub start_prompt :
      (sid : Bytes) → SessionState → Handler → Reply (List Signal) → Dispatched
  start_prompt sid sess h (error e) = refuse err_internal_error e h
  start_prompt sid sess h (reply signals) =
      finish_prompt sid sess h (forward_events services.client sid true signals)

  unfoldable pub run_prompt :
      (sid : Bytes) → SessionState → Handler → Invoked → LoadedAgent → Dispatched
  run_prompt sid sess h invoked (fails e) = refuse err_invalid_params (error_text e) h
  run_prompt sid sess h invoked (loaded cfg) =
      start_prompt sid sess h (services.start_run (run_config_of h.caps sess invoked cfg))

  unfoldable pub prompt_in : PromptRequest → Handler → Option SessionState → Dispatched
  prompt_in req h none = refuse err_not_found (codes "session not found") h
  prompt_in req h (some sess) =
      run_prompt req.session_id sess h (invoke services.skills (extract_text req.prompt))
        (services.load_agent sess.agent_name)

  unfoldable pub handle_prompt : Handler → Decoded PromptRequest → Dispatched
  handle_prompt h (undecodable e) = refuse err_invalid_params e h
  handle_prompt h (decoded req) = prompt_in req h (load_session req.session_id h.sessions)

  unfoldable pub dispatch_as : Method → (sid : Bytes) → Handler → (params : Bytes) → Dispatched
  dispatch_as initialize sid h [] = (record h { caps = no_capabilities }, [], answers initialized)
  dispatch_as initialize sid h (c ∷ params) =
      handle_initialize h (services.decode.initialize (c ∷ params))
  dispatch_as authenticate sid h params = (h, [], answers authenticated)
  dispatch_as session_new sid h params =
      handle_new_session services.skills sid h (services.decode.new_session params)
  dispatch_as session_load sid h params =
      handle_load_session h (services.decode.load_session params)
  dispatch_as session_prompt sid h params = handle_prompt h (services.decode.prompt params)
  dispatch_as session_cancel sid h params = handle_cancel h (services.decode.cancel params)
  dispatch_as session_set_mode sid h params = (h, [], answers mode_set)
  dispatch_as session_set_config sid h params = (h, [], answers config_set)
  dispatch_as (unknown method) sid h params =
      refuse err_method_not_found
        ((if has_prefix (codes "_") method
            then codes "unknown extension: "
            else codes "unknown method: ")
          ++ method)
        h

  -- Dispatch; `sid` is an id that session/new may draw.
  unfoldable pub dispatch : (sid : Bytes) → (method params : Bytes) → Handler → Dispatched
  dispatch sid method params h = dispatch_as (method_of method) sid h params
