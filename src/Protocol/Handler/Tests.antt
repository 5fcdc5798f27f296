-- ===== src/Protocol/Handler/Tests.antt =====
-- A client that makes a session and prompts in it.
use kontekst.Prelude.{◌≡◌, refl, [], ◌∷◌, none, some, Bytes, codes, bytes_eq}
use kontekst.Prelude.Strings.{trim_space, trim_left, is_space, trim_prefix, has_prefix}
use kontekst.Agent.Registry.{loaded, new_config}
use kontekst.Agent.Types.{reply, error, run_completed}
use kontekst.Protocol.Server.{
  event, end_turn, forward_events, forward_from, handled_as, go_on_from, sent_for, requests_of,
}
use kontekst.Protocol.Sessions.{
  SessionState, load_session, store_session, no_capabilities, new_handler, parse_skill_invocation,
  cut_space, trimmed_args,
}
use kontekst.Protocol.Requests.{decoded, undecodable, session_created, prompted, answers}
use kontekst.Protocol.Methods.{handle_new_session, agent_name_of}
use kontekst.Protocol.Handler.{
  Services, dispatch, dispatch_as, method_of, handle_prompt, prompt_in, run_prompt, start_prompt,
  finish_prompt,
}
use kontekst.Protocol.Handler.Kept.{MethodCall, call_on, serve, gives_created, given_session_stays}
use kontekst.Protocol.Handler.Errors.{CleanRefusal, dispatch-CleanRefusal}

abbrev services : Services
services = record {
  skills = none;
  load_agent = λ name. loaded (new_config name);
  start_run = λ cfg. reply (event (run_completed none) ∷ []);
  client = record {
    permission = λ n request. error [];
    unmarshal = λ json. none;
    unmarshal_any = λ json. none;
  };
  decode = record {
    initialize = λ params. decoded no_capabilities;
    new_session = λ params. decoded (record { cwd = codes "/w"; meta = none });
    load_session = λ params. undecodable (codes "bad");
    prompt = λ params. decoded (record { session_id = codes "s1"; prompt = [] });
    cancel = λ params. undecodable (codes "bad");
  };
}

abbrev call_of : (method : Bytes) → MethodCall
call_of method = record {
  services = services;
  fresh_id = codes "s1";
  method = method;
  params = codes "{}";
}

created :
    (call_on (call_of (codes "session/new")) new_handler).2 ≡ answers (session_created (codes "s1"))
unfolding dispatch dispatch_as method_of bytes_eq handle_new_session
created = refl

prompted_after :
    (call_on
      (call_of (codes "session/prompt"))
      (serve (call_of (codes "session/new") ∷ []) new_handler)).2
    ≡ answers (prompted end_turn)
unfolding serve dispatch dispatch_as method_of bytes_eq handle_new_session new_handler store_session
    agent_name_of handle_prompt load_session prompt_in run_prompt start_prompt finish_prompt
    forward_events forward_from handled_as go_on_from sent_for requests_of
prompted_after = refl

given_session_stays_example :
    (state : SessionState) × (load_session
        (codes "s1")
        (serve
          (call_of (codes "session/prompt") ∷ [])
          (call_on (call_of (codes "session/new")) (serve [] new_handler)).0).sessions
      ≡ some state)
    × (state.session_id ≡ codes "s1")
unfolding dispatch dispatch_as method_of bytes_eq handle_new_session serve
given_session_stays_example =
    given_session_stays [] (call_of (codes "session/prompt") ∷ []) (call_of (codes "session/new"))
      (codes "s1") gives_created

dispatch-CleanRefusal_example :
    CleanRefusal services new_handler
      (dispatch services (codes "s1") (codes "session/load") (codes "{}") new_handler)
dispatch-CleanRefusal_example =
    dispatch-CleanRefusal services (codes "s1") (codes "session/load") (codes "{}") new_handler

invoked : parse_skill_invocation (codes "/review  main.go ") ≡ (codes "review", codes "main.go")
unfolding parse_skill_invocation cut_space trimmed_args trim_space trim_left is_space trim_prefix
    has_prefix
invoked = refl
