-- ===== src/Protocol/Handler/Kept.antt =====
-- The sessions of internal/protocol/server.go stay while its methods are called.
use kontekst.Prelude.{◌≡◌, refl, List, [], ◌∷◌, Option, none, some, Bytes}
use kontekst.Agent.Types.{Reply, reply, error}
use kontekst.Agent.Registry.{LoadedAgent, loaded, fails}
use kontekst.Skill.Registry.{Skills}
use kontekst.Protocol.Server.{Sent, Signal, Forwarded, stopped, failed_with, waiting}
use kontekst.Protocol.Sessions.{
  ClientCapabilities, SessionState, load_session, Handler, new_handler,
}
use kontekst.Protocol.Requests.{
  Decoded, decoded, undecodable, NewSessionRequest, LoadSessionRequest, PromptRequest, initialized,
  authenticated, nothing, mode_set, config_set, session_created, session_loaded, prompted, Answer,
  answers, refuses, still_running,
}
use kontekst.Protocol.Methods.{
  Dispatched, Invoked, handle_initialize, handle_new_session, handle_load_session, handle_cancel,
}
use kontekst.Protocol.Handler.{
  Services, handle_prompt, prompt_in, run_prompt, start_prompt, finish_prompt, dispatch_as,
  dispatch, method_of, Method, initialize, authenticate, session_new, session_load, session_prompt,
  session_cancel, session_set_mode, session_set_config, unknown,
}
use kontekst.Protocol.Handler.Keeps.{dispatch_as-Keeps, Named, Known, load-store_session, Keeps}

-- A call of Dispatch: what it uses, the id that it may draw, the method and its params.
pub record MethodCall : Type 0 where
  pub services : Services
  pub fresh_id : Bytes
  pub method : Bytes
  pub params : Bytes

abbrev pub call_on : MethodCall → Handler → Dispatched
call_on call h = dispatch call.services call.fresh_id call.method call.params h

-- The handler behind a sequence of calls.
unfoldable pub serve : List MethodCall → Handler → Handler
serve [] h = h
serve (call ∷ calls) h = serve calls (call_on call h).0

call-Keeps :
    (call : MethodCall) (h : Handler)
    → Named h.sessions
    → Keeps h.sessions (call_on call h).0.sessions
unfolding dispatch
call-Keeps call h named =
    dispatch_as-Keeps call.services (method_of call.method) call.fresh_id h call.params named

serve-Known :
    (calls : List MethodCall) (h : Handler) (sid : Bytes)
    → Named h.sessions
    → Known sid h.sessions
    → Known sid (serve calls h).sessions
unfolding serve
serve-Known [] h sid named known = known
serve-Known (call ∷ calls) h sid named known =
    let kept = call-Keeps call h named in
    serve-Known calls (call_on call h).0 sid (kept.named named) (kept.known sid known)

serve-Named :
    (calls : List MethodCall) (h : Handler) → Named h.sessions → Named (serve calls h).sessions
unfolding serve
serve-Named [] h named = named
serve-Named (call ∷ calls) h named =
    serve-Named calls (call_on call h).0 ((call-Keeps call h named).named named)

-- The answer gives a session to the client.
pub data Gives (sid : Bytes) : Answer → Type 0 where
  gives_created : Gives sid (answers (session_created sid))
  gives_loaded : Gives sid (answers (session_loaded sid))

abbrev GivenKnown : Dispatched → Type 0
GivenKnown (h, sent, answers (session_created sid)) = Known sid h.sessions
GivenKnown (h, sent, answers (session_loaded sid)) = Known sid h.sessions
GivenKnown (h, sent, answers initialized) = Unit
GivenKnown (h, sent, answers authenticated) = Unit
GivenKnown (h, sent, answers nothing) = Unit
GivenKnown (h, sent, answers mode_set) = Unit
GivenKnown (h, sent, answers config_set) = Unit
GivenKnown (h, sent, answers (prompted reason)) = Unit
GivenKnown (h, sent, refuses e) = Unit
GivenKnown (h, sent, still_running) = Unit

given_known :
    (sid : Bytes) (out : Dispatched) → GivenKnown out → Gives sid out.2 → Known sid out.0.sessions
given_known sid (h, sent, _) known gives_created = known
given_known sid (h, sent, _) known gives_loaded = known

finish_given :
    (sid : Bytes) (sess : SessionState) (h : Handler) (out : List Sent × Forwarded)
    → GivenKnown (finish_prompt sid sess h out)
unfolding finish_prompt
finish_given sid sess h (sent, stopped reason) = tt
finish_given sid sess h (sent, failed_with e) = tt
finish_given sid sess h (sent, waiting) = tt

module _ (services : Services) where
  start_given :
      (sid : Bytes) (sess : SessionState) (h : Handler) (run : Reply (List Signal))
      → GivenKnown (start_prompt services sid sess h run)
  unfolding start_prompt
  start_given sid sess h (error e) = tt
  start_given sid sess h (reply signals) = finish_given sid sess h _

  run_given :
      (sid : Bytes) (sess : SessionState) (h : Handler) (invoked : Invoked) (agent : LoadedAgent)
      → GivenKnown (run_prompt services sid sess h invoked agent)
  unfolding run_prompt
  run_given sid sess h invoked (fails e) = tt
  run_given sid sess h invoked (loaded cfg) = start_given sid sess h _

  prompt_in_given :
      (req : PromptRequest) (h : Handler) (sess : Option SessionState)
      → GivenKnown (prompt_in services req h sess)
  unfolding prompt_in
  prompt_in_given req h none = tt
  prompt_in_given req h (some sess) = run_given req.session_id sess h _ _

  prompt_given :
      (h : Handler) (params : Decoded PromptRequest) → GivenKnown (handle_prompt services h params)
  unfolding handle_prompt
  prompt_given h (undecodable e) = tt
  prompt_given h (decoded req) = prompt_in_given req h _

initialize_given :
    (h : Handler) (params : Decoded ClientCapabilities) → GivenKnown (handle_initialize h params)
unfolding handle_initialize
initialize_given h (undecodable e) = tt
initialize_given h (decoded caps) = tt

cancel_given : (h : Handler) (params : Decoded Bytes) → GivenKnown (handle_cancel h params)
unfolding handle_cancel
cancel_given h (undecodable e) = tt
cancel_given h (decoded sid) = tt

new_session_given :
    (skills : Option Skills) (sid : Bytes) (h : Handler) (params : Decoded NewSessionRequest)
    → GivenKnown (handle_new_session skills sid h params)
unfolding handle_new_session
new_session_given skills sid h (undecodable e) = tt
new_session_given skills sid h (decoded req) = (_, load-store_session sid _ h.sessions, refl)

load_session_given :
    (h : Handler) (params : Decoded LoadSessionRequest) → GivenKnown (handle_load_session h params)
unfolding handle_load_session
load_session_given h (undecodable e) = tt
load_session_given h (decoded req) = (_, load-store_session req.session_id _ h.sessions, refl)

dispatch_given :
    (services : Services) (method : Method) (sid : Bytes) (h : Handler) (params : Bytes)
    → GivenKnown (dispatch_as services method sid h params)
unfolding dispatch_as
dispatch_given services initialize sid h [] = tt
dispatch_given services initialize sid h (c ∷ params) = initialize_given h _
dispatch_given services authenticate sid h params = tt
dispatch_given services session_new sid h params = new_session_given _ sid h _
dispatch_given services session_load sid h params = load_session_given h _
dispatch_given services session_prompt sid h params = prompt_given services h _
dispatch_given services session_cancel sid h params = cancel_given h _
dispatch_given services session_set_mode sid h params = tt
dispatch_given services session_set_config sid h params = tt
dispatch_given services (unknown method) sid h params = tt

start-Named : Named new_handler.sessions
unfolding new_handler
start-Named = tt

-- A session that the server gave to the client, by session/new or session/load, is found under its id after any further calls, whatever came before: a prompt is never told that it does not exist.
pub given_session_stays :
    (before later : List MethodCall) (call : MethodCall) (sid : Bytes)
    → Gives sid (call_on call (serve before new_handler)).2
    → (state : SessionState) × (load_session sid
          (serve later (call_on call (serve before new_handler)).0).sessions
        ≡ some state)
      × (state.session_id ≡ sid)
unfolding dispatch
given_session_stays before later call sid gives =
    serve-Known later (call_on call h).0 sid ((call-Keeps call h named).named named) (
      given_known sid (call_on call h)
        (dispatch_given call.services (method_of call.method) call.fresh_id h call.params) gives)
  where
    h : Handler
    h = serve before new_handler

    named : Named h.sessions
    named = serve-Named before new_handler start-Named
