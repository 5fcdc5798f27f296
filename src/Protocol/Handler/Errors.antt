-- ===== src/Protocol/Handler/Errors.antt =====
-- The errors of the methods of internal/protocol/server.go.
use kontekst.Prelude.{
  ◌≡◌, ◌⊎◌, inl, inr, refl, false, true, List, [], ◌∷◌, Option, none, some, Bytes,
}
use kontekst.Skill.Registry.{Skills}
use kontekst.Agent.Types.{Reply, reply, error}
use kontekst.Agent.Runner.{RunConfig}
use kontekst.Agent.Registry.{LoadedAgent, loaded, fails}
use kontekst.Protocol.Messages.{RpcError}
use kontekst.Protocol.Server.{
  Sent, Signal, Forwarded, stopped, failed_with, waiting, forward_events,
}
use kontekst.Protocol.Sessions.{
  load_session, store_session, ClientCapabilities, SessionState, Handler,
}
use kontekst.Protocol.Requests.{
  Decoded, decoded, undecodable, NewSessionRequest, LoadSessionRequest, PromptRequest, answers,
  refuses, still_running,
}
use kontekst.Protocol.Methods.{
  Dispatched, Invoked, handle_initialize, handle_new_session, handle_load_session, handle_cancel,
}
use kontekst.Protocol.Handler.{
  Services, handle_prompt, prompt_in, run_prompt, start_prompt, finish_prompt, dispatch_as,
  dispatch, method_of, Method, initialize, authenticate, session_new, session_load, session_prompt,
  session_cancel, session_set_mode, session_set_config, unknown,
}

-- The run that a prompt began in one of the sessions failed with this error: what it sent until then is sent, and the session is no longer in use.
abbrev pub RunFailed : Services → Handler → Handler → List Sent → RpcError → Type 0
RunFailed services h h' sent e =
    (sid : Bytes) × (sess : SessionState) × (cfg : RunConfig) × (signals : List Signal)
    × (load_session sid h.sessions ≡ some sess)
    × (services.start_run cfg ≡ reply signals)
    × (forward_events services.client sid true signals ≡ (sent, failed_with e))
    × (h' ≡ record h {
      sessions = store_session sid (record sess { has_channel = false }) h.sessions;
    })

-- What a refused call leaves behind.
abbrev pub CleanRefusal : Services → Handler → Dispatched → Type 0
CleanRefusal services h (h', sent, answers result) = Unit
CleanRefusal services h (h', sent, still_running) = Unit
CleanRefusal services h (h', sent, refuses e) =
    ((h' ≡ h) × (sent ≡ [])) ⊎ RunFailed services h h' sent e

module _ (services : Services) where
  finish_clean :
      (sid : Bytes) (sess : SessionState) (h : Handler) (cfg : RunConfig) (signals : List Signal)
      (out : List Sent × Forwarded)
      → load_session sid h.sessions ≡ some sess
      → services.start_run cfg ≡ reply signals
      → forward_events services.client sid true signals ≡ out
      → CleanRefusal services h (finish_prompt sid sess h out)
  unfolding finish_prompt
  finish_clean sid sess h cfg signals (sent, stopped reason) found begun e = tt
  finish_clean sid sess h cfg signals (sent, failed_with err) found begun e =
      inr (sid, sess, cfg, signals, found, begun, e, refl)
  finish_clean sid sess h cfg signals (sent, waiting) found begun e = tt

  start_clean :
      (sid : Bytes) (sess : SessionState) (h : Handler) (cfg : RunConfig)
      (run : Reply (List Signal))
      → load_session sid h.sessions ≡ some sess
      → services.start_run cfg ≡ run
      → CleanRefusal services h (start_prompt services sid sess h run)
  unfolding start_prompt
  start_clean sid sess h cfg (error e) found begun = inl (refl, refl)
  start_clean sid sess h cfg (reply signals) found begun =
      finish_clean sid sess h cfg signals _ found begun refl

  run_clean :
      (sid : Bytes) (sess : SessionState) (h : Handler) (invoked : Invoked) (agent : LoadedAgent)
      → load_session sid h.sessions ≡ some sess
      → CleanRefusal services h (run_prompt services sid sess h invoked agent)
  unfolding run_prompt
  run_clean sid sess h invoked (fails e) found = inl (refl, refl)
  run_clean sid sess h invoked (loaded cfg) found = start_clean sid sess h _ _ found refl

  prompt_in_clean :
      (req : PromptRequest) (h : Handler) (sess : Option SessionState)
      → load_session req.session_id h.sessions ≡ sess
      → CleanRefusal services h (prompt_in services req h sess)
  unfolding prompt_in
  prompt_in_clean req h none found = inl (refl, refl)
  prompt_in_clean req h (some sess) found = run_clean req.session_id sess h _ _ found

  prompt_clean :
      (h : Handler) (params : Decoded PromptRequest)
      → CleanRefusal services h (handle_prompt services h params)
  unfolding handle_prompt
  prompt_clean h (undecodable e) = inl (refl, refl)
  prompt_clean h (decoded req) = prompt_in_clean req h _ refl

  initialize_clean :
      (h : Handler) (params : Decoded ClientCapabilities)
      → CleanRefusal services h (handle_initialize h params)
  unfolding handle_initialize
  initialize_clean h (undecodable e) = inl (refl, refl)
  initialize_clean h (decoded caps) = tt

  new_session_clean :
      (skills : Option Skills) (sid : Bytes) (h : Handler) (params : Decoded NewSessionRequest)
      → CleanRefusal services h (handle_new_session skills sid h params)
  unfolding handle_new_session
  new_session_clean skills sid h (undecodable e) = inl (refl, refl)
  new_session_clean skills sid h (decoded req) = tt

  load_session_clean :
      (h : Handler) (params : Decoded LoadSessionRequest)
      → CleanRefusal services h (handle_load_session h params)
  unfolding handle_load_session
  load_session_clean h (undecodable e) = inl (refl, refl)
  load_session_clean h (decoded req) = tt

  cancel_clean :
      (h : Handler) (params : Decoded Bytes) → CleanRefusal services h (handle_cancel h params)
  unfolding handle_cancel
  cancel_clean h (undecodable e) = tt
  cancel_clean h (decoded sid) = tt

  dispatch_as_clean :
      (method : Method) (sid : Bytes) (h : Handler) (params : Bytes)
      → CleanRefusal services h (dispatch_as services method sid h params)
  unfolding dispatch_as
  dispatch_as_clean initialize sid h [] = tt
  dispatch_as_clean initialize sid h (c ∷ params) = initialize_clean h _
  dispatch_as_clean authenticate sid h params = tt
  dispatch_as_clean session_new sid h params = new_session_clean _ sid h _
  dispatch_as_clean session_load sid h params = load_session_clean h _
  dispatch_as_clean session_prompt sid h params = prompt_clean h _
  dispatch_as_clean session_cancel sid h params = cancel_clean h _
  dispatch_as_clean session_set_mode sid h params = tt
  dispatch_as_clean session_set_config sid h params = tt
  dispatch_as_clean (unknown method) sid h params = inl (refl, refl)

  -- A call that the server refuses changes neither its sessions nor the capabilities and sends nothing, on every error path of every method, but for a prompt in a session of the server whose run began and failed: then the updates of that run are sent and its session is marked as not in use.
  pub dispatch-CleanRefusal :
      (sid method params : Bytes) (h : Handler)
      → CleanRefusal services h (dispatch services sid method params h)
  unfolding dispatch
  dispatch-CleanRefusal sid method params h = dispatch_as_clean (method_of method) sid h params
