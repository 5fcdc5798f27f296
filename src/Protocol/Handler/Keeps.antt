-- ===== src/Protocol/Handler/Keeps.antt =====
-- What a method of internal/protocol/server.go keeps of the sessions.
use kontekst.Prelude.{
  ◌≡◌, inl, inr, refl, sym, ◌∙◌, subst, false, List, [], ◌∷◌, Option, none, some, Bytes, bytes_eq,
  bytes_eq→eq, bytes_eq_refl, All, if_ind, arith, Bool-cases,
}
use kontekst.Agent.Types.{Reply, reply, error}
use kontekst.Agent.Registry.{LoadedAgent, loaded, fails}
use kontekst.Skill.Registry.{Skills}
use kontekst.Protocol.Server.{Sent, Signal, Forwarded, stopped, failed_with, waiting}
use kontekst.Protocol.Sessions.{
  ClientCapabilities, SessionState, Sessions, store_session, load_session, Handler,
}
use kontekst.Protocol.Requests.{
  Decoded, decoded, undecodable, NewSessionRequest, LoadSessionRequest, PromptRequest,
}
use kontekst.Protocol.Methods.{
  Invoked, handle_initialize, handle_new_session, handle_load_session, handle_cancel,
}
use kontekst.Protocol.Handler.{
  Services, handle_prompt, prompt_in, run_prompt, start_prompt, finish_prompt, dispatch_as, Method,
  initialize, authenticate, session_new, session_load, session_prompt, session_cancel,
  session_set_mode, session_set_config, unknown,
}

-- Every session has the id that it stands under.
abbrev pub Named : Sessions → Type 0
Named sessions = All (λ (s : Bytes × SessionState). s.1.session_id ≡ s.0) sessions

abbrev pub Known : (sid : Bytes) → Sessions → Type 0
Known sid sessions =
    (state : SessionState) × (load_session sid sessions ≡ some state) × (state.session_id ≡ sid)

pub load-store_session :
    (sid : Bytes) (state : SessionState) (sessions : Sessions)
    → load_session sid (store_session sid state sessions) ≡ some state
unfolding load_session store_session
load-store_session sid state [] = ground (arith, bytes_eq_refl sid)
load-store_session sid state ((id, old) ∷ sessions) =
    if_ind (λ (ss : Sessions). load_session sid ss ≡ some state) (bytes_eq id sid)
      (λ _. ground (arith, bytes_eq_refl sid))
      (λ h. ground (arith, h, load-store_session sid state sessions))

pub load-store_session_other :
    (sid other : Bytes) (state : SessionState) (sessions : Sessions)
    → bytes_eq other sid ≡ false
    → load_session sid (store_session other state sessions) ≡ load_session sid sessions
unfolding load_session store_session
load-store_session_other sid other state [] h = ground (arith, h)
load-store_session_other sid other state ((id, old) ∷ sessions) h =
    if_ind (λ (ss : Sessions). load_session sid ss ≡ load_session sid ((id, old) ∷ sessions))
      (bytes_eq id other) (λ e. ground (arith, h, bytes_eq→eq id other e))
      (λ _. ground (arith, load-store_session_other sid other state sessions h))

pub store_session-Named :
    (sid : Bytes) (state : SessionState) (sessions : Sessions)
    → state.session_id ≡ sid
    → Named sessions
    → Named (store_session sid state sessions)
unfolding store_session
store_session-Named sid state [] h named = (h, tt)
store_session-Named sid state ((id, old) ∷ sessions) h named =
    if_ind Named (bytes_eq id sid) (λ _. (h, named.1))
      (λ _. (named.0, store_session-Named sid state sessions h named.1))

pub store_session-Known :
    (sid other : Bytes) (state : SessionState) (sessions : Sessions)
    → state.session_id ≡ other
    → Known sid sessions
    → Known sid (store_session other state sessions)
store_session-Known sid other state sessions h (found, at, same) =
    elim (Bool-cases (bytes_eq other sid)) [
      | inl e ↦
          let eq = bytes_eq→eq other sid e in
          subst (λ (o : Bytes). Known sid (store_session o state sessions)) (sym eq)
            (state, load-store_session sid state sessions, h ∙ eq)
      | inr e ↦ (found, load-store_session_other sid other state sessions e ∙ at, same)
    ]

pub load_session-Named :
    (sid : Bytes) (sessions : Sessions) (state : SessionState)
    → Named sessions
    → load_session sid sessions ≡ some state
    → state.session_id ≡ sid
unfolding load_session
load_session-Named sid [] state named = λ e. ground arith
load_session-Named sid ((id, old) ∷ sessions) state named =
    if_ind (λ o. o ≡ some state → state.session_id ≡ sid) (bytes_eq id sid)
      (λ h e. ground (arith, e, named.0, bytes_eq→eq id sid h))
      (λ h e. load_session-Named sid sessions state named.1 e)

-- What a method keeps of the sessions: their names, and which of them are known.
pub record Keeps (before after : Sessions) : Type 0 where
  pub named : Named before → Named after
  pub known : (sid : Bytes) → Known sid before → Known sid after

pub Keeps-all : (sessions : Sessions) → Keeps sessions sessions
Keeps-all sessions = record { named = λ h. h; known = λ sid h. h }

pub Keeps-stored :
    (sid : Bytes) (state : SessionState) (sessions : Sessions)
    → state.session_id ≡ sid
    → Keeps sessions (store_session sid state sessions)
Keeps-stored sid state sessions h = record {
  named = store_session-Named sid state sessions h;
  known = λ other k. store_session-Known other sid state sessions h k;
}

pub initialize-Keeps :
    (h : Handler) (params : Decoded ClientCapabilities)
    → Keeps h.sessions (handle_initialize h params).0.sessions
unfolding handle_initialize
initialize-Keeps h (undecodable e) = Keeps-all h.sessions
initialize-Keeps h (decoded caps) = Keeps-all h.sessions

pub new_session-Keeps :
    (skills : Option Skills) (sid : Bytes) (h : Handler) (params : Decoded NewSessionRequest)
    → Keeps h.sessions (handle_new_session skills sid h params).0.sessions
unfolding handle_new_session
new_session-Keeps skills sid h (undecodable e) = Keeps-all h.sessions
new_session-Keeps skills sid h (decoded req) = Keeps-stored sid _ h.sessions refl

pub load_session-Keeps :
    (h : Handler) (params : Decoded LoadSessionRequest)
    → Keeps h.sessions (handle_load_session h params).0.sessions
unfolding handle_load_session
load_session-Keeps h (undecodable e) = Keeps-all h.sessions
load_session-Keeps h (decoded req) = Keeps-stored req.session_id _ h.sessions refl

pub cancel-Keeps :
    (h : Handler) (params : Decoded Bytes) → Keeps h.sessions (handle_cancel h params).0.sessions
unfolding handle_cancel
cancel-Keeps h (undecodable e) = Keeps-all h.sessions
cancel-Keeps h (decoded sid) = Keeps-all h.sessions

pub finish_prompt-Keeps :
    (sid : Bytes) (sess : SessionState) (h : Handler) (out : List Sent × Forwarded)
    → sess.session_id ≡ sid
    → Keeps h.sessions (finish_prompt sid sess h out).0.sessions
unfolding finish_prompt
finish_prompt-Keeps sid sess h (sent, stopped reason) same = Keeps-stored sid _ h.sessions same
finish_prompt-Keeps sid sess h (sent, failed_with e) same = Keeps-stored sid _ h.sessions same
finish_prompt-Keeps sid sess h (sent, waiting) same = Keeps-stored sid _ h.sessions same

module _ (services : Services) where
  start_prompt-Keeps :
      (sid : Bytes) (sess : SessionState) (h : Handler) (run : Reply (List Signal))
      → sess.session_id ≡ sid
      → Keeps h.sessions (start_prompt services sid sess h run).0.sessions
  unfolding start_prompt
  start_prompt-Keeps sid sess h (error e) same = Keeps-all h.sessions
  start_prompt-Keeps sid sess h (reply signals) same = finish_prompt-Keeps sid sess h _ same

  run_prompt-Keeps :
      (sid : Bytes) (sess : SessionState) (h : Handler) (invoked : Invoked) (agent : LoadedAgent)
      → sess.session_id ≡ sid
      → Keeps h.sessions (run_prompt services sid sess h invoked agent).0.sessions
  unfolding run_prompt
  run_prompt-Keeps sid sess h invoked (fails e) same = Keeps-all h.sessions
  run_prompt-Keeps sid sess h invoked (loaded cfg) same = start_prompt-Keeps sid sess h _ same

  prompt_in-Keeps :
      (req : PromptRequest) (h : Handler) (sess : Option SessionState)
      → ((s : SessionState) → sess ≡ some s → s.session_id ≡ req.session_id)
      → Keeps h.sessions (prompt_in services req h sess).0.sessions
  unfolding prompt_in
  prompt_in-Keeps req h none same = Keeps-all h.sessions
  prompt_in-Keeps req h (some sess) same =
      run_prompt-Keeps req.session_id sess h _ _ (same sess refl)

  prompt-Keeps :
      (h : Handler) (params : Decoded PromptRequest)
      → Named h.sessions
      → Keeps h.sessions (handle_prompt services h params).0.sessions
  unfolding handle_prompt
  prompt-Keeps h (undecodable e) named = Keeps-all h.sessions
  prompt-Keeps h (decoded req) named =
      prompt_in-Keeps req h _ (λ s e. load_session-Named req.session_id h.sessions s named e)

  pub dispatch_as-Keeps :
      (method : Method) (sid : Bytes) (h : Handler) (params : Bytes)
      → Named h.sessions
      → Keeps h.sessions (dispatch_as services method sid h params).0.sessions
  unfolding dispatch_as
  dispatch_as-Keeps initialize sid h [] named = Keeps-all h.sessions
  dispatch_as-Keeps initialize sid h (c ∷ params) named = initialize-Keeps h _
  dispatch_as-Keeps authenticate sid h params named = Keeps-all h.sessions
  dispatch_as-Keeps session_new sid h params named = new_session-Keeps _ sid h _
  dispatch_as-Keeps session_load sid h params named = load_session-Keeps h _
  dispatch_as-Keeps session_prompt sid h params named = prompt-Keeps h _ named
  dispatch_as-Keeps session_cancel sid h params named = cancel-Keeps h _
  dispatch_as-Keeps session_set_mode sid h params named = Keeps-all h.sessions
  dispatch_as-Keeps session_set_config sid h params named = Keeps-all h.sessions
  dispatch_as-Keeps (unknown method) sid h params named = Keeps-all h.sessions
