-- ===== src/Protocol/Server/Approval.antt =====
-- Which tools a client of internal/protocol/server.go lets a run start.
use kontekst.Prelude.{
  ℕ, suc, ◌≡◌, ◌⊎◌, inl, inr, refl, sym, ap, ap₂, subst, ◌∙◌, Bool, true, List, [], ◌∷◌, ◌++◌,
  Bytes, All, All-mono, In, first, later, ◌+◌, if_ind, arith,
}
use kontekst.Core.{is_empty}
use kontekst.Agent.Approvals.{PendingBatch, Command}
use kontekst.Agent.Execution.{Allowed}
use kontekst.Agent.Trace.{run_loop-approved, Visits}
use kontekst.Agent.Types.{
  Response, ProposedToolCall, Event, run_started, token_delta, reasoning_delta, turn_completed,
  tools_proposed, tool_started, tool_completed, tool_failed, tools_completed, run_completed,
  run_cancelled, run_failed, Services,
}
use kontekst.Agent.Loop.{RunConfig, run_loop}
use kontekst.Protocol.Permission.{Update, agent_message_chunk, agent_thought_chunk}
use kontekst.Conversation.Snapshot.{Snapshot}
use kontekst.Protocol.Server.{
  Client, Sent, context_update, send_command, ask_permission, ask_permissions, sent_for, chunk,
  Handled, continues, stops, fails, handled_as, go_on_from, Forwarded, Signal, event, events_closed,
  connection_done, context_done, forward_from, forward_events, requests_of, cancel_command,
}
use kontekst.Protocol.Server.Commands.{commands_in}
use kontekst.Protocol.Server.Answers.{
  UserAllowed, allowed_option, Approves, Answer, command_for-Approves, empty_list,
  commands_in-append, commands_cases,
}

module _ (client : Client) (sid : Bytes) where
  ask-Approves :
      (n : ℕ) (calls : List ProposedToolCall) (c : Command)
      → In c (commands_in (ask_permissions client sid true n calls))
      → Approves c
      → (call : ProposedToolCall) × (k : ℕ) × In call calls
        × (call.call_id ≡ c.call_id)
        × Answer client sid call k
  unfolding ask_permissions ask_permission send_command commands_in
  ask-Approves n [] c place is = elim place [ ]
  ask-Approves n (call ∷ calls) c (first e) is =
      let (outcome, answer, allowed, names) =
        command_for-Approves call.call_id _ (ap (λ (d : Command). d.kind) (sym e) ∙ is) in
      let (selects, allows) = allowed_option outcome allowed in
      (
        call,
        n,
        first refl,
        sym names ∙ ap (λ (d : Command). d.call_id) (sym e),
        (outcome, answer, selects, allows),
      )
  ask-Approves n (call ∷ calls) c (later place) is =
      let (found, k, at, names, answer) = ask-Approves (suc n) calls c place is in
      (found, k, later at, names, answer)

  chunk-silent : (update : Bytes → Update) (text : Bytes) → commands_in (chunk sid update text) ≡ []
  unfolding chunk commands_in
  chunk-silent update text =
      if_ind (λ (sent : List Sent). commands_in sent ≡ []) (is_empty text) (λ _. refl) (λ _. refl)

  context-silent : (snapshot : Snapshot) → commands_in (context_update snapshot ∷ []) ≡ []
  unfolding commands_in
  context-silent snapshot = refl

  turn-silent :
      (response : Response) (snapshot : Snapshot)
      → commands_in (sent_for client sid true 0 (turn_completed response snapshot)) ≡ []
  unfolding sent_for
  turn-silent response snapshot =
      commands_in-append (chunk sid agent_thought_chunk response.reasoning) _
      ∙ ap₂ (λ (cs ds : List Command). cs ++ ds)
          (chunk-silent agent_thought_chunk response.reasoning)
          (commands_in-append (chunk sid agent_message_chunk response.content)
              (context_update snapshot ∷ [])
            ∙ ap (λ (cs : List Command). cs ++ commands_in (context_update snapshot ∷ []))
                (chunk-silent agent_message_chunk response.content)
            ∙ context-silent snapshot)

  -- What an event proposes.
  abbrev ProposedBy : Event → ProposedToolCall → Type 0
  ProposedBy e call = (calls : List ProposedToolCall) × (e ≡ tools_proposed calls) × In call calls

  abbrev Approval : Event → Command → Type 0
  Approval e c =
      (call : ProposedToolCall) × (k : ℕ) × ProposedBy e call
      × (call.call_id ≡ c.call_id)
      × Answer client sid call k

  sent_for-Approves :
      (n : ℕ) (e : Event) (c : Command)
      → In c (commands_in (sent_for client sid true n e))
      → Approves c
      → Approval e c
  unfolding sent_for commands_in
  sent_for-Approves n (tools_proposed calls) c place is =
      let (call, k, at, names, answer) = ask-Approves n calls c place is in
      (call, k, (calls, refl, at), names, answer)
  sent_for-Approves n (turn_completed response snapshot) c place is =
      elim (subst (λ (cs : List Command). In c cs) (turn-silent response snapshot) place) [ ]
  sent_for-Approves n run_started c place is = elim place [ ]
  sent_for-Approves n (token_delta token) c place is = elim place [ ]
  sent_for-Approves n (reasoning_delta reasoning) c place is = elim place [ ]
  sent_for-Approves n (tool_started id) c place is = elim place [ ]
  sent_for-Approves n (tool_completed id output) c place is = elim place [ ]
  sent_for-Approves n (tool_failed id text) c place is = elim place [ ]
  sent_for-Approves n tools_completed c place is = elim place [ ]
  sent_for-Approves n (run_completed response) c place is = elim place [ ]
  sent_for-Approves n run_cancelled c place is = elim place [ ]
  sent_for-Approves n (run_failed text) c place is = elim place [ ]

  later_allowed :
      (signal : Signal) (signals : List Signal) (id : Bytes)
      → UserAllowed client sid signals id
      → UserAllowed client sid (signal ∷ signals) id
  later_allowed signal signals id u = record {
    n = u.n;
    calls = u.calls;
    call = u.call;
    outcome = u.outcome;
    is_proposed = later u.is_proposed;
    is_call = u.is_call;
    has_id = u.has_id;
    is_answer = u.is_answer;
    selects = u.selects;
    allows = u.allows;
  }

  allowed_now :
      (e : Event) (signals : List Signal) (c : Command)
      → Approval e c
      → UserAllowed client sid (event e ∷ signals) c.call_id
  allowed_now e signals c (call, k, (calls, same, at), names, (outcome, answer, selects, allows)) =
      record {
        n = k;
        calls = calls;
        call = call;
        outcome = outcome;
        is_proposed = first (ap event (sym same));
        is_call = at;
        has_id = names;
        is_answer = answer;
        selects = selects;
        allows = allows;
      }

  go_on_from-approves :
      (handled : Handled) (now : List Sent) (rest : List Sent × Forwarded) (c : Command)
      → In c (commands_in (go_on_from client sid true handled now rest).0)
      → In c (commands_in now) ⊎ In c (commands_in rest.0)
  unfolding go_on_from
  go_on_from-approves continues now (sent, forwarded) c place = commands_cases c now sent place
  go_on_from-approves (stops reason) now rest c place = inl place
  go_on_from-approves (fails e) now rest c place = inl place

  cancel-Approves :
      (c : Command) → Approves c → ¬ In c (commands_in (send_command true cancel_command))
  unfolding commands_in send_command
  cancel-Approves c is (first e) = ground arith
  cancel-Approves c is (later place) = elim place [ ]

  forward_from-Approves :
      (n : ℕ) (signals : List Signal) (c : Command)
      → In c (commands_in (forward_from client sid true n signals).0)
      → Approves c
      → UserAllowed client sid signals c.call_id
  unfolding forward_from commands_in
  forward_from-Approves n [] c place is = elim (empty_list c place) [ ]
  forward_from-Approves n (event e ∷ signals) c place is =
      elim (go_on_from-approves (handled_as e) (sent_for client sid true n e)
        (forward_from client sid true (requests_of e + n) signals) c place) [
          | inl now ↦ allowed_now e signals c (sent_for-Approves n e c now is)
          | inr rest ↦
              later_allowed (event e) signals c.call_id
                (forward_from-Approves (requests_of e + n) signals c rest is)
        ]
  forward_from-Approves n (events_closed ∷ signals) c place is = elim (empty_list c place) [ ]
  forward_from-Approves n (connection_done ∷ signals) c place is =
      elim (cancel-Approves c is place) [ ]
  forward_from-Approves n (context_done ∷ signals) c place is =
      elim (cancel-Approves c is place) [ ]

  abbrev pub StartAllowed : List Signal → Event → Type 0
  StartAllowed signals (tool_started id) = UserAllowed client sid signals id
  StartAllowed signals run_started = Unit
  StartAllowed signals (token_delta token) = Unit
  StartAllowed signals (reasoning_delta reasoning) = Unit
  StartAllowed signals (turn_completed response snapshot) = Unit
  StartAllowed signals (tools_proposed calls) = Unit
  StartAllowed signals (tool_completed id output) = Unit
  StartAllowed signals (tool_failed id text) = Unit
  StartAllowed signals tools_completed = Unit
  StartAllowed signals (run_completed response) = Unit
  StartAllowed signals run_cancelled = Unit
  StartAllowed signals (run_failed text) = Unit

  start_allowed :
      (signals : List Signal) (e : Event)
      → Allowed (commands_in (forward_from client sid true 0 signals).0) e
      → StartAllowed signals e
  start_allowed signals (tool_started id) (c, place, is, names) =
      subst (UserAllowed client sid signals) (sym names)
        (forward_from-Approves 0 signals c place is)
  start_allowed signals run_started h = tt
  start_allowed signals (token_delta token) h = tt
  start_allowed signals (reasoning_delta reasoning) h = tt
  start_allowed signals (turn_completed response snapshot) h = tt
  start_allowed signals (tools_proposed calls) h = tt
  start_allowed signals (tool_completed id output) h = tt
  start_allowed signals (tool_failed id text) h = tt
  start_allowed signals tools_completed h = tt
  start_allowed signals (run_completed response) h = tt
  start_allowed signals run_cancelled h = tt
  start_allowed signals (run_failed text) h = tt

  module _ {S : Type 0} (services : Services S) (config : RunConfig) (fresh : ℕ → ℕ → Bytes)
      (visit : (turn use_no : ℕ) → PendingBatch → PendingBatch) where
    -- A run whose commands are those that the server sends, for whatever events and signals, starts a tool only where the client answered the server's request for a call of that id with the selected option "allow".
    pub started-UserAllowed :
        (fuel : ℕ) (prompt : Bytes) (signals : List Signal) (closed : Bool) (s : S)
        → Visits services config fresh visit
        → All
            (StartAllowed signals)
            (run_loop services config fresh visit fuel prompt
              (commands_in (forward_events client sid true signals).0)
              closed
              s).0
    unfolding forward_events
    started-UserAllowed fuel prompt signals closed s visits = All-mono (start_allowed signals) _ (
        run_loop-approved services config fresh visit fuel prompt
          (commands_in (forward_from client sid true 0 signals).0) closed s visits)
