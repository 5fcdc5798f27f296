-- ===== src/Protocol/Connection/Answers.antt =====
-- Where the results of Request in internal/protocol/jsonrpc.go come from.
use kontekst.Prelude.Int.{ℤ}
use kontekst.Prelude.{
  ℕ, suc, ◌≡◌, Bool, true, false, ◌&&◌, not, refl, sym, ap, ◌∙◌, subst, List, [], ◌∷◌, Option, none,
  some, arith, if_ind, In, first, Bytes,
}
use kontekst.Core.{is_empty}
use kontekst.Protocol.Calls.{
  delivering, draining, Connection, registered, returned, is_locked, is_waiting, Outcome,
  params_failed, context_ended, connection_closed, has_id, pending_call, new_connection,
}
use kontekst.Protocol.Connection.{
  begun, Line, empty, malformed, message, Action, begin, fail_params, send, receive, end_context,
  see_done, read, put, end_input, drain, unlock, cancel_context, close_done, respond, notify, close,
  step, Reach, start, after, deliver, read_message, read_line, respond_to,
}
use kontekst.Protocol.Messages.{RpcMessage, response_of, closed_response, Handled}
use kontekst.Protocol.Connection.Causes.{
  Came, from_peer, from_close, Cause, CauseOf, Told, Told-later, KeptTold, when-Told, call-Told,
  channel-Told, reader-Told, other-Told, write-Told,
}
use kontekst.Protocol.Connection.Channels.{
  forget-Told, sent-Told, received-Told, send_on-Told, put_as-Told, unlock_as-Told, cancel_as-Told,
  close_as-Told, pending_call_id,
}

deliver-Told :
    (past : List Action) (n : Option ℕ) (msg : RpcMessage) (c : Connection)
    → ((k : ℕ) → n ≡ some k → Came past k (response_of msg))
    → Told past c
    → Told past (deliver n msg c)
unfolding deliver
deliver-Told past none msg c came told = told
deliver-Told past (some n) msg c came told =
    reader-Told past (delivering n (response_of msg)) _ (came n refl)
      (other-Told past c c.next_id _ c.handling c.written c.is_cancelled c.is_done told)

read_message-Told :
    (past : List Action) (has_method : Bool) (id : Option ℤ) (msg : RpcMessage) (c : Connection)
    → has_method ≡ not (is_empty msg.method)
    → id ≡ msg.id
    → In (read (message msg)) past
    → Told past c
    → Told past (read_message has_method id msg c)
unfolding read_message
read_message-Told past false (some id) msg c is same place told =
    deliver-Told past (pending_call id c.pending) msg c
      (λ k e.
        from_peer msg place (sym same ∙ ap some (pending_call_id id c.pending k e)) (ground arith)
          refl)
      told
read_message-Told past true (some id) msg c is same place told =
    other-Told past c c.next_id c.pending _ c.written c.is_cancelled c.is_done told
read_message-Told past true none msg c is same place told = told
read_message-Told past false none msg c is same place told = told

read_line-Told :
    (past : List Action) (line : Line) (c : Connection)
    → In (read line) past
    → Told past c
    → Told past (read_line line c)
unfolding read_line
read_line-Told past empty c place told = told
read_line-Told past malformed c place told = told
read_line-Told past (message msg) c place told =
    read_message-Told past _ msg.id msg c refl refl place told

respond_to-Told :
    (past : List Action) (msgs : List RpcMessage) (handled : Option Handled)
    (failure : Option Bytes) (c : Connection)
    → Told past c
    → KeptTold past (respond_to msgs handled failure c)
unfolding respond_to
respond_to-Told past [] handled failure c told = tt
respond_to-Told past (msg ∷ msgs) handled failure c told =
    write-Told past failure _ _
      (other-Told past c c.next_id c.pending msgs c.written c.is_cancelled c.is_done told)

begun-Told : (past : List Action) (c : Connection) → Told past c → Told past (begun c)
unfolding begun
begun-Told past c told = call-Told past (suc c.next_id) registered _ tt (
    channel-Told past (suc c.next_id) [] _ tt
      (other-Told past c (suc c.next_id) _ c.handling c.written c.is_cancelled c.is_done told))

step-Told :
    (past : List Action) (a : Action) (c : Connection)
    → In a past
    → Told past c
    → KeptTold past (step a c)
unfolding step
step-Told past begin c place told = when-Told past _ _ (begun-Told past c told)
step-Told past (fail_params n e) c place told =
    when-Told past _ _ (forget-Told past n (params_failed e) c place told)
step-Told past (send n method params failure) c place told = when-Told past _ _ (
    sent-Told past n _ failure c
      (λ e is.
        (method, params, subst (λ (f : Option Bytes). In (send n method params f) past) is place))
      told)
step-Told past (receive n) c place told =
    if_ind (KeptTold past) (is_waiting (c.calls n))
      (λ _. received-Told past n (c.channels n) c (told.in_channels n) told) (λ _. tt)
step-Told past (end_context n e) c place told =
    when-Told past _ _ (forget-Told past n (context_ended e) c place told)
step-Told past (see_done n) c place told =
    when-Told past _ _ (call-Told past n (returned connection_closed) c place told)
step-Told past (read line) c place told = when-Told past _ _ (read_line-Told past line c place told)
step-Told past put c place told = put_as-Told past c.reader c told.on_way told
step-Told past end_input c place told = when-Told past _ _ (reader-Told past draining c tt told)
step-Told past (drain n) c place told =
    if_ind (KeptTold past) (is_locked c.reader && has_id n c.pending)
      (λ _.
        send_on-Told past n closed_response (c.channels n) _ (from_close place refl)
          (other-Told past c c.next_id _ c.handling c.written c.is_cancelled c.is_done told))
      (λ _. tt)
step-Told past unlock c place told = unlock_as-Told past c.reader c.pending c told
step-Told past cancel_context c place told = cancel_as-Told past c.reader c told
step-Told past close_done c place told = close_as-Told past c.reader c told
step-Told past (respond handled failure) c place told =
    if_ind (KeptTold past) (is_locked c.reader) (λ _. tt)
      (λ _. respond_to-Told past c.handling handled failure c told)
step-Told past (notify method params failure) c place told =
    when-Told past _ _ (write-Told past failure _ c told)
step-Told past close c place told =
    other-Told past c c.next_id c.pending c.handling c.written true c.is_done told

reach-Told : (past : List Action) (c : Connection) → Reach past c → Told past c
unfolding new_connection
reach-Told past c start = record { in_channels = λ n. tt; on_way = tt; at_calls = λ n. tt }
reach-Told past c (after {past = before} {c = c₀} a reach e) =
    subst (KeptTold past) e
      (step-Told past a c₀ (first refl) (Told-later a before c₀ (reach-Told before c₀ reach)))

-- A call of Request that returned has a cause of its own: its result or error stands in a message without a method that was read with the id of the call, or is the error that the end of the input sends to it; any other of its errors is that of its own marshalling, write, context, or of the closed connection.
pub returned-Cause :
    (past : List Action) (c : Connection) (n : ℕ) (outcome : Outcome)
    → Reach past c
    → c.calls n ≡ returned outcome
    → Cause past n outcome
returned-Cause past c n outcome reach is =
    subst (CauseOf past n) is ((reach-Told past c reach).at_calls n)
