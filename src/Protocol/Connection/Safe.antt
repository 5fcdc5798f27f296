-- ===== src/Protocol/Connection/Safe.antt =====
-- The sends of internal/protocol/jsonrpc.go find room in their channels, the ones under the lock too.
use kontekst.Prelude.Int.{ℤ, pos, negsuc}
use kontekst.Prelude.{
  ℕ, ◌≡◌, Bool, true, false, refl, ap, ◌∙◌, ◌&&◌, subst, List, [], ◌∷◌, Option, Bytes, none, some,
  arith, if_ind,
}
use kontekst.Protocol.Calls.{
  Reader, scanning, delivering, draining, unlocked, cancelled, ended, Connection, params_failed,
  context_ended, connection_closed, is_waiting, pending_call, is_locked, is_scanning, has_id,
}
use kontekst.Protocol.Connection.{
  Action, begin, fail_params, send, receive, end_context, see_done, read, put, end_input, drain,
  unlock, cancel_context, close_done, respond, notify, close, Line, empty, malformed, message, step,
  Reach, start, after, send_on, deliver, read_message, read_line, put_as, unlock_as, cancel_as,
  close_as, respond_to, forget,
}
use kontekst.Protocol.Messages.{RpcResponse, Handled, closed_response, RpcMessage}
use kontekst.Protocol.Connection.Tracked.{delivers, is_delivering, is_empty_channel, Inv, start-Inv}
use kontekst.Protocol.Connection.Invariant.{
  Kept, when-Kept, begun-Inv, forget-Inv, sent-Inv, received-Kept, closed-Inv, quiet-Inv,
  written-Inv, scans, deliver-Inv, put-Kept, drain-Kept,
}

delivered-Inv :
    (n : Option ℕ) (msg : RpcMessage) (c : Connection)
    → ((k : ℕ) → n ≡ some k → has_id k c.pending ≡ true)
    → is_scanning c.reader ≡ true
    → Inv c
    → Inv (deliver n msg c)
unfolding deliver
delivered-Inv none msg c has is inv = inv
delivered-Inv (some n) msg c has is inv = deliver-Inv n msg c (has n refl) is inv

pending_call-has_id :
    (id : ℤ) (ns : List ℕ) (k : ℕ) → pending_call id ns ≡ some k → has_id k ns ≡ true
unfolding pending_call
pending_call-has_id (pos n) ns k e = ground arith
pending_call-has_id (negsuc n) ns k e = ground arith

read_message-Inv :
    (has_method : Bool) (id : Option ℤ) (msg : RpcMessage) (c : Connection)
    → is_scanning c.reader ≡ true
    → Inv c
    → Inv (read_message has_method id msg c)
unfolding read_message
read_message-Inv false (some id) msg c is inv =
    delivered-Inv (pending_call id c.pending) msg c (pending_call-has_id id c.pending) is inv
read_message-Inv true (some id) msg c is inv =
    quiet-Inv c c.reader _ c.written c.is_cancelled c.is_done (λ k. refl) inv
read_message-Inv true none msg c is inv = inv
read_message-Inv false none msg c is inv = inv

read_line-Inv :
    (line : Line) (c : Connection) → is_scanning c.reader ≡ true → Inv c → Inv (read_line line c)
unfolding read_line
read_line-Inv empty c is inv = inv
read_line-Inv malformed c is inv = inv
read_line-Inv (message msg) c is inv = read_message-Inv _ msg.id msg c is inv

put_as-Kept :
    (reader : Reader) (c : Connection) → c.reader ≡ reader → Inv c → Kept (put_as reader c)
unfolding put_as
put_as-Kept (delivering n r) c e inv = put-Kept n r (c.channels n) c refl e inv
put_as-Kept scanning c e inv = tt
put_as-Kept draining c e inv = tt
put_as-Kept unlocked c e inv = tt
put_as-Kept cancelled c e inv = tt
put_as-Kept ended c e inv = tt

-- The reader goes on, with nothing to deliver.
moved-Inv :
    (c : Connection) (reader next : Reader) (is_cancelled is_done : Bool)
    → c.reader ≡ reader
    → ((k : ℕ) → delivers k reader ≡ delivers k next)
    → Inv c
    → Inv (record c { reader = next; is_cancelled = is_cancelled; is_done = is_done })
moved-Inv c reader next is_cancelled is_done e same inv =
    quiet-Inv c next c.handling c.written is_cancelled is_done (λ k. ap (delivers k) e ∙ same k) inv

unlock_as-Kept :
    (reader : Reader) (ns : List ℕ) (c : Connection)
    → c.reader ≡ reader
    → Inv c
    → Kept (unlock_as reader ns c)
unfolding unlock_as
unlock_as-Kept draining [] c e inv =
    moved-Inv c draining unlocked c.is_cancelled c.is_done e (λ k. refl) inv
unlock_as-Kept draining (n ∷ ns) c e inv = tt
unlock_as-Kept scanning ns c e inv = tt
unlock_as-Kept (delivering n r) ns c e inv = tt
unlock_as-Kept unlocked ns c e inv = tt
unlock_as-Kept cancelled ns c e inv = tt
unlock_as-Kept ended ns c e inv = tt

cancel_as-Kept :
    (reader : Reader) (c : Connection) → c.reader ≡ reader → Inv c → Kept (cancel_as reader c)
unfolding cancel_as
cancel_as-Kept unlocked c e inv = moved-Inv c unlocked cancelled true c.is_done e (λ k. refl) inv
cancel_as-Kept scanning c e inv = tt
cancel_as-Kept (delivering n r) c e inv = tt
cancel_as-Kept draining c e inv = tt
cancel_as-Kept cancelled c e inv = tt
cancel_as-Kept ended c e inv = tt

close_as-Kept :
    (reader : Reader) (c : Connection) → c.reader ≡ reader → Inv c → Kept (close_as reader c)
unfolding close_as
close_as-Kept cancelled c e inv = moved-Inv c cancelled ended c.is_cancelled true e (λ k. refl) inv
close_as-Kept scanning c e inv = tt
close_as-Kept (delivering n r) c e inv = tt
close_as-Kept draining c e inv = tt
close_as-Kept unlocked c e inv = tt
close_as-Kept ended c e inv = tt

respond_to-Kept :
    (msgs : List RpcMessage) (handled : Option Handled) (failure : Option Bytes) (c : Connection)
    → Inv c
    → Kept (respond_to msgs handled failure c)
unfolding respond_to
respond_to-Kept [] handled failure c inv = tt
respond_to-Kept (msg ∷ msgs) handled failure c inv =
    written-Inv failure _ _
      (quiet-Inv c c.reader msgs c.written c.is_cancelled c.is_done (λ k. refl) inv)

-- Every action keeps the invariant.
step-Kept : (a : Action) (c : Connection) → Inv c → Kept (step a c)
unfolding step
step-Kept begin c inv = when-Kept _ _ (λ _. begun-Inv c inv)
step-Kept (fail_params n error) c inv =
    when-Kept _ _ (λ _. forget-Inv n c (params_failed error) inv)
step-Kept (send n method params failure) c inv =
    when-Kept _ _ (λ h. sent-Inv n _ failure c (ground arith) inv)
step-Kept (receive n) c inv =
    if_ind Kept (is_waiting (c.calls n)) (λ _. received-Kept n (c.channels n) c refl inv) (λ _. tt)
step-Kept (end_context n error) c inv =
    when-Kept _ _ (λ _. forget-Inv n c (context_ended error) inv)
step-Kept (see_done n) c inv = when-Kept _ _ (λ _. closed-Inv n connection_closed c inv)
step-Kept (read line) c inv = when-Kept _ _ (λ h. read_line-Inv line c h inv)
step-Kept put c inv = put_as-Kept c.reader c refl inv
step-Kept end_input c inv = when-Kept _ _ (λ h.
    quiet-Inv c draining c.handling c.written c.is_cancelled c.is_done (λ k. scans k c.reader h)
      inv)
step-Kept (drain n) c inv =
    if_ind Kept (is_locked c.reader && has_id n c.pending)
      (λ h. drain-Kept n closed_response (c.channels n) c refl (ground arith) inv) (λ _. tt)
step-Kept unlock c inv = unlock_as-Kept c.reader c.pending c refl inv
step-Kept cancel_context c inv = cancel_as-Kept c.reader c refl inv
step-Kept close_done c inv = close_as-Kept c.reader c refl inv
step-Kept (respond handled failure) c inv =
    if_ind Kept (is_locked c.reader) (λ _. tt)
      (λ _. respond_to-Kept c.handling handled failure c inv)
step-Kept (notify method params failure) c inv = when-Kept _ _ (λ _. written-Inv failure _ c inv)
step-Kept close c inv = quiet-Inv c c.reader c.handling c.written true c.is_done (λ k. refl) inv

pub reach-Inv : {past : List Action} {c : Connection} → Reach past c → Inv c
reach-Inv start = start-Inv
reach-Inv (after {c = c} a r e) = subst Kept e (step-Kept a c (reach-Inv r))

put_room :
    (n : ℕ) (r : RpcResponse) (rs : List RpcResponse) (c : Connection)
    → is_empty_channel rs ≡ true
    → (c' : Connection) × (send_on n r rs c ≡ some c')
unfolding send_on
put_room n r [] c e = (_, refl)
put_room n r (r' ∷ rs) c e = ground arith

-- The send of deliverResponse, and those of the loop that closes what is pending.
pub data SendDue (c : Connection) : Action → Type 0 where
  reader_sends : is_delivering c.reader ≡ true → SendDue c put
  loop_sends : (n : ℕ) → (is_locked c.reader && has_id n c.pending) ≡ true → SendDue c (drain n)

put_goes :
    (reader : Reader) (c : Connection)
    → is_delivering reader ≡ true
    → c.reader ≡ reader
    → Inv c
    → (c' : Connection) × (put_as reader c ≡ some c')
unfolding put_as
put_goes (delivering n r) c due e inv =
    put_room n r (c.channels n) _ (inv.delivered_free n (ground arith))
put_goes scanning c due e inv = ground arith
put_goes draining c due e inv = ground arith
put_goes unlocked c due e inv = ground arith
put_goes cancelled c due e inv = ground arith
put_goes ended c due e inv = ground arith

drain_goes :
    (n : ℕ) (c : Connection)
    → (is_locked c.reader && has_id n c.pending) ≡ true
    → Inv c
    → (c' : Connection) × (step (drain n) c ≡ some c')
unfolding step
drain_goes n c due inv =
    let (c', e) =
      put_room n closed_response (c.channels n) (forget n c) (inv.free n (ground arith)) in
    (c', ground (arith, e))

-- In every state that a connection reaches, each send on a channel that is due can be made: the reader's, of a response to the call that waits for it, and those of the loop that closes what is pending, which holds the lock. Neither blocks the connection.
pub sends_never_block :
    (a : Action) (past : List Action) (c : Connection)
    → Reach past c
    → SendDue c a
    → (c' : Connection) × (step a c ≡ some c')
unfolding step
sends_never_block _ past c reach (reader_sends due) = put_goes c.reader c due refl (reach-Inv reach)
sends_never_block _ past c reach (loop_sends n due) = drain_goes n c due (reach-Inv reach)
