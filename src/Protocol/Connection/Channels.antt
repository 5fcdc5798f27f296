-- ===== src/Protocol/Connection/Channels.antt =====
-- What is told of the results of Request in internal/protocol/jsonrpc.go stays true where a channel is
-- sent on or received from, and where the read loop comes to its end.
use kontekst.Prelude.Int.{ℤ, pos, negsuc}
use kontekst.Prelude.{ℕ, ◌≡◌, true, refl, List, [], ◌∷◌, Option, none, some, arith, All, Bytes}
use kontekst.Protocol.Calls.{
  Reader, scanning, delivering, draining, unlocked, cancelled, ended, Connection, waiting, returned,
  Outcome, answered, refused, write_failed, pending_call,
}
use kontekst.Protocol.Connection.{
  outcome_of, Action, sent, received, send_on, put_as, unlock_as, cancel_as, close_as, return_from,
  forget,
}
use kontekst.Protocol.Messages.{RpcMessage, RpcResponse, RpcError}
use kontekst.Protocol.Connection.Causes.{
  Came, Cause, Held, Told, KeptTold, call-Told, channel-Told, reader-Told, other-Told,
}

pub forget-Told :
    (past : List Action) (n : ℕ) (outcome : Outcome) (c : Connection)
    → Cause past n outcome
    → Told past c
    → Told past (return_from n outcome (forget n c))
forget-Told past n outcome c cause told =
    call-Told past n (returned outcome) (forget n c) cause
      (other-Told past c c.next_id _ c.handling c.written c.is_cancelled c.is_done told)

pub sent-Told :
    (past : List Action) (n : ℕ) (msg : RpcMessage) (failure : Option Bytes) (c : Connection)
    → ((e : Bytes) → failure ≡ some e → Cause past n (write_failed e))
    → Told past c
    → Told past (sent n msg failure c)
unfolding sent
sent-Told past n msg none c cause told =
    call-Told past n waiting _ tt
      (other-Told past c c.next_id c.pending c.handling _ c.is_cancelled c.is_done told)
sent-Told past n msg (some e) c cause told =
    forget-Told past n (write_failed e) c (cause e refl) told

pub outcome_of-Cause :
    (past : List Action) (n : ℕ) (r : RpcResponse) (e : Option RpcError)
    → Came past n r
    → r.error ≡ e
    → Cause past n (elim e [ some x ↦ refused x | none ↦ answered r.result ])
outcome_of-Cause past n r none came is = (r, came, is, refl)
outcome_of-Cause past n r (some x) came is = (r, came, is)

pub received-Told :
    (past : List Action) (n : ℕ) (rs : List RpcResponse) (c : Connection)
    → All (Came past n) rs
    → Told past c
    → KeptTold past (received n rs c)
unfolding received outcome_of
received-Told past n [] c came told = tt
received-Told past n (r ∷ rs) c came told =
    call-Told past n (returned _) _ (outcome_of-Cause past n r r.error came.0 refl)
      (channel-Told past n rs c came.1 told)

pub send_on-Told :
    (past : List Action) (n : ℕ) (r : RpcResponse) (rs : List RpcResponse) (c : Connection)
    → Came past n r
    → Told past c
    → KeptTold past (send_on n r rs c)
unfolding send_on
send_on-Told past n r [] c came told = channel-Told past n (r ∷ []) c (came, tt) told
send_on-Told past n r (s ∷ rs) c came told = tt

pub put_as-Told :
    (past : List Action) (reader : Reader) (c : Connection)
    → Held past reader
    → Told past c
    → KeptTold past (put_as reader c)
unfolding put_as
put_as-Told past (delivering n r) c held told =
    send_on-Told past n r (c.channels n) _ held (reader-Told past scanning c tt told)
put_as-Told past scanning c held told = tt
put_as-Told past draining c held told = tt
put_as-Told past unlocked c held told = tt
put_as-Told past cancelled c held told = tt
put_as-Told past ended c held told = tt

pub unlock_as-Told :
    (past : List Action) (reader : Reader) (ns : List ℕ) (c : Connection)
    → Told past c
    → KeptTold past (unlock_as reader ns c)
unfolding unlock_as
unlock_as-Told past draining [] c told = reader-Told past unlocked c tt told
unlock_as-Told past draining (n ∷ ns) c told = tt
unlock_as-Told past scanning ns c told = tt
unlock_as-Told past (delivering n r) ns c told = tt
unlock_as-Told past unlocked ns c told = tt
unlock_as-Told past cancelled ns c told = tt
unlock_as-Told past ended ns c told = tt

pub cancel_as-Told :
    (past : List Action) (reader : Reader) (c : Connection)
    → Told past c
    → KeptTold past (cancel_as reader c)
unfolding cancel_as
cancel_as-Told past unlocked c told =
    reader-Told past cancelled _ tt
      (other-Told past c c.next_id c.pending c.handling c.written true c.is_done told)
cancel_as-Told past scanning c told = tt
cancel_as-Told past (delivering n r) c told = tt
cancel_as-Told past draining c told = tt
cancel_as-Told past cancelled c told = tt
cancel_as-Told past ended c told = tt

pub close_as-Told :
    (past : List Action) (reader : Reader) (c : Connection)
    → Told past c
    → KeptTold past (close_as reader c)
unfolding close_as
close_as-Told past cancelled c told =
    reader-Told past ended _ tt
      (other-Told past c c.next_id c.pending c.handling c.written c.is_cancelled true told)
close_as-Told past scanning c told = tt
close_as-Told past (delivering n r) c told = tt
close_as-Told past draining c told = tt
close_as-Told past unlocked c told = tt
close_as-Told past ended c told = tt

pub pending_call_id : (id : ℤ) (ns : List ℕ) (n : ℕ) → pending_call id ns ≡ some n → id ≡ pos n
unfolding pending_call
pending_call_id (pos k) ns n e = ground arith
pending_call_id (negsuc k) ns n e = ground arith
