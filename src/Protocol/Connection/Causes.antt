-- ===== src/Protocol/Connection/Causes.antt =====
-- What the results of Request in internal/protocol/jsonrpc.go come from, and which fields of the
-- connection carry it.
use kontekst.Prelude.Int.{pos}
use kontekst.Prelude.{
  ℕ, ◌≡◌, Bool, true, ◌==◌, ==_iff, sym, subst, List, ◌∷◌, Option, none, some, if_ind, In, later,
  All, All-mono, Bytes,
}
use kontekst.Core.{is_empty}
use kontekst.Protocol.Calls.{
  Reader, scanning, delivering, draining, unlocked, cancelled, ended, Connection, Call, absent,
  registered, waiting, returned, Outcome, answered, refused, params_failed, write_failed,
  context_ended, connection_closed, update,
}
use kontekst.Protocol.Connection.{
  when, message, Action, fail_params, send, end_context, see_done, read, drain, write_message,
}
use kontekst.Protocol.Messages.{RpcMessage, RpcResponse, response_of, closed_response}

-- The message that was read for the call, or the loop that closes what is pending.
pub data Came (past : List Action) (n : ℕ) (r : RpcResponse) : Type 0 where
  from_peer :
      (msg : RpcMessage)
      → In (read (message msg)) past
      → msg.id ≡ some (pos n)
      → is_empty msg.method ≡ true
      → r ≡ response_of msg
      → Came past n r
  from_close : In (drain n) past → r ≡ closed_response → Came past n r

-- The last actions of a call that returned so.
abbrev pub Cause : List Action → ℕ → Outcome → Type 0
Cause past n (answered result) =
    (r : RpcResponse) × Came past n r × (r.error ≡ none) × (r.result ≡ result)
Cause past n (refused e) = (r : RpcResponse) × Came past n r × (r.error ≡ some e)
Cause past n (params_failed e) = In (fail_params n e) past
Cause past n (write_failed e) =
    (method : Bytes) × (params : Bytes) × In (send n method params (some e)) past
Cause past n (context_ended e) = In (end_context n e) past
Cause past n connection_closed = In (see_done n) past

abbrev pub CauseOf : List Action → ℕ → Call → Type 0
CauseOf past n absent = Unit
CauseOf past n registered = Unit
CauseOf past n waiting = Unit
CauseOf past n (returned outcome) = Cause past n outcome

abbrev pub Held : List Action → Reader → Type 0
Held past (delivering n r) = Came past n r
Held past scanning = Unit
Held past draining = Unit
Held past unlocked = Unit
Held past cancelled = Unit
Held past ended = Unit

pub record Told (past : List Action) (c : Connection) : Type 0 where
  pub in_channels : (n : ℕ) → All (Came past n) (c.channels n)
  pub on_way : Held past c.reader
  pub at_calls : (n : ℕ) → CauseOf past n (c.calls n)

Came-later :
    (a : Action) (past : List Action) (n : ℕ) (r : RpcResponse)
    → Came past n r
    → Came (a ∷ past) n r
Came-later a past n r (from_peer msg place id method e) = from_peer msg (later place) id method e
Came-later a past n r (from_close place e) = from_close (later place) e

Cause-later :
    (a : Action) (past : List Action) (n : ℕ) (outcome : Outcome)
    → Cause past n outcome
    → Cause (a ∷ past) n outcome
Cause-later a past n (answered result) (r, came, e, h) = (r, Came-later a past n r came, e, h)
Cause-later a past n (refused e) (r, came, h) = (r, Came-later a past n r came, h)
Cause-later a past n (params_failed e) h = later h
Cause-later a past n (write_failed e) (method, params, h) = (method, params, later h)
Cause-later a past n (context_ended e) h = later h
Cause-later a past n connection_closed h = later h

CauseOf-later :
    (a : Action) (past : List Action) (n : ℕ) (call : Call)
    → CauseOf past n call
    → CauseOf (a ∷ past) n call
CauseOf-later a past n absent h = tt
CauseOf-later a past n registered h = tt
CauseOf-later a past n waiting h = tt
CauseOf-later a past n (returned outcome) h = Cause-later a past n outcome h

Held-later :
    (a : Action) (past : List Action) (reader : Reader) → Held past reader → Held (a ∷ past) reader
Held-later a past (delivering n r) h = Came-later a past n r h
Held-later a past scanning h = tt
Held-later a past draining h = tt
Held-later a past unlocked h = tt
Held-later a past cancelled h = tt
Held-later a past ended h = tt

pub Told-later :
    (a : Action) (past : List Action) (c : Connection) → Told past c → Told (a ∷ past) c
Told-later a past c told = record {
  in_channels =
      λ n. All-mono (λ r came. Came-later a past n r came) (c.channels n) (told.in_channels n);
  on_way = Held-later a past c.reader told.on_way;
  at_calls = λ n. CauseOf-later a past n (c.calls n) (told.at_calls n);
}

pub update_ind :
    {A : Type 0} (P : ℕ → A → Type 0) (n : ℕ) (v : A) (f : ℕ → A)
    → P n v
    → ((k : ℕ) → P k (f k))
    → (k : ℕ) → P k (update n v f k)
update_ind P n v f h g k =
    if_ind (P k) (k == n) (λ e. subst (λ (j : ℕ). P j v) (sym ((==_iff k n).0 e)) h) (λ _. g k)

abbrev pub KeptTold : List Action → Option Connection → Type 0
KeptTold past none = Unit
KeptTold past (some c) = Told past c

pub when-Told :
    (past : List Action) (b : Bool) (c : Connection) → Told past c → KeptTold past (when b c)
when-Told past b c told = if_ind (KeptTold past) b (λ _. told) (λ _. tt)

-- The call `n` goes on to `call`.
pub call-Told :
    (past : List Action) (n : ℕ) (call : Call) (c : Connection)
    → CauseOf past n call
    → Told past c
    → Told past (record c { calls = update n call c.calls })
call-Told past n call c cause told = record {
  in_channels = told.in_channels;
  on_way = told.on_way;
  at_calls = update_ind (CauseOf past) n call c.calls cause told.at_calls;
}

-- The channel `n` holds `rs` and the reader is at `reader`.
pub channel-Told :
    (past : List Action) (n : ℕ) (rs : List RpcResponse) (c : Connection)
    → All (Came past n) rs
    → Told past c
    → Told past (record c { channels = update n rs c.channels })
channel-Told past n rs c came told = record {
  in_channels =
      update_ind (λ k (ss : List RpcResponse). All (Came past k) ss) n rs c.channels came
        told.in_channels;
  on_way = told.on_way;
  at_calls = told.at_calls;
}

pub reader-Told :
    (past : List Action) (reader : Reader) (c : Connection)
    → Held past reader
    → Told past c
    → Told past (record c { reader = reader })
reader-Told past reader c held told = record {
  in_channels = told.in_channels;
  on_way = held;
  at_calls = told.at_calls;
}

-- The other fields have no part in it.
pub other-Told :
    (past : List Action) (c : Connection) (next_id : ℕ) (pending : List ℕ)
    (handling written : List RpcMessage) (is_cancelled is_done : Bool)
    → Told past c
    → Told past (record c {
      next_id = next_id;
      pending = pending;
      handling = handling;
      written = written;
      is_cancelled = is_cancelled;
      is_done = is_done;
    })
other-Told past c next_id pending handling written is_cancelled is_done told = record {
  in_channels = told.in_channels;
  on_way = told.on_way;
  at_calls = told.at_calls;
}

pub write-Told :
    (past : List Action) (failure : Option Bytes) (msg : RpcMessage) (c : Connection)
    → Told past c
    → Told past (write_message failure msg c)
write-Told past none msg c told =
    other-Told past c c.next_id c.pending c.handling _ c.is_cancelled c.is_done told
write-Told past (some e) msg c told = told
