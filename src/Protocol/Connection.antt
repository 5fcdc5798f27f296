-- ===== src/Protocol/Connection.antt =====
-- A JSON-RPC connection, internal/protocol/jsonrpc.go.
-- The goroutines take turns: an action is one stretch of code that runs with nothing between, which
-- is what the code does with the lock held, or one operation on a channel.
use kontekst.Prelude.Int.{ℤ, pos, negsuc}
use kontekst.Prelude.{
  ℕ, suc, ◌≡◌, Bool, true, false, not, ◌&&◌, ◌==◌, List, [], ◌∷◌, ◌++◌, Option, none, some, Bytes,
  codes, if◌then◌else◌,
}
use kontekst.Core.{is_empty}
use kontekst.Protocol.Messages.{
  RpcError, RpcMessage, RpcResponse, version, err_method_not_found, err_internal_error, response_of,
  closed_response, Handled, error_message, handle_request, request_message, notification_message,
  rpc_error, failed, marshalled, unmarshalled,
}
pub mod Pending
pub mod Tracked
pub mod Invariant
pub mod Safe
pub mod Shutdown
pub mod Causes
pub mod Channels
pub mod Answers
mod Tests
use kontekst.Protocol.Calls.{
  Outcome, Call, Reader, Connection, new_connection, update, has_id, delete_id, pending_call,
  is_locked, is_scanning, is_registered, is_waiting, answered, refused, params_failed, write_failed,
  context_ended, connection_closed, absent, registered, waiting, returned, scanning, delivering,
  draining, unlocked, cancelled, ended,
}

-- A line of the input: json.Unmarshal refuses it, or gives a message.
pub data Line : Type 0 where
  empty malformed : Line
  message : RpcMessage → Line

pub data Action : Type 0 where
  -- Request
  begin : Action
  fail_params : (n : ℕ) (error : Bytes) → Action
  send : (n : ℕ) (method params : Bytes) (failure : Option Bytes) → Action
  receive : (n : ℕ) → Action
  end_context : (n : ℕ) (error : Bytes) → Action
  see_done : (n : ℕ) → Action
  -- readLoop and deliverResponse
  read : Line → Action
  put : Action
  end_input : Action
  drain : (n : ℕ) → Action
  unlock cancel_context close_done : Action
  -- handleRequest's answer to the oldest request that is being handled, Notify and Close
  respond : Option Handled → (failure : Option Bytes) → Action
  notify : (method params : Bytes) (failure : Option Bytes) → Action
  close : Action

-- An action that cannot happen in this state has no result: its goroutine blocks, or is elsewhere.
abbrev pub when : Bool → Connection → Option Connection
when b c = if b then some c else none

abbrev pub return_from : ℕ → Outcome → Connection → Connection
return_from n outcome c = record c { calls = update n (returned outcome) c.calls }

abbrev pub forget : ℕ → Connection → Connection
forget n c = record c { pending = delete_id n c.pending }

-- The first part of Request, with the lock held.
unfoldable pub begun : Connection → Connection
begun c = record c {
  next_id = suc c.next_id;
  pending = suc c.next_id ∷ delete_id (suc c.next_id) c.pending;
  channels = update (suc c.next_id) [] c.channels;
  calls = update (suc c.next_id) registered c.calls;
}

-- A message whose marshalling or writing fails is not written.
abbrev pub write_message : Option Bytes → RpcMessage → Connection → Connection
write_message none msg c = record c { written = c.written ++ (msg ∷ []) }
write_message (some error) msg c = c

unfoldable pub sent : ℕ → RpcMessage → Option Bytes → Connection → Connection
sent n msg none c = record c { written = c.written ++ (msg ∷ []); calls = update n waiting c.calls }
sent n msg (some error) c = return_from n (write_failed error) (forget n c)

unfoldable pub outcome_of : RpcResponse → Outcome
outcome_of r = elim r.error [ some e ↦ refused e | none ↦ answered r.result ]

unfoldable pub received : ℕ → List RpcResponse → Connection → Option Connection
received n [] c = none
received n (r ∷ rs) c = some (record c {
  channels = update n rs c.channels;
  calls = update n (returned (outcome_of r)) c.calls;
})

-- The channels have room for one response.
unfoldable pub send_on : ℕ → RpcResponse → List RpcResponse → Connection → Option Connection
send_on n r [] c = some (record c { channels = update n (r ∷ []) c.channels })
send_on n r (r' ∷ rs) c = none

unfoldable pub deliver : Option ℕ → RpcMessage → Connection → Connection
deliver none msg c = c
deliver (some n) msg c = record c {
  pending = delete_id n c.pending;
  reader = delivering n (response_of msg);
}

-- The body of readLoop for a message; the result of a notification's handler is dropped.
unfoldable pub read_message : (has_method : Bool) → Option ℤ → RpcMessage → Connection → Connection
read_message false (some id) msg c = deliver (pending_call id c.pending) msg c
read_message true (some id) msg c = record c { handling = c.handling ++ (msg ∷ []) }
read_message true none msg c = c
read_message false none msg c = c

unfoldable pub read_line : Line → Connection → Connection
read_line empty c = c
read_line malformed c = c
read_line (message msg) c = read_message (not (is_empty msg.method)) msg.id msg c

unfoldable pub put_as : Reader → Connection → Option Connection
put_as (delivering n r) c = send_on n r (c.channels n) (record c { reader = scanning })
put_as scanning c = none
put_as draining c = none
put_as unlocked c = none
put_as cancelled c = none
put_as ended c = none

unfoldable pub unlock_as : Reader → List ℕ → Connection → Option Connection
unlock_as draining [] c = some (record c { reader = unlocked })
unlock_as draining (n ∷ ns) c = none
unlock_as scanning ns c = none
unlock_as (delivering n r) ns c = none
unlock_as unlocked ns c = none
unlock_as cancelled ns c = none
unlock_as ended ns c = none

unfoldable pub cancel_as : Reader → Connection → Option Connection
cancel_as unlocked c = some (record c { reader = cancelled; is_cancelled = true })
cancel_as scanning c = none
cancel_as (delivering n r) c = none
cancel_as draining c = none
cancel_as cancelled c = none
cancel_as ended c = none

unfoldable pub close_as : Reader → Connection → Option Connection
close_as cancelled c = some (record c { reader = ended; is_done = true })
close_as scanning c = none
close_as (delivering n r) c = none
close_as draining c = none
close_as unlocked c = none
close_as ended c = none

unfoldable pub respond_to :
    List RpcMessage → Option Handled → Option Bytes → Connection → Option Connection
respond_to [] handled failure c = none
respond_to (msg ∷ msgs) handled failure c =
    some (write_message failure (handle_request handled msg) (record c { handling = msgs }))

unfoldable pub step : Action → Connection → Option Connection
step begin c = when (not (is_locked c.reader)) (begun c)
step (fail_params n error) c =
    when (is_registered (c.calls n) && not (is_locked c.reader))
      (return_from n (params_failed error) (forget n c))
step (send n method params failure) c =
    when (is_registered (c.calls n) && not (is_locked c.reader))
      (sent n (request_message n method params) failure c)
step (receive n) c = if is_waiting (c.calls n) then received n (c.channels n) c else none
step (end_context n error) c =
    when (is_waiting (c.calls n) && not (is_locked c.reader))
      (return_from n (context_ended error) (forget n c))
step (see_done n) c = when (is_waiting (c.calls n) && c.is_done) (return_from n connection_closed c)
step (read line) c = when (is_scanning c.reader) (read_line line c)
step put c = put_as c.reader c
step end_input c = when (is_scanning c.reader) (record c { reader = draining })
step (drain n) c =
    if is_locked c.reader && has_id n c.pending
    then send_on n closed_response (c.channels n) (forget n c)
    else none
step unlock c = unlock_as c.reader c.pending c
step cancel_context c = cancel_as c.reader c
step close_done c = close_as c.reader c
step (respond handled failure) c =
    if is_locked c.reader then none else respond_to c.handling handled failure c
step (notify method params failure) c =
    when (not (is_locked c.reader)) (write_message failure (notification_message method params) c)
step close c = some (record c { is_cancelled = true })

abbrev pub and_then : Action → Option Connection → Option Connection
and_then a none = none
and_then a (some c) = step a c

-- A sequence of actions, the first one first.
unfoldable pub run_from : List Action → Option Connection → Option Connection
run_from [] c = c
run_from (a ∷ actions) c = run_from actions (and_then a c)

unfoldable pub run : List Action → Connection → Option Connection
run actions c = run_from actions (some c)

-- The states of a connection, with what happened to it, the last action first.
pub data Reach : List Action → Connection → Type 0 where
  start : Reach [] new_connection
  after :
      {past : List Action} {c : Connection} (a : Action) {c' : Connection}
      → Reach past c
      → step a c ≡ some c'
      → Reach (a ∷ past) c'
