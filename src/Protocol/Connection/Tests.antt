-- ===== src/Protocol/Connection/Tests.antt =====
-- Tests of internal/protocol/jsonrpc.go, and the theorems at concrete connections.
use kontekst.Prelude.Int.{pos}
use kontekst.Prelude.{◌≡◌, refl, [], ◌∷◌, Option, none, some, true, codes}
use kontekst.Protocol.Calls.{
  Connection, new_connection, waiting, returned, Outcome, answered, has_id, pending_call,
  is_scanning,
}
use kontekst.Protocol.Connection.{
  begin, send, read, put, receive, message, Reach, start, after, step, run, outcome_of, begun,
  run_from, sent, read_line, read_message, deliver, put_as, send_on, received,
}
use kontekst.Protocol.Messages.{RpcMessage, request_message, response_of}
use kontekst.Protocol.Connection.Safe.{reader_sends, sends_never_block}
use kontekst.Protocol.Connection.Shutdown.{shut_down, shut_down-returned}
use kontekst.Protocol.Connection.Causes.{Cause}
use kontekst.Protocol.Connection.Answers.{returned-Cause}

-- The answer to the first request.
abbrev answer : RpcMessage
answer = record {
  jsonrpc = codes "2.0";
  id = some (pos 1);
  method = [];
  params = [];
  result = codes "{}";
  error = none;
}

abbrev question : Option Connection
question = run (begin ∷ send 1 (codes "terminal/output") [] none ∷ []) new_connection

abbrev or_new : Option Connection → Connection
or_new none = new_connection
or_new (some c) = c

abbrev asked : Connection
asked = or_new question

abbrev told : Connection
told = or_new (step (read (message answer)) asked)

abbrev put_in : Connection
put_in = or_new (step put told)

abbrev back : Connection
back = or_new (step (receive 1) put_in)

asked-Reach : Reach (send 1 (codes "terminal/output") [] none ∷ begin ∷ []) asked
unfolding step run run_from begun sent request_message new_connection
asked-Reach = after (send 1 (codes "terminal/output") [] none) (after begin start refl) refl

told-Reach :
    Reach (read (message answer) ∷ send 1 (codes "terminal/output") [] none ∷ begin ∷ []) told
unfolding step read_line read_message deliver pending_call has_id new_connection run run_from sent
    begun
told-Reach = after (read (message answer)) asked-Reach refl

back-Reach :
    Reach
      (receive 1
        ∷ put
        ∷ read (message answer)
        ∷ send 1 (codes "terminal/output") [] none
        ∷ begin
        ∷ [])
      back
unfolding step read_line read_message deliver pending_call has_id new_connection run run_from sent
    begun put_as send_on received
back-Reach = after (receive 1) (after put told-Reach refl) refl

back_returned : back.calls 1 ≡ returned (answered (codes "{}"))
unfolding step read_line read_message deliver pending_call has_id new_connection run run_from sent
    begun put_as send_on received outcome_of response_of
back_returned = refl

sends_never_block_example : (c' : Connection) × (step put told ≡ some c')
unfolding step read_line read_message deliver pending_call has_id new_connection run run_from sent
    begun
sends_never_block_example = sends_never_block put _ told told-Reach (reader_sends refl)

returned-Cause_example :
    Cause
      (receive 1
        ∷ put
        ∷ read (message answer)
        ∷ send 1 (codes "terminal/output") [] none
        ∷ begin
        ∷ [])
      1
      (answered (codes "{}"))
returned-Cause_example = returned-Cause _ back 1 (answered (codes "{}")) back-Reach back_returned

asked_waits : asked.calls 1 ≡ waiting
unfolding step run run_from begun sent request_message new_connection
asked_waits = refl

asked_scans : is_scanning asked.reader ≡ true
unfolding step run run_from begun sent request_message new_connection
asked_scans = refl

shut_down-returned_example :
    (c' : Connection) × (c'' : Connection) × (outcome : Outcome) × (run
        (shut_down asked.pending)
        asked
      ≡ some c')
    × (c'.is_cancelled ≡ true)
    × (c'.is_done ≡ true)
    × (step (receive 1) c' ≡ some c'')
    × (c''.calls 1 ≡ returned outcome)
shut_down-returned_example = shut_down-returned _ asked 1 asked-Reach asked_scans asked_waits
