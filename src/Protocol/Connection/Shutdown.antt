-- ===== src/Protocol/Connection/Shutdown.antt =====
-- How a connection of internal/protocol/jsonrpc.go ends: readLoop past its last line.
use kontekst.Prelude.{
  ℕ, ◌≡◌, Bool, true, false, ◌&&◌, ◌==◌, refl, ap, ◌∙◌, List, [], ◌∷◌, ◌++◌, map, none, some, arith,
  inl, inr, Bool-cases, if◌then◌else◌,
}
use kontekst.Protocol.Calls.{
  draining, ended, Connection, Outcome, waiting, returned, is_scanning, is_locked, update, has_id,
  delete_id,
}
use kontekst.Protocol.Connection.{
  Action, receive, end_input, drain, unlock, cancel_context, close_done, outcome_of, step, run,
  run_from, Reach, send_on, received, unlock_as, cancel_as, close_as, forget,
}
use kontekst.Protocol.Messages.{RpcResponse, closed_response}
use kontekst.Protocol.Connection.Pending.{Apart, delete_id_absent}
use kontekst.Protocol.Connection.Safe.{reach-Inv}
use kontekst.Protocol.Connection.Tracked.{Inv, is_empty_channel}
use kontekst.Protocol.Connection.Invariant.{scans}

-- What readLoop does once Scan gives no further line.
abbrev pub shut_down : List ℕ → List Action
shut_down ns = end_input ∷ (map drain ns ++ (unlock ∷ cancel_context ∷ close_done ∷ []))

-- The channels once the loop has closed what is pending.
abbrev pub closed_channels : List ℕ → (ℕ → List RpcResponse) → ℕ → List RpcResponse
closed_channels [] f = f
closed_channels (n ∷ ns) f = closed_channels ns (update n (closed_response ∷ []) f)

abbrev pub drained : List ℕ → Connection → Connection
drained ns c = record c { pending = []; channels = closed_channels ns c.channels }

if_true : {A : Type 0} (b : Bool) (x y : A) → b ≡ true → (if b then x else y) ≡ x
if_true b x y h = ground arith

room :
    (n : ℕ) (r : RpcResponse) (rs : List RpcResponse) (c : Connection)
    → is_empty_channel rs ≡ true
    → send_on n r rs c ≡ some (record c { channels = update n (r ∷ []) c.channels })
unfolding send_on
room n r [] c e = refl
room n r (r' ∷ rs) c e = ground arith

drain_first :
    (n : ℕ) (ns : List ℕ) (c : Connection)
    → c.pending ≡ n ∷ ns
    → c.reader ≡ draining
    → has_id n ns ≡ false
    → is_empty_channel (c.channels n) ≡ true
    → step (drain n) c
      ≡ some (record c { pending = ns; channels = update n (closed_response ∷ []) c.channels })
unfolding step has_id send_on delete_id
drain_first n ns c is at apart free =
    if_true (is_locked c.reader && has_id n c.pending) _ none (ground arith)
    ∙ room n closed_response (c.channels n) (forget n c) free
    ∙ ap
        (λ (ps : List ℕ).
          some (record c { pending = ps; channels = update n (closed_response ∷ []) c.channels }))
        (ground (arith, delete_id_absent n ns apart))

drain_all :
    (ns : List ℕ) (rest : List Action) (c : Connection)
    → c.pending ≡ ns
    → c.reader ≡ draining
    → Apart ns
    → ((k : ℕ) → has_id k ns ≡ true → is_empty_channel (c.channels k) ≡ true)
    → run_from (map drain ns ++ rest) (some c) ≡ run_from rest (some (drained ns c))
unfolding run_from has_id
drain_all [] rest c is at apart free =
    ap (λ (ps : List ℕ). run_from rest (some (record c { pending = ps }))) is
drain_all (n ∷ ns) rest c is at apart free =
    ap (run_from (map drain ns ++ rest)) (drain_first n ns c is at apart.0 (free n (ground arith)))
    ∙ drain_all ns rest
        (record c { pending = ns; channels = update n (closed_response ∷ []) c.channels }) refl at
        apart.1 (λ k h. ground (arith, free k, apart.0))

-- The connection once readLoop has returned.
abbrev pub ended_from : Connection → Connection
ended_from c = record (drained c.pending c) { reader = ended; is_cancelled = true; is_done = true }

run-shut_down :
    (c : Connection)
    → Inv c
    → is_scanning c.reader ≡ true
    → run (shut_down c.pending) c ≡ some (ended_from c)
unfolding run run_from step unlock_as cancel_as close_as
run-shut_down c inv is =
    ap (run_from (map drain c.pending ++ (unlock ∷ cancel_context ∷ close_done ∷ [])))
      (if_true (is_scanning c.reader) _ none is)
    ∙ drain_all c.pending _ (record c { reader = draining }) refl refl inv.apart inv.free

-- A response in the channel stays the first, and a call in the map finds one.
closed_channels_kept :
    (n : ℕ) (ns : List ℕ) (f : ℕ → List RpcResponse)
    → is_empty_channel (f n) ≡ false
    → is_empty_channel (closed_channels ns f n) ≡ false
closed_channels_kept n [] f h = h
closed_channels_kept n (k ∷ ns) f h = closed_channels_kept n ns _ (ground arith)

closed_channels_filled :
    (n : ℕ) (ns : List ℕ) (f : ℕ → List RpcResponse)
    → has_id n ns ≡ true
    → is_empty_channel (closed_channels ns f n) ≡ false
unfolding has_id
closed_channels_filled n (k ∷ ns) f h = elim (Bool-cases (n == k)) [
  | inl e ↦ closed_channels_kept n ns _ (ground arith)
  | inr e ↦ closed_channels_filled n ns _ (ground arith)
]
closed_channels_filled n [] f h = ground arith

received-some :
    (n : ℕ) (rs : List RpcResponse) (c : Connection)
    → is_empty_channel rs ≡ false
    → (c' : Connection) × (outcome : Outcome) × (received n rs c ≡ some c')
      × (c'.calls n ≡ returned outcome)
unfolding received
received-some n (r ∷ rs) c h = (_, outcome_of r, refl, ground arith)
received-some n [] c h = ground arith

-- From every state in which the read loop is at Scan and a call waits, the end of the input lets it run to its end: it sends an error to every call in the map, cancels the context and closes `done`. After that, the call receives a response and returns.
pub shut_down-returned :
    (past : List Action) (c : Connection) (n : ℕ)
    → Reach past c
    → is_scanning c.reader ≡ true
    → c.calls n ≡ waiting
    → (c' : Connection) × (c'' : Connection) × (outcome : Outcome) × (run (shut_down c.pending) c
        ≡ some c')
      × (c'.is_cancelled ≡ true)
      × (c'.is_done ≡ true)
      × (step (receive n) c' ≡ some c'')
      × (c''.calls n ≡ returned outcome)
unfolding step
shut_down-returned past c n reach is waits =
    let (c'', outcome, goes, at) =
      received-some n (closed_channels c.pending c.channels n) (ended_from c) full in
    (ended_from c, c'', outcome, run-shut_down c inv is, refl, refl, ground (arith, goes), at)
  where
    inv : Inv c
    inv = reach-Inv reach

    full : is_empty_channel (closed_channels c.pending c.channels n) ≡ false
    full = elim (Bool-cases (has_id n c.pending)) [
      | inl h ↦ closed_channels_filled n c.pending c.channels h
      | inr h ↦
          closed_channels_kept n c.pending c.channels
            (ground (arith, inv.awaited n, scans n c.reader is))
    ]
