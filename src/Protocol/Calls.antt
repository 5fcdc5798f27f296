-- ===== src/Protocol/Calls.antt =====
-- A JSON-RPC connection, internal/protocol/jsonrpc.go: its calls of Request, its read loop, what is
-- pending.
use kontekst.Prelude.Int.{ℤ, pos, negsuc}
use kontekst.Prelude.{
  ℕ, Bool, true, false, ◌==◌, List, [], ◌∷◌, Option, none, some, Bytes, if◌then◌else◌,
}
use kontekst.Protocol.Messages.{RpcError, RpcMessage, RpcResponse}

-- What Request returns, and at which of its returns.
pub data Outcome : Type 0 where
  answered : (result : Bytes) → Outcome
  refused : RpcError → Outcome
  params_failed write_failed context_ended : (error : Bytes) → Outcome
  connection_closed : Outcome

-- Where a call of Request is: it has not begun, it holds an id, it waits in its select, it returned.
pub data Call : Type 0 where
  absent registered waiting : Call
  returned : Outcome → Call

-- Where readLoop is: at Scan, before the send of deliverResponse, in the loop that closes what is
-- pending (it holds the lock), past it, past its
-- deferred cancel, and at its end.
pub data Reader : Type 0 where
  scanning : Reader
  delivering : (n : ℕ) → RpcResponse → Reader
  draining unlocked cancelled ended : Reader

-- The calls of Request are numbered by `nextID`: the number is the id of the call's message and
-- names its channel. `pending` has the ids of the map, which maps each to that channel.
pub record Connection : Type 0 where
  pub next_id : ℕ
  pub pending : List ℕ
  pub channels : ℕ → List RpcResponse
  pub calls : ℕ → Call
  pub reader : Reader
  pub handling : List RpcMessage
  pub written : List RpcMessage
  pub is_cancelled : Bool
  pub is_done : Bool

unfoldable pub new_connection : Connection
new_connection = record {
  next_id = 0;
  pending = [];
  channels = λ n. [];
  calls = λ n. absent;
  reader = scanning;
  handling = [];
  written = [];
  is_cancelled = false;
  is_done = false;
}

abbrev pub update {ℓ} : {A : Type ℓ} → ℕ → A → (ℕ → A) → ℕ → A
update n v f k = if k == n then v else f k

unfoldable pub has_id : ℕ → List ℕ → Bool
has_id n [] = false
has_id n (k ∷ ks) = if n == k then true else has_id n ks

-- delete(c.pending, id)
unfoldable pub delete_id : ℕ → List ℕ → List ℕ
delete_id n [] = []
delete_id n (k ∷ ks) = let rest = delete_id n ks in if n == k then rest else k ∷ rest

-- The number that an id of a message stands for, if it can be one of the connection's own.
unfoldable pub pending_call : ℤ → List ℕ → Option ℕ
pending_call (pos n) ks = if has_id n ks then some n else none
pending_call (negsuc n) ks = none

-- The lock is held for as long as the last loop of readLoop runs.
abbrev pub is_locked : Reader → Bool
is_locked scanning = false
is_locked (delivering n r) = false
is_locked draining = true
is_locked unlocked = false
is_locked cancelled = false
is_locked ended = false

abbrev pub is_scanning : Reader → Bool
is_scanning scanning = true
is_scanning (delivering n r) = false
is_scanning draining = false
is_scanning unlocked = false
is_scanning cancelled = false
is_scanning ended = false

abbrev pub is_registered : Call → Bool
is_registered registered = true
is_registered absent = false
is_registered waiting = false
is_registered (returned outcome) = false

abbrev pub is_waiting : Call → Bool
is_waiting waiting = true
is_waiting absent = false
is_waiting registered = false
is_waiting (returned outcome) = false
