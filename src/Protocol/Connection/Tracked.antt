-- ===== src/Protocol/Connection/Tracked.antt =====
-- The calls of internal/protocol/jsonrpc.go that have not returned, the map and the channels: an
-- invariant.
use kontekst.Prelude.{ℕ, ◌≤◌, ◌≡◌, Bool, true, false, ◌||◌, not, ◌==◌, refl, List, [], ◌∷◌, arith}
use kontekst.Protocol.Calls.{
  Reader, scanning, delivering, draining, unlocked, cancelled, ended, Connection, Call, absent,
  registered, waiting, returned, has_id, new_connection,
}
use kontekst.Protocol.Messages.{RpcResponse}
use kontekst.Protocol.Connection.Pending.{Apart}

abbrev pub delivers : ℕ → Reader → Bool
delivers k scanning = false
delivers k (delivering n r) = k == n
delivers k draining = false
delivers k unlocked = false
delivers k cancelled = false
delivers k ended = false

abbrev pub is_delivering : Reader → Bool
is_delivering scanning = false
is_delivering (delivering n r) = true
is_delivering draining = false
is_delivering unlocked = false
is_delivering cancelled = false
is_delivering ended = false

abbrev pub is_empty_channel : List RpcResponse → Bool
is_empty_channel [] = true
is_empty_channel (r ∷ rs) = false

abbrev pub is_live : Call → Bool
is_live absent = false
is_live registered = true
is_live waiting = true
is_live (returned outcome) = false

-- A call that has not returned is in the map, or its response is on the way or in its channel; the
-- last two only where it is no longer in the map, and not both.
pub record Inv (c : Connection) : Type 0 where
  pub numbered : (n : ℕ) → has_id n c.pending ≡ true → n ≤ c.next_id
  pub free : (n : ℕ) → has_id n c.pending ≡ true → is_empty_channel (c.channels n) ≡ true
  pub delivered_numbered : (n : ℕ) → delivers n c.reader ≡ true → n ≤ c.next_id
  pub delivered_free : (n : ℕ) → delivers n c.reader ≡ true → is_empty_channel (c.channels n) ≡ true
  pub delivered_once : (n : ℕ) → delivers n c.reader ≡ true → has_id n c.pending ≡ false
  pub awaited :
      (n : ℕ)
      → is_live (c.calls n) ≡ true
      → (has_id n c.pending || (delivers n c.reader || not (is_empty_channel (c.channels n))))
        ≡ true
  pub apart : Apart c.pending

pub start-Inv : Inv new_connection
unfolding new_connection has_id
start-Inv = record {
  numbered = λ n h. ground arith;
  free = λ n h. refl;
  delivered_numbered = λ n h. ground arith;
  delivered_free = λ n h. refl;
  delivered_once = λ n h. refl;
  awaited = λ n h. ground arith;
  apart = tt;
}
