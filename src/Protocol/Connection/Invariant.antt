-- ===== src/Protocol/Connection/Invariant.antt =====
-- The changes of internal/protocol/jsonrpc.go keep the invariant of the calls that have not returned.
use kontekst.Prelude.{
  ℕ, suc, ◌≡◌, Bool, true, false, refl, ◌∙◌, List, [], ◌∷◌, Option, Bytes, none, some, arith,
  if_ind,
}
use kontekst.Protocol.Calls.{
  Reader, scanning, delivering, Connection, is_registered, is_locked, is_scanning, Outcome,
  write_failed, has_id,
}
use kontekst.Protocol.Connection.{
  when, begun, sent, received, send_on, deliver, return_from, forget, write_message,
}
use kontekst.Protocol.Messages.{RpcResponse, RpcMessage}
use kontekst.Protocol.Connection.Pending.{
  has_id-delete_id_self, has_id-delete_id, has_id-delete_id_other, delete_id-Apart,
}
use kontekst.Protocol.Connection.Tracked.{delivers, Inv}

-- What holds of the state after a step, if there is one.
abbrev pub Kept : Option Connection → Type 0
Kept none = Unit
Kept (some c) = Inv c

pub when-Kept : (b : Bool) (c : Connection) → (b ≡ true → Inv c) → Kept (when b c)
when-Kept b c h = if_ind Kept b h (λ _. tt)

pub begun-Inv : (c : Connection) → Inv c → Inv (begun c)
unfolding begun has_id
begun-Inv c inv = record {
  numbered = λ k h. ground (arith, inv.numbered k, has_id-delete_id k (suc c.next_id) c.pending);
  free = λ k h. ground (arith, inv.free k, has_id-delete_id k (suc c.next_id) c.pending);
  delivered_numbered = λ k h. ground (arith, inv.delivered_numbered k h);
  delivered_free = λ k h. ground (arith, inv.delivered_free k h);
  delivered_once = λ k h. ground (
    arith,
    inv.delivered_numbered k h,
    inv.delivered_once k h,
    has_id-delete_id k (suc c.next_id) c.pending,
  );
  awaited =
      λ k h. ground (arith, inv.awaited k, has_id-delete_id_other k (suc c.next_id) c.pending);
  apart = (
    has_id-delete_id_self (suc c.next_id) c.pending,
    delete_id-Apart (suc c.next_id) c.pending inv.apart,
  );
}

pub forget-Inv :
    (n : ℕ) (c : Connection) (outcome : Outcome) → Inv c → Inv (return_from n outcome (forget n c))
forget-Inv n c outcome inv = record {
  numbered = λ k h. inv.numbered k (has_id-delete_id k n c.pending h);
  free = λ k h. inv.free k (has_id-delete_id k n c.pending h);
  delivered_numbered = inv.delivered_numbered;
  delivered_free = inv.delivered_free;
  delivered_once = λ k h. ground (arith, inv.delivered_once k h, has_id-delete_id k n c.pending);
  awaited = λ k h. ground (arith, inv.awaited k, has_id-delete_id_other k n c.pending);
  apart = delete_id-Apart n c.pending inv.apart;
}

pub sent-Inv :
    (n : ℕ) (msg : RpcMessage) (failure : Option Bytes) (c : Connection)
    → is_registered (c.calls n) ≡ true
    → Inv c
    → Inv (sent n msg failure c)
unfolding sent
sent-Inv n msg none c is inv = record {
  numbered = inv.numbered;
  free = inv.free;
  delivered_numbered = inv.delivered_numbered;
  delivered_free = inv.delivered_free;
  delivered_once = inv.delivered_once;
  awaited = λ k h. ground (arith, inv.awaited k);
  apart = inv.apart;
}
sent-Inv n msg (some error) c is inv = forget-Inv n c (write_failed error) inv

-- A value leaves the channel of a call, which returns.
pub received-Kept :
    (n : ℕ) (rs : List RpcResponse) (c : Connection)
    → c.channels n ≡ rs
    → Inv c
    → Kept (received n rs c)
unfolding received
received-Kept n [] c e inv = tt
received-Kept n (r ∷ rs) c e inv = record {
  numbered = inv.numbered;
  free = λ k h. ground (arith, inv.free k h);
  delivered_numbered = inv.delivered_numbered;
  delivered_free = λ k h. ground (arith, inv.delivered_free k h);
  delivered_once = inv.delivered_once;
  awaited = λ k h. ground (arith, inv.awaited k);
  apart = inv.apart;
}

pub closed-Inv :
    (n : ℕ) (outcome : Outcome) (c : Connection) → Inv c → Inv (return_from n outcome c)
closed-Inv n outcome c inv = record {
  numbered = inv.numbered;
  free = inv.free;
  delivered_numbered = inv.delivered_numbered;
  delivered_free = inv.delivered_free;
  delivered_once = inv.delivered_once;
  awaited = λ k h. ground (arith, inv.awaited k);
  apart = inv.apart;
}

-- The calls, the map and the channels stay as they are, and so does what the reader delivers.
pub quiet-Inv :
    (c : Connection) (reader : Reader) (handling written : List RpcMessage)
    (is_cancelled is_done : Bool)
    → ((k : ℕ) → delivers k c.reader ≡ delivers k reader)
    → Inv c
    → Inv (record c {
      reader = reader;
      handling = handling;
      written = written;
      is_cancelled = is_cancelled;
      is_done = is_done;
    })
quiet-Inv c reader handling written is_cancelled is_done same inv = record {
  numbered = inv.numbered;
  free = inv.free;
  delivered_numbered = λ k h. inv.delivered_numbered k (same k ∙ h);
  delivered_free = λ k h. inv.delivered_free k (same k ∙ h);
  delivered_once = λ k h. inv.delivered_once k (same k ∙ h);
  awaited = λ k h. ground (arith, inv.awaited k, same k);
  apart = inv.apart;
}

pub written-Inv :
    (failure : Option Bytes) (msg : RpcMessage) (c : Connection)
    → Inv c
    → Inv (write_message failure msg c)
written-Inv none msg c inv =
    quiet-Inv c c.reader c.handling _ c.is_cancelled c.is_done (λ k. refl) inv
written-Inv (some error) msg c inv = inv

pub scans : (k : ℕ) (reader : Reader) → is_scanning reader ≡ true → delivers k reader ≡ false
scans k reader h = ground arith

pub deliver-Inv :
    (n : ℕ) (msg : RpcMessage) (c : Connection)
    → has_id n c.pending ≡ true
    → is_scanning c.reader ≡ true
    → Inv c
    → Inv (deliver (some n) msg c)
unfolding deliver
deliver-Inv n msg c has is inv = record {
  numbered = λ k h. inv.numbered k (has_id-delete_id k n c.pending h);
  free = λ k h. inv.free k (has_id-delete_id k n c.pending h);
  delivered_numbered = λ k h. ground (arith, inv.numbered k);
  delivered_free = λ k h. ground (arith, inv.free k);
  delivered_once = λ k h. ground (arith, has_id-delete_id_self n c.pending);
  awaited = λ k h. ground (arith, inv.awaited k, has_id-delete_id_other k n c.pending);
  apart = delete_id-Apart n c.pending inv.apart;
}

pub put-Kept :
    (n : ℕ) (r : RpcResponse) (rs : List RpcResponse) (c : Connection)
    → c.channels n ≡ rs
    → c.reader ≡ delivering n r
    → Inv c
    → Kept (send_on n r rs (record c { reader = scanning }))
unfolding send_on
put-Kept n r (r' ∷ rs) c e is inv = tt
put-Kept n r [] c e is inv = record {
  numbered = inv.numbered;
  free = λ k h. ground (arith, inv.free k h, inv.delivered_once n);
  delivered_numbered = λ k h. ground arith;
  delivered_free = λ k h. ground arith;
  delivered_once = λ k h. ground arith;
  awaited = λ k h. ground (arith, inv.awaited k);
  apart = inv.apart;
}

pub drain-Kept :
    (n : ℕ) (r : RpcResponse) (rs : List RpcResponse) (c : Connection)
    → c.channels n ≡ rs
    → is_locked c.reader ≡ true
    → Inv c
    → Kept (send_on n r rs (forget n c))
unfolding send_on
drain-Kept n r (r' ∷ rs) c e is inv = tt
drain-Kept n r [] c e is inv = record {
  numbered = λ k h. inv.numbered k (has_id-delete_id k n c.pending h);
  free = λ k h.
      ground
        (arith, inv.free k, has_id-delete_id k n c.pending h, has_id-delete_id_self n c.pending);
  delivered_numbered = λ k h. ground arith;
  delivered_free = λ k h. ground arith;
  delivered_once = λ k h. ground arith;
  awaited = λ k h. ground (arith, inv.awaited k, has_id-delete_id_other k n c.pending);
  apart = delete_id-Apart n c.pending inv.apart;
}
