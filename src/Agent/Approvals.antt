-- ===== src/Agent/Approvals.antt =====
-- The approval of tool calls, internal/agent/approvals.go and the commands of types.go.
use kontekst.Prelude.{
  ℕ, suc, Bool, true, false, ◌&&◌, List, [], ◌∷◌, map, Bytes, bytes_eq, if◌then◌else◌,
}
use kontekst.Core.{Fields, ToolCall, is_empty}

pub data ApprovalState : Type 0 where
  pending granted denied : ApprovalState

pub record PendingCall : Type 0 where
  pub id : Bytes
  pub name : Bytes
  pub args : Fields
  pub approval : ApprovalState
  pub reason : Bytes

-- `map[string]*pendingCall`: every call stands under its own id, once. The order is the order in
-- which a `range` over the map happens to visit it.
abbrev pub PendingBatch : Type 0
PendingBatch = List PendingCall

-- out.calls[call.ID] = &call
unfoldable pub put_call : PendingCall → PendingBatch → PendingBatch
put_call call [] = call ∷ []
put_call call (c ∷ calls) =
    let rest = put_call call calls in if bytes_eq c.id call.id then call ∷ calls else c ∷ rest

-- `fresh i` is the id that core.NewToolCallID draws for the call at place `i`.
abbrev pub call_id_of : (fresh : ℕ → Bytes) → ℕ → ToolCall → Bytes
call_id_of fresh i call = if is_empty call.id then fresh i else call.id

-- The loop of buildPending from the call at place `i` on.
unfoldable pub build_pending_from :
    (fresh : ℕ → Bytes) → (i : ℕ) → List ToolCall → (out : PendingBatch) → PendingBatch
build_pending_from fresh i [] out = out
build_pending_from fresh i (call ∷ calls) out = build_pending_from fresh (suc i) calls (
    put_call
      (record {
        id = call_id_of fresh i call;
        name = call.name;
        args = call.arguments;
        approval = pending;
        reason = [];
      })
      out)

unfoldable pub build_pending : (fresh : ℕ → Bytes) → List ToolCall → PendingBatch
build_pending fresh calls = build_pending_from fresh 0 calls []

unfoldable pub as_tool_calls : PendingBatch → List ToolCall
as_tool_calls [] = []
as_tool_calls (c ∷ calls) =
    record { id = c.id; name = c.name; arguments = c.args } ∷ as_tool_calls calls

-- The values of the string type CommandType; `other` is any other text.
pub data CommandType : Type 0 where
  approve_tool deny_tool cancel : CommandType
  other : Bytes → CommandType

pub record Command : Type 0 where
  pub kind : CommandType
  pub call_id : Bytes
  pub reason : Bytes

abbrev pub is_pending : ApprovalState → Bool
is_pending pending = true
is_pending granted = false
is_pending denied = false

abbrev pub with_approval : ApprovalState → Bytes → PendingCall → PendingCall
with_approval approval reason call = record {
  id = call.id;
  name = call.name;
  args = call.args;
  approval = approval;
  reason = reason;
}

-- What a command of this type that names the call does with it.
unfoldable pub judge_as : CommandType → Command → PendingCall → PendingCall
judge_as approve_tool command call = with_approval granted call.reason call
judge_as deny_tool command call = with_approval denied command.reason call
judge_as cancel command call = call
judge_as (other kind) command call = call

unfoldable pub judge : Command → PendingCall → PendingCall
judge command call = judge_as command.kind command call

-- The body of the switch for one call of the batch.
unfoldable pub decide_call : Command → PendingCall → PendingCall
decide_call command call =
    if bytes_eq call.id command.call_id && is_pending call.approval
    then judge command call
    else call

unfoldable pub are_all_decided : PendingBatch → Bool
are_all_decided [] = true
are_all_decided (c ∷ calls) = if is_pending c.approval then false else are_all_decided calls

-- How collectApprovals ends: with the decisions and the commands that it left in the channel, with
-- one of its errors, or not yet, where the channel is open and empty.
pub data Collected : Type 0 where
  decided : PendingBatch → List Command → Collected
  cancelled channel_closed waiting : Collected

abbrev pub is_cancel : CommandType → Bool
is_cancel cancel = true
is_cancel approve_tool = false
is_cancel deny_tool = false
is_cancel (other kind) = false

-- The channel gives these commands; then it is closed, or stays open.
unfoldable pub collect_approvals : List Command → (closed : Bool) → PendingBatch → Collected
collect_approvals [] closed batch =
    if are_all_decided batch then decided batch [] else if closed then channel_closed else waiting
collect_approvals (command ∷ commands) closed batch =
    let continue = collect_approvals commands closed (map (decide_call command) batch) in
    if are_all_decided batch
    then decided batch (command ∷ commands)
    else if is_cancel command.kind
    then cancelled
    else continue

unfoldable pub any_was_denied : List PendingCall → Bool
any_was_denied [] = false
any_was_denied (c ∷ calls) = elim c.approval [
  | denied ↦ true
  | granted ↦ any_was_denied calls
  | pending ↦ any_was_denied calls
]
