-- ===== src/Agent/Safety.antt =====
-- A tool runs only where a command of the client approves its call.
use mathlib.Core.Bool.{true≢false}
use kontekst.Prelude.{
  ℕ, suc, ◌≡◌, ◌⊎◌, inl, inr, refl, sym, ap, subst, ◌∙◌, Bool, true, ◌&&◌, List, [], ◌∷◌, ◌++◌, map,
  Option, none, some, Bytes, bytes_eq, bytes_eq→eq, All, All-mono, In, first, later, In-append_left,
  In-append_right, if◌then◌else◌, if_ind, arith,
}
use kontekst.Core.{ToolCall}
use kontekst.Agent.Approvals.{
  denied, PendingCall, PendingBatch, CommandType, approve_tool, deny_tool, cancel, other, Command,
  is_pending, judge, are_all_decided, put_call, build_pending_from, build_pending, judge_as,
  decided,
}
use kontekst.Agent.Verdicts.{
  AllSettled-all_decided, decides, verdict, judged, IsPending, IsDecided, Ends,
}

-- A command among these approves the call of this id.
abbrev pub ApprovedBy : List Command → Bytes → Type 0
ApprovedBy commands id =
    (command : Command) × In command commands
    × (command.kind ≡ approve_tool)
    × (id ≡ command.call_id)

-- The call is denied, or approved by one of the commands.
abbrev pub Settled : List Command → PendingCall → Type 0
Settled commands call = (call.approval ≡ denied) ⊎ ApprovedBy commands call.id

pub ApprovedBy-append :
    (consumed rest commands : List Command) (id : Bytes)
    → consumed ++ rest ≡ commands
    → ApprovedBy rest id
    → ApprovedBy commands id
ApprovedBy-append consumed rest commands id parts (command, place, approves, names) = (
  command,
  subst (λ (cs : List Command). In command cs) parts (In-append_right consumed rest place),
  approves,
  names,
)

Settled-append :
    (consumed rest commands : List Command) (call : PendingCall)
    → consumed ++ rest ≡ commands
    → Settled consumed call
    → Settled commands call
Settled-append consumed rest commands call parts (inl is_denied) = inl is_denied
Settled-append consumed rest commands call parts (inr (command, place, approves, names)) = inr (
  command,
  subst (λ (cs : List Command). In command cs) parts (In-append_left rest place),
  approves,
  names,
)

none≢some {ℓ} : {A : Type ℓ} {a : A} → ¬ (none ≡ some a)
none≢some e = ground arith

some_inj {ℓ} : {A : Type ℓ} {a b : A} → some a ≡ some b → a ≡ b
some_inj e = ground (arith, e)

and_parts : (a b : Bool) → a && b ≡ true → (a ≡ true) × (b ≡ true)
and_parts a b h = ground arith

-- A verdict is a command of the list that names the call and decides it.
verdict-In :
    (id : Bytes) (commands : List Command) (command : Command)
    → verdict id commands ≡ some command
    → In command commands × (id ≡ command.call_id)
unfolding verdict
verdict-In id [] command = λ e. elim (none≢some e) [ ]
verdict-In id (c ∷ commands) command =
    if_ind (λ o. o ≡ some command → In command (c ∷ commands) × (id ≡ command.call_id))
      (bytes_eq id c.call_id && decides c.kind)
      (λ names e. (
        first (sym (some_inj e)),
        bytes_eq→eq id c.call_id (and_parts (bytes_eq id c.call_id) (decides c.kind) names).0
            ∙ ap (λ (d : Command). d.call_id) (some_inj e),
      ))
      (λ _ e. let (place, names) = verdict-In id commands command e in (later place, names))

unsettled : (call : PendingCall) → IsPending call → ¬ IsDecided call
unsettled call waits settled = true≢false (sym waits ∙ settled)

-- A command that leaves a pending call decided denies it, or approves it.
IsSettled-by :
    (kind : CommandType) (command : Command) (call : PendingCall)
    → IsPending call
    → IsDecided (judge_as kind command call)
    → ((judge_as kind command call).approval ≡ denied) ⊎ (kind ≡ approve_tool)
unfolding judge_as
IsSettled-by approve_tool command call waits settled = inr refl
IsSettled-by deny_tool command call waits settled = inl refl
IsSettled-by cancel command call waits settled = elim (unsettled call waits settled) [ ]
IsSettled-by (other text) command call waits settled = elim (unsettled call waits settled) [ ]

judge-id :
    (kind : CommandType) (command : Command) (call : PendingCall)
    → (judge_as kind command call).id ≡ call.id
unfolding judge_as
judge-id approve_tool command call = refl
judge-id deny_tool command call = refl
judge-id cancel command call = refl
judge-id (other text) command call = refl

verdict_step :
    (commands : List Command) (call : PendingCall) (o : Option Command)
    → verdict call.id commands ≡ o
    → IsPending call
    → IsDecided (elim o [ none ↦ call | some command ↦ judge command call ])
    → Settled commands (elim o [ none ↦ call | some command ↦ judge command call ])
unfolding judge
verdict_step commands call none found waits settled = elim (unsettled call waits settled) [ ]
verdict_step commands call (some command) found waits settled =
    elim (IsSettled-by command.kind command call waits settled) [
      | inl is_denied ↦ inl is_denied
      | inr approves ↦
          let (place, names) = verdict-In call.id commands command found in
          inr (command, place, approves, judge-id command.kind command call ∙ names)
    ]

judged-Settled :
    (commands : List Command) (call : PendingCall)
    → IsPending call
    → IsDecided (judged commands call)
    → Settled commands (judged commands call)
unfolding judged
judged-Settled commands call waits settled =
    let opened : judged commands call
        ≡ elim (verdict call.id commands) [ none ↦ call | some command ↦ judge command call ] =
      ap
        (λ (b : Bool).
          if b
          then elim (verdict call.id commands) [ none ↦ call | some command ↦ judge command call ]
          else call)
        waits in
    subst (Settled commands) (sym opened) (
      verdict_step commands call (verdict call.id commands) refl waits
        (subst IsDecided opened settled))

each-IsDecided : (calls : PendingBatch) → are_all_decided calls ≡ true → All IsDecided calls
unfolding are_all_decided
each-IsDecided [] = λ _. tt
each-IsDecided (c ∷ calls) =
    if_ind (λ b. b ≡ true → All IsDecided (c ∷ calls)) (is_pending c.approval)
      (λ _ e. elim (true≢false (sym e)) [ ]) (λ is_decided e. (is_decided, each-IsDecided calls e))

map-Settled :
    (commands : List Command) (batch : PendingBatch)
    → All IsPending batch
    → All IsDecided (map (judged commands) batch)
    → All (Settled commands) (map (judged commands) batch)
map-Settled commands [] waits settled = tt
map-Settled commands (c ∷ batch) waits settled =
    (judged-Settled commands c waits.0 settled.0, map-Settled commands batch waits.1 settled.1)

put_call-IsPending :
    (call : PendingCall) (batch : PendingBatch)
    → IsPending call
    → All IsPending batch
    → All IsPending (put_call call batch)
unfolding put_call
put_call-IsPending call [] h hs = (h, tt)
put_call-IsPending call (c ∷ batch) h hs =
    if_ind (All IsPending) (bytes_eq c.id call.id) (λ _. (h, hs.1))
      (λ _. (hs.0, put_call-IsPending call batch h hs.1))

build_pending_from-IsPending :
    (fresh : ℕ → Bytes) (i : ℕ) (calls : List ToolCall) (out : PendingBatch)
    → All IsPending out
    → All IsPending (build_pending_from fresh i calls out)
unfolding build_pending_from
build_pending_from-IsPending fresh i [] out h = h
build_pending_from-IsPending fresh i (call ∷ calls) out h =
    build_pending_from-IsPending fresh (suc i) calls _ (put_call-IsPending _ out refl h)

build_pending-IsPending :
    (fresh : ℕ → Bytes) (calls : List ToolCall) → All IsPending (build_pending fresh calls)
unfolding build_pending
build_pending-IsPending fresh calls = build_pending_from-IsPending fresh 0 calls [] tt

-- What collectApprovals returns for a new batch is settled by the commands that it consumed.
pub collect_approvals-Settled :
    (fresh : ℕ → Bytes) (tool_calls : List ToolCall) (commands : List Command) (closed : Bool)
    (calls : PendingBatch) (rest : List Command)
    → Ends commands closed (build_pending fresh tool_calls) (decided calls rest)
    → (consumed : List Command) × (consumed ++ rest ≡ commands) × All (Settled commands) calls
collect_approvals-Settled fresh tool_calls commands closed calls rest
      (consumed, parts, no_cancel, same, all, needed) =
    (
      consumed,
      parts,
      All-mono (λ call. Settled-append consumed rest commands call parts) calls
          (subst (All (Settled consumed)) (sym same) (
            map-Settled consumed (build_pending fresh tool_calls)
              (build_pending-IsPending fresh tool_calls)
              (subst (All IsDecided) same
                (each-IsDecided calls (AllSettled-all_decided calls all))))),
    )
