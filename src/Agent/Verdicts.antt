-- ===== src/Agent/Verdicts.antt =====
-- What a batch of tool calls of internal/agent/approvals.go becomes under a list of commands.
use mathlib.Core.Bool.{true≢false}
use kontekst.Prelude.{
  ◌≡◌, ◌⊎◌, inl, inr, arith, sym, ◌∙◌, refl, Bool, true, false, ◌&&◌, List, [], ◌∷◌, ◌++◌, map,
  Option, none, some, Bytes, bytes_eq, All, if◌then◌else◌,
}
use kontekst.Agent.Approvals.{
  ApprovalState, pending, granted, denied, PendingCall, PendingBatch, CommandType, approve_tool,
  deny_tool, cancel, other, Command, is_pending, is_cancel, judge, are_all_decided, Collected,
  decided, cancelled, channel_closed, waiting,
}

-- The command approves or denies a call.
abbrev pub decides : CommandType → Bool
decides approve_tool = true
decides deny_tool = true
decides cancel = false
decides (other kind) = false

-- The first command that approves or denies the call of this id.
unfoldable pub verdict : Bytes → List Command → Option Command
verdict id [] = none
verdict id (command ∷ commands) =
    let rest = verdict id commands in
    if bytes_eq id command.call_id && decides command.kind then some command else rest

abbrev pub IsPending : PendingCall → Type 0
IsPending call = is_pending call.approval ≡ true

abbrev pub IsDecided : PendingCall → Type 0
IsDecided call = is_pending call.approval ≡ false

-- A pending call as its verdict leaves it; any other stays as it is.
unfoldable pub judged : List Command → PendingCall → PendingCall
judged commands call =
    if is_pending call.approval
    then elim (verdict call.id commands) [ none ↦ call | some command ↦ judge command call ]
    else call

abbrev pub NoCancel : List Command → Type 0
NoCancel commands = All (λ c. is_cancel c.kind ≡ false) commands

-- The call is granted or denied.
abbrev pub IsSettled : PendingCall → Type 0
IsSettled call = (call.approval ≡ granted) ⊎ (call.approval ≡ denied)

abbrev pub AllSettled : PendingBatch → Type 0
AllSettled = All IsSettled

-- In front of each of these commands, a call was still pending.
abbrev pub Needed : List Command → PendingBatch → Type 0
Needed [] batch = Unit
Needed (command ∷ commands) batch =
    (¬ AllSettled batch) × Needed commands (map (judged (command ∷ [])) batch)

-- What each end of collectApprovals says of the commands and the batch.
abbrev pub Ends : List Command → (closed : Bool) → PendingBatch → Collected → Type 0
Ends commands closed batch (decided calls rest) =
    (consumed : List Command) × (consumed ++ rest ≡ commands)
    × NoCancel consumed
    × (calls ≡ map (judged consumed) batch)
    × AllSettled calls
    × Needed consumed batch
Ends commands closed batch cancelled =
    (consumed : List Command) × (command : Command) × (rest : List Command) × (consumed
        ++ (command ∷ rest)
      ≡ commands)
    × NoCancel consumed
    × (is_cancel command.kind ≡ true)
    × (¬ AllSettled (map (judged consumed) batch))
Ends commands closed batch channel_closed =
    (closed ≡ true) × NoCancel commands × (¬ AllSettled (map (judged commands) batch))
Ends commands closed batch waiting =
    (closed ≡ false) × NoCancel commands × (¬ AllSettled (map (judged commands) batch))

pub same_branch {ℓ} : {A : Type ℓ} (b : Bool) (x : A) → (if b then x else x) ≡ x
same_branch true x = refl
same_branch false x = refl

IsSettled-by :
    (call : PendingCall) (a : ApprovalState)
    → call.approval ≡ a
    → is_pending call.approval ≡ false
    → IsSettled call
IsSettled-by call pending same h = ground (arith, same, h)
IsSettled-by call granted same h = inl same
IsSettled-by call denied same h = inr same

pub all_decided-AllSettled :
    (calls : PendingBatch) → are_all_decided calls ≡ true → AllSettled calls
unfolding are_all_decided
all_decided-AllSettled [] h = tt
all_decided-AllSettled (c ∷ calls) h =
    let settled : is_pending c.approval ≡ false = ground (arith, h) in
    (
      IsSettled-by c c.approval refl settled,
      all_decided-AllSettled calls (ground (arith, h, settled)),
    )

pub AllSettled-all_decided :
    (calls : PendingBatch) → AllSettled calls → are_all_decided calls ≡ true
unfolding are_all_decided
AllSettled-all_decided [] h = refl
AllSettled-all_decided (c ∷ calls) (inl granted_it, rest) =
    ground (arith, granted_it, AllSettled-all_decided calls rest)
AllSettled-all_decided (c ∷ calls) (inr denied_it, rest) =
    ground (arith, denied_it, AllSettled-all_decided calls rest)

pub undecided-AllSettled :
    (calls : PendingBatch) → are_all_decided calls ≡ false → ¬ AllSettled calls
undecided-AllSettled calls h all = true≢false (sym (AllSettled-all_decided calls all) ∙ h)
