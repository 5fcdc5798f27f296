-- ===== src/Agent/Decisions.antt =====
-- Each call is decided by the first command that approves or denies it.
use kontekst.Prelude.{
  ◌≡◌, refl, sym, ap, ap₂, subst, ◌∙◌, Bool, true, false, ◌&&◌, List, [], ◌∷◌, map, none, some,
  Bytes, bytes_eq, if◌then◌else◌, if_ind,
}
use kontekst.Core.{Fields}
use kontekst.Agent.Approvals.{
  ApprovalState, pending, granted, denied, PendingCall, PendingBatch, CommandType, approve_tool,
  deny_tool, cancel, other, Command, is_pending, is_cancel, with_approval, judge, judge_as,
  decide_call, are_all_decided, Collected, decided, cancelled, channel_closed, waiting,
  collect_approvals,
}
use kontekst.Agent.Verdicts.{
  verdict, judged, Ends, same_branch, AllSettled, Needed, all_decided-AllSettled,
  undecided-AllSettled,
}

judged_none : (calls : PendingBatch) → calls ≡ map (judged []) calls
unfolding judged verdict
judged_none [] = refl
judged_none (c ∷ calls) =
    ap₂ (λ (d : PendingCall) (ds : PendingBatch). d ∷ ds)
      (sym (same_branch (is_pending c.approval) c)) (judged_none calls)

-- A command decides a pending call that it names.
decided_now :
    (names : Bool) (command : Command) (call after : PendingCall) (commands : List Command)
    → (judged commands after ≡ judge command call)
    → (judged commands call
        ≡ elim (verdict call.id commands) [ none ↦ call | some c ↦ judge c call ])
    → judged commands (if names && true then after else call)
      ≡ elim (if names && true then some command else verdict call.id commands) [
        | none ↦ call
        | some c ↦ judge c call
      ]
decided_now true command call after commands now later = now
decided_now false command call after commands now later = later

passed_over :
    (names : Bool) (command : Command) (call : PendingCall) (commands : List Command)
    → is_pending call.approval ≡ true
    → judged commands (if names && true then call else call)
      ≡ elim (if names && false then some command else verdict call.id commands) [
        | none ↦ call
        | some c ↦ judge c call
      ]
unfolding judged
passed_over true command call commands is_pending_call =
    ap
      (λ (b : Bool).
        if b then elim (verdict call.id commands) [ none ↦ call | some c ↦ judge c call ] else call)
      is_pending_call
passed_over false command call commands is_pending_call =
    ap
      (λ (b : Bool).
        if b then elim (verdict call.id commands) [ none ↦ call | some c ↦ judge c call ] else call)
      is_pending_call

left_alone :
    (names : Bool) (after call : PendingCall) (commands : List Command)
    → is_pending call.approval ≡ false
    → judged commands (if names && false then after else call) ≡ call
unfolding judged
left_alone true after call commands is_decided =
    ap
      (λ (b : Bool).
        if b then elim (verdict call.id commands) [ none ↦ call | some c ↦ judge c call ] else call)
      is_decided
left_alone false after call commands is_decided =
    ap
      (λ (b : Bool).
        if b then elim (verdict call.id commands) [ none ↦ call | some c ↦ judge c call ] else call)
      is_decided

module _ (id call_id name call_reason reason : Bytes) (args : Fields) where
  abbrev call_with : ApprovalState → PendingCall
  call_with approval = record {
    id = id;
    name = name;
    args = args;
    approval = approval;
    reason = call_reason;
  }

  abbrev command_of : CommandType → Command
  command_of kind = record { kind = kind; call_id = call_id; reason = reason }

  decide_step :
      (kind : CommandType) (approval : ApprovalState) (commands : List Command)
      → judged commands (decide_call (command_of kind) (call_with approval))
        ≡ judged (command_of kind ∷ commands) (call_with approval)
  unfolding judged verdict decide_call judge judge_as
  decide_step approve_tool pending commands =
      decided_now (bytes_eq id call_id) (command_of approve_tool) (call_with pending)
        (with_approval granted call_reason (call_with pending)) commands refl refl
  decide_step deny_tool pending commands =
      decided_now (bytes_eq id call_id) (command_of deny_tool) (call_with pending)
        (with_approval denied reason (call_with pending)) commands refl refl
  decide_step cancel pending commands =
      passed_over (bytes_eq id call_id) (command_of cancel) (call_with pending) commands refl
  decide_step (other kind) pending commands =
      passed_over (bytes_eq id call_id) (command_of (other kind)) (call_with pending) commands refl
  decide_step kind granted commands =
      left_alone (bytes_eq id call_id) (judge (command_of kind) (call_with granted))
        (call_with granted) commands refl
  decide_step kind denied commands =
      left_alone (bytes_eq id call_id) (judge (command_of kind) (call_with denied))
        (call_with denied) commands refl

judged_step :
    (command : Command) (commands : List Command) (calls : PendingBatch)
    → map (judged commands) (map (decide_call command) calls)
      ≡ map (judged (command ∷ commands)) calls
judged_step command commands [] = refl
judged_step command commands (c ∷ calls) =
    ap₂ (λ (d : PendingCall) (ds : PendingBatch). d ∷ ds)
      (decide_step c.id command.call_id c.name c.reason command.reason c.args command.kind
        c.approval commands)
      (judged_step command commands calls)

judged_one :
    (command : Command) (calls : PendingBatch)
    → map (decide_call command) calls ≡ map (judged (command ∷ [])) calls
judged_one command calls =
    judged_none (map (decide_call command) calls) ∙ judged_step command [] calls

-- What holds of the commands behind the first holds with it in front.
Ends-step :
    (command : Command) (commands : List Command) (closed : Bool) (batch : PendingBatch)
    (out : Collected)
    → is_cancel command.kind ≡ false
    → ¬ AllSettled batch
    → Ends commands closed (map (decide_call command) batch) out
    → Ends (command ∷ commands) closed batch out
Ends-step command commands closed batch (decided calls rest) goes_on pending_now
      (consumed, parts, uncancelled, same, all, needed) =
    (
      command ∷ consumed,
      ap (λ (cs : List Command). command ∷ cs) parts,
      (goes_on, uncancelled),
      same ∙ judged_step command consumed batch,
      all,
      (pending_now, subst (Needed consumed) (judged_one command batch) needed),
    )
Ends-step command commands closed batch cancelled goes_on pending_now
      (consumed, c, rest, parts, uncancelled, is_cancel_command, undone) =
    (
      command ∷ consumed,
      c,
      rest,
      ap (λ (cs : List Command). command ∷ cs) parts,
      (goes_on, uncancelled),
      is_cancel_command,
      subst (λ (b : PendingBatch). ¬ AllSettled b) (judged_step command consumed batch) undone,
    )
Ends-step command commands closed batch channel_closed goes_on pending_now
      (shut, uncancelled, undone) =
    (
      shut,
      (goes_on, uncancelled),
      subst (λ (b : PendingBatch). ¬ AllSettled b) (judged_step command commands batch) undone,
    )
Ends-step command commands closed batch waiting goes_on pending_now (shut, uncancelled, undone) = (
  shut,
  (goes_on, uncancelled),
  subst (λ (b : PendingBatch). ¬ AllSettled b) (judged_step command commands batch) undone,
)

-- collectApprovals returns as soon as every call is granted or denied, having read no command behind that, each call decided by the first command that names it and approves or denies it; it fails on a cancel before that, fails where the channel is closed with a call pending, and waits where the channel is open and empty.
pub collect_approvals-Ends :
    (commands : List Command) (closed : Bool) (batch : PendingBatch)
    → Ends commands closed batch (collect_approvals commands closed batch)
unfolding collect_approvals
collect_approvals-Ends [] closed batch =
    if_ind (Ends [] closed batch) (are_all_decided batch)
      (λ all. ([], refl, tt, judged_none batch, all_decided-AllSettled batch all, tt))
      (λ undone.
        let undecided =
          subst (λ (b : PendingBatch). ¬ AllSettled b) (judged_none batch)
            (undecided-AllSettled batch undone) in
        if_ind (Ends [] closed batch) closed (λ shut. (shut, tt, undecided))
          (λ shut. (shut, tt, undecided)))
collect_approvals-Ends (command ∷ commands) closed batch =
    if_ind (Ends (command ∷ commands) closed batch) (are_all_decided batch)
      (λ all. ([], refl, tt, judged_none batch, all_decided-AllSettled batch all, tt))
      (λ undone.
        if_ind (Ends (command ∷ commands) closed batch) (is_cancel command.kind)
          (λ is_cancel_command. (
            [],
            command,
            commands,
            refl,
            tt,
            is_cancel_command,
            subst (λ (b : PendingBatch). ¬ AllSettled b) (judged_none batch)
                (undecided-AllSettled batch undone),
          ))
          (λ goes_on.
            Ends-step command commands closed batch
              (collect_approvals commands closed (map (decide_call command) batch)) goes_on
              (undecided-AllSettled batch undone)
              (collect_approvals-Ends commands closed (map (decide_call command) batch))))
