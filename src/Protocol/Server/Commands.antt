-- ===== src/Protocol/Server/Commands.antt =====
-- The commands that internal/protocol/server.go sends for a batch of proposed calls.
use kontekst.Prelude.{
  ℕ, suc, ◌≡◌, refl, sym, ap, ap₂, ◌∙◌, subst, Bool, true, false, ◌&&◌, List, [], ◌∷◌, map, Option,
  none, some, Bytes, bytes_eq, bytes_eq_refl, All, All-at, In, first, later, In-append_right,
  if_ind, arith,
}
use kontekst.Agent.Approvals.{
  PendingCall, PendingBatch, Command, CommandType, approve_tool, deny_tool, cancel, other,
  is_pending, is_cancel, judge, judge_as, are_all_decided, Collected, decided, cancelled,
  channel_closed, waiting, collect_approvals,
}
use kontekst.Agent.Verdicts.{
  decides, verdict, judged, IsDecided, Ends, AllSettled, all_decided-AllSettled,
}
use kontekst.Agent.Decisions.{collect_approvals-Ends}
use kontekst.Agent.Types.{ProposedToolCall, tools_proposed, Reply, reply, error, Services}
use kontekst.Agent.Loop.{RunConfig, as_proposed}
use kontekst.Protocol.Permission.{PermissionOutcome, outcome_is_allowed}
use kontekst.Protocol.Server.{
  Client, Sent, session_update, context_update, permission_request, command, send_command,
  command_for, ask_permission, ask_permissions, sent_for, request_for, permission_options,
}

-- The commands among what the server sends.
unfoldable pub commands_in : List Sent → List Command
commands_in [] = []
commands_in (session_update sid update ∷ sent) = commands_in sent
commands_in (context_update snapshot ∷ sent) = commands_in sent
commands_in (permission_request request ∷ sent) = commands_in sent
commands_in (command c ∷ sent) = c ∷ commands_in sent

-- The command for each call of a batch, with the answer to its own request.
unfoldable pub answers : Client → (sid : Bytes) → (n : ℕ) → List ProposedToolCall → List Command
answers client sid n [] = []
answers client sid n (call ∷ calls) =
    command_for call.call_id (client.permission n (request_for client sid true call))
    ∷ answers client sid (suc n) calls

pub commands_in-answers :
    (client : Client) (sid : Bytes) (n : ℕ) (calls : List ProposedToolCall)
    → commands_in (ask_permissions client sid true n calls) ≡ answers client sid n calls
unfolding commands_in answers ask_permissions ask_permission send_command
commands_in-answers client sid n [] = refl
commands_in-answers client sid n (call ∷ calls) =
    ap
      (λ (cs : List Command).
        command_for call.call_id (client.permission n (request_for client sid true call)) ∷ cs)
      (commands_in-answers client sid (suc n) calls)

-- A command that the server sends decides the call that it names.
abbrev Decisive : Command → Type 0
Decisive c = (is_cancel c.kind ≡ false) × (decides c.kind ≡ true)

command_for-Decisive :
    (id : Bytes) (answer : Reply PermissionOutcome) → Decisive (command_for id answer)
unfolding command_for
command_for-Decisive id (error e) = (refl, refl)
command_for-Decisive id (reply outcome) =
    if_ind Decisive (outcome_is_allowed outcome permission_options) (λ _. (refl, refl))
      (λ _. (refl, refl))

command_for_names :
    (id : Bytes) (answer : Reply PermissionOutcome) → (command_for id answer).call_id ≡ id
unfolding command_for
command_for_names id (error e) = refl
command_for_names id (reply outcome) =
    if_ind (λ (c : Command). c.call_id ≡ id) (outcome_is_allowed outcome permission_options)
      (λ _. refl) (λ _. refl)

answers-Decisive :
    (client : Client) (sid : Bytes) (n : ℕ) (calls : List ProposedToolCall)
    → All Decisive (answers client sid n calls)
unfolding answers
answers-Decisive client sid n [] = tt
answers-Decisive client sid n (call ∷ calls) =
    (command_for-Decisive call.call_id _, answers-Decisive client sid (suc n) calls)

abbrev Names : Bytes → List Command → Type 0
Names id commands = (c : Command) × In c commands × (c.call_id ≡ id)

answers-Names :
    (client : Client) (sid : Bytes) (n : ℕ) (calls : List ProposedToolCall)
    (call : ProposedToolCall)
    → In call calls
    → Names call.call_id (answers client sid n calls)
unfolding answers
answers-Names client sid n [] call place = elim place [ ]
answers-Names client sid n (c ∷ calls) call (first e) = (
  _,
  first refl,
  command_for_names c.call_id _ ∙ ap (λ (p : ProposedToolCall). p.call_id) (sym e),
)
answers-Names client sid n (c ∷ calls) call (later place) =
    let (d, at, names) = answers-Names client sid (suc n) calls call place in (d, later at, names)

-- A command of the list that names the call and decides it leaves the call a verdict.
verdict_found :
    (id : Bytes) (commands : List Command) (c : Command)
    → In c commands
    → c.call_id ≡ id
    → decides c.kind ≡ true
    → (d : Command) × (verdict id commands ≡ some d) × (decides d.kind ≡ true)
unfolding verdict
verdict_found id [] c place names is = elim place [ ]
verdict_found id (d ∷ commands) c (first e) names is =
    (d, ground (arith, bytes_eq_refl id, e, names, is), ground (arith, e, is))
verdict_found id (d ∷ commands) c (later place) names is =
    let (found, at, decisive) = verdict_found id commands c place names is in
    if_ind (λ o. (x : Command) × (o ≡ some x) × (decides x.kind ≡ true))
      (bytes_eq id d.call_id && decides d.kind) (λ h. (d, refl, ground (arith, h)))
      (λ _. (found, at, decisive))

judge_decides :
    (kind : CommandType) (c : Command) (call : PendingCall)
    → decides kind ≡ true
    → IsDecided (judge_as kind c call)
unfolding judge_as
judge_decides approve_tool c call h = refl
judge_decides deny_tool c call h = refl
judge_decides cancel c call h = ground arith
judge_decides (other kind) c call h = ground arith

judged-IsDecided :
    (commands : List Command) (call : PendingCall) (d : Command)
    → verdict call.id commands ≡ some d
    → decides d.kind ≡ true
    → IsDecided (judged commands call)
unfolding judged judge
judged-IsDecided commands call d found is =
    if_ind IsDecided (is_pending call.approval)
      (λ _.
        subst
          (λ (o : Option Command).
            IsDecided (elim o [ none ↦ call | some c ↦ judge_as c.kind c call ]))
          (sym found) (judge_decides d.kind d call is))
      (λ h. h)

all_are_decided :
    (f : PendingCall → PendingCall) (batch : PendingBatch)
    → ((call : PendingCall) → In call batch → IsDecided (f call))
    → are_all_decided (map f batch) ≡ true
unfolding are_all_decided
all_are_decided f [] h = refl
all_are_decided f (c ∷ calls) h =
    ground (arith, h c (first refl), all_are_decided f calls (λ call place. h call (later place)))

-- No command cancels and every call has its verdict: collectApprovals ends with decisions.
judged-id : (commands : List Command) (call : PendingCall) → (judged commands call).id ≡ call.id
unfolding judged judge judge_as
judged-id commands call =
    if_ind (λ (c : PendingCall). c.id ≡ call.id) (is_pending call.approval)
      (λ _. by_verdict (verdict call.id commands)) (λ _. refl)
  where
    by_kind : (kind : CommandType) (c : Command) → (judge_as kind c call).id ≡ call.id
    by_kind approve_tool c = refl
    by_kind deny_tool c = refl
    by_kind cancel c = refl
    by_kind (other kind) c = refl

    by_verdict :
        (o : Option Command)
        → PendingCall.id (elim o [ none ↦ call | some c ↦ judge_as c.kind c call ]) ≡ call.id
    by_verdict none = refl
    by_verdict (some c) = by_kind c.kind c

abbrev pub ids_of : PendingBatch → List Bytes
ids_of calls = map (λ (c : PendingCall). c.id) calls

judged-ids :
    (commands : List Command) (batch : PendingBatch)
    → ids_of (map (judged commands) batch) ≡ ids_of batch
judged-ids commands [] = refl
judged-ids commands (c ∷ batch) =
    ap₂ (λ (x : Bytes) (xs : List Bytes). x ∷ xs) (judged-id commands c) (judged-ids commands batch)

-- The batch is collected: with its calls in their places, each granted or denied.
abbrev pub CollectedAll : PendingBatch → Collected → Type 0
CollectedAll batch out =
    (calls : PendingBatch) × (rest : List Command) × (out ≡ decided calls rest)
    × AllSettled calls
    × (ids_of calls ≡ ids_of batch)

decides-All :
    (commands : List Command) (closed : Bool) (batch : PendingBatch) (out : Collected)
    → Ends commands closed batch out
    → All Decisive commands
    → are_all_decided (map (judged commands) batch) ≡ true
    → CollectedAll batch out
decides-All commands closed batch (decided calls rest)
      (consumed, parts, uncancelled, same, settled, needed) decisive all =
    (calls, rest, refl, settled, ap ids_of same ∙ judged-ids consumed batch)
decides-All commands closed batch cancelled (consumed, c, rest, parts, uncancelled, cancels, undone)
      decisive all =
    let place : In c commands =
      subst (λ (cs : List Command). In c cs) parts
        (In-append_right consumed (c ∷ rest) (first refl)) in
    let uncancels = (All-at Decisive place decisive).0 in ground (arith, cancels, uncancels)
decides-All commands closed batch channel_closed (shut, uncancelled, undone) decisive all =
    absurd (undone (all_decided-AllSettled _ all))
decides-All commands closed batch waiting (shut, uncancelled, undone) decisive all =
    absurd (undone (all_decided-AllSettled _ all))

module _ {S : Type 0} (services : Services S) (config : RunConfig) (fresh : ℕ → ℕ → Bytes) where
  as_proposed-In :
      (calls : PendingBatch) (s : S) (call : PendingCall)
      → In call calls
      → (p : ProposedToolCall) × In p (as_proposed services config fresh calls s).0
        × (p.call_id ≡ call.id)
  unfolding as_proposed
  as_proposed-In [] s call place = elim place [ ]
  as_proposed-In (c ∷ calls) s call (first e) =
      (_, first refl, ap (λ (d : PendingCall). d.id) (sym e))
  as_proposed-In (c ∷ calls) s call (later place) =
      let (p, at, names) = as_proposed-In calls (services.preview c.name c.args s).1 call place in
      (p, later at, names)

  -- Where ranging visits every call of the batch, the commands that the server sends for the calls that the agent proposes let the agent go on, whatever the client answers: collectApprovals returns the calls of the batch in their places, each of them granted or denied.
  pub proposed-decided :
      (client : Client) (sid : Bytes) (n : ℕ) (batch visited : PendingBatch) (s : S) (closed : Bool)
      → ((call : PendingCall) → In call batch → In call visited)
      → CollectedAll batch (
          collect_approvals
            (commands_in (
              sent_for client sid true n
                (tools_proposed (as_proposed services config fresh visited s).0)))
            closed
            batch)
  unfolding sent_for
  proposed-decided client sid n batch visited s closed covers =
      subst (λ (cs : List Command). CollectedAll batch (collect_approvals cs closed batch))
        (sym (commands_in-answers client sid n proposed))
        (decides-All commands closed batch _ (collect_approvals-Ends commands closed batch)
          (answers-Decisive client sid n proposed)
          (all_are_decided (judged commands) batch settled))
    where
      proposed : List ProposedToolCall
      proposed = (as_proposed services config fresh visited s).0

      commands : List Command
      commands = answers client sid n proposed

      settled : (call : PendingCall) → In call batch → IsDecided (judged commands call)
      settled call place =
          let (p, at, same) = as_proposed-In visited s call (covers call place) in
          let (c, in_commands, names) = answers-Names client sid n proposed p at in
          let (d, found, decisive) =
            verdict_found call.id commands c in_commands (names ∙ same)
              (All-at Decisive in_commands (answers-Decisive client sid n proposed)).1 in
          judged-IsDecided commands call d found decisive
