-- ===== src/Protocol/Server/Answers.antt =====
-- The answers of the client that internal/protocol/server.go turns into an approval.
use kontekst.Prelude.{
  ℕ, ◌≡◌, ◌⊎◌, inl, inr, refl, sym, ap, subst, true, List, [], ◌∷◌, ◌++◌, Bytes, bytes_eq→eq, codes,
  In, first, later, if_ind, arith,
}
use kontekst.Agent.Approvals.{Command, approve_tool}
use kontekst.Agent.Types.{ProposedToolCall, tools_proposed, Reply, reply, error}
use kontekst.Protocol.Permission.{
  PermissionOutcome, outcome_is_allowed, option_is_allowed, is_allow,
}
use kontekst.Protocol.Server.{
  Client, Sent, session_update, context_update, permission_request, command, command_for,
  request_for, permission_options, Signal, event,
}
use kontekst.Protocol.Server.Commands.{commands_in}

-- The client answered a request for a call of this id that the run proposed: it selected "allow".
pub record UserAllowed (client : Client) (sid : Bytes) (signals : List Signal) (id : Bytes)
    : Type 0 where
  pub n : ℕ
  pub calls : List ProposedToolCall
  pub call : ProposedToolCall
  pub outcome : PermissionOutcome
  pub is_proposed : In (event (tools_proposed calls)) signals
  pub is_call : In call calls
  pub has_id : call.call_id ≡ id
  pub is_answer : client.permission n (request_for client sid true call) ≡ reply outcome
  pub selects : outcome.outcome ≡ codes "selected"
  pub allows : outcome.option_id ≡ codes "allow"

-- Of the two options only "allow" is allowed.
pub allowed_option :
    (outcome : PermissionOutcome)
    → outcome_is_allowed outcome permission_options ≡ true
    → (outcome.outcome ≡ codes "selected") × (outcome.option_id ≡ codes "allow")
unfolding outcome_is_allowed option_is_allowed is_allow
allowed_option outcome h = (
  bytes_eq→eq outcome.outcome (codes "selected") (ground (arith, h)),
  sym (bytes_eq→eq (codes "allow") outcome.option_id (ground (arith, h))),
)

abbrev pub Approves : Command → Type 0
Approves c = c.kind ≡ approve_tool

-- The answer that makes the server approve.
abbrev pub Answer : Client → (sid : Bytes) → ProposedToolCall → ℕ → Type 0
Answer client sid call n =
    (outcome : PermissionOutcome) × (client.permission n (request_for client sid true call)
      ≡ reply outcome)
    × (outcome.outcome ≡ codes "selected")
    × (outcome.option_id ≡ codes "allow")

pub command_for-Approves :
    (id : Bytes) (answer : Reply PermissionOutcome)
    → Approves (command_for id answer)
    → (outcome : PermissionOutcome) × (answer ≡ reply outcome)
      × (outcome_is_allowed outcome permission_options ≡ true)
      × ((command_for id answer).call_id ≡ id)
unfolding command_for
command_for-Approves id (error e) = λ h. ground arith
command_for-Approves id (reply outcome) =
    if_ind
      (λ (c : Command).
        Approves c
        → (o : PermissionOutcome) × (reply outcome ≡ reply o)
          × (outcome_is_allowed o permission_options ≡ true)
          × (c.call_id ≡ id))
      (outcome_is_allowed outcome permission_options) (λ is h. (outcome, refl, is, refl))
      (λ _ h. ground arith)

pub empty_list : {A : Type 0} (a : A) → ¬ In a []
empty_list a place = elim place [ ]

pub In-append_cases : {A : Type 0} (a : A) (xs ys : List A) → In a (xs ++ ys) → In a xs ⊎ In a ys
In-append_cases a [] ys h = inr h
In-append_cases a (x ∷ xs) ys (first e) = inl (first e)
In-append_cases a (x ∷ xs) ys (later h) = elim (In-append_cases a xs ys h) [
  | inl place ↦ inl (later place)
  | inr place ↦ inr place
]

pub commands_in-append :
    (xs ys : List Sent) → commands_in (xs ++ ys) ≡ commands_in xs ++ commands_in ys
unfolding commands_in
commands_in-append [] ys = refl
commands_in-append (session_update sid update ∷ xs) ys = commands_in-append xs ys
commands_in-append (context_update snapshot ∷ xs) ys = commands_in-append xs ys
commands_in-append (permission_request request ∷ xs) ys = commands_in-append xs ys
commands_in-append (command c ∷ xs) ys =
    ap (λ (cs : List Command). c ∷ cs) (commands_in-append xs ys)

-- A command among those of two parts.
pub commands_cases :
    (c : Command) (xs ys : List Sent)
    → In c (commands_in (xs ++ ys))
    → In c (commands_in xs) ⊎ In c (commands_in ys)
commands_cases c xs ys place =
    In-append_cases c (commands_in xs) (commands_in ys)
      (subst (λ (cs : List Command). In c cs) (commands_in-append xs ys) place)
