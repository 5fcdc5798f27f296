-- ===== src/Agent/Execution.antt =====
-- What executeTools sends: for each call in turn its own events, none for a denied one.
use mathlib.Core.List.{append-nil}
use kontekst.Prelude.Int.{ℤ}
use kontekst.Prelude.{
  ◌≡◌, ◌≢◌, ◌⊎◌, inl, inr, refl, sym, ap, subst, ◌∙◌, List, [], ◌∷◌, ◌++◌, Option, none, some,
  Bytes, All, All-append, arith,
}
use kontekst.Agent.Approvals.{ApprovalState, pending, granted, denied, PendingCall, Command}
use kontekst.Agent.Types.{
  Event, run_started, token_delta, reasoning_delta, turn_completed, tools_proposed, tool_started,
  tool_completed, tool_failed, tools_completed, run_completed, run_cancelled, run_failed, Reply,
  reply, error, Services,
}
use kontekst.Agent.Tools.{
  denial, result_of, tool_message, finished_event, run_tool, execute_as, Executed, go_on,
  execute_tool_call, execute_tools,
}
use kontekst.Agent.Safety.{ApprovedBy, Settled}

-- The output and the events of one call: the denial and no event if it is denied, else its start and its end.
abbrev pub Own : PendingCall → Reply Bytes → List Event → Type 0
Own call output events =
    ((call.approval ≡ denied) × (output ≡ error (denial call.reason)) × (events ≡ []))
    ⊎ ((call.approval ≢ denied)
        × (events ≡ tool_started call.id ∷ finished_event call.id output ∷ []))

module _ {S : Type 0} (services : Services S) where
  -- The error of AddMessage for the result of the call.
  abbrev pub recorded : PendingCall → Reply Bytes → (tokens : ℤ) → S → Option Bytes
  recorded call output tokens s =
      (services.add_message (tool_message (result_of call output) tokens) s).0

  -- The events of the calls in order, then the end of all; or up to the first call whose result AddMessage does not take.
  abbrev pub Ran : List PendingCall → List Event → Option Bytes → Type 0
  Ran [] events failure = (events ≡ tools_completed ∷ []) × (failure ≡ none)
  Ran (call ∷ calls) events failure =
      (output : Reply Bytes) × (own : List Event) × (rest : List Event) × (tokens : ℤ) × (s : S)
      × (events ≡ own ++ rest)
      × Own call output own
      × (((rest ≡ [])
            × ((e : Bytes) × (recorded call output tokens s ≡ some e) × (failure ≡ some e)))
          ⊎ ((recorded call output tokens s ≡ none) × Ran calls rest failure))

  own_by :
      (approval : ApprovalState) (call : PendingCall) (s : S)
      → ((approval ≡ denied)
          × ((execute_as services approval call s).0 ≡ error (denial call.reason))
          × ((execute_as services approval call s).1 ≡ []))
        ⊎ ((approval ≢ denied)
            × ((execute_as services approval call s).1
                ≡ tool_started call.id
                  ∷ finished_event call.id (execute_as services approval call s).0
                  ∷ []))
  unfolding execute_as run_tool
  own_by denied call s = inl (refl, refl, refl)
  own_by granted call s = inr ((λ e. ground arith), refl)
  own_by pending call s = inr ((λ e. ground arith), refl)

  executed-Own :
      (call : PendingCall) (s : S)
      → Own call (execute_tool_call services call s).0 (execute_tool_call services call s).1
  unfolding execute_tool_call
  executed-Own call s = own_by call.approval call s

  go_on-Ran :
      (failure : Option Bytes) (call : PendingCall) (calls : List PendingCall)
      (output : Reply Bytes) (own : List Event) (tokens : ℤ) (s s' : S) (rest : Executed services)
      → recorded call output tokens s ≡ failure
      → Own call output own
      → Ran calls rest.1 rest.0
      → Ran
          (call ∷ calls)
          (go_on services failure own s' rest).1
          (go_on services failure own s' rest).0
  unfolding go_on
  go_on-Ran (some e) call calls output own tokens s s' rest added its ran =
      (output, own, [], tokens, s, sym (append-nil own), its, inl (refl, (e, added, refl)))
  go_on-Ran none call calls output own tokens s s' rest added its ran =
      (output, own, rest.1, tokens, s, refl, its, inr (added, ran))

  pub execute_tools-Ran :
      (calls : List PendingCall) (s : S)
      → Ran calls (execute_tools services calls s).1 (execute_tools services calls s).0
  unfolding execute_tools
  execute_tools-Ran [] s = (refl, refl)
  execute_tools-Ran (call ∷ calls) s =
      let executed = execute_tool_call services call s in
      let counted = services.count_tokens (result_of call executed.0).output executed.2 in
      let added =
        services.add_message (tool_message (result_of call executed.0) counted.0) counted.1 in
      go_on-Ran added.0 call calls executed.0 executed.1 counted.0 counted.1 added.1
        (execute_tools services calls added.1) refl (executed-Own call s)
        (execute_tools-Ran calls added.1)

-- A tool that starts is approved by one of the commands.
abbrev pub Allowed : List Command → Event → Type 0
Allowed commands (tool_started id) = ApprovedBy commands id
Allowed commands run_started = Unit
Allowed commands (token_delta text) = Unit
Allowed commands (reasoning_delta text) = Unit
Allowed commands (turn_completed response snapshot) = Unit
Allowed commands (tools_proposed calls) = Unit
Allowed commands (tool_completed id output) = Unit
Allowed commands (tool_failed id text) = Unit
Allowed commands tools_completed = Unit
Allowed commands (run_completed response) = Unit
Allowed commands run_cancelled = Unit
Allowed commands (run_failed text) = Unit

finished-Allowed :
    (commands : List Command) (id : Bytes) (output : Reply Bytes)
    → Allowed commands (finished_event id output)
finished-Allowed commands id (reply output) = tt
finished-Allowed commands id (error text) = tt

Own-Allowed :
    (commands : List Command) (call : PendingCall) (output : Reply Bytes) (own : List Event)
    → Settled commands call
    → Own call output own
    → All (Allowed commands) own
Own-Allowed commands call output own settled (inl (is_denied, text, silent)) =
    subst (All (Allowed commands)) (sym silent) tt
Own-Allowed commands call output own (inl is_denied) (inr (runs, events)) =
    elim (runs is_denied) [ ]
Own-Allowed commands call output own (inr approved) (inr (runs, events)) =
    subst (All (Allowed commands)) (sym events)
      (approved, (finished-Allowed commands call.id output, tt))

-- Events of settled calls are allowed.
pub Ran-Allowed :
    {S : Type 0} (services : Services S) (commands : List Command) (calls : List PendingCall)
    (events : List Event) (failure : Option Bytes)
    → All (Settled commands) calls
    → Ran services calls events failure
    → All (Allowed commands) events
Ran-Allowed services commands [] events failure settled (is_end, fine) =
    subst (All (Allowed commands)) (sym is_end) (tt, tt)
Ran-Allowed services commands (call ∷ calls) events failure settled
      (output, own, rest, tokens, s, parts, its, inl (silent, failed)) =
    subst (All (Allowed commands))
      (sym (parts ∙ ap (λ (es : List Event). own ++ es) silent ∙ append-nil own))
      (Own-Allowed commands call output own settled.0 its)
Ran-Allowed services commands (call ∷ calls) events failure settled
      (output, own, rest, tokens, s, parts, its, inr (added, ran)) =
    subst (All (Allowed commands)) (sym parts) (
      All-append (Allowed commands) own rest (Own-Allowed commands call output own settled.0 its)
        (Ran-Allowed services commands calls rest failure settled.1 ran))
