-- ===== src/Agent/Ending.antt =====
-- How the events of a run end.
use mathlib.Core.List.{append_assoc, append-nil}
use kontekst.Prelude.{
  ℕ, zero, suc, ◌≡◌, inl, inr, refl, sym, ap, subst, ◌∙◌, Bool, true, false, List, [], ◌∷◌, ◌++◌,
  Option, none, some, Bytes, All, All-append, if_ind,
}
use kontekst.Core.{ToolCall, Message}
use kontekst.Agent.Approvals.{
  PendingCall, PendingBatch, build_pending, Command, Collected, decided, cancelled, channel_closed,
  waiting, collect_approvals, any_was_denied,
}
use kontekst.Agent.Types.{
  Response, Event, run_started, token_delta, reasoning_delta, turn_completed, tools_proposed,
  tool_started, tool_completed, tool_failed, tools_completed, run_completed, run_cancelled,
  run_failed, Reply, reply, error, Services,
}
use kontekst.Agent.Tools.{Executed, execute_tools, finished_event}
use kontekst.Agent.Loop.{
  RunConfig, Progress, Run, after_tools, act_on, respond_with, respond, ask, turns, prepare,
  run_loop, returned, blocked, out_of_fuel,
}
use kontekst.Agent.Execution.{Ran, Own, execute_tools-Ran}

-- The events that end a run.
abbrev pub is_final : Event → Bool
is_final (run_completed response) = true
is_final run_cancelled = true
is_final (run_failed text) = true
is_final run_started = false
is_final (token_delta text) = false
is_final (reasoning_delta text) = false
is_final (turn_completed response snapshot) = false
is_final (tools_proposed calls) = false
is_final (tool_started id) = false
is_final (tool_completed id output) = false
is_final (tool_failed id text) = false
is_final tools_completed = false

abbrev pub Going : List Event → Type 0
Going events = All (λ event. is_final event ≡ false) events

-- A run that returned ended with a final event, its only one; any other has none yet.
abbrev pub Ended : Progress → List Event → Type 0
Ended returned events =
    (body : List Event) × (last : Event) × (events ≡ body ++ (last ∷ []))
    × Going body
    × (is_final last ≡ true)
Ended blocked events = Going events
Ended out_of_fuel events = Going events

Ended-append :
    (progress : Progress) (front events : List Event)
    → Going front
    → Ended progress events
    → Ended progress (front ++ events)
Ended-append returned front events going (body, last, parts, going_body, final) = (
  front ++ body,
  last,
  ap (λ (es : List Event). front ++ es) parts ∙ sym (append_assoc front body (last ∷ [])),
  All-append (λ event. is_final event ≡ false) front body going going_body,
  final,
)
Ended-append blocked front events going rest =
    All-append (λ event. is_final event ≡ false) front events going rest
Ended-append out_of_fuel front events going rest =
    All-append (λ event. is_final event ≡ false) front events going rest

ends_with : (last : Event) → is_final last ≡ true → Ended returned (last ∷ [])
ends_with last final = ([], last, refl, tt, final)

finished-Going : (id : Bytes) (output : Reply Bytes) → is_final (finished_event id output) ≡ false
finished-Going id (reply output) = refl
finished-Going id (error text) = refl

Own-Going :
    (call : PendingCall) (output : Reply Bytes) (own : List Event) → Own call output own → Going own
Own-Going call output own (inl (is_denied, text, silent)) = subst Going (sym silent) tt
Own-Going call output own (inr (runs, events)) =
    subst Going (sym events) (refl, (finished-Going call.id output, tt))

Ran-Going :
    {S : Type 0} (services : Services S) (calls : List PendingCall) (events : List Event)
    (failure : Option Bytes)
    → Ran services calls events failure
    → Going events
Ran-Going services [] events failure (is_end, fine) = subst Going (sym is_end) (refl, tt)
Ran-Going services (call ∷ calls) events failure
      (output, own, rest, tokens, s, parts, its, inl (silent, failed)) =
    subst Going (sym (parts ∙ ap (λ (es : List Event). own ++ es) silent ∙ append-nil own))
      (Own-Going call output own its)
Ran-Going services (call ∷ calls) events failure
      (output, own, rest, tokens, s, parts, its, inr (added, ran)) =
    subst Going (sym parts) (
      All-append (λ event. is_final event ≡ false) own rest (Own-Going call output own its)
        (Ran-Going services calls rest failure ran))

module _ {S : Type 0} (services : Services S) (config : RunConfig) (fresh : ℕ → ℕ → Bytes)
    (visit : (turn use_no : ℕ) → PendingBatch → PendingBatch) where
  abbrev pub EndedRun : Run services config fresh → Type 0
  EndedRun run = Ended run.1 run.0

  after_tools-Ended :
      (denial : Bool) (executed : Executed services) (continue : S → Run services config fresh)
      → Going executed.1
      → ((s : S) → EndedRun (continue s))
      → EndedRun (after_tools services config fresh visit denial executed continue)
  unfolding after_tools
  after_tools-Ended denial (some e, events, s) continue h next =
      Ended-append returned events (run_failed e ∷ []) h (ends_with (run_failed e) refl)
  after_tools-Ended denial (none, events, s) continue h next =
      if_ind (λ (run : Run services config fresh). Ended run.1 (events ++ run.0)) denial
        (λ _.
          Ended-append returned events (run_completed none ∷ []) h
            (ends_with (run_completed none) refl))
        (λ _. Ended-append (continue s).1 events (continue s).0 h (next s))

  act_on-Ended :
      (turn : ℕ) (out : Collected) (continue : List Command → S → Run services config fresh) (s : S)
      → ((commands : List Command) (s' : S) → EndedRun (continue commands s'))
      → EndedRun (act_on services config fresh visit turn out continue s)
  unfolding act_on
  act_on-Ended turn (decided calls rest) continue s next =
      let decisions = visit turn 2 calls in
      after_tools-Ended (any_was_denied decisions) (execute_tools services decisions s)
        (continue rest) (Ran-Going services decisions _ _ (execute_tools-Ran services decisions s))
        (next rest)
  act_on-Ended turn waiting continue s next = tt
  act_on-Ended turn cancelled continue s next = ends_with run_cancelled refl
  act_on-Ended turn channel_closed continue s next = ends_with run_cancelled refl

  respond-Ended :
      (turn : ℕ) (commands : List Command) (closed : Bool) (calls : List ToolCall)
      (response : Response) (continue : List Command → S → Run services config fresh) (s : S)
      → ((commands : List Command) (s' : S) → EndedRun (continue commands s'))
      → EndedRun
          (respond_with services config fresh visit calls turn commands closed response continue s)
  unfolding respond_with
  respond-Ended turn commands closed [] response continue s next =
      (turn_completed response _ ∷ [], run_completed (some response), refl, (refl, tt), refl)
  respond-Ended turn commands closed (call ∷ calls) response continue s next =
      Ended-append _ (turn_completed response _ ∷ tools_proposed _ ∷ []) _ (refl, (refl, tt))
        (act_on-Ended turn
          (collect_approvals commands closed (build_pending (fresh turn) (call ∷ calls))) continue _
          next)

  ask-Ended :
      (turn : ℕ) (commands : List Command) (closed : Bool)
      (continue : List Command → S → Run services config fresh) (context : Reply (List Message) × S)
      → ((commands : List Command) (s' : S) → EndedRun (continue commands s'))
      → EndedRun (ask services config fresh visit turn commands closed continue context)
  unfolding ask respond
  ask-Ended turn commands closed continue (error e, s) next = ends_with (run_failed e) refl
  ask-Ended turn commands closed continue (reply context, s) next =
      answered (services.generate_chat context s)
    where
      answered :
          (answer : Reply Response × S)
          → EndedRun (respond services config fresh visit turn commands closed continue answer)
      answered (error e, s') = ends_with (run_failed e) refl
      answered (reply response, s') =
          respond-Ended turn commands closed response.tool_calls response continue s' next

  turns-Ended :
      (fuel turn : ℕ) (closed : Bool) (commands : List Command) (s : S)
      → EndedRun (turns services config fresh visit fuel turn closed commands s)
  unfolding turns
  turns-Ended zero turn closed commands s = tt
  turns-Ended (suc fuel) turn closed commands s =
      ask-Ended turn commands closed (turns services config fresh visit fuel (suc turn) closed)
        (services.build_context s) (λ rest s'. turns-Ended fuel (suc turn) closed rest s')

  -- The events of a run that returned end with the one that completes, cancels or fails it, the only such event; a run that waits for commands, or has used up its turns, has sent none.
  pub run_loop-Ended :
      (fuel : ℕ) (prompt : Bytes) (commands : List Command) (closed : Bool) (s : S)
      → EndedRun (run_loop services config fresh visit fuel prompt commands closed s)
  unfolding run_loop
  run_loop-Ended fuel prompt commands closed s =
      Ended-append _ (run_started ∷ []) _ (refl, tt)
        (turns-Ended fuel 0 closed commands (prepare services config fresh visit prompt s))
