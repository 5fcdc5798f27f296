-- ===== src/Agent/Trace.antt =====
-- The events of a run: which tools may start.
use kontekst.Prelude.{
  ℕ, zero, suc, ◌≡◌, Bool, List, [], ◌∷◌, ◌++◌, none, some, Bytes, All, All-append, All-mono,
  All-In, All-at, In, if_ind,
}
use kontekst.Core.{ToolCall, Message}
use kontekst.Agent.Approvals.{
  PendingCall, PendingBatch, build_pending, Command, Collected, decided, cancelled, channel_closed,
  waiting, collect_approvals, any_was_denied,
}
use kontekst.Agent.Verdicts.{Ends}
use kontekst.Agent.Decisions.{collect_approvals-Ends}
use kontekst.Agent.Safety.{ApprovedBy-append, Settled, collect_approvals-Settled}
use kontekst.Agent.Types.{Response, Event, tool_started, run_failed, Reply, reply, error, Services}
use kontekst.Agent.Tools.{Executed, execute_tools}
use kontekst.Agent.Loop.{
  RunConfig, Run, after_tools, act_on, respond_with, respond, ask, turns, prepare, run_loop,
}
use kontekst.Agent.Execution.{execute_tools-Ran, Allowed, Ran-Allowed}

Allowed-append :
    (consumed rest commands : List Command) (event : Event)
    → consumed ++ rest ≡ commands
    → Allowed rest event
    → Allowed commands event
Allowed-append consumed rest commands (tool_started id) parts h =
    ApprovedBy-append consumed rest commands id parts h
Allowed-append consumed rest commands event parts h = tt

module _ {S : Type 0} (services : Services S) (config : RunConfig) (fresh : ℕ → ℕ → Bytes)
    (visit : (turn use_no : ℕ) → PendingBatch → PendingBatch) where
  -- A `range` over the map visits only calls of the map.
  abbrev pub Visits : Type 0
  Visits =
      (turn use_no : ℕ) (batch : PendingBatch) (call : PendingCall)
      → In call (visit turn use_no batch)
      → In call batch

  -- The run starts only tools that the commands approve.
  abbrev Safe : List Command → Run services config fresh → Type 0
  Safe commands run = All (Allowed commands) run.0

  abbrev SafeNext : List Command → (List Command → S → Run services config fresh) → Type 0
  SafeNext commands continue =
      (consumed rest : List Command) (s : S)
      → consumed ++ rest ≡ commands
      → Safe rest (continue rest s)

  after_tools-Safe :
      (commands : List Command) (denial : Bool) (executed : Executed services)
      (continue : S → Run services config fresh)
      → All (Allowed commands) executed.1
      → ((s : S) → Safe commands (continue s))
      → Safe commands (after_tools services config fresh visit denial executed continue)
  unfolding after_tools
  after_tools-Safe commands denial (some e, events, s) continue h next =
      All-append (Allowed commands) events (run_failed e ∷ []) h (tt, tt)
  after_tools-Safe commands denial (none, events, s) continue h next =
      All-append (Allowed commands) events _ h (
        if_ind (λ (run : Run services config fresh). All (Allowed commands) run.0) denial
          (λ _. (tt, tt)) (λ _. next s))

  act_on-Safe :
      (turn : ℕ) (tool_calls : List ToolCall) (commands : List Command) (closed : Bool)
      (out : Collected) (continue : List Command → S → Run services config fresh) (s : S)
      → Visits
      → Ends commands closed (build_pending (fresh turn) tool_calls) out
      → SafeNext commands continue
      → Safe commands (act_on services config fresh visit turn out continue s)
  unfolding act_on
  act_on-Safe turn tool_calls commands closed (decided calls rest) continue s visits ends next =
      let (consumed, parts, settled) =
        collect_approvals-Settled (fresh turn) tool_calls commands closed calls rest ends in
      let decisions = visit turn 2 calls in
      let visited : All (Settled commands) decisions =
        All-In (Settled commands) decisions
          (λ call place. All-at (Settled commands) (visits turn 2 calls call place) settled) in
      after_tools-Safe commands (any_was_denied decisions) (execute_tools services decisions s)
        (continue rest)
        (Ran-Allowed services commands decisions _ _ visited
          (execute_tools-Ran services decisions s))
        (λ s'.
          All-mono (λ event. Allowed-append consumed rest commands event parts) _
            (next consumed rest s' parts))
  act_on-Safe turn tool_calls commands closed waiting continue s visits ends next = tt
  act_on-Safe turn tool_calls commands closed cancelled continue s visits ends next = (tt, tt)
  act_on-Safe turn tool_calls commands closed channel_closed continue s visits ends next = (tt, tt)

  respond_with-Safe :
      (calls : List ToolCall) (turn : ℕ) (commands : List Command) (closed : Bool)
      (response : Response) (continue : List Command → S → Run services config fresh) (s : S)
      → Visits
      → SafeNext commands continue
      → Safe commands
          (respond_with services config fresh visit calls turn commands closed response continue s)
  unfolding respond_with
  respond_with-Safe [] turn commands closed response continue s visits next = (tt, (tt, tt))
  respond_with-Safe (call ∷ calls) turn commands closed response continue s visits next = (
    tt,
    (
      tt,
      act_on-Safe turn (call ∷ calls) commands closed
          (collect_approvals commands closed (build_pending (fresh turn) (call ∷ calls))) continue _
          visits
          (collect_approvals-Ends commands closed (build_pending (fresh turn) (call ∷ calls))) next,
    ),
  )

  ask-Safe :
      (turn : ℕ) (commands : List Command) (closed : Bool)
      (continue : List Command → S → Run services config fresh) (context : Reply (List Message) × S)
      → Visits
      → SafeNext commands continue
      → Safe commands (ask services config fresh visit turn commands closed continue context)
  unfolding ask respond
  ask-Safe turn commands closed continue (error e, s) visits next = (tt, tt)
  ask-Safe turn commands closed continue (reply context, s) visits next =
      answered (services.generate_chat context s)
    where
      answered :
          (answer : Reply Response × S)
          → Safe commands (respond services config fresh visit turn commands closed continue answer)
      answered (error e, s') = (tt, tt)
      answered (reply response, s') =
          respond_with-Safe response.tool_calls turn commands closed response continue s' visits
            next

  turns-Safe :
      (fuel turn : ℕ) (closed : Bool) (commands : List Command) (s : S)
      → Visits
      → Safe commands (turns services config fresh visit fuel turn closed commands s)
  unfolding turns
  turns-Safe zero turn closed commands s visits = tt
  turns-Safe (suc fuel) turn closed commands s visits =
      ask-Safe turn commands closed (turns services config fresh visit fuel (suc turn) closed)
        (services.build_context s) visits
        (λ consumed rest s' parts. turns-Safe fuel (suc turn) closed rest s' visits)

  -- A run starts a tool only for a call that one of the client's commands approves, whatever the model, the tools and the context do, after any number of turns.
  pub run_loop-approved :
      (fuel : ℕ) (prompt : Bytes) (commands : List Command) (closed : Bool) (s : S)
      → Visits
      → All
          (Allowed commands)
          (run_loop services config fresh visit fuel prompt commands closed s).0
  unfolding run_loop
  run_loop-approved fuel prompt commands closed s visits =
      (tt, turns-Safe fuel 0 closed commands (prepare services config fresh visit prompt s) visits)
