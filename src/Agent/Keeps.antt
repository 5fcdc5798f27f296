-- ===== src/Agent/Keeps.antt =====
-- What every operation of the services keeps, a run of internal/agent/agent.go keeps.
use kontekst.Prelude.Int.{ℤ, pos}
use kontekst.Prelude.{
  ℕ, zero, suc, Bool, List, [], ◌∷◌, Option, none, some, Bytes, if_ind, if◌then◌else◌,
}
use kontekst.Core.{Fields, ToolCall, Message, is_empty}
use kontekst.Conversation.Window.{BudgetParams}
use kontekst.Agent.Approvals.{
  ApprovalState, pending, granted, denied, PendingCall, PendingBatch, Command, Collected, decided,
  cancelled, channel_closed, waiting, collect_approvals, any_was_denied, build_pending,
}
use kontekst.Agent.Types.{Response, Event, Reply, reply, error, Services}
use kontekst.Agent.Tools.{
  result_of, tool_message, run_tool, execute_as, execute_tool_call, Executed, go_on, execute_tools,
}
use kontekst.Agent.Loop.{
  RunConfig, returned, blocked, out_of_fuel, Run, as_proposed, after_tools, act_on, respond_with,
  respond, ask, turns, prepare, run_loop,
}

module _ {S : Type 0} where
  -- The state behind each operation that changes it is as good as the one in front.
  pub record Keeps (services : Services S) (I : S → Type 0) : Type 0 where
    pub start_run : (params : BudgetParams) (s : S) → I s → I (services.start_run params s).1
    pub complete_run : (s : S) → I s → I (services.complete_run s)
    pub add_message : (m : Message) (s : S) → I s → I (services.add_message m s).1
    pub build_context : (s : S) → I s → I (services.build_context s).1
    pub count_tokens : (text : Bytes) (s : S) → I s → I (services.count_tokens text s).1
    pub generate_chat : (ms : List Message) (s : S) → I s → I (services.generate_chat ms s).1
    pub execute : (name : Bytes) (args : Fields) (s : S) → I s → I (services.execute name args s).1
    pub preview : (name : Bytes) (args : Fields) (s : S) → I s → I (services.preview name args s).1

module _ {S : Type 0} (services : Services S) (I : S → Type 0) (keeps : Keeps services I) where
  execute_as-keeps :
      (approval : ApprovalState) (call : PendingCall) (s : S)
      → I s
      → I (execute_as services approval call s).2
  unfolding execute_as run_tool
  execute_as-keeps denied call s h = h
  execute_as-keeps granted call s h = keeps.execute call.name call.args s h
  execute_as-keeps pending call s h = keeps.execute call.name call.args s h

  go_on-keeps :
      (failure : Option Bytes) (events : List Event) (s : S) (rest : Executed services)
      → I s
      → I rest.2
      → I (go_on services failure events s rest).2
  unfolding go_on
  go_on-keeps (some e) events s rest h h' = h
  go_on-keeps none events s rest h h' = h'

  execute_tools-keeps :
      (calls : List PendingCall) (s : S) → I s → I (execute_tools services calls s).2
  unfolding execute_tools execute_tool_call
  execute_tools-keeps [] s h = h
  execute_tools-keeps (call ∷ calls) s h =
      let out = execute_as services call.approval call s in
      let result = result_of call out.0 in
      let counted = services.count_tokens result.output out.2 in
      let message = tool_message result counted.0 in
      let added = services.add_message message counted.1 in
      let kept =
        keeps.add_message message counted.1
          (keeps.count_tokens result.output out.2 (execute_as-keeps call.approval call s h)) in
      go_on-keeps added.0 out.1 added.1 (execute_tools services calls added.1) kept
        (execute_tools-keeps calls added.1 kept)

  module _ (config : RunConfig) (fresh : ℕ → ℕ → Bytes) where
    as_proposed-keeps :
        (calls : PendingBatch) (s : S) → I s → I (as_proposed services config fresh calls s).1
    unfolding as_proposed
    as_proposed-keeps [] s h = h
    as_proposed-keeps (c ∷ calls) s h =
        as_proposed-keeps calls (services.preview c.name c.args s).1
          (keeps.preview c.name c.args s h)

    module _ (visit : (turn use_no : ℕ) → PendingBatch → PendingBatch) where
      abbrev Good : Run services config fresh → Type 0
      Good run = I run.2

      abbrev GoodNext : (List Command → S → Run services config fresh) → Type 0
      GoodNext continue = (commands : List Command) (s : S) → I s → Good (continue commands s)

      after_tools-keeps :
          (denial : Bool) (executed : Executed services) (continue : S → Run services config fresh)
          → I executed.2
          → ((s : S) → I s → Good (continue s))
          → Good (after_tools services config fresh visit denial executed continue)
      unfolding after_tools
      after_tools-keeps denial (some e, events, s) continue h next = h
      after_tools-keeps denial (none, events, s) continue h next =
          if_ind (λ (run : Run services config fresh). Good run) denial (λ _. h) (λ _. next s h)

      act_on-keeps :
          (turn : ℕ) (out : Collected) (continue : List Command → S → Run services config fresh)
          (s : S)
          → I s
          → GoodNext continue
          → Good (act_on services config fresh visit turn out continue s)
      unfolding act_on
      act_on-keeps turn (decided calls commands) continue s h next =
          let decisions = visit turn 2 calls in
          after_tools-keeps (any_was_denied decisions) (execute_tools services decisions s)
            (continue commands) (execute_tools-keeps decisions s h) (next commands)
      act_on-keeps turn waiting continue s h next = h
      act_on-keeps turn cancelled continue s h next = h
      act_on-keeps turn channel_closed continue s h next = h

      respond_with-keeps :
          (calls : List ToolCall) (turn : ℕ) (commands : List Command) (closed : Bool)
          (response : Response) (continue : List Command → S → Run services config fresh) (s : S)
          → I s
          → GoodNext continue
          → Good (
              respond_with services config fresh visit calls turn commands closed response continue
                s)
      unfolding respond_with
      respond_with-keeps [] turn commands closed response continue s h next =
          keeps.add_message _ s h
      respond_with-keeps (call ∷ calls) turn commands closed response continue s h next =
          let batch = build_pending (fresh turn) (call ∷ calls) in
          act_on-keeps turn (collect_approvals commands closed batch) continue _
            (as_proposed-keeps (visit turn 1 batch) _ (keeps.add_message _ s h)) next

      respond-keeps :
          (turn : ℕ) (commands : List Command) (closed : Bool)
          (continue : List Command → S → Run services config fresh) (answer : Reply Response × S)
          → I answer.1
          → GoodNext continue
          → Good (respond services config fresh visit turn commands closed continue answer)
      unfolding respond
      respond-keeps turn commands closed continue (error e, s) h next = h
      respond-keeps turn commands closed continue (reply response, s) h next =
          respond_with-keeps response.tool_calls turn commands closed response continue s h next

      ask-keeps :
          (turn : ℕ) (commands : List Command) (closed : Bool)
          (continue : List Command → S → Run services config fresh)
          (context : Reply (List Message) × S)
          → I context.1
          → GoodNext continue
          → Good (ask services config fresh visit turn commands closed continue context)
      unfolding ask
      ask-keeps turn commands closed continue (error e, s) h next = h
      ask-keeps turn commands closed continue (reply context, s) h next =
          respond-keeps turn commands closed continue (services.generate_chat context s)
            (keeps.generate_chat context s h) next

      turns-keeps :
          (fuel turn : ℕ) (closed : Bool) (commands : List Command) (s : S)
          → I s
          → Good (turns services config fresh visit fuel turn closed commands s)
      unfolding turns
      turns-keeps zero turn closed commands s h = h
      turns-keeps (suc fuel) turn closed commands s h =
          ask-keeps turn commands closed (turns services config fresh visit fuel (suc turn) closed)
            (services.build_context s) (keeps.build_context s h)
            (λ rest s' h'. turns-keeps fuel (suc turn) closed rest s' h')

      prompt_counted :
          (prompt : Bytes) (s : S)
          → I s
          → I (if is_empty prompt then (pos 0, s) else services.count_tokens prompt s).1
      prompt_counted prompt s h =
          if_ind (λ (counted : ℤ × S). I counted.1) (is_empty prompt) (λ _. h)
            (λ _. keeps.count_tokens prompt s h)

      prepare-keeps :
          (prompt : Bytes) (s : S) → I s → I (prepare services config fresh visit prompt s)
      unfolding prepare
      prepare-keeps prompt s h =
          let h₁ = keeps.count_tokens (services.system_content s) s h in
          let s₁ = (services.count_tokens (services.system_content s) s).1 in
          let tools = services.tool_definitions_json s₁ in
          let counted = prompt_counted prompt _ (keeps.count_tokens tools s₁ h₁) in
          if_ind I (is_empty prompt) (λ _. keeps.start_run _ _ counted)
            (λ _. keeps.add_message _ _ (keeps.start_run _ _ counted))

      -- A run keeps it too, however it ends.
      pub run_loop-keeps :
          (fuel : ℕ) (prompt : Bytes) (commands : List Command) (closed : Bool) (s : S)
          → I s
          → I (run_loop services config fresh visit fuel prompt commands closed s).2
      unfolding run_loop
      run_loop-keeps fuel prompt commands closed s h =
          finished
            (turns services config fresh visit fuel 0 closed commands
              (prepare services config fresh visit prompt s))
            (turns-keeps fuel 0 closed commands _ (prepare-keeps prompt s h))
        where
          finished :
              (run : Run services config fresh)
              → I run.2
              → I (elim run.1 [
                | returned ↦ services.complete_run run.2
                | blocked ↦ run.2
                | out_of_fuel ↦ run.2
              ])
          finished (events, returned, s') h' = keeps.complete_run s' h'
          finished (events, blocked, s') h' = h'
          finished (events, out_of_fuel, s') h' = h'
