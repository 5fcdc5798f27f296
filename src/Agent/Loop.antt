-- ===== src/Agent/Loop.antt =====
-- The loop of a run, internal/agent/agent.go. Both channels are sequences: the commands that a client
-- sends, and the events of the run. `fresh` and `visit` stand for what Go leaves open: the ids that
-- are drawn, and the order of a `range` over a map, which may differ at every use.
use kontekst.Prelude.Int.{ℤ, pos}
use kontekst.Prelude.{ℕ, zero, suc, Bool, List, [], ◌∷◌, ◌++◌, none, some, Bytes, if◌then◌else◌}
use kontekst.Core.{user, assistant, ToolCall, Message, is_empty}
use kontekst.Agent.Approvals.{
  PendingBatch, build_pending, as_tool_calls, Command, Collected, decided, cancelled,
  channel_closed, waiting, collect_approvals, any_was_denied,
}
use kontekst.Agent.Types.{
  Response, ProposedToolCall, Event, run_started, turn_completed, tools_proposed, run_completed,
  run_cancelled, run_failed, Reply, reply, error, Services,
}
use kontekst.Agent.Tools.{Executed, execute_tools}

pub record RunConfig : Type 0 where
  pub context_size : ℤ
  pub agent_name : Bytes

-- How far a run came: to a return, to an empty channel, or through all the turns of the fuel.
pub data Progress : Type 0 where
  returned blocked out_of_fuel : Progress

module _ {S : Type 0} (services : Services S) (config : RunConfig) (fresh : ℕ → ℕ → Bytes) where
  abbrev pub Run : Type 0
  Run = List Event × Progress × S

  -- More events in front of those of the rest of a run.
  abbrev pub after : List Event → Run → Run
  after events (later, progress, s) = (events ++ later, progress, s)

  abbrev tokens_of : Response → ℤ
  tokens_of response = elim response.completion_tokens [ none ↦ pos 0 | some n ↦ n ]

  -- A failure to add the message is only logged.
  abbrev add_assistant : Response → List ToolCall → S → S
  add_assistant response calls s =
      (services.add_message
        (record {
          role = assistant;
          content = response.content;
          tool_calls = calls;
          tool_result = none;
          agent_name = config.agent_name;
          tokens = tokens_of response;
        })
        s).1

  -- asProposed with the preview of the tools.
  unfoldable pub as_proposed : PendingBatch → S → List ProposedToolCall × S
  as_proposed [] s = ([], s)
  as_proposed (c ∷ calls) s =
      let (text, s₁) = services.preview c.name c.args s in
      let (rest, s₂) = as_proposed calls s₁ in
      (
        record {
          call_id = c.id;
          name = c.name;
          arguments_json = services.json_of c.args;
          preview = elim text [ reply shown ↦ shown | error e ↦ [] ];
        }
            ∷ rest,
        s₂,
      )

  module _ (visit : (turn use_no : ℕ) → PendingBatch → PendingBatch) where
    -- Behind executeTools: an error ends the run, and so does a denied call.
    unfoldable pub after_tools : (denial : Bool) → Executed services → (continue : S → Run) → Run
    after_tools denial (some e, events, s) continue = (events ++ (run_failed e ∷ []), returned, s)
    after_tools denial (none, events, s) continue =
        after events (if denial then (run_completed none ∷ [], returned, s) else continue s)

    -- From the decisions on; `continue` is the next round of the loop.
    unfoldable pub act_on : (turn : ℕ) → Collected → (continue : List Command → S → Run) → S → Run
    act_on turn (decided calls commands) continue s =
        let decisions = visit turn 2 calls in
        after_tools (any_was_denied decisions) (execute_tools services decisions s)
          (continue commands)
    act_on turn waiting continue s = ([], blocked, s)
    act_on turn cancelled continue s = (run_cancelled ∷ [], returned, s)
    act_on turn channel_closed continue s = (run_cancelled ∷ [], returned, s)

    -- From the model's response on; the first argument is its tool calls.
    unfoldable pub respond_with :
        List ToolCall
        → (turn : ℕ) → List Command
        → (closed : Bool) → Response
        → (continue : List Command → S → Run) → S
        → Run
    respond_with [] turn commands closed response continue s =
        let s₁ = add_assistant response [] s in
        (
          turn_completed response (services.take_snapshot s₁) ∷ run_completed (some response) ∷ [],
          returned,
          s₁,
        )
    respond_with (call ∷ calls) turn commands closed response continue s =
        let batch = build_pending (fresh turn) (call ∷ calls) in
        let s₁ = add_assistant response (as_tool_calls (visit turn 0 batch)) s in
        let (proposed, s₂) = as_proposed (visit turn 1 batch) s₁ in
        after (turn_completed response (services.take_snapshot s₁) ∷ tools_proposed proposed ∷ [])
          (act_on turn (collect_approvals commands closed batch) continue s₂)

    unfoldable pub respond :
        (turn : ℕ)
        → List Command
        → (closed : Bool) → (continue : List Command → S → Run) → Reply Response × S
        → Run
    respond turn commands closed continue (error e, s) = (run_failed e ∷ [], returned, s)
    respond turn commands closed continue (reply response, s) =
        respond_with response.tool_calls turn commands closed response continue s

    -- From the context on.
    unfoldable pub ask :
        (turn : ℕ)
        → List Command
        → (closed : Bool) → (continue : List Command → S → Run) → Reply (List Message) × S
        → Run
    ask turn commands closed continue (error e, s) = (run_failed e ∷ [], returned, s)
    ask turn commands closed continue (reply context, s) =
        respond turn commands closed continue (services.generate_chat context s)

    -- The `for` loop, on fuel for the turns that the model takes.
    unfoldable pub turns : (fuel turn : ℕ) → (closed : Bool) → List Command → S → Run
    turns zero turn closed commands s = ([], out_of_fuel, s)
    turns (suc fuel) turn closed commands s =
        ask turn commands closed (turns fuel (suc turn) closed) (services.build_context s)

    -- The start of a run: counting, StartRun and the user's message, whose failures are only logged.
    unfoldable pub prepare : (prompt : Bytes) → S → S
    prepare prompt s =
        let content = services.system_content s in
        let (system_tokens, s₁) = services.count_tokens content s in
        let (tool_tokens, s₂) = services.count_tokens (services.tool_definitions_json s₁) s₁ in
        let (prompt_tokens, s₃) =
          if is_empty prompt then (pos 0, s₂) else services.count_tokens prompt s₂ in
        let (failure, s₄) =
          services.start_run
            (record {
              context_size = config.context_size;
              system_content = content;
              system_tokens = system_tokens;
              tool_tokens = tool_tokens;
              user_prompt_tokens = prompt_tokens;
            })
            s₃ in
        if is_empty prompt
        then s₄
        else (services.add_message
            (record {
              role = user;
              content = prompt;
              tool_calls = [];
              tool_result = none;
              agent_name = [];
              tokens = prompt_tokens;
            })
            s₄).1

    -- A run; CompleteRun is deferred to its return.
    unfoldable pub run_loop :
        (fuel : ℕ) → (prompt : Bytes) → List Command → (closed : Bool) → S → Run
    run_loop fuel prompt commands closed s =
        let (events, progress, s') = turns fuel 0 closed commands (prepare prompt s) in
        (
          run_started ∷ events,
          progress,
          elim progress [ returned ↦ services.complete_run s' | blocked ↦ s' | out_of_fuel ↦ s' ],
        )
