-- ===== src/Agent/Runner.antt =====
-- The start of a run, internal/agent/runner.go: the session, the window, the prompt, and the goroutine
-- that passes the events on. `Services` of the run itself are those of Agent/Types.
use kontekst.Prelude.Int.{ℤ}
use kontekst.Prelude.{
  Bool, true, false, List, [], ◌∷◌, ◌++◌, Option, none, some, Bytes, codes, if◌then◌else◌,
}
use kontekst.Prelude.Strings.{trim_space}
use kontekst.Core.{SamplingConfig, is_empty}
use kontekst.Conversation.Window.{Window, set_agent_system_prompt, set_active_skill}
use kontekst.EditFile.Tool.{Stored, missing, unreadable, file, FileStore}
use kontekst.Paths.{join_path}
use kontekst.Skill.Render.{Skill, format_content}
use kontekst.Agent.Types.{Event, Reply, reply, error}
use kontekst.Agent.Ending.{is_final}

pub record RunConfig : Type 0 where
  pub prompt : Bytes
  pub session_id : Bytes
  pub agent_name : Bytes
  pub agent_system_prompt : Bytes
  pub context_size : ℤ
  pub sampling : Option SamplingConfig
  pub provider_endpoint : Bytes
  pub provider_model : Bytes
  pub provider_http_timeout : ℤ
  pub working_dir : Bytes
  pub skill : Option Skill
  pub skill_content : Bytes
  pub tool_role : Bool
  pub has_client_tools : Bool

-- SessionStore and ConversationFactory of internal/agent/interfaces.go, on a state behind them.
pub record SessionServices (S : Type 0) : Type 0 where
  pub create : S → Reply Bytes × S
  pub ensure : (session_id : Bytes) → S → Reply Bytes × S
  pub new_window : (session_id : Bytes) → S → Reply Window × S

-- What StartRun hands to the agent: the session, its window and the prompt.
pub record Started : Type 0 where
  pub session_id : Bytes
  pub window : Window
  pub prompt : Bytes
  pub uses_client_tools : Bool

unfoldable pub with_agent_prompt : RunConfig → Window → Window
with_agent_prompt cfg window =
    if is_empty cfg.agent_system_prompt
    then window
    else set_agent_system_prompt cfg.agent_system_prompt window

-- The skill, with its name and path in the window and its content in front of the prompt.
unfoldable pub with_skill : Option Skill → (content prompt : Bytes) → Window → Window × Bytes
with_skill none content prompt window = (window, prompt)
with_skill (some skill) [] prompt window = (window, prompt)
with_skill (some skill) (c ∷ content) prompt window = (
  set_active_skill (some (record { name = skill.name; path = skill.path })) window,
  format_content skill (c ∷ content) ++ (10 ∷ 10 ∷ (codes "---" ++ (10 ∷ 10 ∷ prompt))),
)

-- The instructions of the project; a file that cannot be read is only logged.
unfoldable pub with_instructions : Stored → (prompt : Bytes) → Bytes
with_instructions missing prompt = prompt
with_instructions (unreadable e) prompt = prompt
with_instructions (file content) prompt =
    codes "<project-instructions>"
    ++ (10 ∷ (trim_space content ++ (10 ∷ (codes "</project-instructions>" ++ (10 ∷ 10 ∷ prompt)))))

unfoldable pub project_prompt : FileStore → (working_dir prompt : Bytes) → Bytes
project_prompt store [] prompt = prompt
project_prompt store (c ∷ dir) prompt =
    with_instructions (store.at (join_path (c ∷ dir) (codes "AGENTS.md"))) prompt

module _ {S : Type 0} (sessions : SessionServices S) (store : FileStore) where
  unfoldable pub start_in_window :
      RunConfig → (session_id : Bytes) → Reply Window × S → Reply Started × S
  start_in_window cfg session_id (error e, s) = (error e, s)
  start_in_window cfg session_id (reply window, s) =
      let (window', prompt) =
        with_skill cfg.skill cfg.skill_content cfg.prompt (with_agent_prompt cfg window) in
      (
        reply (record {
          session_id = session_id;
          window = window';
          prompt = project_prompt store cfg.working_dir prompt;
          uses_client_tools = cfg.has_client_tools;
        }),
        s,
      )

  unfoldable pub start_in_session : RunConfig → Reply Bytes × S → Reply Started × S
  start_in_session cfg (error e, s) = (error e, s)
  start_in_session cfg (reply session_id, s) =
      start_in_window cfg session_id (sessions.new_window session_id s)

  -- Ensure gives a path, and the session keeps its id.
  unfoldable pub ensured : (session_id : Bytes) → Reply Bytes × S → Reply Bytes × S
  ensured session_id (error e, s) = (error e, s)
  ensured session_id (reply path, s) = (reply session_id, s)

  -- StartRun
  unfoldable pub start_run : RunConfig → S → Reply Started × S
  start_run cfg s = start_in_session cfg (
      if is_empty cfg.session_id
      then sessions.create s
      else ensured cfg.session_id (sessions.ensure cfg.session_id s))

-- The goroutine's loop: the events that it passes on, and whether it closed its channel.
unfoldable pub pass_on : List Event → List Event × Bool
pass_on [] = ([], false)
pass_on (e ∷ events) =
    let (passed, closed) = pass_on events in
    if is_final e then (e ∷ [], true) else (e ∷ passed, closed)
