-- ===== src/Conversation/Window.antt =====
-- The window of internal/conversation/context.go and its snapshot (snapshot.go). The mutex makes each
-- method one step. `encode` stands for what opening the file and json.Encoder do for a message, the
-- errors of both included, `parse` for json.Unmarshal.
use kontekst.Prelude.Int.{ℤ, pos, ltb_ℤ, ◌-ℤ◌}
use kontekst.Prelude.{
  ℕ, ◌+◌, ◌/◌, ◌%◌, ◌||◌, List, [], ◌∷◌, ◌++◌, Option, none, some, Bytes, codes, ltb, ◌==◌,
  if◌then◌else◌,
}
use kontekst.Core.{system, Message, SkillMetadata}
use kontekst.Conversation.File.{
  Opened, not_exist, open_error, contents, loaded, load_error, load_tail,
}

pub record BudgetParams : Type 0 where
  pub context_size : ℤ
  pub system_content : Bytes
  pub system_tokens : ℤ
  pub tool_tokens : ℤ
  pub user_prompt_tokens : ℤ

-- `session_file` is what the file system has for the path of the session file.
pub record Window : Type 0 where
  pub session_file : Opened
  pub history : List Message
  pub memory : List Message
  pub agent_system_prompt : Bytes
  pub active_skill : Option SkillMetadata
  pub system_content : Bytes
  pub context_size : ℤ
  pub system_tokens : ℤ
  pub tool_tokens : ℤ

abbrev pub new_window : Opened → Window
new_window session_file = record {
  session_file = session_file;
  history = [];
  memory = [];
  agent_system_prompt = [];
  active_skill = none;
  system_content = [];
  context_size = pos 0;
  system_tokens = pos 0;
  tool_tokens = pos 0;
}

-- A window behind a call, and the error that the call returned.
abbrev pub Outcome : Type 0
Outcome = Window × Option Bytes

abbrev hex_digit : ℕ → ℕ
hex_digit n = if ltb n 10 then 48 + n else 87 + n

-- %q of one byte: its escape, or itself. A byte above 127 is taken as part of a printable character.
unfoldable pub quote_byte : ℕ → Bytes
quote_byte c =
    if c == 34 || c == 92
    then 92 ∷ c ∷ []
    else if c == 7
    then codes "\\a"
    else if c == 8
    then codes "\\b"
    else if c == 9
    then codes "\\t"
    else if c == 10
    then codes "\\n"
    else if c == 11
    then codes "\\v"
    else if c == 12
    then codes "\\f"
    else if c == 13
    then codes "\\r"
    else if ltb c 32 || c == 127
    then 92 ∷ 120 ∷ hex_digit (c / 16) ∷ hex_digit (c % 16) ∷ []
    else c ∷ []

unfoldable pub quote_bytes : Bytes → Bytes
quote_bytes [] = []
quote_bytes (c ∷ cs) = quote_byte c ++ quote_bytes cs

unfoldable pub quote : Bytes → Bytes
quote text = 34 ∷ (quote_bytes text ++ (34 ∷ []))

unfoldable pub system_content : Window → Bytes
system_content cw = elim cw.active_skill [
  | none ↦ cw.agent_system_prompt
  | some skill ↦
      cw.agent_system_prompt
      ++ (10 ∷ 10 ∷ codes "<active-skill name="
          ++ (quote skill.name ++ (codes " path=" ++ (quote skill.path ++ codes " />"))))
]

-- A budget is never negative.
abbrev pub at_least_zero : ℤ → ℤ
at_least_zero budget = if ltb_ℤ budget (pos 0) then pos 0 else budget

unfoldable pub history_budget_of : BudgetParams → ℤ
history_budget_of params =
    at_least_zero (
      params.context_size -ℤ params.system_tokens -ℤ params.tool_tokens
      -ℤ params.user_prompt_tokens)

-- The fields that StartRun sets before it reads the file.
unfoldable pub set_params : BudgetParams → Window → Window
set_params params cw = record {
  session_file = cw.session_file;
  history = cw.history;
  memory = cw.memory;
  agent_system_prompt = cw.agent_system_prompt;
  active_skill = cw.active_skill;
  system_content = params.system_content;
  context_size = params.context_size;
  system_tokens = params.system_tokens;
  tool_tokens = params.tool_tokens;
}

abbrev pub with_messages : (history memory : List Message) → Window → Window
with_messages history memory cw = record {
  session_file = cw.session_file;
  history = history;
  memory = memory;
  agent_system_prompt = cw.agent_system_prompt;
  active_skill = cw.active_skill;
  system_content = cw.system_content;
  context_size = cw.context_size;
  system_tokens = cw.system_tokens;
  tool_tokens = cw.tool_tokens;
}

unfoldable pub start_run : (Bytes → Option Message) → BudgetParams → Window → Outcome
start_run parse params cw =
    let cw' = set_params params cw in
    elim (load_tail parse (history_budget_of params) cw.session_file) [
      | load_error error ↦ (cw', some error)
      | loaded history ↦ (with_messages history [] cw', none)
    ]

unfoldable pub complete_run : Window → Window
complete_run cw = with_messages cw.history [] cw

-- What the calls of Append meet: Encode writes the line of the message; it returns an error behind what it wrote; or the file cannot be opened.
pub data Appending : Type 0 where
  encoded : (line : Bytes) → Appending
  torn : (part error : Bytes) → Appending
  unopened : (error : Bytes) → Appending

abbrev pub not_opened : Bytes → Option Bytes
not_opened error = some (codes "session file: open for append: " ++ error)

-- Append of the session file: it is made where there is none, and written at its end.
unfoldable pub append_line : Appending → Opened → Opened × Option Bytes
append_line (unopened error) file = (file, not_opened error)
append_line (encoded line) not_exist = (contents (line ++ (10 ∷ [])), none)
append_line (encoded line) (open_error error) = (open_error error, not_opened error)
append_line (encoded line) (contents bytes) = (contents (bytes ++ (line ++ (10 ∷ []))), none)
append_line (torn part error) not_exist = (contents part, some error)
append_line (torn part error) (open_error opening) = (open_error opening, not_opened opening)
append_line (torn part error) (contents bytes) = (contents (bytes ++ part), some error)

abbrev pub with_file : Opened → Window → Window
with_file session_file cw = record {
  session_file = session_file;
  history = cw.history;
  memory = cw.memory;
  agent_system_prompt = cw.agent_system_prompt;
  active_skill = cw.active_skill;
  system_content = cw.system_content;
  context_size = cw.context_size;
  system_tokens = cw.system_tokens;
  tool_tokens = cw.tool_tokens;
}

-- AddMessage, with what its Append meets.
unfoldable pub add_appended : Message → Window → Appending → Outcome
add_appended msg cw appending =
    let (session_file, error) = append_line appending cw.session_file in
    let cw' = with_file session_file cw in
    elim error [
      | some e ↦ (cw', some e)
      | none ↦ (with_messages cw'.history (cw'.memory ++ (msg ∷ [])) cw', none)
    ]

unfoldable pub add_message : (Message → Appending) → Message → Window → Outcome
add_message encode msg cw = add_appended msg cw (encode msg)

abbrev pub system_message : Bytes → Message
system_message content = record {
  role = system;
  content = content;
  tool_calls = [];
  tool_result = none;
  agent_name = [];
  tokens = pos 0;
}

unfoldable pub build_context : Window → List Message
build_context cw = (system_message cw.system_content ∷ cw.history) ++ cw.memory

unfoldable pub set_agent_system_prompt : Bytes → Window → Window
set_agent_system_prompt prompt cw = record {
  session_file = cw.session_file;
  history = cw.history;
  memory = cw.memory;
  agent_system_prompt = prompt;
  active_skill = cw.active_skill;
  system_content = cw.system_content;
  context_size = cw.context_size;
  system_tokens = cw.system_tokens;
  tool_tokens = cw.tool_tokens;
}

unfoldable pub set_active_skill : Option SkillMetadata → Window → Window
set_active_skill skill cw = record {
  session_file = cw.session_file;
  history = cw.history;
  memory = cw.memory;
  agent_system_prompt = cw.agent_system_prompt;
  active_skill = skill;
  system_content = cw.system_content;
  context_size = cw.context_size;
  system_tokens = cw.system_tokens;
  tool_tokens = cw.tool_tokens;
}
