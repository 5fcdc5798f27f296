-- ===== src/Protocol/Permission.antt =====
-- The choices of a permission request, the kinds of tools and the updates of a session:
-- internal/protocol/types, with outcomeIsAllowed of internal/protocol/server.go.
use kontekst.Prelude.{
  Bool, true, false, List, [], ◌∷◌, Option, Bytes, codes, bytes_eq, not, if◌then◌else◌,
}
use kontekst.Core.{Json, Fields}

-- The values of the string type; `other` is any other text.
pub data PermissionOptionKind : Type 0 where
  allow_once allow_always reject_once reject_always : PermissionOptionKind
  other : Bytes → PermissionOptionKind

unfoldable pub is_allow : PermissionOptionKind → Bool
is_allow allow_once = true
is_allow allow_always = true
is_allow reject_once = false
is_allow reject_always = false
is_allow (other kind) = false

pub record PermissionOption : Type 0 where
  pub option_id : Bytes
  pub name : Bytes
  pub kind : PermissionOptionKind

pub record PermissionOutcome : Type 0 where
  pub outcome : Bytes
  pub option_id : Bytes

unfoldable pub permission_selected : (option_id : Bytes) → PermissionOutcome
permission_selected option_id = record { outcome = codes "selected"; option_id = option_id }

unfoldable pub permission_cancelled : PermissionOutcome
permission_cancelled = record { outcome = codes "cancelled"; option_id = [] }

-- The loop of outcomeIsAllowed.
unfoldable pub option_is_allowed : (option_id : Bytes) → List PermissionOption → Bool
option_is_allowed option_id [] = false
option_is_allowed option_id (opt ∷ options) =
    let rest = option_is_allowed option_id options in
    if bytes_eq opt.option_id option_id then is_allow opt.kind else rest

unfoldable pub outcome_is_allowed : PermissionOutcome → List PermissionOption → Bool
outcome_is_allowed outcome options =
    if not (bytes_eq outcome.outcome (codes "selected"))
    then false
    else option_is_allowed outcome.option_id options

pub data ToolKind : Type 0 where
  read_kind edit_kind search_kind execute_kind fetch_kind other_kind : ToolKind

unfoldable pub tool_kind_from_name : Bytes → ToolKind
tool_kind_from_name tool_name =
    if bytes_eq tool_name (codes "read_file")
    then read_kind
    else if bytes_eq tool_name (codes "list_files")
    then search_kind
    else if bytes_eq tool_name (codes "write_file")
    then edit_kind
    else if bytes_eq tool_name (codes "edit_file")
    then edit_kind
    else if bytes_eq tool_name (codes "web_fetch")
    then fetch_kind
    else if bytes_eq tool_name (codes "run_command")
    then execute_kind
    else other_kind

pub data ToolCallStatus : Type 0 where
  pending in_progress completed failed : ToolCallStatus

pub record SlashCommand : Type 0 where
  pub name : Bytes
  pub description : Bytes

-- The payloads of a session/update notification. A finished call has its text as content and, under
-- the key "content" or "error", as raw output.
pub data Update : Type 0 where
  agent_message_chunk agent_thought_chunk : (text : Bytes) → Update
  tool_call_start : (id title : Bytes) → ToolKind → (raw_input : Option Fields) → Update
  tool_call_progress : (id : Bytes) → ToolCallStatus → Update
  tool_call_output : (id : Bytes) → ToolCallStatus → (content : Bytes) → (key : Bytes) → Update
  available_commands : List SlashCommand → Update

pub record PermissionRequest : Type 0 where
  pub session_id : Bytes
  pub tool_call_id : Bytes
  pub title : Bytes
  pub kind : ToolKind
  pub status : ToolCallStatus
  pub raw_input : Option Fields
  pub preview : Option Json
  pub options : List PermissionOption
