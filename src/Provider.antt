-- ===== src/Provider.antt =====
-- What internal/provider does with the messages before it sends them: normalize.go merges
-- neighbours of one role, validator.go refuses a sequence that the model could not read.
pub mod Normalized
pub mod Totals
pub mod Roles
pub mod Answered
mod Tests
use kontekst.Prelude.Int.{ℤ, ◌+ℤ◌}
use kontekst.Prelude.{
  ℕ, suc, ◌-◌, Bool, true, false, not, ◌&&◌, ◌||◌, List, [], ◌∷◌, ◌++◌, Option, none, some, Bytes,
  if◌then◌else◌,
}
use kontekst.Core.{
  Role, system, user, assistant, tool, other, role_eq, Message, is_empty, is_some, has_any,
}

unfoldable pub effective_role : Message → (use_tool_role : Bool) → Role
effective_role msg use_tool_role =
    if not use_tool_role && is_some msg.tool_result then user else msg.role

unfoldable pub should_merge : (current previous : Message) → (use_tool_role : Bool) → Bool
should_merge current previous use_tool_role =
    let current_role = effective_role current use_tool_role in
    let previous_role = effective_role previous use_tool_role in
    if use_tool_role && role_eq current_role tool then false else role_eq current_role previous_role

-- "\n\n---\n\n"
abbrev pub separator : Bytes
separator = 10 ∷ 10 ∷ 45 ∷ 45 ∷ 45 ∷ 10 ∷ 10 ∷ []

unfoldable pub merge_content : Bytes → Bytes → Bytes
merge_content target source =
    if not (is_empty target) && not (is_empty source)
    then target ++ (separator ++ source)
    else target ++ source

-- The target, changed as mergeMessages changes it.
unfoldable pub merge_messages : (target source : Message) → Message
merge_messages target source = record {
  role = target.role;
  content = merge_content target.content source.content;
  tool_calls =
      if has_any source.tool_calls
      then target.tool_calls ++ source.tool_calls
      else target.tool_calls;
  tool_result = target.tool_result;
  agent_name = target.agent_name;
  tokens = target.tokens +ℤ source.tokens;
}

-- The loop over the messages that are left; `previous` is the last message of the result.
unfoldable pub normalize_from : (previous : Message) → List Message → Bool → List Message
normalize_from previous [] use_tool_role = previous ∷ []
normalize_from previous (current ∷ messages) use_tool_role =
    let merged = normalize_from (merge_messages previous current) messages use_tool_role in
    let kept = normalize_from current messages use_tool_role in
    if should_merge current previous use_tool_role then merged else previous ∷ kept

unfoldable pub normalize_messages : List Message → (use_tool_role : Bool) → List Message
normalize_messages [] use_tool_role = []
normalize_messages (m ∷ []) use_tool_role = m ∷ []
normalize_messages (m ∷ (n ∷ ms)) use_tool_role = normalize_from m (n ∷ ms) use_tool_role

pub data RoleError : Type 0 where
  first_not_system : Role → RoleError
  consecutive : Role → (earlier later : ℕ) → RoleError
  result_without_calls : (index : ℕ) → RoleError

-- A message that carries the result of a tool.
unfoldable pub is_result : Message → Bool
is_result msg = role_eq msg.role tool || is_some msg.tool_result

unfoldable pub asks_tools : Message → Bool
asks_tools msg = role_eq msg.role assistant && has_any msg.tool_calls

-- The loop of validateRoleAlternation from message `i` on.
unfoldable pub validate_roles_from :
    (i : ℕ)
    → (prev_role : Role) → (expecting_tool_result : Bool) → List Message
    → Bool
    → Option RoleError
validate_roles_from i prev_role expecting_tool_result [] use_tool_role = none
validate_roles_from i prev_role expecting_tool_result (msg ∷ messages) use_tool_role =
    let actual_role = effective_role msg use_tool_role in
    let expecting = asks_tools msg || is_result msg in
    let rest = validate_roles_from (suc i) actual_role expecting messages use_tool_role in
    if role_eq actual_role prev_role && not (role_eq actual_role tool)
    then some (consecutive actual_role (i - 1) i)
    else if is_result msg && not expecting_tool_result
    then some (result_without_calls i)
    else rest

-- The zero value of a Role is the empty string.
unfoldable pub validate_role_alternation : List Message → (use_tool_role : Bool) → Option RoleError
validate_role_alternation [] use_tool_role = none
validate_role_alternation (m ∷ ms) use_tool_role =
    if not (role_eq m.role system)
    then some (first_not_system m.role)
    else validate_roles_from 1 (other []) false ms use_tool_role
