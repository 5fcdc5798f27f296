-- ===== src/Tools/Skill.antt =====
-- The skill tool, internal/tool/builtin/skill.go, on the state `C` of a conversation.
use kontekst.Prelude.Int.{pos}
use kontekst.Prelude.{[], ◌++◌, Option, none, some, Bytes, codes, if◌then◌else◌}
use kontekst.Core.{user, Message, Fields, SkillMetadata, is_empty}
use kontekst.Paths.{get_string_arg}
use kontekst.Agent.Types.{Reply, reply, error}
use kontekst.Skill.Render.{Skill, render, format_content}
use kontekst.Skill.Registry.{Skills, get_skill}
use kontekst.Tools.Registry.{SkillCallbacks, ToolContext}

-- An argument that is missing, or no text, is empty.
unfoldable pub text_or_empty : Option Bytes → Bytes
text_or_empty none = []
text_or_empty (some s) = s

unfoldable pub skill_message : Skill → (arguments : Bytes) → Message
skill_message skill arguments = record {
  role = user;
  content = format_content skill (render skill arguments);
  tool_calls = [];
  tool_result = none;
  agent_name = [];
  tokens = pos 0;
}

module _ {C : Type 0} where
  unfoldable pub make_active : Option (SkillMetadata → C → C) → Skill → C → C
  make_active none skill c = c
  make_active (some set_active_skill) skill c =
      set_active_skill (record { name = skill.name; path = skill.path }) c

  unfoldable pub injected : (name : Bytes) → Option Bytes × C → Reply Bytes × C
  injected name (some e, c) = (error (codes "failed to inject skill content: " ++ e), c)
  injected name (none, c) = (
    reply (
        codes "Skill '"
        ++ (name ++ codes "' loaded. Follow the instructions in the message above.")),
    c,
  )

  unfoldable pub inject_skill :
      (name arguments : Bytes) → Skill → Option (SkillCallbacks C) → C → Reply Bytes × C
  inject_skill name arguments skill none c =
      (error (codes "skill execution not supported in this context"), c)
  inject_skill name arguments skill (some callbacks) c = injected name (
      callbacks.context_injector (skill_message skill arguments)
        (make_active callbacks.set_active_skill skill c))

  unfoldable pub use_skill :
      (name arguments : Bytes) → Option Skill → Option (SkillCallbacks C) → C → Reply Bytes × C
  use_skill name arguments none callbacks c = (error (codes "skill not found: " ++ name), c)
  use_skill name arguments (some skill) callbacks c =
      if skill.disable_model_invocation
      then (
        error (codes "skill '" ++ (name ++ (codes "' can only be invoked by user with /" ++ name))),
        c,
      )
      else inject_skill name arguments skill callbacks c

  -- Execute of the skill tool; rendering never fails.
  unfoldable pub execute_skill : Skills → Fields → ToolContext C → C → Reply Bytes × C
  execute_skill skills args ctx c =
      let name = text_or_empty (get_string_arg (codes "name") args) in
      let arguments = text_or_empty (get_string_arg (codes "arguments") args) in
      if is_empty name
      then (error (codes "skill name is required"), c)
      else use_skill name arguments (get_skill name skills) ctx.callbacks c
