-- ===== src/Tools/Registry.antt =====
-- The tools by name, internal/tool/tools.go. The map is read and changed with its lock held.
use kontekst.Prelude.{
  Bool, List, [], ◌∷◌, map, Option, none, some, Bytes, bytes_eq, codes, if◌then◌else◌,
}
use kontekst.Core.{Message, Fields, SkillMetadata}
use kontekst.Agent.Types.{Reply, reply, error}

-- What a skill does to the conversation of the agent that calls it, on a state `C`.
pub record SkillCallbacks (C : Type 0) : Type 0 where
  pub context_injector : Message → C → Option Bytes × C
  pub set_active_skill : Option (SkillMetadata → C → C)

-- What the context of a call carries: the empty directory is none.
pub record ToolContext (C : Type 0) : Type 0 where
  pub working_dir : Bytes
  pub callbacks : Option (SkillCallbacks C)

-- A tool over a state `S`, without its description and the schema of its parameters; `preview` is that
-- of a Previewer.
pub record Tool (C S : Type 0) : Type 0 where
  pub name : Bytes
  pub requires_approval : Bool
  pub execute : Fields → ToolContext C → S → Reply Bytes × S
  pub preview : Option (Fields → ToolContext C → S → Reply Bytes)

-- `map[string]Tool`: each tool stands under its own name, once, in the order in which a `range` visits
-- it.
abbrev pub ToolRegistry : (C S : Type 0) → Type 0
ToolRegistry C S = List (Tool C S)

module _ {C S : Type 0} where
  unfoldable pub add_tool : Tool C S → ToolRegistry C S → ToolRegistry C S
  add_tool added [] = added ∷ []
  add_tool added (t ∷ tools) =
      let rest = add_tool added tools in
      if bytes_eq t.name added.name then added ∷ tools else t ∷ rest

  unfoldable pub get_tool : (name : Bytes) → ToolRegistry C S → Option (Tool C S)
  get_tool name [] = none
  get_tool name (t ∷ tools) =
      let rest = get_tool name tools in if bytes_eq t.name name then some t else rest

  unfoldable pub execute_found : Option (Tool C S) → Fields → ToolContext C → S → Reply Bytes × S
  execute_found none args ctx s = (error (codes "tool not found"), s)
  execute_found (some t) args ctx s = t.execute args ctx s

  -- Execute
  unfoldable pub execute_tool :
      ToolRegistry C S → (name : Bytes) → Fields → ToolContext C → S → Reply Bytes × S
  execute_tool tools name args ctx s = execute_found (get_tool name tools) args ctx s

  unfoldable pub preview_by : Option (Tool C S) → Fields → ToolContext C → S → Reply Bytes
  preview_by none args ctx s = reply []
  preview_by (some t) args ctx s = elim t.preview [
    | none ↦ reply []
    | some preview ↦ preview args ctx s
  ]

  -- Preview
  unfoldable pub preview_tool :
      ToolRegistry C S → (name : Bytes) → Fields → ToolContext C → S → Reply Bytes
  preview_tool tools name args ctx s = preview_by (get_tool name tools) args ctx s

  -- The names of ToolDefinitions.
  unfoldable pub tool_names : ToolRegistry C S → List Bytes
  tool_names tools = map (λ (t : Tool C S). t.name) tools
