-- ===== src/Skill/Registry.antt =====
-- The skills by name, internal/skill/registry.go.
use kontekst.Prelude.{
  List, [], ◌∷◌, ◌++◌, Option, none, some, Bytes, codes, bytes_eq, if◌then◌else◌,
}
use kontekst.Prelude.Strings.{has_suffix}
use kontekst.Paths.{join_path}
use kontekst.EditFile.Tool.{FileStore}
use kontekst.Files.{Entry, Listing, no_directory, unlisted, entries, is_stored}
use kontekst.Skill.Render.{Skill}
use kontekst.Skill.Loader.{Loaded, loaded, failed, SkillFrontmatter, load_skill_file}

-- `map[string]*Skill`: each skill stands under its own name, once, in the order in which a `range`
-- visits it.
abbrev pub Skills : Type 0
Skills = List Skill

unfoldable pub put_skill : Skill → Skills → Skills
put_skill skill [] = skill ∷ []
put_skill skill (s ∷ skills) =
    let rest = put_skill skill skills in
    if bytes_eq s.name skill.name then skill ∷ skills else s ∷ rest

unfoldable pub get_skill : (name : Bytes) → Skills → Option Skill
get_skill name [] = none
get_skill name (s ∷ skills) =
    let rest = get_skill name skills in if bytes_eq s.name name then some s else rest

unfoldable pub model_invocable_skills : Skills → List Skill
model_invocable_skills [] = []
model_invocable_skills (s ∷ skills) =
    let rest = model_invocable_skills skills in
    if s.disable_model_invocation then rest else s ∷ rest

unfoldable pub skill_line : Skill → Bytes
skill_line s = codes "- " ++ (s.name ++ (codes ": " ++ (s.description ++ (10 ∷ []))))

unfoldable pub skill_lines : List Skill → Bytes
skill_lines [] = []
skill_lines (s ∷ skills) = skill_line s ++ skill_lines skills

unfoldable pub summaries : Skills → Bytes
summaries skills = skill_lines (model_invocable_skills skills)

-- A skill that does not load is passed over.
abbrev pub put_loaded : Loaded Skill → Skills → Skills
put_loaded (failed e) skills = skills
put_loaded (loaded skill) skills = put_skill skill skills

module _ (unmarshal_toml : Bytes → Loaded SkillFrontmatter) (store : FileStore)
    (skills_dir : Bytes) where
  unfoldable pub load_entry : Entry → Skills → Skills
  load_entry entry skills =
      let nested = join_path (join_path skills_dir entry.name) (codes "SKILL.md") in
      let plain = join_path skills_dir entry.name in
      if entry.is_dir
      then if is_stored (store.at nested)
        then put_loaded (load_skill_file unmarshal_toml store nested) skills
        else skills
      else if has_suffix (codes ".md") entry.name
      then put_loaded (load_skill_file unmarshal_toml store plain) skills
      else skills

  unfoldable pub load_entries : List Entry → Skills → Skills
  load_entries [] skills = skills
  load_entries (e ∷ es) skills = load_entries es (load_entry e skills)

  -- Load: an error leaves an empty map too.
  unfoldable pub load : Listing → Option Bytes × Skills
  load no_directory = (none, [])
  load (unlisted e) = (some e, [])
  load (entries es) = (none, load_entries es [])
