-- ===== src/Skill/Loader.antt =====
-- The file of a skill, internal/skill/loader.go. The TOML library is a parameter.
use kontekst.Prelude.{
  Bool, true, false, List, [], ◌∷◌, ◌++◌, Option, none, some, Bytes, codes, bytes_eq, reverse, ◌==◌,
  if◌then◌else◌,
}
use kontekst.Prelude.Strings.{trim_space, has_prefix, trim_prefix, cut_at}
use kontekst.Core.{is_empty}
use kontekst.Paths.{parts_of, clean_parts, join_parts}
use kontekst.EditFile.Tool.{Stored, missing, unreadable, file, FileStore}
use kontekst.Skill.Render.{Skill}

pub record SkillFrontmatter : Type 0 where
  pub name : Bytes
  pub description : Bytes
  pub disable_model_invocation : Bool
  pub user_invocable : Option Bool

-- A value, or the text of an error.
pub data Loaded (A : Type 0) : Type 0 where
  loaded : A → Loaded A
  failed : (error : Bytes) → Loaded A

abbrev pub fence : Bytes
fence = codes "+++"

-- parseFrontmatter
unfoldable pub split_fenced : (content : Bytes) → Option (Bytes × Bytes) → Bytes × Bytes
split_fenced content none = ([], content)
split_fenced content (some (before, found)) = (trim_space before, trim_prefix (10 ∷ fence) found)

unfoldable pub parse_frontmatter : Bytes → Bytes × Bytes
parse_frontmatter content =
    let trimmed = trim_space content in
    if has_prefix fence trimmed
    then split_fenced trimmed (cut_at (10 ∷ fence) (trim_prefix fence trimmed))
    else ([], trimmed)

-- The name of a file without its directory, filepath.Base of a path that ends in no slash.
unfoldable pub last_part : List Bytes → Bytes
last_part [] = []
last_part (p ∷ []) = p
last_part (p ∷ (q ∷ parts)) = last_part (q ∷ parts)

unfoldable pub without_last : List Bytes → List Bytes
without_last [] = []
without_last (p ∷ []) = []
without_last (p ∷ (q ∷ parts)) = p ∷ without_last (q ∷ parts)

-- A file name, read from its end, without its extension: what is behind the first dot.
unfoldable pub drop_extension : (reversed whole : Bytes) → Bytes
drop_extension [] whole = whole
drop_extension (c ∷ s) whole = let rest = drop_extension s whole in if c == 46 then s else rest

-- filepath.Dir of a rooted path of at least one part.
unfoldable pub directory_of : Bytes → Bytes
directory_of path = 47 ∷ join_parts (reverse (clean_parts true (without_last (parts_of path)) []))

unfoldable pub derive_name_from_path : Bytes → Bytes
derive_name_from_path path =
    let base = last_part (parts_of path) in
    if bytes_eq base (codes "SKILL.md")
    then last_part (without_last (parts_of path))
    else reverse (drop_extension (reverse base) (reverse base))

abbrev pub zero_frontmatter : SkillFrontmatter
zero_frontmatter = record {
  name = [];
  description = [];
  disable_model_invocation = false;
  user_invocable = none;
}

unfoldable pub skill_of : (path body : Bytes) → SkillFrontmatter → Skill
skill_of path body fm = record {
  name = if is_empty fm.name then derive_name_from_path path else fm.name;
  description = fm.description;
  content = trim_space body;
  path = directory_of path;
  disable_model_invocation = fm.disable_model_invocation;
  user_invocable = elim fm.user_invocable [ none ↦ true | some b ↦ b ];
}

module _ (unmarshal_toml : Bytes → Loaded SkillFrontmatter) where
  unfoldable pub with_frontmatter : (path body : Bytes) → Loaded SkillFrontmatter → Loaded Skill
  with_frontmatter path body (failed e) = failed (codes "parse skill frontmatter: " ++ e)
  with_frontmatter path body (loaded fm) = loaded (skill_of path body fm)

  unfoldable pub load_skill_data : (path : Bytes) → Bytes × Bytes → Loaded Skill
  load_skill_data path (frontmatter, body) =
      with_frontmatter path body
        (if is_empty frontmatter then loaded zero_frontmatter else unmarshal_toml frontmatter)

  unfoldable pub load_stored : (path : Bytes) → Stored → Loaded Skill
  load_stored path missing =
      failed (codes "read skill: open " ++ (path ++ codes ": no such file or directory"))
  load_stored path (unreadable e) = failed (codes "read skill: " ++ e)
  load_stored path (file bytes) = load_skill_data path (parse_frontmatter bytes)

  unfoldable pub load_skill_file : FileStore → (path : Bytes) → Loaded Skill
  load_skill_file store path = load_stored path (store.at path)
