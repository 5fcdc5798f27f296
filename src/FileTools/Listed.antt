-- ===== src/FileTools/Listed.antt =====
-- The list_files tool, internal/tool/builtin/list_files.go. Matching a pattern in the file system, and
-- paths relative to a directory, are parameters.
use kontekst.Prelude.{Bool, List, [], ◌∷◌, Option, none, some, Bytes, codes, if◌then◌else◌}
use kontekst.Prelude.Strings.{join_with}
use kontekst.Core.{Fields}
use kontekst.Paths.{get_string_arg, is_relative_path_safe, join_path}
use kontekst.EditFile.Tool.{resolve_base_dir}
use kontekst.Agent.Types.{Reply, reply, error}

-- filepath.Glob, os.Stat with whether the path is a directory, and filepath.Rel.
pub record Globs : Type 0 where
  pub glob : Bytes → Reply (List Bytes)
  pub is_dir : Bytes → Option Bool
  pub relative : (base path : Bytes) → Bytes

module _ (globs : Globs) (base_dir : Bytes) where
  -- A match that is gone, or a directory, is left out.
  unfoldable pub listed : Option Bool → (path : Bytes) → List Bytes → List Bytes
  listed none path out = out
  listed (some is_dir) path out = if is_dir then out else globs.relative base_dir path ∷ out

  unfoldable pub list_matches : List Bytes → List Bytes
  list_matches [] = []
  list_matches (m ∷ matches) = listed (globs.is_dir m) m (list_matches matches)

  unfoldable pub list_matched : Reply (List Bytes) → Reply Bytes
  list_matched (error e) = error e
  list_matched (reply matches) = reply (join_with (10 ∷ []) (list_matches matches))

unfoldable pub list_pattern : Globs → (base_dir : Bytes) → Option Bytes → Reply Bytes
list_pattern globs base_dir none = error (codes "missing pattern")
list_pattern globs base_dir (some pattern) =
    if is_relative_path_safe pattern
    then list_matched globs base_dir (globs.glob (join_path base_dir pattern))
    else error (codes "absolute or parent paths are not allowed")

-- Execute of list_files.
unfoldable pub list_files : Globs → (base_dir working_dir : Bytes) → Fields → Reply Bytes
list_files globs base_dir working_dir args =
    list_pattern globs (resolve_base_dir working_dir base_dir)
      (get_string_arg (codes "pattern") args)
