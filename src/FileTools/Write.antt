-- ===== src/FileTools/Write.antt =====
-- The write_file tool, internal/tool/builtin/write_file.go, over a store of files.
use kontekst.Prelude.Strings.{has_prefix}
use kontekst.Prelude.{
  ℕ, Bool, true, not, ◌&&◌, ◌++◌, ◌∷◌, Option, none, some, Bytes, codes, length, ltb, [],
  if◌then◌else◌,
}
use kontekst.Core.{Fields, is_empty}
use kontekst.Diff.Text.{generate_new_file_diff, generate_unified_diff}
use kontekst.Paths.{PathError, ValidPath, valid, refused, validate_path, get_string_arg, join_path}
use kontekst.EditFile.Tool.{
  Stored, missing, unreadable, file, WriteFailure, FileStore, FileTool, resolve_base_dir, put_file,
  write_file,
}

abbrev pub max_preview_lines : ℕ
max_preview_lines = 50

pub data WriteError : Type 0 where
  bad_path : PathError → WriteError
  missing_content : WriteError
  too_large : (max_size : ℕ) → WriteError
  directory_failed write_failed : (error : Bytes) → WriteError

-- The number of bytes that were written, or an error.
pub data WriteOutcome : Type 0 where
  wrote : (count : ℕ) → WriteOutcome
  fails : WriteError → WriteOutcome

unfoldable pub preview_stored : (path content : Bytes) → Stored → Bytes
preview_stored path content missing = generate_new_file_diff path content max_preview_lines
preview_stored path content (unreadable e) = []
preview_stored path content (file existing) = generate_unified_diff path existing content

unfoldable pub preview_content : (full_path path : Bytes) → FileStore → Option Bytes → Bytes
preview_content full_path path store none = []
preview_content full_path path store (some content) =
    preview_stored path content (store.at full_path)

unfoldable pub preview_path :
    FileTool → (working_dir : Bytes) → FileStore → Fields → ValidPath → Bytes
preview_path tool working_dir store args (refused e) = []
preview_path tool working_dir store args (valid path) =
    preview_content (join_path (resolve_base_dir working_dir tool.base_dir) path) path store
      (get_string_arg (codes "content") args)

-- Preview, whose error is always nil.
unfoldable pub preview_write : FileTool → (working_dir : Bytes) → FileStore → Fields → Bytes
preview_write tool working_dir store args =
    preview_path tool working_dir store args (validate_path args)

-- The error of an os.MkdirAll that failed, and which directories it made before.
pub record DirectoryFailure : Type 0 where
  pub error : Bytes
  pub made : Bytes → Bool

-- A directory is not read as a file.
abbrev pub directory : Stored
directory = unreadable (codes "is a directory")

abbrev pub as_directory : Stored → Stored
as_directory missing = directory
as_directory (unreadable e) = unreadable e
as_directory (file bytes) = file bytes

-- The path is a directory in front of the other one.
unfoldable pub leads_to : (path full_path : Bytes) → Bool
leads_to path full_path = not (is_empty path) && has_prefix (path ++ (47 ∷ [])) full_path

-- The directories in front of the path that were missing are there, as far as they were made.
unfoldable pub make_directories :
    (made : Bytes → Bool) → (full_path : Bytes) → FileStore → FileStore
make_directories made full_path store = record {
  at = λ p. if leads_to p full_path && made p then as_directory (store.at p) else store.at p;
  write_error = store.write_error;
}

-- os.MkdirAll and os.WriteFile.
unfoldable pub write_at :
    (full_path content : Bytes)
    → FileStore
    → Option DirectoryFailure
    → Option WriteFailure
    → WriteOutcome × FileStore
write_at full_path content store (some failure) write_error =
    (fails (directory_failed failure.error), make_directories failure.made full_path store)
write_at full_path content store none (some failure) = (
  fails (write_failed failure.error),
  put_file full_path failure.left (make_directories (λ p. true) full_path store),
)
write_at full_path content store none none = (
  wrote (length content),
  write_file full_path content (make_directories (λ p. true) full_path store),
)

-- `mkdir` is whether os.MkdirAll fails for the directory of a path.
module _ (mkdir : (full_path : Bytes) → Option DirectoryFailure) (tool : FileTool)
    (working_dir : Bytes) (store : FileStore) where
  unfoldable pub write_content : (path : Bytes) → Option Bytes → WriteOutcome × FileStore
  write_content path none = (fails missing_content, store)
  write_content path (some content) =
      let full_path = join_path (resolve_base_dir working_dir tool.base_dir) path in
      if ltb 0 tool.max_size_bytes && ltb tool.max_size_bytes (length content)
      then (fails (too_large tool.max_size_bytes), store)
      else write_at full_path content store (mkdir full_path) (store.write_error full_path)

  unfoldable pub write_path : Fields → ValidPath → WriteOutcome × FileStore
  write_path args (refused e) = (fails (bad_path e), store)
  write_path args (valid path) = write_content path (get_string_arg (codes "content") args)

  -- Execute of write_file.
  unfoldable pub execute_write : Fields → WriteOutcome × FileStore
  execute_write args = write_path args (validate_path args)
