-- ===== src/EditFile/Tool.antt =====
-- The tool over a store of files: prepareEdits, PreviewStructured and Execute of
-- internal/tool/builtin/edit_file.go.
use kontekst.Prelude.{
  ℕ, Bool, ◌&&◌, List, [], ◌∷◌, Option, none, some, Bytes, bytes_eq, codes, length, ltb,
  if◌then◌else◌,
}
use kontekst.Core.{Json, Fields, is_empty}
use kontekst.Diff.Lcs.{Lines}
use kontekst.Diff.Split.{split_lines, assemble_content, ends_in_newline}
use kontekst.Diff.Structured.{DiffPreview, generate_structured_diff_with_hashes}
use kontekst.Hashline.{generate_hash_map}
use kontekst.Paths.{PathError, ValidPath, valid, refused, validate_path, lookup, join_path}
use kontekst.EditFile.{Edit, EditError, Applied, done, failed, panic, validate_edits, apply_edits}
use kontekst.EditFile.Arguments.{ArgumentError, Parsed, parsed, invalid, parse_edits}

-- What a path of the store holds; `unreadable` and `unwritable` are errors of the system.
pub data Stored : Type 0 where
  missing : Stored
  unreadable : Bytes → Stored
  file : Bytes → Stored

-- The error of an os.WriteFile that failed, and what the path holds then: what it held, a part of the
-- new bytes, or nothing.
pub record WriteFailure : Type 0 where
  pub error : Bytes
  pub left : Stored

pub record FileStore : Type 0 where
  pub at : Bytes → Stored
  pub write_error : Bytes → Option WriteFailure

pub record FileTool : Type 0 where
  pub base_dir : Bytes
  pub max_size_bytes : ℕ

pub record EditPlan : Type 0 where
  pub path : Bytes
  pub full_path : Bytes
  pub old_lines : Lines
  pub new_lines : Lines
  pub edits : List Edit
  pub trailing_newline : Bool

pub data ToolError : Type 0 where
  bad_path : PathError → ToolError
  missing_edits no_edits : ToolError
  bad_argument : ArgumentError → ToolError
  no_file : (path : Bytes) → ToolError
  read_failed write_failed : (error : Bytes) → ToolError
  bad_edit : EditError → ToolError
  crashed : ToolError
  too_large : (max_size : ℕ) → ToolError

pub data Outcome (A : Type 0) : Type 0 where
  ok : A → Outcome A
  fails : ToolError → Outcome A

-- Behind applyEdits.
unfoldable pub applied_plan :
    (path full_path : Bytes) → List Edit → (bytes : Bytes) → Applied → Outcome EditPlan
applied_plan path full_path edits bytes (failed error) = fails (bad_edit error)
applied_plan path full_path edits bytes panic = fails crashed
applied_plan path full_path edits bytes (done new_lines) = ok (record {
  path = path;
  full_path = full_path;
  old_lines = split_lines bytes;
  new_lines = new_lines;
  edits = edits;
  trailing_newline = ends_in_newline bytes;
})

-- Behind validateEdits.
unfoldable pub checked_plan :
    (path full_path : Bytes) → List Edit → (bytes : Bytes) → Option EditError → Outcome EditPlan
checked_plan path full_path edits bytes (some error) = fails (bad_edit error)
checked_plan path full_path edits bytes none =
    applied_plan path full_path edits bytes (apply_edits (split_lines bytes) edits)

-- Behind reading the file.
unfoldable pub stored_plan : (path full_path : Bytes) → List Edit → Stored → Outcome EditPlan
stored_plan path full_path edits missing = fails (no_file path)
stored_plan path full_path edits (unreadable error) = fails (read_failed error)
stored_plan path full_path edits (file bytes) =
    checked_plan path full_path edits bytes (validate_edits (split_lines bytes) edits)

-- The working directory of the call, or the base directory of the tool.
abbrev pub resolve_base_dir : (working_dir fallback : Bytes) → Bytes
resolve_base_dir working_dir fallback = if is_empty working_dir then fallback else working_dir

unfoldable pub plan_edits :
    FileTool
    → (working_dir : Bytes) → FileStore
    → (path : Bytes) → Parsed (List Edit)
    → Outcome EditPlan
plan_edits tool working_dir store path (invalid error) = fails (bad_argument error)
plan_edits tool working_dir store path (parsed []) = fails no_edits
plan_edits tool working_dir store path (parsed (e ∷ es)) =
    let full_path = join_path (resolve_base_dir working_dir tool.base_dir) path in
    stored_plan path full_path (e ∷ es) (store.at full_path)

-- Behind the lookup of the edits.
unfoldable pub edits_plan :
    FileTool → (working_dir : Bytes) → FileStore → (path : Bytes) → Option Json → Outcome EditPlan
edits_plan tool working_dir store path none = fails missing_edits
edits_plan tool working_dir store path (some edits) =
    plan_edits tool working_dir store path (parse_edits edits)

-- Behind the check of the path.
unfoldable pub path_plan :
    FileTool → (working_dir : Bytes) → FileStore → Fields → ValidPath → Outcome EditPlan
path_plan tool working_dir store args (refused error) = fails (bad_path error)
path_plan tool working_dir store args (valid path) =
    edits_plan tool working_dir store path (lookup (codes "edits") args)

unfoldable pub prepare_edits :
    FileTool → (working_dir : Bytes) → FileStore → Fields → Outcome EditPlan
prepare_edits tool working_dir store args =
    path_plan tool working_dir store args (validate_path args)

-- PreviewStructured, but for the counts of the operations in its summary.
unfoldable pub preview_of : EditPlan → DiffPreview
preview_of plan =
    generate_structured_diff_with_hashes plan.path
      (assemble_content plan.old_lines plan.trailing_newline)
      (assemble_content plan.new_lines plan.trailing_newline) (generate_hash_map plan.old_lines)
      (generate_hash_map plan.new_lines)

unfoldable pub put_file : Bytes → Stored → FileStore → FileStore
put_file path stored store = record {
  at = λ p. if bytes_eq p path then stored else store.at p;
  write_error = store.write_error;
}

abbrev pub write_file : Bytes → Bytes → FileStore → FileStore
write_file path bytes store = put_file path (file bytes) store

-- Behind the check of the size, with what os.WriteFile returns.
unfoldable pub written :
    EditPlan → (new_content : Bytes) → FileStore → Option WriteFailure → Outcome ℕ × FileStore
written plan new_content store (some failure) =
    (fails (write_failed failure.error), put_file plan.full_path failure.left store)
written plan new_content store none =
    (ok (length plan.edits), write_file plan.full_path new_content store)

-- Execute behind prepareEdits: the number of edits, or an error, and the store behind it.
unfoldable pub write_plan : FileTool → FileStore → Outcome EditPlan → Outcome ℕ × FileStore
write_plan tool store (fails error) = (fails error, store)
write_plan tool store (ok plan) =
    let new_content = assemble_content plan.new_lines plan.trailing_newline in
    if ltb 0 tool.max_size_bytes && ltb tool.max_size_bytes (length new_content)
    then (fails (too_large tool.max_size_bytes), store)
    else written plan new_content store (store.write_error plan.full_path)

unfoldable pub execute :
    FileTool → (working_dir : Bytes) → FileStore → Fields → Outcome ℕ × FileStore
execute tool working_dir store args =
    write_plan tool store (prepare_edits tool working_dir store args)
