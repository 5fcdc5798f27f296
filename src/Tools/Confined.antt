-- ===== src/Tools/Confined.antt =====
-- Where the tools of internal/tool/builtin change files: below the directory that a call works in.
use kontekst.Prelude.{
  ℕ, ◌≡◌, refl, sym, subst, true, ◌&&◌, List, [], ◌∷◌, Option, none, some, Bytes, codes, length,
  ltb, if_ind, if◌then◌else◌,
}
use kontekst.Core.{Json, Fields, is_empty}
use kontekst.Diff.Split.{split_lines, assemble_content}
use kontekst.Paths.{
  is_relative_path_safe, join_path, get_string_arg, ValidPath, valid, refused, validate_path,
  lookup, missing_path, unsafe_path,
}
use kontekst.EditFile.{Edit, EditError, Applied, done, failed, panic, validate_edits, apply_edits}
use kontekst.EditFile.Arguments.{Parsed, parsed, invalid, parse_edits}
use kontekst.EditFile.Tool.{
  Stored, missing, unreadable, file, WriteFailure, put_file, FileStore, FileTool, EditPlan, Outcome,
  ok, fails, applied_plan, checked_plan, stored_plan, plan_edits, edits_plan, path_plan,
  prepare_edits, resolve_base_dir, write_file, written, write_plan, execute,
}
use kontekst.FileTools.Write.{
  DirectoryFailure, make_directories, WriteOutcome, write_at, write_content, write_path,
  execute_write,
}
use kontekst.Tools.Below.{
  Confined, same-Confined, Confined-trans, joined-Below, put_file-Confined,
  make_directories-Confined,
}

-- A path that validatePath lets pass is safe.
abbrev SafePath : ValidPath → Type 0
SafePath (valid path) = is_relative_path_safe path ≡ true
SafePath (refused e) = Unit

validate_path-SafePath : (args : Fields) → SafePath (validate_path args)
unfolding validate_path
validate_path-SafePath args = checked (get_string_arg (codes "path") args)
  where
    checked :
        (found : Option Bytes)
        → SafePath (elim found [
          | none ↦ refused missing_path
          | some path ↦
              if is_empty path
              then refused missing_path
              else if is_relative_path_safe path
              then valid path
              else refused unsafe_path
        ])
    checked none = tt
    checked (some path) =
        if_ind SafePath (is_empty path) (λ _. tt)
          (λ _. if_ind SafePath (is_relative_path_safe path) (λ safe. safe) (λ _. tt))

-- The plan of an edit is for a safe path in the directory.
abbrev PlansBelow : (base : Bytes) → Outcome EditPlan → Type 0
PlansBelow base (fails e) = Unit
PlansBelow base (ok plan) =
    (path : Bytes) × (is_relative_path_safe path ≡ true) × (plan.full_path ≡ join_path base path)

module _ (tool : FileTool) (working_dir : Bytes) (store : FileStore) (args : Fields) where
  abbrev base : Bytes
  base = resolve_base_dir working_dir tool.base_dir

  stored_plan-PlansBelow :
      (path : Bytes) (edits : List Edit) (stored : Stored)
      → is_relative_path_safe path ≡ true
      → PlansBelow base (stored_plan path (join_path base path) edits stored)
  unfolding stored_plan checked_plan applied_plan
  stored_plan-PlansBelow path edits missing safe = tt
  stored_plan-PlansBelow path edits (unreadable e) safe = tt
  stored_plan-PlansBelow path edits (file bytes) safe =
      checked (validate_edits (split_lines bytes) edits)
    where
      applied :
          (out : Applied)
          → PlansBelow base (applied_plan path (join_path base path) edits bytes out)
      applied (failed e) = tt
      applied panic = tt
      applied (done lines) = (path, safe, refl)

      checked :
          (error : Option EditError)
          → PlansBelow base (checked_plan path (join_path base path) edits bytes error)
      checked (some e) = tt
      checked none = applied (apply_edits (split_lines bytes) edits)

  path_plan-PlansBelow :
      (path : ValidPath)
      → SafePath path
      → PlansBelow base (path_plan tool working_dir store args path)
  unfolding path_plan edits_plan plan_edits
  path_plan-PlansBelow (refused e) safe = tt
  path_plan-PlansBelow (valid path) safe = found (lookup (codes "edits") args)
    where
      planned :
          (edits : Parsed (List Edit))
          → PlansBelow base (plan_edits tool working_dir store path edits)
      planned (invalid e) = tt
      planned (parsed []) = tt
      planned (parsed (e ∷ es)) =
          stored_plan-PlansBelow path (e ∷ es) (store.at (join_path base path)) safe

      found : (edits : Option Json) → PlansBelow base (edits_plan tool working_dir store path edits)
      found none = tt
      found (some edits) = planned (parse_edits edits)

  write_plan-Confined :
      (plan : Outcome EditPlan)
      → PlansBelow base plan
      → Confined base store (write_plan tool store plan).1
  unfolding write_plan written
  write_plan-Confined (fails e) below = same-Confined base store
  write_plan-Confined (ok plan) (path, safe, at) =
      let content = assemble_content plan.new_lines plan.trailing_newline in
      if_ind (λ (out : Outcome ℕ × FileStore). Confined base store out.1)
        (ltb 0 tool.max_size_bytes && ltb tool.max_size_bytes (length content))
        (λ _. same-Confined base store) (λ _. saved content (store.write_error plan.full_path))
    where
      saved :
          (content : Bytes) (error : Option WriteFailure)
          → Confined base store (written plan content store error).1
      saved content (some failure) =
          subst (λ (p : Bytes). Confined base store (put_file p failure.left store)) (sym at)
            (put_file-Confined base path failure.left store safe)
      saved content none =
          subst (λ (p : Bytes). Confined base store (write_file p content store)) (sym at)
            (put_file-Confined base path (file content) store safe)

  -- edit_file
  pub execute-Confined : Confined base store (execute tool working_dir store args).1
  unfolding execute prepare_edits
  execute-Confined =
      write_plan-Confined (path_plan tool working_dir store args (validate_path args))
        (path_plan-PlansBelow (validate_path args) (validate_path-SafePath args))

  module _ (mkdir : Bytes → Option DirectoryFailure) where
    made-Confined :
        (path : Bytes) (stored : Stored)
        → is_relative_path_safe path ≡ true
        → Confined base store (
            put_file
              (join_path base path)
              stored
              (make_directories (λ p. true) (join_path base path) store))
    made-Confined path stored safe =
        let dirs = make_directories (λ p. true) (join_path base path) store in
        Confined-trans base store dirs (put_file (join_path base path) stored dirs)
          (make_directories-Confined base (join_path base path) (λ p. true) store
            (joined-Below base path safe))
          (put_file-Confined base path stored dirs safe)

    write_at-Confined :
        (path content : Bytes) (directory_error : Option DirectoryFailure)
        (write_error : Option WriteFailure)
        → is_relative_path_safe path ≡ true
        → Confined base store
            (write_at (join_path base path) content store directory_error write_error).1
    unfolding write_at
    write_at-Confined path content (some failure) write_error safe =
        make_directories-Confined base (join_path base path) failure.made store
          (joined-Below base path safe)
    write_at-Confined path content none (some failure) safe = made-Confined path failure.left safe
    write_at-Confined path content none none safe = made-Confined path (file content) safe

    write_content-Confined :
        (path : Bytes) (content : Option Bytes)
        → is_relative_path_safe path ≡ true
        → Confined base store (write_content mkdir tool working_dir store path content).1
    unfolding write_content
    write_content-Confined path none safe = same-Confined base store
    write_content-Confined path (some content) safe =
        if_ind (λ (out : WriteOutcome × FileStore). Confined base store out.1)
          (ltb 0 tool.max_size_bytes && ltb tool.max_size_bytes (length content))
          (λ _. same-Confined base store)
          (λ _.
            write_at-Confined path content (mkdir (join_path base path))
              (store.write_error (join_path base path)) safe)

    -- write_file
    pub execute_write-Confined :
        Confined base store (execute_write mkdir tool working_dir store args).1
    unfolding execute_write write_path
    execute_write-Confined = written_path (validate_path args) (validate_path-SafePath args)
      where
        written_path :
            (path : ValidPath)
            → SafePath path
            → Confined base store (write_path mkdir tool working_dir store args path).1
        written_path (refused e) safe = same-Confined base store
        written_path (valid path) safe =
            write_content-Confined path (get_string_arg (codes "content") args) safe
