-- ===== src/EditFile/Execution.antt =====
-- What Execute of the tool does to the files.
use kontekst.Prelude.{
  ℕ, ◌≡◌, ◌≢◌, ◌⊎◌, inl, inr, ◌≤◌, ◌<◌, refl, sym, ap, ap₂, subst, Bool, false, ◌&&◌, List, [], ◌∷◌,
  Option, none, some, Bytes, codes, length, ltb, All, if_ind, arith,
}
use kontekst.Core.{Json, Fields}
use kontekst.Diff.Lcs.{Lines}
use kontekst.Diff.Split.{split_lines, assemble_content, ends_in_newline}
use kontekst.Paths.{ValidPath, valid, refused, validate_path, lookup, join_path}
use kontekst.EditFile.{Edit, EditError, Applied, validate_edits}
use kontekst.EditFile.Edited.{edited, IsKnown}
use kontekst.EditFile.Apply.{apply_edits-edited}
use kontekst.EditFile.Arguments.{Parsed, parsed, invalid, parse_edits}
use kontekst.EditFile.Tool.{
  Stored, missing, unreadable, file, WriteFailure, ToolError, write_failed, put_file, FileStore,
  FileTool, EditPlan, crashed, Outcome, ok, fails, applied_plan, checked_plan, stored_plan,
  plan_edits, edits_plan, path_plan, prepare_edits, resolve_base_dir, write_file, written,
  write_plan, execute,
}
use kontekst.EditFile.Known.{KnownEdits, parse_edits-IsKnown}

-- The plan is for the file and the edits that the call names.
abbrev pub Asked : FileTool → (working_dir : Bytes) → Fields → EditPlan → Type 0
Asked tool working_dir args plan =
    (path : Bytes) × (value : Json) × (validate_path args ≡ valid path)
    × (lookup (codes "edits") args ≡ some value)
    × (parse_edits value ≡ parsed plan.edits)
    × (plan.full_path ≡ join_path (resolve_base_dir working_dir tool.base_dir) path)

-- The new lines of the plan are those of the file, each changed as its edit says.
abbrev pub FromFile : FileStore → EditPlan → Type 0
FromFile store plan =
    (bytes : Bytes) × (store.at plan.full_path ≡ file bytes)
    × (plan.new_lines ≡ edited plan.edits 1 (split_lines bytes))
    × (plan.trailing_newline ≡ ends_in_newline bytes)

module _ (tool : FileTool) (working_dir : Bytes) (store : FileStore) (args : Fields) where
  abbrev Planned : Outcome EditPlan → Type 0
  Planned (ok plan) = Asked tool working_dir args plan × FromFile store plan
  Planned (fails error) = (error ≢ crashed)

  module _ (path : Bytes) (value : Json) (edits : List Edit)
      (named : validate_path args ≡ valid path) (given : lookup (codes "edits") args ≡ some value)
      (reads : parse_edits value ≡ parsed edits)
      (known : All (λ e. IsKnown e.operation) edits) where
    abbrev full_path : Bytes
    full_path = join_path (resolve_base_dir working_dir tool.base_dir) path

    checked_plan-Planned :
        (bytes : Bytes) (checked : Option EditError)
        → validate_edits (split_lines bytes) edits ≡ checked
        → store.at full_path ≡ file bytes
        → Planned (checked_plan path full_path edits bytes checked)
    unfolding checked_plan applied_plan
    checked_plan-Planned bytes none passes at =
        subst (λ (a : Applied). Planned (applied_plan path full_path edits bytes a))
          (sym (apply_edits-edited (split_lines bytes) edits passes known))
          ((path, value, named, given, reads, refl), (bytes, at, refl, refl))
    checked_plan-Planned bytes (some error) fails_so at = λ e. ground arith

    stored_plan-Planned :
        (stored : Stored)
        → store.at full_path ≡ stored
        → Planned (stored_plan path full_path edits stored)
    unfolding stored_plan
    stored_plan-Planned missing at = λ e. ground arith
    stored_plan-Planned (unreadable error) at = λ e. ground arith
    stored_plan-Planned (file bytes) at =
        checked_plan-Planned bytes (validate_edits (split_lines bytes) edits) refl at

  plan_edits-Planned :
      (path : Bytes) (value : Json) (edits : Parsed (List Edit))
      → validate_path args ≡ valid path
      → lookup (codes "edits") args ≡ some value
      → parse_edits value ≡ edits
      → KnownEdits edits
      → Planned (plan_edits tool working_dir store path edits)
  unfolding plan_edits
  plan_edits-Planned path value (invalid error) named given reads known = λ e. ground arith
  plan_edits-Planned path value (parsed []) named given reads known = λ e. ground arith
  plan_edits-Planned path value (parsed (e ∷ es)) named given reads known =
      stored_plan-Planned path value (e ∷ es) named given reads known _ refl

  edits_plan-Planned :
      (path : Bytes) (found : Option Json)
      → validate_path args ≡ valid path
      → lookup (codes "edits") args ≡ found
      → Planned (edits_plan tool working_dir store path found)
  unfolding edits_plan
  edits_plan-Planned path none named given = λ e. ground arith
  edits_plan-Planned path (some value) named given =
      plan_edits-Planned path value (parse_edits value) named given refl (parse_edits-IsKnown value)

  path_plan-Planned :
      (path : ValidPath)
      → validate_path args ≡ path
      → Planned (path_plan tool working_dir store args path)
  unfolding path_plan
  path_plan-Planned (refused error) named = λ e. ground arith
  path_plan-Planned (valid path) named =
      edits_plan-Planned path (lookup (codes "edits") args) named refl

  -- The write of the plan's file failed, and the other files are as they were.
  abbrev pub FailedWrite : ToolError → FileStore → Type 0
  FailedWrite error after =
      (plan : EditPlan) × (failure : WriteFailure) × Asked tool working_dir args plan
      × FromFile store plan
      × (store.write_error plan.full_path ≡ some failure)
      × (error ≡ write_failed failure.error)
      × (after ≡ put_file plan.full_path failure.left store)

  -- What Execute leaves: on an error, which is never a panic, the files as they were, but for what a
  -- failed write leaves of the file that the call names; else that file with its lines changed as the
  -- edits of the call say, within the size limit where there is one.
  abbrev pub Done : Outcome ℕ → FileStore → Type 0
  Done (fails error) after = (error ≢ crashed) × ((after ≡ store) ⊎ FailedWrite error after)
  Done (ok n) after =
      (plan : EditPlan) × (bytes : Bytes) × Asked tool working_dir args plan
      × (store.at plan.full_path ≡ file bytes)
      × (n ≡ length plan.edits)
      × ((0 < tool.max_size_bytes)
          → length
              (assemble_content (edited plan.edits 1 (split_lines bytes)) (ends_in_newline bytes))
            ≤ tool.max_size_bytes)
      × (after
          ≡ write_file plan.full_path
              (assemble_content (edited plan.edits 1 (split_lines bytes)) (ends_in_newline bytes))
              store)

size_bound : (max size : ℕ) → ltb 0 max && ltb max size ≡ false → 0 < max → size ≤ max
size_bound max size h some_max = ground arith

module _ (tool : FileTool) (working_dir : Bytes) (store : FileStore) (args : Fields) where
  written-Done :
      (plan : EditPlan) (failure : Option WriteFailure)
      → Asked tool working_dir args plan
      → FromFile store plan
      → store.write_error plan.full_path ≡ failure
      → (0 < tool.max_size_bytes
          → length (assemble_content plan.new_lines plan.trailing_newline) ≤ tool.max_size_bytes)
      → Done tool working_dir store args
          (written plan (assemble_content plan.new_lines plan.trailing_newline) store failure).0
          (written plan (assemble_content plan.new_lines plan.trailing_newline) store failure).1
  unfolding written
  written-Done plan (some failure) asked from broken fits =
      ((λ e. ground arith), inr (plan, failure, asked, from, broken, refl, refl))
  written-Done plan none asked (bytes, at, lines, ending) broken fits =
      let same : assemble_content plan.new_lines plan.trailing_newline
          ≡ assemble_content (edited plan.edits 1 (split_lines bytes)) (ends_in_newline bytes) =
        ap₂ (λ (ls : Lines) (b : Bool). assemble_content ls b) lines ending in
      (
        plan,
        bytes,
        asked,
        at,
        refl,
        subst (λ (c : Bytes). 0 < tool.max_size_bytes → length c ≤ tool.max_size_bytes) same fits,
        ap (λ (c : Bytes). write_file plan.full_path c store) same,
      )

  write_plan-Done :
      (plan : Outcome EditPlan)
      → Planned tool working_dir store args plan
      → Done tool working_dir store args
          (write_plan tool store plan).0
          (write_plan tool store plan).1
  unfolding write_plan
  write_plan-Done (fails error) planned = (planned, inl refl)
  write_plan-Done (ok plan) (asked, from) =
      let content = assemble_content plan.new_lines plan.trailing_newline in
      if_ind (λ (out : Outcome ℕ × FileStore). Done tool working_dir store args out.0 out.1)
        (ltb 0 tool.max_size_bytes && ltb tool.max_size_bytes (length content))
        (λ _. ((λ e. ground arith), inl refl))
        (λ fits.
          written-Done plan _ asked from refl
            (size_bound tool.max_size_bytes (length content) fits))

  -- Execute of edit_file does not panic. Where it succeeds, the file at the path of the call, below the working directory or else the base directory, is written, with the lines that it held, each changed as the call's edits say, and it keeps to the size limit where there is one. Where it fails, all files are as they were, but for what os.WriteFile leaves of that file where the write is what failed.
  pub execute-Done :
      Done tool working_dir store args
        (execute tool working_dir store args).0
        (execute tool working_dir store args).1
  unfolding execute prepare_edits
  execute-Done =
      write_plan-Done (path_plan tool working_dir store args (validate_path args))
        (path_plan-Planned tool working_dir store args (validate_path args) refl)
