-- ===== src/EditFile/Known.antt =====
-- The edits that parseEdits of internal/tool/builtin/edit_file.go reads have one of the four
-- operations.
use kontekst.Prelude.Int.{ℤ}
use kontekst.Prelude.{ℕ, suc, List, Option, none, some, Bytes, bytes_eq, codes, All, if_ind}
use kontekst.Core.{Json, null, boolean, number, text, array, object, Items, no_items, item, Fields}
use kontekst.Paths.{lookup}
use kontekst.EditFile.{Operation, Edit}
use kontekst.EditFile.Edited.{IsKnown}
use kontekst.EditFile.Arguments.{
  Parsed, parsed, invalid, operation_of, string_of, line_number_of, content_of, with_hash,
  with_operation, parse_edit, add_edit, parse_items, parse_edits,
}

abbrev KnownOperation : Option Operation → Type 0
KnownOperation none = Unit
KnownOperation (some op) = IsKnown op

abbrev KnownEdit : Parsed Edit → Type 0
KnownEdit (invalid error) = Unit
KnownEdit (parsed e) = IsKnown e.operation

abbrev pub KnownEdits : Parsed (List Edit) → Type 0
KnownEdits (invalid error) = Unit
KnownEdits (parsed edits) = All (λ e. IsKnown e.operation) edits

operation_of-IsKnown : (op : Bytes) → KnownOperation (operation_of op)
unfolding operation_of
operation_of-IsKnown op =
    if_ind KnownOperation (bytes_eq op (codes "replace")) (λ _. tt)
      (λ _.
        if_ind KnownOperation (bytes_eq op (codes "insert_after")) (λ _. tt)
          (λ _.
            if_ind KnownOperation (bytes_eq op (codes "insert_before")) (λ _. tt)
              (λ _. if_ind KnownOperation (bytes_eq op (codes "delete")) (λ _. tt) (λ _. tt))))

option_ind {ℓ κ} :
    {A B : Type ℓ} (P : B → Type κ) (o : Option A) (n : B) (s : A → B)
    → P n
    → ((a : A) → P (s a))
    → P (elim o [ none ↦ n | some a ↦ s a ])
option_ind P none n s p q = p
option_ind P (some a) n s p q = q a

with_hash-IsKnown :
    (index : ℕ) (edit_map : Fields) (name : Bytes) (op : Operation) (line : ℤ) (hash : Option Bytes)
    → IsKnown op
    → KnownEdit (with_hash index edit_map name op line hash)
unfolding with_hash
with_hash-IsKnown index edit_map name op line none known = tt
with_hash-IsKnown index edit_map name op line (some hash) known =
    option_ind KnownEdit (content_of op edit_map) _ _ tt (λ content. known)

with_operation-IsKnown :
    (index : ℕ) (edit_map : Fields) (name : Bytes) (op : Option Operation)
    → KnownOperation op
    → KnownEdit (with_operation index edit_map name op)
unfolding with_operation
with_operation-IsKnown index edit_map name none known = tt
with_operation-IsKnown index edit_map name (some op) known =
    option_ind KnownEdit (line_number_of (lookup (codes "line") edit_map)) _ _ tt (λ line.
      with_hash-IsKnown index edit_map name op line (string_of (lookup (codes "hash") edit_map))
        known)

parse_edit-IsKnown : (index : ℕ) (value : Json) → KnownEdit (parse_edit index value)
unfolding parse_edit
parse_edit-IsKnown index (object edit_map) =
    option_ind KnownEdit (string_of (lookup (codes "operation") edit_map)) _ _ tt (λ name.
      with_operation-IsKnown index edit_map name (operation_of name) (operation_of-IsKnown name))
parse_edit-IsKnown index null = tt
parse_edit-IsKnown index (boolean b) = tt
parse_edit-IsKnown index (number m e) = tt
parse_edit-IsKnown index (text s) = tt
parse_edit-IsKnown index (array items) = tt

add_edit-IsKnown :
    (first : Parsed Edit) (rest : Parsed (List Edit))
    → KnownEdit first
    → KnownEdits rest
    → KnownEdits (elim first [ parsed e ↦ add_edit e rest | invalid error ↦ invalid error ])
add_edit-IsKnown (invalid error) rest known later = tt
add_edit-IsKnown (parsed e) (invalid error) known later = tt
add_edit-IsKnown (parsed e) (parsed es) known later = (known, later)

parse_items-IsKnown : (index : ℕ) (items : Items) → KnownEdits (parse_items index items)
unfolding parse_items
parse_items-IsKnown index no_items = tt
parse_items-IsKnown index (item value items) =
    add_edit-IsKnown (parse_edit index value) (parse_items (suc index) items)
      (parse_edit-IsKnown index value) (parse_items-IsKnown (suc index) items)

pub parse_edits-IsKnown : (value : Json) → KnownEdits (parse_edits value)
unfolding parse_edits
parse_edits-IsKnown (array items) = parse_items-IsKnown 0 items
parse_edits-IsKnown null = tt
parse_edits-IsKnown (boolean b) = tt
parse_edits-IsKnown (number m e) = tt
parse_edits-IsKnown (text s) = tt
parse_edits-IsKnown (object edit_map) = tt
