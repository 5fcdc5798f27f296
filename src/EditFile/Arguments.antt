-- ===== src/EditFile/Arguments.antt =====
-- Reading the arguments of the tool: parseEdits of internal/tool/builtin/edit_file.go.
use kontekst.Prelude.Int.{ℤ, pos, negsuc}
use kontekst.Prelude.{
  ℕ, zero, suc, ◌*◌, ◌/◌, ◌^◌, List, [], ◌∷◌, Option, none, some, Bytes, bytes_eq, codes,
  if◌then◌else◌,
}
use kontekst.Core.{Json, text, number, array, object, Items, no_items, item, Fields}
use kontekst.Paths.{lookup}
use kontekst.EditFile.{Operation, replace, insert_after, insert_before, delete, Edit}

pub data ArgumentError : Type 0 where
  not_an_array : ArgumentError
  not_an_object missing_operation missing_line missing_hash : (index : ℕ) → ArgumentError
  invalid_operation missing_content : (index : ℕ) (operation : Bytes) → ArgumentError

pub data Parsed (A : Type 0) : Type 0 where
  parsed : A → Parsed A
  invalid : ArgumentError → Parsed A

-- The switch over the operations.
unfoldable pub operation_of : Bytes → Option Operation
operation_of op =
    if bytes_eq op (codes "replace")
    then some replace
    else if bytes_eq op (codes "insert_after")
    then some insert_after
    else if bytes_eq op (codes "insert_before")
    then some insert_before
    else if bytes_eq op (codes "delete")
    then some delete
    else none

-- A number without its fraction, as `int` cuts it off.
unfoldable pub truncate_ℕ : ℕ → (exponent : ℤ) → ℕ
truncate_ℕ n (pos e) = n * 10 ^ e
truncate_ℕ n (negsuc e) = n / 10 ^ suc e

abbrev pub negate : ℕ → ℤ
negate zero = pos 0
negate (suc n) = negsuc n

-- int of a number of JSON, as the exact whole part; Go rounds to a float64 first and cuts to 64 bits.
unfoldable pub int_of : (mantissa exponent : ℤ) → ℤ
int_of (pos n) exponent = pos (truncate_ℕ n exponent)
int_of (negsuc n) exponent = negate (truncate_ℕ (suc n) exponent)

abbrev pub string_of : Option Json → Option Bytes
string_of (some (text s)) = some s
string_of value = none

abbrev pub line_number_of : Option Json → Option ℤ
line_number_of (some (number mantissa exponent)) = some (int_of mantissa exponent)
line_number_of value = none

-- The content of an edit; deleting needs none.
unfoldable pub content_of : Operation → Fields → Option Bytes
content_of delete edit_map = some []
content_of op edit_map = string_of (lookup (codes "content") edit_map)

-- The checks of one edit in their order.
unfoldable pub with_hash :
    (index : ℕ)
    → Fields
    → (name : Bytes) → Operation
    → (line : ℤ) → (hash : Option Bytes) → Parsed Edit
with_hash index edit_map name op line none = invalid (missing_hash index)
with_hash index edit_map name op line (some hash) = elim (content_of op edit_map) [
  | none ↦ invalid (missing_content index name)
  | some content ↦ parsed (record { operation = op; line = line; hash = hash; content = content })
]

unfoldable pub with_operation :
    (index : ℕ) → Fields → (name : Bytes) → Option Operation → Parsed Edit
with_operation index edit_map name none = invalid (invalid_operation index name)
with_operation index edit_map name (some op) =
    elim (line_number_of (lookup (codes "line") edit_map)) [
      | none ↦ invalid (missing_line index)
      | some line ↦
          with_hash index edit_map name op line (string_of (lookup (codes "hash") edit_map))
    ]

unfoldable pub parse_edit : (index : ℕ) → Json → Parsed Edit
parse_edit index (object edit_map) = elim (string_of (lookup (codes "operation") edit_map)) [
  | none ↦ invalid (missing_operation index)
  | some name ↦ with_operation index edit_map name (operation_of name)
]
parse_edit index value = invalid (not_an_object index)

abbrev pub add_edit : Edit → Parsed (List Edit) → Parsed (List Edit)
add_edit e (parsed edits) = parsed (e ∷ edits)
add_edit e (invalid error) = invalid error

unfoldable pub parse_items : (index : ℕ) → Items → Parsed (List Edit)
parse_items index no_items = parsed []
parse_items index (item value items) =
    let rest = parse_items (suc index) items in
    elim (parse_edit index value) [ parsed e ↦ add_edit e rest | invalid error ↦ invalid error ]

unfoldable pub parse_edits : Json → Parsed (List Edit)
parse_edits (array items) = parse_items 0 items
parse_edits value = invalid not_an_array
