-- ===== src/Conversation/Lines.antt =====
-- Splitting a file at a place that is not in front of a line's end: the first line behind the place
-- goes on the last line in front of it.
use mathlib.Core.List.{append_assoc, append-nil}
use kontekst.Prelude.{
  ℕ, ◌≡◌, refl, sym, ap, subst, ==_iff, ◌∙◌, Bool, true, false, List, [], ◌∷◌, ◌++◌, Bytes, ◌==◌,
  if◌then◌else◌, Bool-cases, inl, inr, arith,
}
use kontekst.Core.{is_empty}
use kontekst.Conversation.File.{split_file_lines_from, split_file_lines}

flush_append :
    (b : Bool) (line : Bytes) (xs ys : List Bytes)
    → (if b then xs ++ ys else line ∷ (xs ++ ys)) ≡ (if b then xs else line ∷ xs) ++ ys
flush_append true line xs ys = refl
flush_append false line xs ys = refl

pub split_append_newline :
    (line x y : Bytes)
    → split_file_lines_from line (x ++ (10 ∷ y))
      ≡ split_file_lines_from line x ++ split_file_lines_from [] y
unfolding split_file_lines_from
split_append_newline line [] y = flush_append (is_empty line) line [] (split_file_lines_from [] y)
split_append_newline line (c ∷ x) y =
    ground (arith, split_append_newline [] x y, split_append_newline (line ++ (c ∷ [])) x y)

-- The first line `h` of `piece` begins with `line`, and goes on any text in front of it.
record Joins (line piece : Bytes) : Type 0 where
  h : Bytes
  rest : List Bytes
  some_line : is_empty h ≡ false
  here : split_file_lines_from line piece ≡ h ∷ rest
  joined :
      (before x : Bytes)
      → split_file_lines_from before (x ++ (line ++ piece))
        ≡ split_file_lines_from before (x ++ h) ++ rest

empty_snoc : (xs : Bytes) (c : ℕ) → is_empty (xs ++ (c ∷ [])) ≡ false
empty_snoc [] c = refl
empty_snoc (x ∷ xs) c = refl

newline-Joins : (line piece : Bytes) → is_empty line ≡ false → Joins line (10 ∷ piece)
unfolding split_file_lines_from
newline-Joins line piece some_line = record {
  h = line;
  rest = split_file_lines_from [] piece;
  some_line = some_line;
  here =
      ap
        (λ (b : Bool).
          if b then split_file_lines_from [] piece else line ∷ split_file_lines_from [] piece)
        some_line;
  joined = λ before x.
      ap (split_file_lines_from before) (sym (append_assoc x line (10 ∷ piece)))
      ∙ split_append_newline before (x ++ line) piece;
}

piece-Joins : (line piece : Bytes) → is_empty line ≡ false → Joins line piece
unfolding split_file_lines_from
piece-Joins line [] some_line = record {
  h = line;
  rest = [];
  some_line = some_line;
  here = ap (λ (b : Bool). if b then [] else line ∷ []) some_line;
  joined = λ before x.
      ap (λ (z : Bytes). split_file_lines_from before (x ++ z)) (append-nil line)
      ∙ sym (append-nil (split_file_lines_from before (x ++ line)));
}
piece-Joins line (c ∷ piece) some_line = elim (Bool-cases (c == 10)) [
  | inl newline ↦
      subst (λ (d : ℕ). Joins line (d ∷ piece)) (sym ((==_iff c 10).0 newline))
        (newline-Joins line piece some_line)
  | inr other ↦
      let longer = piece-Joins (line ++ (c ∷ [])) piece (empty_snoc line c) in
      record {
        h = longer.h;
        rest = longer.rest;
        some_line = longer.some_line;
        here =
            ap
              (λ (b : Bool).
                if b
                then if is_empty line
                  then split_file_lines_from [] piece
                  else line ∷ split_file_lines_from [] piece
                else split_file_lines_from (line ++ (c ∷ [])) piece)
              other
            ∙ longer.here;
        joined = λ before x.
            ap (λ (z : Bytes). split_file_lines_from before (x ++ z))
              (sym (append_assoc line (c ∷ []) piece))
            ∙ longer.joined before x;
      }
]

-- A place in a file: the piece behind it is not empty and does not begin with a newline.
abbrev pub InLine : Bytes → Type 0
InLine [] = ⊥
InLine (c ∷ piece) = (c == 10) ≡ false

-- The first line of the piece goes on what stands in front of the place; the other lines are lines of the file.
pub split-place :
    (piece : Bytes)
    → InLine piece
    → (h : Bytes) × (rest : List Bytes) × (is_empty h ≡ false)
      × (split_file_lines piece ≡ h ∷ rest)
      × ((x : Bytes) → split_file_lines (x ++ piece) ≡ split_file_lines (x ++ h) ++ rest)
unfolding split_file_lines split_file_lines_from
split-place [] in_line = elim in_line [ ]
split-place (c ∷ piece) in_line =
    let j = piece-Joins (c ∷ []) piece refl in
    (
      j.h,
      j.rest,
      j.some_line,
      ap
            (λ (b : Bool).
              if b then split_file_lines_from [] piece else split_file_lines_from (c ∷ []) piece)
            in_line
          ∙ j.here,
      j.joined [],
    )
