-- ===== src/Skill/Quoting.antt =====
-- Quoted words are read back as they were.
use mathlib.Core.List.{append_assoc, append-nil}
use kontekst.Prelude.{
  ◌≡◌, refl, sym, ap, ◌∙◌, Bool, false, List, [], ◌∷◌, ◌++◌, none, some, Bytes, ◌==◌, All,
  if◌then◌else◌,
}
use kontekst.Core.{is_empty}
use kontekst.Skill.{parse_arguments_from, parse_arguments}

-- A word that double quotes hold together.
abbrev pub IsQuotable : Bytes → Type 0
IsQuotable word = (is_empty word ≡ false) × All (λ c. (c == 34) ≡ false) word

-- The words in double quotes, with a space between two of them.
unfoldable pub quoted : List Bytes → Bytes
quoted [] = []
quoted (w ∷ []) = 34 ∷ (w ++ (34 ∷ []))
quoted (w ∷ (v ∷ words)) = 34 ∷ (w ++ (34 ∷ (32 ∷ quoted (v ∷ words))))

read_quoted :
    (current word rest : Bytes)
    → All (λ c. (c == 34) ≡ false) word
    → parse_arguments_from current (some 34) (word ++ (34 ∷ rest))
      ≡ parse_arguments_from (current ++ word) none rest
unfolding parse_arguments_from
read_quoted current [] rest plain =
    ap (λ (word : Bytes). parse_arguments_from word none rest) (sym (append-nil current))
read_quoted current (c ∷ word) rest plain =
    ap
      (λ (b : Bool).
        if b
        then parse_arguments_from current none (word ++ (34 ∷ rest))
        else parse_arguments_from (current ++ (c ∷ [])) (some 34) (word ++ (34 ∷ rest)))
      plain.0
    ∙ read_quoted (current ++ (c ∷ [])) word rest plain.1
    ∙ ap (λ (w : Bytes). parse_arguments_from w none rest) (append_assoc current (c ∷ []) word)

-- Words in double quotes, none of them empty or with such a quote inside, are parsed to these words.
pub parse_arguments-quoted :
    (words : List Bytes) → All IsQuotable words → parse_arguments (quoted words) ≡ words
unfolding parse_arguments parse_arguments_from quoted
parse_arguments-quoted [] h = refl
parse_arguments-quoted (w ∷ []) h =
    read_quoted [] w [] h.0.1 ∙ ap (λ (b : Bool). if b then [] else w ∷ []) h.0.0
parse_arguments-quoted (w ∷ (v ∷ words)) h =
    read_quoted [] w (32 ∷ quoted (v ∷ words)) h.0.1
    ∙ ap
        (λ (b : Bool).
          if b
          then parse_arguments_from [] none (quoted (v ∷ words))
          else w ∷ parse_arguments_from [] none (quoted (v ∷ words)))
        h.0.0
    ∙ ap (λ (ws : List Bytes). w ∷ ws) (parse_arguments-quoted (v ∷ words) h.1)
