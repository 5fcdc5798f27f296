-- ===== src/Skill/Render.antt =====
-- A skill and its text for a prompt, internal/skill/skill.go and Render of internal/skill/render.go.
use kontekst.Prelude.{
  ℕ, suc, ◌+◌, ◌/◌, ◌%◌, Bool, List, [], ◌∷◌, ◌++◌, Bytes, codes, ltb, if◌then◌else◌,
}
use kontekst.Prelude.Strings.{replace_all}
use kontekst.Skill.{parse_arguments}

pub record Skill : Type 0 where
  pub name : Bytes
  pub description : Bytes
  pub content : Bytes
  pub path : Bytes
  pub disable_model_invocation : Bool
  pub user_invocable : Bool

-- string(r) of a rune below 2 ^ 16; the surrogates have no encoding and give U+FFFD.
unfoldable pub rune_bytes : ℕ → Bytes
rune_bytes r =
    if ltb r 128
    then r ∷ []
    else if ltb r 2048
    then (192 + r / 64) ∷ (128 + r % 64) ∷ []
    else if ltb r 55296
    then (224 + r / 4096) ∷ (128 + (r / 64) % 64) ∷ (128 + r % 64) ∷ []
    else if ltb r 57344
    then 239 ∷ 191 ∷ 189 ∷ []
    else (224 + r / 4096) ∷ (128 + (r / 64) % 64) ∷ (128 + r % 64) ∷ []

-- "$" and the rune at distance `i` from '0'.
unfoldable pub placeholder : ℕ → Bytes
placeholder i = 36 ∷ rune_bytes (48 + i)

-- The loop over the arguments, from the one at place `i` on.
unfoldable pub fill_in : (i : ℕ) → (args : List Bytes) → (content : Bytes) → Bytes
fill_in i [] content = content
fill_in i (arg ∷ args) content = fill_in (suc i) args (replace_all (placeholder i) arg content)

-- Render, which never fails.
unfoldable pub render : Skill → (arguments : Bytes) → Bytes
render skill arguments =
    fill_in 0 (parse_arguments arguments) (replace_all (codes "$ARGUMENTS") arguments skill.content)

unfoldable pub format_content : Skill → (rendered_content : Bytes) → Bytes
format_content skill rendered_content =
    codes "[Skill: "
    ++ (skill.name
        ++ (codes "]"
            ++ (10 ∷ codes "Base path: " ++ (skill.path ++ (10 ∷ 10 ∷ rendered_content)))))
