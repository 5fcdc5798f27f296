-- ===== src/Skill/Tests.antt =====
-- Two arguments, one with a space.
use kontekst.Prelude.{◌≡◌, refl, [], ◌∷◌, codes}
use kontekst.Skill.{parse_arguments, parse_arguments_from}
use kontekst.Skill.Quoting.{quoted, parse_arguments-quoted}

parse_arguments-quoted_example :
    parse_arguments (quoted (codes "a b" ∷ codes "c" ∷ [])) ≡ codes "a b" ∷ codes "c" ∷ []
parse_arguments-quoted_example =
    parse_arguments-quoted (codes "a b" ∷ codes "c" ∷ [])
      ((refl, (refl, (refl, (refl, tt)))), ((refl, (refl, tt)), tt))

plain :
    parse_arguments (codes "one 'two three'  four")
    ≡ codes "one" ∷ codes "two three" ∷ codes "four" ∷ []
unfolding parse_arguments parse_arguments_from
plain = refl
