-- ===== src/Paths/Tests.antt =====
-- Paths that pass the check, and some that do not.
use kontekst.Prelude.{◌≡◌, refl, false, List, ◌++◌, Bytes, codes, bytes_eq}
use kontekst.Paths.{
  parts_from, parts_of, is_dot, is_dot_dot, go_up, clean_parts, join_parts, clean_relative,
  is_relative_path_safe, joined_parts, join_path,
}
use kontekst.Paths.Inside.{Stays, base_parts, joined_parts-Stays}

joined_parts-Stays_example :
    (rest : List Bytes) × (joined_parts (codes "/srv/app") (codes "a/./b/../c")
      ≡ base_parts (codes "/srv/app") ++ rest)
    × Stays rest
unfolding is_relative_path_safe clean_relative clean_parts parts_of parts_from go_up is_dot
    is_dot_dot join_parts bytes_eq
joined_parts-Stays_example = joined_parts-Stays (codes "/srv/app") (codes "a/./b/../c") refl

joined : join_path (codes "/srv/app") (codes "a/./b/../c") ≡ codes "/srv/app/a/c"
unfolding join_path joined_parts clean_parts parts_of parts_from go_up is_dot is_dot_dot join_parts
    bytes_eq
joined = refl

escapes : is_relative_path_safe (codes "a/../../etc") ≡ false
unfolding is_relative_path_safe clean_relative clean_parts parts_of parts_from go_up is_dot
    is_dot_dot join_parts bytes_eq
escapes = refl
