-- ===== src/Tools/Below.antt =====
-- The paths of a store that lie below a directory, and stores that agree outside of it.
use kontekst.Prelude.{
  ◌≡◌, ◌⊎◌, inl, inr, refl, sym, subst, ap, ◌∙◌, Bool, true, ◌&&◌, List, ◌∷◌, ◌++◌, Bytes, bytes_eq,
  bytes_eq→eq, Bool-cases, if◌then◌else◌, arith,
}
use kontekst.Paths.{join_parts, is_relative_path_safe, join_path}
use kontekst.Paths.Inside.{Stays, base_parts, joined_parts-Stays}
use kontekst.EditFile.Tool.{Stored, missing, unreadable, file, put_file, FileStore}
use kontekst.FileTools.Write.{directory, as_directory, leads_to, make_directories}

-- The path has the parts of the directory first, and no ".." behind them.
abbrev pub Below : (base path : Bytes) → Type 0
Below base path =
    (rest : List Bytes) × (path ≡ 47 ∷ join_parts (base_parts base ++ rest)) × Stays rest

-- The path was missing, and is now a directory in front of a path below the directory.
abbrev pub MadeFor : (base : Bytes) → (before after : FileStore) → Bytes → Type 0
MadeFor base before after p =
    (before.at p ≡ missing)
    × (after.at p ≡ directory)
    × ((q : Bytes) × Below base q × (leads_to p q ≡ true))

-- The path holds what it held, or is below the directory, or is one of the directories that lead there.
abbrev pub StaysAt : (base : Bytes) → (before after : FileStore) → Bytes → Type 0
StaysAt base before after p =
    (after.at p ≡ before.at p) ⊎ (Below base p ⊎ MadeFor base before after p)

-- No path that is not below the directory changes, but that missing directories in front are made.
abbrev pub Confined : (base : Bytes) → (before after : FileStore) → Type 0
Confined base before after = (p : Bytes) → StaysAt base before after p

pub same-Confined : (base : Bytes) (store : FileStore) → Confined base store store
same-Confined base store p = inl refl

pub StaysAt-trans :
    (base : Bytes) (a b c : FileStore) (p : Bytes)
    → StaysAt base a b p
    → StaysAt base b c p
    → StaysAt base a c p
StaysAt-trans base a b c p first (inr (inl below)) = inr (inl below)
StaysAt-trans base a b c p (inr (inl below)) next = inr (inl below)
StaysAt-trans base a b c p (inl same) (inl kept) = inl (kept ∙ same)
StaysAt-trans base a b c p (inl same) (inr (inr (empty, made, leads))) =
    inr (inr (sym same ∙ empty, made, leads))
StaysAt-trans base a b c p (inr (inr (empty, made, leads))) (inl kept) =
    inr (inr (empty, kept ∙ made, leads))
StaysAt-trans base a b c p (inr (inr (empty, made, leads))) (inr (inr (again, is_made, further))) =
    inr (inr (empty, is_made, leads))

pub Confined-trans :
    (base : Bytes) (a b c : FileStore) → Confined base a b → Confined base b c → Confined base a c
Confined-trans base a b c first next p = StaysAt-trans base a b c p (first p) (next p)

pub joined-Below :
    (base path : Bytes) → is_relative_path_safe path ≡ true → Below base (join_path base path)
unfolding join_path
joined-Below base path safe =
    let (rest, joined, stays) = joined_parts-Stays base path safe in
    (rest, ap (λ (ps : List Bytes). 47 ∷ join_parts ps) joined, stays)

pub put_file-Confined :
    (base path : Bytes) (stored : Stored) (store : FileStore)
    → is_relative_path_safe path ≡ true
    → Confined base store (put_file (join_path base path) stored store)
unfolding put_file
put_file-Confined base path stored store safe p =
    elim (Bool-cases (bytes_eq p (join_path base path))) [
      | inr other ↦ inl (ap (λ (b : Bool). if b then stored else store.at p) other)
      | inl same ↦ inr (
          inl (
            subst (Below base) (sym (bytes_eq→eq p (join_path base path) same))
              (joined-Below base path safe)))
    ]

made_at :
    (base full_path : Bytes) (store after : FileStore) (p : Bytes) (stored : Stored)
    → Below base full_path
    → leads_to p full_path ≡ true
    → store.at p ≡ stored
    → after.at p ≡ as_directory stored
    → StaysAt base store after p
made_at base full_path store after p missing below leads was is =
    inr (inr (was, is, (full_path, below, leads)))
made_at base full_path store after p (unreadable e) below leads was is = inl (is ∙ sym was)
made_at base full_path store after p (file bytes) below leads was is = inl (is ∙ sym was)

pub make_directories-Confined :
    (base full_path : Bytes) (made : Bytes → Bool) (store : FileStore)
    → Below base full_path
    → Confined base store (make_directories made full_path store)
unfolding make_directories
make_directories-Confined base full_path made store below p =
    elim (Bool-cases (leads_to p full_path && made p)) [
      | inr other ↦
          inl (ap (λ (b : Bool). if b then as_directory (store.at p) else store.at p) other)
      | inl leads ↦
          made_at base full_path store (make_directories made full_path store) p (store.at p) below
            (ground (arith, leads)) refl
            (ap (λ (b : Bool). if b then as_directory (store.at p) else store.at p) leads)
    ]
