-- ===== src/Session/Paths.antt =====
-- The paths of the files of a session: different names in a directory are different paths.
use mathlib.Core.List.{
  append_cancel_left, append_cancel_right, append_assoc, append-nil, reverse-append, reverse-cons,
}
use kontekst.Prelude.{
  ◌≡◌, ◌≢◌, refl, sym, ap, ◌∙◌, Bool, true, false, ◌||◌, List, [], ◌∷◌, ◌++◌, reverse, Bytes, codes,
  ◌==◌, All, All-append, arith, bytes_eq, bytes_eq→eq, Bool-cases, inl, inr, if◌then◌else◌,
}
use kontekst.Core.{is_empty}
use kontekst.Session.Service.{session_dir, session_path, meta_path}
use kontekst.Paths.Inside.{base_parts, parts_from-append, clean_parts-append}
use kontekst.Paths.{
  parts_from, parts_of, is_dot, is_dot_dot, clean_parts, go_up, join_parts, joined_parts, join_path,
}

-- The name of a file: no slash, and neither empty nor one of the two names of directories.
pub record IsName (name : Bytes) : Type 0 where
  pub no_slash : All (λ c. (c == 47) ≡ false) name
  pub not_empty : is_empty name ≡ false
  pub not_dot : is_dot name ≡ false
  pub not_dot_dot : is_dot_dot name ≡ false

parts_from_name :
    (part name : Bytes)
    → All (λ c. (c == 47) ≡ false) name
    → parts_from part name ≡ (part ++ name) ∷ []
unfolding parts_from
parts_from_name part [] h = ap (λ (p : Bytes). p ∷ []) (sym (append-nil part))
parts_from_name part (c ∷ name) h =
    ap (λ (b : Bool). if b then part ∷ parts_from [] name else parts_from (part ++ (c ∷ [])) name)
      h.0
    ∙ parts_from_name (part ++ (c ∷ [])) name h.1
    ∙ ap (λ (p : Bytes). p ∷ []) (append_assoc part (c ∷ []) name)

-- What the parts in front of a name print.
abbrev prefix_of : List Bytes → Bytes
prefix_of [] = []
prefix_of (p ∷ ps) = p ++ (47 ∷ prefix_of ps)

join_parts-append :
    (ps : List Bytes) (name : Bytes) → join_parts (ps ++ (name ∷ [])) ≡ prefix_of ps ++ name
unfolding join_parts
join_parts-append [] name = refl
join_parts-append (p ∷ []) name = sym (append_assoc p (47 ∷ []) name)
join_parts-append (p ∷ (q ∷ ps)) name =
    ap (λ (s : Bytes). p ++ (47 ∷ s)) (join_parts-append (q ∷ ps) name)
    ∙ sym (append_assoc p (47 ∷ prefix_of (q ∷ ps)) name)

-- A name is put behind the parts of the directory.
clean_name :
    (name : Bytes) (stack : List Bytes)
    → IsName name
    → clean_parts true (name ∷ []) stack ≡ name ∷ stack
unfolding clean_parts
clean_name name stack is =
    let kept : (is_empty name || is_dot name) ≡ false = ground (arith, is.not_empty, is.not_dot) in
    ap
      (λ (b : Bool).
        if b then stack else if is_dot_dot name then go_up true name stack else name ∷ stack)
      kept
    ∙ ap (λ (b : Bool). if b then go_up true name stack else name ∷ stack) is.not_dot_dot

pub join_path-IsName :
    (base name : Bytes)
    → IsName name
    → join_path base name ≡ 47 ∷ (prefix_of (base_parts base) ++ name)
unfolding join_path joined_parts parts_of
join_path-IsName base name is =
    ap (λ (s : List Bytes). 47 ∷ join_parts (reverse s))
      (ap (λ (ps : List Bytes). clean_parts true ps [])
          (parts_from-append [] base name
            ∙ ap (λ (ps : List Bytes). parts_from [] base ++ ps)
                (parts_from_name [] name is.no_slash))
        ∙ clean_parts-append true (parts_from [] base) (name ∷ []) []
        ∙ clean_name name (clean_parts true (parts_from [] base) []) is)
    ∙ ap (λ (s : List Bytes). 47 ∷ join_parts s)
        (reverse-cons name (clean_parts true (parts_from [] base) []))
    ∙ ap (λ (s : Bytes). 47 ∷ s)
        (join_parts-append (reverse (clean_parts true (parts_from [] base) [])) name)

-- Two names in one directory have one path only if they are the same.
pub join_path_inj :
    (base a b : Bytes) → IsName a → IsName b → join_path base a ≡ join_path base b → a ≡ b
join_path_inj base a b is_a is_b h =
    append_cancel_left (47 ∷ prefix_of (base_parts base)) a b
      (sym (join_path-IsName base a is_a) ∙ h ∙ join_path-IsName base b is_b)

-- An id of one part.
abbrev pub NoSlash : Bytes → Type 0
NoSlash id = All (λ c. (c == 47) ≡ false) id

jsonl-IsName : (id : Bytes) → NoSlash id → IsName (id ++ codes ".jsonl")
unfolding is_dot is_dot_dot bytes_eq
jsonl-IsName id h = record {
  no_slash =
      All-append (λ c. (c == 47) ≡ false) id (codes ".jsonl") h
        (refl, (refl, (refl, (refl, (refl, (refl, tt))))));
  not_empty = not_empty id;
  not_dot = not_dot id;
  not_dot_dot = not_dot_dot id;
}
  where
    not_empty : (s : Bytes) → is_empty (s ++ codes ".jsonl") ≡ false
    not_empty [] = refl
    not_empty (c ∷ s) = refl

    not_dot : (s : Bytes) → bytes_eq (s ++ codes ".jsonl") (46 ∷ []) ≡ false
    not_dot [] = refl
    not_dot (c ∷ []) = ground arith
    not_dot (c ∷ (d ∷ s)) = ground arith

    not_dot_dot : (s : Bytes) → bytes_eq (s ++ codes ".jsonl") (46 ∷ 46 ∷ []) ≡ false
    not_dot_dot [] = refl
    not_dot_dot (c ∷ []) = ground arith
    not_dot_dot (c ∷ (d ∷ [])) = ground arith
    not_dot_dot (c ∷ (d ∷ (e ∷ s))) = ground arith

meta-IsName : (id : Bytes) → NoSlash id → IsName (id ++ codes ".meta.json")
unfolding is_dot is_dot_dot bytes_eq
meta-IsName id h = record {
  no_slash =
      All-append (λ c. (c == 47) ≡ false) id (codes ".meta.json") h
        (refl, (refl, (refl, (refl, (refl, (refl, (refl, (refl, (refl, (refl, tt))))))))));
  not_empty = not_empty id;
  not_dot = not_dot id;
  not_dot_dot = not_dot_dot id;
}
  where
    not_empty : (s : Bytes) → is_empty (s ++ codes ".meta.json") ≡ false
    not_empty [] = refl
    not_empty (c ∷ s) = refl

    not_dot : (s : Bytes) → bytes_eq (s ++ codes ".meta.json") (46 ∷ []) ≡ false
    not_dot [] = refl
    not_dot (c ∷ []) = ground arith
    not_dot (c ∷ (d ∷ s)) = ground arith

    not_dot_dot : (s : Bytes) → bytes_eq (s ++ codes ".meta.json") (46 ∷ 46 ∷ []) ≡ false
    not_dot_dot [] = refl
    not_dot_dot (c ∷ []) = ground arith
    not_dot_dot (c ∷ (d ∷ [])) = ground arith
    not_dot_dot (c ∷ (d ∷ (e ∷ s))) = ground arith

different : (a b : Bytes) → a ≢ b → bytes_eq a b ≡ false
different a b h = elim (Bool-cases (bytes_eq a b)) [
  | inl e ↦ absurd (h (bytes_eq→eq a b e))
  | inr e ↦ e
]

-- The last bytes of the two names differ.
last_byte : (a b : Bytes) → (a ++ codes ".jsonl") ≢ (b ++ codes ".meta.json")
last_byte a b e =
    let reversed =
      sym (reverse-append a (codes ".jsonl"))
      ∙ ap reverse e
      ∙ reverse-append b (codes ".meta.json") in
    ground (arith, reversed)

module _ (base a b : Bytes) where
  pub session_paths_differ :
      NoSlash a → NoSlash b → a ≢ b → bytes_eq (session_path base b) (session_path base a) ≡ false
  unfolding session_path
  session_paths_differ safe_a safe_b h = different _ _ (λ e. h (
      sym (
        append_cancel_right b a (codes ".jsonl") (
          join_path_inj (session_dir base) _ _ (jsonl-IsName b safe_b) (jsonl-IsName a safe_a) e))))

  pub meta_paths_differ :
      NoSlash a → NoSlash b → a ≢ b → bytes_eq (meta_path base b) (meta_path base a) ≡ false
  unfolding meta_path
  meta_paths_differ safe_a safe_b h = different _ _ (λ e. h (
      sym (
        append_cancel_right b a (codes ".meta.json")
          (join_path_inj (session_dir base) _ _ (meta-IsName b safe_b) (meta-IsName a safe_a) e))))

  pub session-meta_differ :
      NoSlash a → NoSlash b → bytes_eq (session_path base b) (meta_path base a) ≡ false
  unfolding session_path meta_path
  session-meta_differ safe_a safe_b = different _ _ (λ e.
      last_byte b a
        (join_path_inj (session_dir base) _ _ (jsonl-IsName b safe_b) (meta-IsName a safe_a) e))

  pub meta-session_differ :
      NoSlash a → NoSlash b → bytes_eq (meta_path base b) (session_path base a) ≡ false
  unfolding session_path meta_path
  meta-session_differ safe_a safe_b = different _ _ (λ e.
      last_byte a b (
        sym
          (join_path_inj (session_dir base) _ _ (meta-IsName b safe_b) (jsonl-IsName a safe_a) e)))
