-- ===== src/Paths/Inside.antt =====
-- A path that isRelativePathSafe lets pass stays inside the base directory that it is joined to.
use mathlib.Core.Bool.{true≢false}
use mathlib.Core.List.{reverse-append, reverse-cons}
use kontekst.Prelude.{
  ◌≡◌, ◌⊎◌, inl, inr, refl, sym, ap, ap₂, subst, ◌∙◌, Bool, true, false, not, ◌||◌, List, [], ◌∷◌,
  ◌++◌, reverse, Bytes, bytes_eq→eq, ◌==◌, All, All-append, if◌then◌else◌, if_ind, if_both, arith,
}
use kontekst.Core.{is_empty}
use kontekst.Paths.{
  parts_from, parts_of, is_dot, is_dot_dot, go_up, clean_parts, join_parts, dot_if_empty,
  clean_relative, starts_with, has_dot_dot_prefix, is_relative_path_safe, joined_parts,
}

-- The lowest part of the stack is "..".
abbrev Escapes : List Bytes → Type 0
Escapes [] = ⊥
Escapes (p ∷ []) = is_dot_dot p ≡ true
Escapes (p ∷ (q ∷ stack)) = Escapes (q ∷ stack)

abbrev pub Stays : List Bytes → Type 0
Stays stack = All (λ p. is_dot_dot p ≡ false) stack

abbrev step : Bool → Bytes → List Bytes → List Bytes
step rooted p stack =
    if is_empty p || is_dot p
    then stack
    else if is_dot_dot p
    then go_up rooted p stack
    else p ∷ stack

push-Escapes : (p : Bytes) (stack : List Bytes) → Escapes stack → Escapes (p ∷ stack)
push-Escapes p [] h = elim h [ ]
push-Escapes p (q ∷ stack) h = h

pop-Escapes :
    (q : Bytes) (stack : List Bytes) → is_dot_dot q ≡ false → Escapes (q ∷ stack) → Escapes stack
pop-Escapes q [] normal h = elim (true≢false (sym h ∙ normal)) [ ]
pop-Escapes q (p ∷ stack) normal h = h

go_up-Escapes : (p : Bytes) (stack : List Bytes) → Escapes stack → Escapes (go_up false p stack)
unfolding go_up
go_up-Escapes p [] h = elim h [ ]
go_up-Escapes p (q ∷ stack) h =
    if_ind Escapes (is_dot_dot q) (λ _. h) (λ normal. pop-Escapes q stack normal h)

step-Escapes : (p : Bytes) (stack : List Bytes) → Escapes stack → Escapes (step false p stack)
step-Escapes p stack h =
    if_ind Escapes (is_empty p || is_dot p) (λ _. h)
      (λ _.
        if_ind Escapes (is_dot_dot p) (λ _. go_up-Escapes p stack h) (λ _. push-Escapes p stack h))

-- A path that has left its base directory does not come back.
clean_parts-Escapes :
    (parts stack : List Bytes) → Escapes stack → Escapes (clean_parts false parts stack)
unfolding clean_parts
clean_parts-Escapes [] stack h = h
clean_parts-Escapes (p ∷ parts) stack h =
    clean_parts-Escapes parts (step false p stack) (step-Escapes p stack h)

-- The relative stack leaves the base directory, or the rooted one is on top of the base's.
abbrev Moves : (base relative rooted : List Bytes) → Type 0
Moves base relative rooted = (Stays relative × (rooted ≡ relative ++ base)) ⊎ Escapes relative

go_up-Moves :
    (p : Bytes) (stack base : List Bytes)
    → is_dot_dot p ≡ true
    → Stays stack
    → Moves base (go_up false p stack) (go_up true p (stack ++ base))
unfolding go_up
go_up-Moves p [] base up stays = inr up
go_up-Moves p (q ∷ stack) base up stays =
    if_both (Moves base) (is_dot_dot q) (λ dots. elim (true≢false (sym dots ∙ stays.0)) [ ])
      (λ _. inl (stays.1, refl))

step-Moves :
    (p : Bytes) (stack base : List Bytes)
    → Stays stack
    → Moves base (step false p stack) (step true p (stack ++ base))
step-Moves p stack base stays =
    if_both (Moves base) (is_empty p || is_dot p) (λ _. inl (stays, refl))
      (λ _.
        if_both (Moves base) (is_dot_dot p) (λ up. go_up-Moves p stack base up stays)
          (λ down. inl ((down, stays), refl)))

clean_parts-Stays :
    (parts stack base : List Bytes)
    → Stays stack
    → ¬ Escapes (clean_parts false parts stack)
    → Stays (clean_parts false parts stack)
      × (clean_parts true parts (stack ++ base) ≡ clean_parts false parts stack ++ base)
unfolding clean_parts
clean_parts-Stays [] stack base stays inside = (stays, refl)
clean_parts-Stays (p ∷ parts) stack base stays inside = elim (step-Moves p stack base stays) [
  | inr escapes ↦ elim (inside (clean_parts-Escapes parts (step false p stack) escapes)) [ ]
  | inl (stays', same) ↦
      let (rest, joined) = clean_parts-Stays parts (step false p stack) base stays' inside in
      (rest, ap (clean_parts true parts) same ∙ joined)
]

Escapes-reverse :
    (stack : List Bytes)
    → Escapes stack
    → (p : Bytes) × (rest : List Bytes) × (reverse stack ≡ p ∷ rest) × (is_dot_dot p ≡ true)
Escapes-reverse [] h = elim h [ ]
Escapes-reverse (p ∷ []) h = (p, [], refl, h)
Escapes-reverse (p ∷ (q ∷ stack)) h =
    let (d, rest, same, dots) = Escapes-reverse (q ∷ stack) h in
    (
      d,
      rest ++ (p ∷ []),
      reverse-cons p (q ∷ stack) ∙ ap (λ (s : List Bytes). s ++ (p ∷ [])) same,
      dots,
    )

dot_dot-prefix :
    (rest : List Bytes)
    → has_dot_dot_prefix (dot_if_empty (join_parts ((46 ∷ 46 ∷ []) ∷ rest))) ≡ true
unfolding join_parts
dot_dot-prefix [] = refl
dot_dot-prefix (p ∷ rest) = refl

escaping_prefix :
    (stack : List Bytes)
    → Escapes stack
    → has_dot_dot_prefix (dot_if_empty (join_parts (reverse stack))) ≡ true
unfolding is_dot_dot
escaping_prefix stack h =
    let (p, rest, same, dots) = Escapes-reverse stack h in
    ap (λ (s : List Bytes). has_dot_dot_prefix (dot_if_empty (join_parts s)))
      (same ∙ ap (λ (q : Bytes). q ∷ rest) (bytes_eq→eq p (46 ∷ 46 ∷ []) dots))
    ∙ dot_dot-prefix rest

safe_prefix :
    (path : Bytes)
    → is_relative_path_safe path ≡ true
    → has_dot_dot_prefix (clean_relative path) ≡ false
unfolding is_relative_path_safe
safe_prefix path =
    if_ind (λ b. b ≡ true → has_dot_dot_prefix (clean_relative path) ≡ false) (is_empty path)
      (λ _ e. elim (true≢false (sym e)) [ ])
      (λ _.
        if_ind (λ b. b ≡ true → has_dot_dot_prefix (clean_relative path) ≡ false)
          (starts_with 47 path || starts_with 92 path) (λ _ e. elim (true≢false (sym e)) [ ])
          (λ _ e. not_true (has_dot_dot_prefix (clean_relative path)) e))
  where
    not_true : (b : Bool) → not b ≡ true → b ≡ false
    not_true b h = ground arith

pub parts_from-append :
    (part base path : Bytes)
    → parts_from part (base ++ (47 ∷ path)) ≡ parts_from part base ++ parts_from [] path
unfolding parts_from
parts_from-append part [] path = refl
parts_from-append part (c ∷ base) path =
    ap₂ (λ (x y : List Bytes). if c == 47 then part ∷ x else y) (parts_from-append [] base path)
      (parts_from-append (part ++ (c ∷ [])) base path)
    ∙ if_append (c == 47)
  where
    if_append :
        (b : Bool)
        → (if b
            then part ∷ (parts_from [] base ++ parts_from [] path)
            else parts_from (part ++ (c ∷ [])) base ++ parts_from [] path)
          ≡ (if b then part ∷ parts_from [] base else parts_from (part ++ (c ∷ [])) base)
            ++ parts_from [] path
    if_append true = refl
    if_append false = refl

pub clean_parts-append :
    (rooted : Bool) (xs ys stack : List Bytes)
    → clean_parts rooted (xs ++ ys) stack ≡ clean_parts rooted ys (clean_parts rooted xs stack)
unfolding clean_parts
clean_parts-append rooted [] ys stack = refl
clean_parts-append rooted (x ∷ xs) ys stack = clean_parts-append rooted xs ys (step rooted x stack)

reverse-Stays : (stack : List Bytes) → Stays stack → Stays (reverse stack)
reverse-Stays [] h = tt
reverse-Stays (p ∷ stack) h = subst Stays (sym (reverse-cons p stack)) (
    All-append (λ q. is_dot_dot q ≡ false) (reverse stack) (p ∷ []) (reverse-Stays stack h.1)
      (h.0, tt))

-- The parts of a directory, cleaned.
abbrev pub base_parts : Bytes → List Bytes
base_parts base = reverse (clean_parts true (parts_of base) [])

-- A relative path that Clean leaves without ".." in front stays below the directory.
pub joined_parts_below :
    (base path : Bytes)
    → has_dot_dot_prefix (clean_relative path) ≡ false
    → (rest : List Bytes) × (joined_parts base path ≡ base_parts base ++ rest) × Stays rest
unfolding joined_parts parts_of clean_relative
joined_parts_below base path stays_below =
    let inside : ¬ Escapes (clean_parts false (parts_of path) []) = λ escapes.
      true≢false
        (sym (escaping_prefix (clean_parts false (parts_of path) []) escapes) ∙ stays_below) in
    let root = clean_parts true (parts_of base) [] in
    let (stays, joined) = clean_parts-Stays (parts_of path) [] root tt inside in
    let relative = clean_parts false (parts_of path) [] in
    (
      reverse relative,
      ap reverse (
            ap (λ (parts : List Bytes). clean_parts true parts []) (parts_from-append [] base path)
            ∙ clean_parts-append true (parts_of base) (parts_of path) []
            ∙ joined)
          ∙ reverse-append relative root,
      reverse-Stays relative stays,
    )

-- A path that passes isRelativePathSafe, joined to a base directory and cleaned, has all the parts of the directory first, and no ".." behind them.
pub joined_parts-Stays :
    (base path : Bytes)
    → is_relative_path_safe path ≡ true
    → (rest : List Bytes) × (joined_parts base path ≡ base_parts base ++ rest) × Stays rest
joined_parts-Stays base path safe = joined_parts_below base path (safe_prefix path safe)
