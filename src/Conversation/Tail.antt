-- ===== src/Conversation/Tail.antt =====
-- What reading from the end gives: the longest run of newest messages that the budget allows, and
-- the newest message in any case.
use mathlib.Core.List.{append_assoc, reverse-cons}
use kontekst.Prelude.Int.{ℤ, ltb_ℤ, ◌+ℤ◌, ◌≤ℤ◌, int_laws}
use kontekst.Prelude.{
  ◌≤◌, ◌≡◌, ◌⊎◌, inl, inr, refl, sym, ap, subst, ◌∙◌, Bool, true, false, ◌&&◌, List, [], ◌∷◌, ◌++◌,
  reverse, Option, none, some, Bytes, length, if◌then◌else◌, if_ind, arith,
}
use kontekst.Core.{Message, is_empty, has_any, total_tokens}
use kontekst.Conversation.File.{Taken, take_message, split_file_lines}

-- Nothing is dropped, or the last message dropped would exceed the budget.
abbrev pub IsMaximal : ℤ → (dropped kept : List Message) → Type 0
IsMaximal budget dropped kept =
    (dropped ≡ [])
    ⊎ ((before : List Message) × (m : Message) × (dropped ≡ before ++ (m ∷ []))
        × (has_any kept ≡ true)
        × (ltb_ℤ budget (total_tokens kept +ℤ m.tokens) ≡ true))

pub record IsTail (budget : ℤ) (messages kept : List Message) : Type 0 where
  pub dropped : List Message
  pub parts : dropped ++ kept ≡ messages
  pub fits : (length kept ≤ 1) ⊎ (total_tokens kept ≤ℤ budget)
  pub maximal : IsMaximal budget dropped kept

module _ (parse : Bytes → Option Message) where
  -- The messages of lines that parse.
  unfoldable pub parse_lines : List Bytes → List Message
  parse_lines [] = []
  parse_lines (line ∷ lines) =
      let rest = parse_lines lines in
      if is_empty line then rest else elim (parse line) [ none ↦ rest | some msg ↦ msg ∷ rest ]

  -- The messages that a file with these bytes holds.
  unfoldable pub file_messages : Bytes → List Message
  file_messages bytes = parse_lines (split_file_lines bytes)

-- The tokens counted are those of the messages taken, which the budget allows.
abbrev pub IsCounted : ℤ → Taken → Type 0
IsCounted budget taken =
    (taken.tokens_used ≡ total_tokens taken.messages)
    × ((length taken.messages ≤ 1) ⊎ (total_tokens taken.messages ≤ℤ budget))

abbrev pub exceeds_any : ℤ → Message → Taken → Bool
exceeds_any budget m taken = ltb_ℤ budget (taken.tokens_used +ℤ m.tokens) && has_any taken.messages

-- The same loop over messages, the newest first.
unfoldable pub take_newest : ℤ → List Message → Taken → Taken
take_newest budget [] taken = taken
take_newest budget (m ∷ ms) taken =
    let added = take_newest budget ms (take_message m taken) in
    if exceeds_any budget m taken then taken else added

rev_shift :
    (m : Message) (ms kept : List Message) → reverse (m ∷ ms) ++ kept ≡ reverse ms ++ (m ∷ kept)
rev_shift m ms kept =
    ap (λ (z : List Message). z ++ kept) (reverse-cons m ms)
    ∙ append_assoc (reverse ms) (m ∷ []) kept

and_true : (a : Bool) → a && true ≡ false → a ≡ false
and_true a h = ground arith

and_parts : (a b : Bool) → a && b ≡ true → (a ≡ true) × (b ≡ true)
and_parts a b h = ground arith

ltb_ℤ_false : (a b : ℤ) → ltb_ℤ a b ≡ false → b ≤ℤ a
ltb_ℤ_false a b h = ground arith

add_comm : (a b : ℤ) → a +ℤ b ≡ b +ℤ a
add_comm a b = omega int_laws

fits_more :
    (budget tokens : ℤ) (m : Message) (kept : List Message)
    → tokens ≡ total_tokens kept
    → ltb_ℤ budget (tokens +ℤ m.tokens) && has_any kept ≡ false
    → (length (m ∷ kept) ≤ 1) ⊎ (total_tokens (m ∷ kept) ≤ℤ budget)
unfolding total_tokens
fits_more budget tokens m [] same h = inl (omega arith)
fits_more budget tokens m (k ∷ ks) same h = inr (
    subst (λ (t : ℤ). t ≤ℤ budget) (add_comm tokens m.tokens ∙ ap (λ (t : ℤ). m.tokens +ℤ t) same)
      (ltb_ℤ_false budget (tokens +ℤ m.tokens) (and_true (ltb_ℤ budget (tokens +ℤ m.tokens)) h)))

take_message-IsCounted :
    (budget : ℤ) (m : Message) (taken : Taken)
    → IsCounted budget taken
    → exceeds_any budget m taken ≡ false
    → IsCounted budget (take_message m taken)
unfolding take_message total_tokens
take_message-IsCounted budget m taken h allowed = (
  add_comm taken.tokens_used m.tokens ∙ ap (λ (t : ℤ). m.tokens +ℤ t) h.0,
  fits_more budget taken.tokens_used m taken.messages h.0 allowed,
)

pub take_newest-IsTail :
    (budget : ℤ) (ms : List Message) (taken : Taken)
    → IsCounted budget taken
    → IsTail budget (reverse ms ++ taken.messages) (take_newest budget ms taken).messages
unfolding take_newest take_message
take_newest-IsTail budget [] taken h = record {
  dropped = [];
  parts = refl;
  fits = h.1;
  maximal = inl refl;
}
take_newest-IsTail budget (m ∷ ms) taken h =
    if_ind (λ (out : Taken). IsTail budget (reverse (m ∷ ms) ++ taken.messages) out.messages)
      (exceeds_any budget m taken)
      (λ stop.
        let over =
          and_parts (ltb_ℤ budget (taken.tokens_used +ℤ m.tokens)) (has_any taken.messages) stop in
        record {
          dropped = reverse (m ∷ ms);
          parts = refl;
          fits = h.1;
          maximal = inr (
            reverse ms,
            m,
            reverse-cons m ms,
            over.1,
            subst (λ (t : ℤ). ltb_ℤ budget (t +ℤ m.tokens) ≡ true) h.0 over.0,
          );
        })
      (λ allowed.
        subst
          (λ (z : List Message).
            IsTail budget z (take_newest budget ms (take_message m taken)).messages)
          (sym (rev_shift m ms taken.messages))
          (take_newest-IsTail budget ms (take_message m taken)
            (take_message-IsCounted budget m taken h allowed)))
