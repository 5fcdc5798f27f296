-- ===== src/Conversation/Scanning.antt =====
-- Scanning the lines of a chunk is taking the messages that they hold, and scanning goes on from
-- chunk to chunk.
use mathlib.Core.List.{reverse-cons, append-nil, reverse-reverse}
use kontekst.Prelude.Int.{ℤ, pos}
use kontekst.Prelude.{
  ◌≡◌, refl, sym, ap, subst, ◌∙◌, Bool, true, false, List, [], ◌∷◌, ◌++◌, reverse, Option, none,
  some, Bytes, if◌then◌else◌, arith, inl,
}
use kontekst.Core.{Message, is_empty, total_tokens}
use kontekst.Conversation.File.{
  Taken, Scan, full, more, take_message, exceeds, scan_lines, split_file_lines,
}
use kontekst.Conversation.Tail.{
  IsTail, parse_lines, file_messages, exceeds_any, take_newest, take_newest-IsTail,
}

abbrev pub taken_of : Scan → Taken
taken_of (full taken) = taken
taken_of (more taken) = taken

-- Scanning goes on unless the budget is full.
abbrev pub and_then : Scan → (Taken → Scan) → Scan
and_then (full taken) next = full taken
and_then (more taken) next = next taken

module _ (parse : Bytes → Option Message) (budget : ℤ) where
  -- One line, with what it parses to.
  taken_step :
      (blank : Bool) (parsed : Option Message) (taken : Taken) (skipped : Scan)
      (added : Message → Scan) (ms : List Message)
      → taken_of skipped ≡ take_newest budget ms taken
      → ((m : Message) → taken_of (added m) ≡ take_newest budget ms (take_message m taken))
      → taken_of (
          if blank then skipped else elim parsed [
            | none ↦ skipped
            | some m ↦ if exceeds_any budget m taken then full taken else added m
          ])
        ≡ take_newest budget
            (if blank then ms else elim parsed [ none ↦ ms | some m ↦ m ∷ ms ])
            taken
  unfolding take_newest
  taken_step true parsed taken skipped added ms h hs = h
  taken_step false none taken skipped added ms h hs = h
  taken_step false (some m) taken skipped added ms h hs =
      branch (exceeds_any budget m taken) _ _ (hs m)
    where
      branch :
          (b : Bool) (t : Taken) (s : Scan)
          → taken_of s ≡ t
          → taken_of (if b then full taken else s) ≡ (if b then taken else t)
      branch true _ _ e = refl
      branch false _ _ e = e

  scan_lines-taken :
      (lines : List Bytes) (taken : Taken)
      → taken_of (scan_lines parse budget lines taken)
        ≡ take_newest budget (parse_lines parse lines) taken
  unfolding scan_lines parse_lines exceeds take_newest
  scan_lines-taken [] taken = refl
  scan_lines-taken (line ∷ lines) taken =
      taken_step (is_empty line) (parse line) taken (scan_lines parse budget lines taken)
        (λ m. scan_lines parse budget lines (take_message m taken)) (parse_lines parse lines)
        (scan_lines-taken lines taken) (λ m. scan_lines-taken lines (take_message m taken))

  then_step :
      (blank : Bool) (parsed : Option Message) (taken : Taken) (skipped skipped' : Scan)
      (added added' : Message → Scan) (next : Taken → Scan)
      → skipped ≡ and_then skipped' next
      → ((m : Message) → added m ≡ and_then (added' m) next)
      → (if blank then skipped else elim parsed [
        | none ↦ skipped
        | some m ↦ if exceeds_any budget m taken then full taken else added m
      ])
        ≡ and_then
            (if blank then skipped' else elim parsed [
              | none ↦ skipped'
              | some m ↦ if exceeds_any budget m taken then full taken else added' m
            ])
            next
  then_step true parsed taken skipped skipped' added added' next h hs = h
  then_step false none taken skipped skipped' added added' next h hs = h
  then_step false (some m) taken skipped skipped' added added' next h hs =
      branch (exceeds_any budget m taken) _ _ (hs m)
    where
      branch :
          (b : Bool) (s s' : Scan)
          → s ≡ and_then s' next
          → (if b then full taken else s) ≡ and_then (if b then full taken else s') next
      branch true _ _ e = refl
      branch false _ _ e = e

  pub scan_lines-append :
      (xs ys : List Bytes) (taken : Taken)
      → scan_lines parse budget (xs ++ ys) taken
        ≡ and_then (scan_lines parse budget xs taken) (scan_lines parse budget ys)
  unfolding scan_lines exceeds
  scan_lines-append [] ys taken = refl
  scan_lines-append (line ∷ lines) ys taken =
      then_step (is_empty line) (parse line) taken (scan_lines parse budget (lines ++ ys) taken)
        (scan_lines parse budget lines taken)
        (λ m. scan_lines parse budget (lines ++ ys) (take_message m taken))
        (λ m. scan_lines parse budget lines (take_message m taken)) (scan_lines parse budget ys)
        (scan_lines-append lines ys taken) (λ m. scan_lines-append lines ys (take_message m taken))

module _ (parse : Bytes → Option Message) where
  parsed_append :
      (blank : Bool) (parsed : Option Message) (ms ns : List Message)
      → (if blank then ms ++ ns else elim parsed [ none ↦ ms ++ ns | some m ↦ m ∷ (ms ++ ns) ])
        ≡ (if blank then ms else elim parsed [ none ↦ ms | some m ↦ m ∷ ms ]) ++ ns
  parsed_append true parsed ms ns = refl
  parsed_append false none ms ns = refl
  parsed_append false (some m) ms ns = refl

  pub parse_lines-append :
      (xs ys : List Bytes)
      → parse_lines parse (xs ++ ys) ≡ parse_lines parse xs ++ parse_lines parse ys
  unfolding parse_lines
  parse_lines-append [] ys = refl
  parse_lines-append (line ∷ lines) ys =
      ap
        (λ (ms : List Message).
          if is_empty line then ms else elim (parse line) [ none ↦ ms | some m ↦ m ∷ ms ])
        (parse_lines-append lines ys)
      ∙ parsed_append (is_empty line) (parse line) (parse_lines parse lines) (parse_lines parse ys)

  parse_lines-reverse :
      (lines : List Bytes) → parse_lines parse (reverse lines) ≡ reverse (parse_lines parse lines)
  unfolding parse_lines
  parse_lines-reverse [] = refl
  parse_lines-reverse (line ∷ lines) =
      ap (parse_lines parse) (reverse-cons line lines)
      ∙ parse_lines-append (reverse lines) (line ∷ [])
      ∙ ap (λ (ms : List Message). ms ++ parse_lines parse (line ∷ [])) (parse_lines-reverse lines)
      ∙ last_step (is_empty line) (parse line) (parse_lines parse lines)
    where
      last_step :
          (blank : Bool) (parsed : Option Message) (ms : List Message)
          → reverse ms ++ (if blank then [] else elim parsed [ none ↦ [] | some m ↦ m ∷ [] ])
            ≡ reverse (if blank then ms else elim parsed [ none ↦ ms | some m ↦ m ∷ ms ])
      last_step true parsed ms = append-nil (reverse ms)
      last_step false none ms = append-nil (reverse ms)
      last_step false (some m) ms = sym (reverse-cons m ms)

-- The lines of a whole file, scanned at once from the last to the first.
unfoldable pub scan_all : (Bytes → Option Message) → ℤ → Bytes → Scan
scan_all parse budget bytes =
    scan_lines parse budget (reverse (split_file_lines bytes))
      (record { messages = []; tokens_used = pos 0 })

pub scan_all-IsTail :
    (parse : Bytes → Option Message) (budget : ℤ) (bytes : Bytes)
    → IsTail budget (file_messages parse bytes) (taken_of (scan_all parse budget bytes)).messages
unfolding file_messages scan_all total_tokens
scan_all-IsTail parse budget bytes =
    let start : Taken = record { messages = []; tokens_used = pos 0 } in
    let lines = split_file_lines bytes in
    subst
      (λ (ms : List Message).
        IsTail budget ms (taken_of (scan_lines parse budget (reverse lines) start)).messages)
      (append-nil (reverse (parse_lines parse (reverse lines)))
        ∙ ap reverse (parse_lines-reverse parse lines)
        ∙ reverse-reverse (parse_lines parse lines))
      (subst
        (λ (t : Taken).
          IsTail budget (reverse (parse_lines parse (reverse lines)) ++ []) t.messages)
        (sym (scan_lines-taken parse budget (reverse lines) start))
        (take_newest-IsTail budget (parse_lines parse (reverse lines)) start
          (refl, inl (omega arith))))
