-- ===== src/Conversation/Loading.antt =====
-- LoadTail over the chunks of a file: it reads what one scan of all its lines reads, where no chunk
-- begins with the end of a line.
use mathlib.Core.List.{append_assoc, append-nil, reverse-append}
use kontekst.Prelude.Int.{ℤ, pos}
use kontekst.Prelude.{
  ℕ, zero, suc, min, ◌+◌, ◌-◌, ◌*◌, ◌≤◌, ◌<◌, ◌≡◌, refl, sym, ap, ap₂, subst, ltb→lt, ◌∙◌, Bool,
  List, [], ◌∷◌, ◌++◌, reverse, Option, Bytes, length, take, drop, ltb, if◌then◌else◌, Bool-cases,
  inl, inr, arith, lt→ltb,
}
use kontekst.Core.{Message}
use kontekst.Conversation.File.{
  Taken, Scan, full, more, scan_lines, finish, carry, read_chunks, load_messages, split_file_lines,
  split_file_lines_from,
}
use kontekst.Conversation.Lines.{InLine, split-place}
use kontekst.Conversation.Tail.{IsTail, file_messages}
use kontekst.Conversation.Scanning.{taken_of, scan_lines-append, scan_all, scan_all-IsTail}
use kontekst.Conversation.Breaks.{
  NoBreak, take_all, mul_suc, not_below, not_both, take_split, InLine-take, elim_scan,
}

module _ (parse : Bytes → Option Message) (budget : ℤ) (chunk_size : ℕ) (bytes : Bytes) where
  -- What is left to read: the bytes in front of `remaining`, and the line carried over.
  abbrev scan_rest : ℕ → Bytes → Taken → Scan
  scan_rest remaining carryover taken =
      scan_lines parse budget (reverse (split_file_lines (take remaining bytes ++ carryover))) taken

  read_chunks-end :
      (fuel : ℕ) (taken : Taken)
      → read_chunks parse budget fuel chunk_size bytes 0 [] taken ≡ taken.messages
  unfolding read_chunks finish
  read_chunks-end zero taken = refl
  read_chunks-end (suc fuel) taken = refl

  abbrev read_from : (fuel offset : ℕ) → Taken → Bytes × List Bytes → List Message
  read_from fuel offset taken carried = elim (scan_lines parse budget (reverse carried.1) taken) [
    | full taken' ↦ taken'.messages
    | more taken' ↦ read_chunks parse budget fuel chunk_size bytes offset carried.0 taken'
  ]

  carry_zero : (lines : List Bytes) → carry parse budget 0 lines ≡ ([], lines)
  unfolding carry
  carry_zero [] = refl
  carry_zero (line ∷ lines) = refl

  read_first :
      (fuel : ℕ) (s : Scan)
      → elim s [
        | full taken' ↦ taken'.messages
        | more taken' ↦ read_chunks parse budget fuel chunk_size bytes 0 [] taken'
      ]
        ≡ (taken_of s).messages
  read_first fuel (full taken) = refl
  read_first fuel (more taken) = read_chunks-end fuel taken

  -- The last round reads the start of the file, with no line to carry over.
  read_last :
      (fuel : ℕ) (taken : Taken) (chunk : Bytes)
      → read_from fuel 0 taken (carry parse budget 0 (split_file_lines chunk))
        ≡ (taken_of (scan_lines parse budget (reverse (split_file_lines chunk)) taken)).messages
  read_last fuel taken chunk =
      ap (read_from fuel 0 taken) (carry_zero (split_file_lines chunk))
      ∙ read_first fuel (scan_lines parse budget (reverse (split_file_lines chunk)) taken)

  carry_some :
      (offset : ℕ) (line : Bytes) (lines : List Bytes)
      → 0 < offset
      → carry parse budget offset (line ∷ lines) ≡ (line, lines)
  unfolding carry
  carry_some offset line lines h =
      ap (λ (b : Bool). if b then (line, lines) else ([], line ∷ lines)) (lt→ltb 0 offset h)

  -- Any other round: the first line of the chunk is carried over to the rest.
  read_next :
      (fuel offset : ℕ) (taken : Taken) (chunk : Bytes)
      → 0 < offset
      → InLine chunk
      → ((line : Bytes) (taken' : Taken)
          → read_chunks parse budget fuel chunk_size bytes offset line taken'
            ≡ (taken_of (scan_rest offset line taken')).messages)
      → read_from fuel offset taken (carry parse budget offset (split_file_lines chunk))
        ≡ (taken_of (scan_rest offset chunk taken)).messages
  read_next fuel offset taken chunk inside in_line rest_read =
      let (h, rest, some_line, here, joined) = split-place chunk in_line in
      ap (λ (lines : List Bytes). read_from fuel offset taken (carry parse budget offset lines))
        here
      ∙ ap (read_from fuel offset taken) (carry_some offset h rest inside)
      ∙ elim_scan (scan_lines parse budget (reverse rest) taken)
          (λ t. read_chunks parse budget fuel chunk_size bytes offset h t)
          (λ t. scan_rest offset h t) (rest_read h)
      ∙ ap (λ (s : Scan). (taken_of s).messages)
          (sym (
            scan_lines-append parse budget (reverse rest)
              (reverse (split_file_lines (take offset bytes ++ h))) taken))
      ∙ ap (λ (lines : List Bytes). (taken_of (scan_lines parse budget lines taken)).messages)
          (sym (reverse-append (split_file_lines (take offset bytes ++ h)) rest)
            ∙ ap reverse (sym (joined (take offset bytes))))

  read_ended :
      (fuel remaining : ℕ) (carryover : Bytes) (taken : Taken)
      → remaining ≡ 0
      → carryover ≡ []
      → read_chunks parse budget fuel chunk_size bytes remaining carryover taken
        ≡ (taken_of (scan_rest remaining carryover taken)).messages
  unfolding split_file_lines split_file_lines_from scan_lines
  read_ended fuel remaining carryover taken none_left no_line =
      ap₂ (λ (r : ℕ) (line : Bytes). read_chunks parse budget fuel chunk_size bytes r line taken)
        none_left no_line
      ∙ read_chunks-end fuel taken
      ∙ ap₂ (λ (r : ℕ) (line : Bytes). (taken_of (scan_rest r line taken)).messages) (sym none_left)
          (sym no_line)

  chunk_at : (offset read_size : ℕ) → Bytes → Bytes
  chunk_at offset read_size carryover = take read_size (drop offset bytes) ++ carryover

  put_back :
      (offset read_size remaining : ℕ) (carryover : Bytes)
      → offset + read_size ≡ remaining
      → take offset bytes ++ chunk_at offset read_size carryover ≡ take remaining bytes ++ carryover
  unfolding chunk_at
  put_back offset read_size remaining carryover h =
      sym (append_assoc (take offset bytes) (take read_size (drop offset bytes)) carryover)
      ∙ ap (λ (xs : Bytes). xs ++ carryover)
          (sym (take_split offset read_size bytes) ∙ ap (λ (n : ℕ). take n bytes) h)

  chunk-InLine :
      (k offset read_size : ℕ) (carryover : Bytes)
      → NoBreak chunk_size bytes
      → 0 < read_size
      → 0 < offset
      → offset ≡ length bytes - suc k * chunk_size
      → InLine (chunk_at offset read_size carryover)
  unfolding chunk_at
  chunk-InLine k offset zero carryover clear some_size inside at = elim (not_below some_size) [ ]
  chunk-InLine k offset (suc n) carryover clear some_size inside at =
      InLine-take n (drop offset bytes) carryover (
        subst (λ (o : ℕ). InLine (drop o bytes)) (sym at)
          (clear (suc k) (omega arith) (omega arith)))

  -- One round, whatever its place.
  read_round :
      (fuel k offset read_size remaining : ℕ) (carryover : Bytes) (taken : Taken)
      → NoBreak chunk_size bytes
      → 0 < read_size
      → offset + read_size ≡ remaining
      → (0 < offset → offset ≡ length bytes - suc k * chunk_size)
      → (0 < offset
          → (line : Bytes) (taken' : Taken)
          → read_chunks parse budget fuel chunk_size bytes offset line taken'
            ≡ (taken_of (scan_rest offset line taken')).messages)
      → read_from fuel offset taken
          (carry parse budget offset (split_file_lines (chunk_at offset read_size carryover)))
        ≡ (taken_of (scan_rest remaining carryover taken)).messages
  read_round fuel k zero read_size remaining carryover taken clear some_size whole at rest_read =
      read_last fuel taken (chunk_at 0 read_size carryover)
      ∙ ap
          (λ (piece : Bytes).
            (taken_of (scan_lines parse budget (reverse (split_file_lines piece)) taken)).messages)
          (put_back 0 read_size remaining carryover whole)
  read_round fuel k (suc o) read_size remaining carryover taken clear some_size whole at rest_read =
      let inside : 0 < suc o = omega arith in
      read_next fuel (suc o) taken (chunk_at (suc o) read_size carryover) inside
        (chunk-InLine k (suc o) read_size carryover clear some_size inside (at inside))
        (rest_read inside)
      ∙ ap
          (λ (piece : Bytes).
            (taken_of (scan_lines parse budget (reverse (split_file_lines piece)) taken)).messages)
          (put_back (suc o) read_size remaining carryover whole)

  read_chunks-scan :
      (fuel k remaining : ℕ) (carryover : Bytes) (taken : Taken)
      → 0 < chunk_size
      → NoBreak chunk_size bytes
      → remaining ≤ fuel
      → remaining ≡ length bytes - k * chunk_size
      → (remaining ≡ 0 → carryover ≡ [])
      → read_chunks parse budget fuel chunk_size bytes remaining carryover taken
        ≡ (taken_of (scan_rest remaining carryover taken)).messages
  unfolding read_chunks chunk_at
  read_chunks-scan zero k remaining carryover taken some_size clear enough at none_left =
      let ended : remaining ≡ 0 = omega arith in
      read_ended zero remaining carryover taken ended (none_left ended)
  read_chunks-scan (suc fuel) k remaining carryover taken some_size clear enough at none_left =
      elim (Bool-cases (ltb 0 remaining)) [
        | inr ended ↦
            let over : remaining ≡ 0 = ground arith in
            read_ended (suc fuel) remaining carryover taken over (none_left over)
        | inl goes_on ↦
            let left : 0 < remaining = ltb→lt 0 remaining goes_on in
            let read_size = min chunk_size remaining in
            let next_at : 0 < remaining - read_size
                → remaining - read_size ≡ length bytes - suc k * chunk_size =
              λ inside. omega (arith, mul_suc k chunk_size) in
            ap
              (λ (b : Bool).
                if b
                then read_from fuel (remaining - read_size) taken (
                    carry parse budget (remaining - read_size)
                      (split_file_lines (chunk_at (remaining - read_size) read_size carryover)))
                else finish parse budget carryover taken)
              goes_on
            ∙ read_round fuel k (remaining - read_size) read_size remaining carryover taken clear
                (omega arith) (omega arith) next_at
                (λ inside line taken'.
                  read_chunks-scan fuel (suc k) (remaining - read_size) line taken' some_size clear
                    (omega arith) (next_at inside) (λ none. elim (not_both inside none) [ ]))
      ]

-- LoadTail returns the longest run of newest messages of the file that the budget allows, and the newest message in any case, where no chunk but the first of the file begins with a newline.
pub load_messages-IsTail :
    (parse : Bytes → Option Message) (budget : ℤ) (chunk_size : ℕ) (bytes : Bytes)
    → 0 < chunk_size
    → NoBreak chunk_size bytes
    → IsTail budget (file_messages parse bytes) (load_messages parse budget chunk_size bytes)
unfolding load_messages scan_all
load_messages-IsTail parse budget chunk_size bytes some_size clear =
    subst (λ (ms : List Message). IsTail budget (file_messages parse bytes) ms)
      (sym (
        read_chunks-scan parse budget chunk_size bytes (length bytes) 0 (length bytes) []
          (record { messages = []; tokens_used = pos 0 }) some_size clear (omega arith)
          (omega arith) (λ _. refl)
        ∙ ap
            (λ (piece : Bytes).
              (taken_of (
                scan_lines parse budget (reverse (split_file_lines piece))
                  (record { messages = []; tokens_used = pos 0 }))).messages)
            (append-nil (take (length bytes) bytes) ∙ take_all bytes)))
      (scan_all-IsTail parse budget bytes)
