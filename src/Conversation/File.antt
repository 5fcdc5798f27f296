-- ===== src/Conversation/File.antt =====
-- The session file of internal/conversation/file.go: one JSON text in each line, read from the end.
-- `parse` stands for json.Unmarshal into a Message; `none` is its error.
use kontekst.Prelude.Int.{ℤ, pos, ltb_ℤ, ◌+ℤ◌}
use kontekst.Prelude.{
  ℕ, zero, suc, ◌-◌, min, Bool, not, ◌&&◌, ◌||◌, List, [], ◌∷◌, ◌++◌, reverse, Option, none, some,
  Bytes, codes, length, take, drop, ltb, ◌==◌, if◌then◌else◌,
}
use kontekst.Core.{Message, is_empty, has_any}

-- 8 * 1024
abbrev pub default_chunk_size : ℕ
default_chunk_size = 8192

-- The loop of splitLines; `line` is data[start:i].
unfoldable pub split_file_lines_from : (line : Bytes) → Bytes → List Bytes
split_file_lines_from line [] = if is_empty line then [] else line ∷ []
split_file_lines_from line (c ∷ bytes) =
    let same = split_file_lines_from (line ++ (c ∷ [])) bytes in
    let fresh = split_file_lines_from [] bytes in
    if c == 10 then if is_empty line then fresh else line ∷ fresh else same

unfoldable pub split_file_lines : Bytes → List Bytes
split_file_lines bytes = split_file_lines_from [] bytes

-- The messages read so far and their tokens. The source appends and reverses at the end; here the
-- messages stand in the order in which it returns them.
pub record Taken : Type 0 where
  pub messages : List Message
  pub tokens_used : ℤ

-- A full budget ends the function; otherwise the loops go on.
pub data Scan : Type 0 where
  full more : Taken → Scan

unfoldable pub take_message : Message → Taken → Taken
take_message msg taken = record {
  messages = msg ∷ taken.messages;
  tokens_used = taken.tokens_used +ℤ msg.tokens;
}

-- What the file system gives for the path: no file, an error, or the bytes of the file.
pub data Opened : Type 0 where
  not_exist : Opened
  open_error : Bytes → Opened
  contents : Bytes → Opened

pub data Loaded : Type 0 where
  loaded : List Message → Loaded
  load_error : Bytes → Loaded

module _ (parse : Bytes → Option Message) (token_budget : ℤ) where
  unfoldable pub exceeds : Message → Taken → Bool
  exceeds msg taken = ltb_ℤ token_budget (taken.tokens_used +ℤ msg.tokens)

  -- The loop over the lines of one chunk, the last line first.
  unfoldable pub scan_lines : List Bytes → Taken → Scan
  scan_lines [] taken = more taken
  scan_lines (line ∷ lines) taken =
      let skipped = scan_lines lines taken in
      if is_empty line then skipped else elim (parse line) [
        | none ↦ skipped
        | some msg ↦
            let added = scan_lines lines (take_message msg taken) in
            if exceeds msg taken && has_any taken.messages then full taken else added
      ]

  -- Behind the loop over the chunks: a line that is left over.
  unfoldable pub finish : (carryover : Bytes) → Taken → List Message
  finish carryover taken = if is_empty carryover then taken.messages else elim (parse carryover) [
    | none ↦ taken.messages
    | some msg ↦
        if not (exceeds msg taken) || not (has_any taken.messages)
        then msg ∷ taken.messages
        else taken.messages
  ]

  -- The lines of a chunk without the first, which may go on in the chunk before, and that first line.
  unfoldable pub carry : (offset : ℕ) → List Bytes → Bytes × List Bytes
  carry offset [] = ([], [])
  carry offset (line ∷ lines) = if ltb 0 offset then (line, lines) else ([], line ∷ lines)

  -- The loop over the chunks of `chunk_size` bytes, on fuel.
  unfoldable pub read_chunks :
      (fuel chunk_size : ℕ) (bytes : Bytes) (remaining : ℕ) (carryover : Bytes)
      → Taken
      → List Message
  read_chunks zero chunk_size bytes remaining carryover taken = finish carryover taken
  read_chunks (suc fuel) chunk_size bytes remaining carryover taken =
      let read_size = min chunk_size remaining in
      let offset = remaining - read_size in
      let chunk = take read_size (drop offset bytes) ++ carryover in
      let carried = carry offset (split_file_lines chunk) in
      let scanned : List Message = elim (scan_lines (reverse carried.1) taken) [
        | full taken' ↦ taken'.messages
        | more taken' ↦ read_chunks fuel chunk_size bytes offset carried.0 taken'
      ] in
      if ltb 0 remaining then scanned else finish carryover taken

  -- The messages of a file with these bytes; each round of the loop reads at least one byte.
  unfoldable pub load_messages : (chunk_size : ℕ) → Bytes → List Message
  load_messages chunk_size bytes =
      read_chunks (length bytes) chunk_size bytes (length bytes) []
        (record { messages = []; tokens_used = pos 0 })

  unfoldable pub load_tail : Opened → Loaded
  load_tail not_exist = loaded []
  load_tail (open_error error) = load_error (codes "session file: open for read: " ++ error)
  load_tail (contents bytes) = loaded (load_messages default_chunk_size bytes)
