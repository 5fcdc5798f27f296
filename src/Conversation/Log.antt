-- ===== src/Conversation/Log.antt =====
-- Messages that are added to a window stand in its session file, in order.
use mathlib.Core.List.{append_assoc, append-nil}
use kontekst.Prelude.{
  ◌≡◌, ◌⊎◌, inl, inr, refl, sym, ap, ap₂, subst, ◌∙◌, Bool, false, List, [], ◌∷◌, ◌++◌, Option,
  none, some, Bytes, ◌==◌, All, if◌then◌else◌,
}
use kontekst.Core.{Message, is_empty}
use kontekst.Conversation.File.{
  Opened, not_exist, open_error, contents, split_file_lines_from, split_file_lines,
}
use kontekst.Conversation.Lines.{split_append_newline}
use kontekst.Conversation.Tail.{parse_lines, file_messages}
use kontekst.Conversation.Scanning.{parse_lines-append}
use kontekst.Conversation.Window.{
  Window, Outcome, Appending, encoded, append_line, add_appended, add_message, with_messages,
  with_file,
}

-- A text that takes one line of a file.
abbrev pub IsLine : Bytes → Type 0
IsLine line = (is_empty line ≡ false) × All (λ c. (c == 10) ≡ false) line

-- The file can be written, and what it holds ends with the end of a line.
abbrev pub IsComplete : Opened → Type 0
IsComplete not_exist = Unit
IsComplete (open_error error) = ⊥
IsComplete (contents bytes) = (bytes ≡ []) ⊎ ((x : Bytes) × (bytes ≡ x ++ (10 ∷ [])))

split_plain :
    (line rest : Bytes)
    → All (λ c. (c == 10) ≡ false) rest
    → is_empty (line ++ rest) ≡ false
    → split_file_lines_from line (rest ++ (10 ∷ [])) ≡ (line ++ rest) ∷ []
unfolding split_file_lines_from
split_plain line [] plain some_line =
    ap (λ (b : Bool). if b then [] else line ∷ []) (ap is_empty (sym (append-nil line)) ∙ some_line)
    ∙ ap (λ (l : Bytes). l ∷ []) (sym (append-nil line))
split_plain line (c ∷ rest) plain some_line =
    let regroup : (line ++ (c ∷ [])) ++ rest ≡ line ++ (c ∷ rest) =
      append_assoc line (c ∷ []) rest in
    ap
      (λ (b : Bool).
        if b
        then if is_empty line
          then split_file_lines_from [] (rest ++ (10 ∷ []))
          else line ∷ split_file_lines_from [] (rest ++ (10 ∷ []))
        else split_file_lines_from (line ++ (c ∷ [])) (rest ++ (10 ∷ [])))
      plain.0
    ∙ split_plain (line ++ (c ∷ [])) rest plain.1 (ap is_empty regroup ∙ some_line)
    ∙ ap (λ (l : Bytes). l ∷ []) regroup

split_append_line :
    (bytes line : Bytes)
    → IsComplete (contents bytes)
    → IsLine line
    → split_file_lines (bytes ++ (line ++ (10 ∷ []))) ≡ split_file_lines bytes ++ (line ∷ [])
unfolding split_file_lines split_file_lines_from
split_append_line bytes line (inl empty) is_line =
    subst
      (λ (b : Bytes).
        split_file_lines (b ++ (line ++ (10 ∷ []))) ≡ split_file_lines b ++ (line ∷ []))
      (sym empty) (split_plain [] line is_line.1 is_line.0)
split_append_line bytes line (inr (x, ends)) is_line =
    subst
      (λ (b : Bytes).
        split_file_lines (b ++ (line ++ (10 ∷ []))) ≡ split_file_lines b ++ (line ∷ []))
      (sym ends)
      (ap (split_file_lines_from []) (append_assoc x (10 ∷ []) (line ++ (10 ∷ [])))
        ∙ split_append_newline [] x (line ++ (10 ∷ []))
        ∙ ap₂ (λ (ls ms : List Bytes). ls ++ ms)
            (sym (split_append_newline [] x [] ∙ append-nil (split_file_lines_from [] x)))
            (split_plain [] line is_line.1 is_line.0))

module _ (encode : Message → Appending) (parse : Bytes → Option Message) where
  -- The file can be opened for the message, which is written in one line and read back as it was.
  abbrev pub Recordable : Message → Type 0
  Recordable m = (line : Bytes) × (encode m ≡ encoded line) × IsLine line × (parse line ≡ some m)

  -- The messages that the session file holds.
  abbrev pub held : Opened → List Message
  held not_exist = []
  held (open_error error) = []
  held (contents bytes) = file_messages parse bytes

  parse_one :
      (m : Message) (line : Bytes)
      → IsLine line
      → parse line ≡ some m
      → parse_lines parse (line ∷ []) ≡ m ∷ []
  unfolding parse_lines
  parse_one m line is_line reads =
      ap₂
        (λ (b : Bool) (o : Option Message).
          if b then [] else elim o [ none ↦ [] | some n ↦ n ∷ [] ])
        is_line.0 reads

  held-append :
      (bytes : Bytes) (m : Message) (line : Bytes)
      → IsComplete (contents bytes)
      → IsLine line
      → parse line ≡ some m
      → file_messages parse (bytes ++ (line ++ (10 ∷ []))) ≡ file_messages parse bytes ++ (m ∷ [])
  unfolding file_messages
  held-append bytes m line complete is_line reads =
      ap (parse_lines parse) (split_append_line bytes line complete is_line)
      ∙ parse_lines-append parse (split_file_lines bytes) (line ∷ [])
      ∙ ap (λ (ms : List Message). parse_lines parse (split_file_lines bytes) ++ ms)
          (parse_one m line is_line reads)

  -- AddMessage for each message in turn, up to the first error.
  unfoldable pub add_messages : List Message → Window → Outcome
  add_messages [] cw = (cw, none)
  add_messages (m ∷ ms) cw =
      let (cw', error) = add_message encode m cw in
      elim error [ none ↦ add_messages ms cw' | some e ↦ (cw', some e) ]

  -- The window `cw'` is `cw` with these messages added.
  pub record Recorded (cw : Window) (ms : List Message) (cw' : Window) : Type 0 where
    pub history : cw'.history ≡ cw.history
    pub memory : cw'.memory ≡ cw.memory ++ ms
    pub file : held cw'.session_file ≡ held cw.session_file ++ ms
    pub complete : IsComplete cw'.session_file

  append_line-held :
      (file : Opened) (m : Message) (line : Bytes)
      → IsComplete file
      → IsLine line
      → parse line ≡ some m
      → ((append_line (encoded line) file).1 ≡ none)
        × (held (append_line (encoded line) file).0 ≡ held file ++ (m ∷ []))
        × IsComplete (append_line (encoded line) file).0
  unfolding append_line file_messages parse_lines split_file_lines split_file_lines_from
  append_line-held not_exist m line complete is_line reads =
      (refl, held-append [] m line (inl refl) is_line reads, inr (line, refl))
  append_line-held (contents bytes) m line complete is_line reads = (
    refl,
    held-append bytes m line complete is_line reads,
    inr (bytes ++ line, sym (append_assoc bytes line (10 ∷ []))),
  )
  append_line-held (open_error error) m line complete is_line reads = elim complete [ ]

  add_appended-Recorded :
      (m : Message) (cw : Window) (line : Bytes)
      → IsComplete cw.session_file
      → IsLine line
      → parse line ≡ some m
      → (cw' : Window) × (add_appended m cw (encoded line) ≡ (cw', none)) × Recorded cw (m ∷ []) cw'
  unfolding add_appended
  add_appended-Recorded m cw line complete is_line reads =
      let (written, holds, whole) =
        append_line-held cw.session_file m line complete is_line reads in
      let appended = with_file (append_line (encoded line) cw.session_file).0 cw in
      let cw' = with_messages appended.history (appended.memory ++ (m ∷ [])) appended in
      (
        cw',
        ap
            (λ (error : Option Bytes). elim error [
              | some e ↦ (appended, some e)
              | none ↦ (cw', none)
            ])
            written,
        record { history = refl; memory = refl; file = holds; complete = whole },
      )

  add_message-Recorded :
      (m : Message) (cw : Window)
      → IsComplete cw.session_file
      → Recordable m
      → (cw' : Window) × (add_message encode m cw ≡ (cw', none)) × Recorded cw (m ∷ []) cw'
  unfolding add_message
  add_message-Recorded m cw complete (line, writes, is_line, reads) =
      subst
        (λ (a : Appending).
          (cw' : Window) × (add_appended m cw a ≡ (cw', none)) × Recorded cw (m ∷ []) cw')
        (sym writes) (add_appended-Recorded m cw line complete is_line reads)

  -- Adding messages that Append writes in one line each, which parses to the message again, to a window whose file is missing or can be opened and is empty or ends with a newline, succeeds: the window then has them behind its memory, and its file holds them behind those it held.
  pub add_messages-Recorded :
      (ms : List Message) (cw : Window)
      → IsComplete cw.session_file
      → All Recordable ms
      → (cw' : Window) × (add_messages ms cw ≡ (cw', none)) × Recorded cw ms cw'
  unfolding add_messages
  add_messages-Recorded [] cw complete recordable = (
    cw,
    refl,
    record {
      history = refl;
      memory = sym (append-nil cw.memory);
      file = sym (append-nil (held cw.session_file));
      complete = complete;
    },
  )
  add_messages-Recorded (m ∷ ms) cw complete recordable =
      let (cw₁, added, one) = add_message-Recorded m cw complete recordable.0 in
      let (cw₂, rest_added, rest) = add_messages-Recorded ms cw₁ one.complete recordable.1 in
      (
        cw₂,
        ap
              (λ (out : Outcome). elim out.1 [
                | none ↦ add_messages ms out.0
                | some e ↦ (out.0, some e)
              ])
              added
            ∙ rest_added,
        record {
          history = rest.history ∙ one.history;
          memory =
              rest.memory
              ∙ ap (λ (ns : List Message). ns ++ ms) one.memory
              ∙ append_assoc cw.memory (m ∷ []) ms;
          file =
              rest.file
              ∙ ap (λ (ns : List Message). ns ++ ms) one.file
              ∙ append_assoc (held cw.session_file) (m ∷ []) ms;
          complete = rest.complete;
        },
      )
