-- ===== src/Conversation/Tests.antt =====
-- A session file whose lines are the texts of user messages, read in small chunks.
use kontekst.Prelude.Int.{pos, ◌+ℤ◌, ◌≤ℤ◌}
use kontekst.Prelude.{
  ℕ, zero, suc, ◌≤◌, ◌<◌, ◌*◌, ◌≡◌, ◌⊎◌, refl, List, [], ◌∷◌, ◌++◌, Option, none, some, Bytes,
  codes, length, arith, inr,
}
use kontekst.Core.{user, Message, total_tokens}
use kontekst.Conversation.File.{
  contents, split_file_lines, split_file_lines_from, scan_lines, exceeds, take_message, finish,
  carry, read_chunks, load_messages,
}
use kontekst.Conversation.Window.{
  Window, BudgetParams, new_window, with_messages, set_params, start_run, complete_run, append_line,
  Appending, encoded, add_appended, add_message, build_context, history_budget_of, quote,
  quote_byte, quote_bytes,
}
use kontekst.Conversation.Snapshot.{snapshot}
use kontekst.Conversation.Tail.{IsTail, file_messages}
use kontekst.Conversation.Breaks.{NoBreak}
use kontekst.Conversation.Loading.{load_messages-IsTail}
use kontekst.Conversation.Counts.{roles, stats_roles, stats_tokens, snapshot-build_context}
use kontekst.Conversation.Log.{held, add_messages, Recorded, add_messages-Recorded}
use kontekst.Conversation.Runs.{add_messages-start_run, start_run-fits}

abbrev says : Bytes → Message
says content = record {
  role = user;
  content = content;
  tool_calls = [];
  tool_result = none;
  agent_name = [];
  tokens = pos (length content);
}

abbrev decode : Bytes → Option Message
decode line = some (says line)

abbrev encode_text : Message → Appending
encode_text m = encoded m.content

none_below : {n : ℕ} → ¬ (n < 0)
none_below h = omega arith

-- "ab\ncd\nef\n"
abbrev log : Bytes
log = codes "ab" ++ (10 ∷ codes "cd") ++ (10 ∷ codes "ef") ++ (10 ∷ [])

abbrev contents_of : List Message → List Bytes
contents_of [] = []
contents_of (m ∷ ms) = m.content ∷ contents_of ms

small_chunks : contents_of (load_messages decode (pos 4) 3 log) ≡ codes "cd" ∷ codes "ef" ∷ []
unfolding load_messages read_chunks finish carry scan_lines exceeds take_message split_file_lines
    split_file_lines_from ◌+ℤ◌
small_chunks = refl

-- The second chunk from the end is "\nef\n": the lines in front of it and behind it become one.
glued : contents_of (load_messages decode (pos 100) 4 log) ≡ codes "ab" ∷ codes "cdef" ∷ []
unfolding load_messages read_chunks finish carry scan_lines exceeds take_message split_file_lines
    split_file_lines_from ◌+ℤ◌
glued = refl

past_end : (k : ℕ) → ¬ (suc (suc (suc k)) * 3 < 9)
past_end k h = omega arith

log-NoBreak : NoBreak 3 log
log-NoBreak zero below some_k = elim (none_below some_k) [ ]
log-NoBreak (suc zero) below some_k = refl
log-NoBreak (suc (suc zero)) below some_k = refl
log-NoBreak (suc (suc (suc k))) below some_k = elim (past_end k below) [ ]

load_messages-IsTail_example :
    IsTail (pos 4) (file_messages decode log) (load_messages decode (pos 4) 3 log)
load_messages-IsTail_example = load_messages-IsTail decode (pos 4) 3 log (omega arith) log-NoBreak

abbrev params : BudgetParams
params = record {
  context_size = pos 20;
  system_content = codes "be brief";
  system_tokens = pos 3;
  tool_tokens = pos 4;
  user_prompt_tokens = pos 2;
}

abbrev news : List Message
news = says (codes "gh") ∷ says (codes "ij") ∷ []

abbrev window : Window
window = new_window (contents log)

add_messages-Recorded_example :
    (cw' : Window) × (add_messages encode_text decode news window ≡ (cw', none))
    × Recorded encode_text decode window news cw'
add_messages-Recorded_example =
    add_messages-Recorded encode_text decode news window
      (inr (codes "ab" ++ (10 ∷ codes "cd") ++ (10 ∷ codes "ef"), refl))
      (
        (codes "gh", refl, (refl, (refl, (refl, tt))), refl),
        ((codes "ij", refl, (refl, (refl, (refl, tt))), refl), tt),
      )

short : (n : ℕ) → n < 100 → (k : ℕ) → k * 8192 < n → 0 < k → ⊥
short n h k below some_k = omega arith

add_messages-start_run_example :
    (history : List Message) × (start_run decode params
        (complete_run (add_messages encode_text decode news window).0)
      ≡ (
        with_messages history []
            (set_params params (add_messages encode_text decode news window).0),
        none,
      ))
    × IsTail
        (history_budget_of params)
        (held encode_text decode window.session_file ++ news)
        history
unfolding add_messages add_message add_appended append_line
add_messages-start_run_example =
    add_messages-start_run encode_text decode params news window
      (inr (codes "ab" ++ (10 ∷ codes "cd") ++ (10 ∷ codes "ef"), refl))
      (
        (codes "gh", refl, (refl, (refl, (refl, tt))), refl),
        ((codes "ij", refl, (refl, (refl, (refl, tt))), refl), tt),
      )
      (λ k below some_k. elim (short 15 (omega arith) k below some_k) [ ])

start_run-fits_example :
    (length (start_run decode params window).0.history ≤ 1)
    ⊎ (pos 3 +ℤ pos 4 +ℤ pos 2 +ℤ total_tokens (start_run decode params window).0.history ≤ℤ pos 20)
unfolding ◌+ℤ◌
start_run-fits_example =
    start_run-fits decode params window
      (inr (codes "ab" ++ (10 ∷ codes "cd") ++ (10 ∷ codes "ef"), refl))
      (λ k below some_k. elim (short 9 (omega arith) k below some_k) [ ]) (omega arith)

snapshot-build_context_example :
    (stats_roles (snapshot window).messages ≡ roles (build_context window))
    × ((snapshot window).total_messages ≡ length (build_context window))
    × ((snapshot window).total_tokens
        ≡ (snapshot window).tool_tokens +ℤ stats_tokens (snapshot window).messages)
    × ((snapshot window).total_tokens +ℤ (snapshot window).remaining_tokens
        ≡ (snapshot window).context_size)
snapshot-build_context_example = snapshot-build_context window

quoted : quote (codes "a\"b") ≡ codes "\"a\\\"b\""
unfolding quote quote_bytes quote_byte
quoted = refl
