-- ===== src/Conversation/Snapshot.antt =====
-- Snapshot of the window, internal/conversation/context.go and snapshot.go.
use kontekst.Prelude.Int.{ℤ, pos, ◌+ℤ◌, ◌-ℤ◌}
use kontekst.Prelude.{ℕ, ◌+◌, List, [], ◌∷◌, ◌++◌, length}
use kontekst.Core.{Role, system, Message}
use kontekst.Conversation.Window.{Window, at_least_zero}

-- The values of the string field `source`.
pub data Source : Type 0 where
  from_system from_history from_memory : Source

pub record MessageStats : Type 0 where
  pub role : Role
  pub tokens : ℤ
  pub source : Source

pub record Snapshot : Type 0 where
  pub context_size : ℤ
  pub system_tokens : ℤ
  pub tool_tokens : ℤ
  pub history_tokens : ℤ
  pub memory_tokens : ℤ
  pub total_tokens : ℤ
  pub remaining_tokens : ℤ
  pub history_messages : ℕ
  pub memory_messages : ℕ
  pub total_messages : ℕ
  pub history_budget : ℤ
  pub messages : List MessageStats

-- The loop of sumTokens.
unfoldable pub sum_tokens_from : (total : ℤ) → List Message → ℤ
sum_tokens_from total [] = total
sum_tokens_from total (msg ∷ messages) = sum_tokens_from (total +ℤ msg.tokens) messages

unfoldable pub sum_tokens : List Message → ℤ
sum_tokens messages = sum_tokens_from (pos 0) messages

unfoldable pub stats_of : Source → List Message → List MessageStats
stats_of source [] = []
stats_of source (msg ∷ messages) =
    record { role = msg.role; tokens = msg.tokens; source = source } ∷ stats_of source messages

unfoldable pub snapshot : Window → Snapshot
snapshot cw =
    let history_tokens = sum_tokens cw.history in
    let memory_tokens = sum_tokens cw.memory in
    let total_tokens = cw.system_tokens +ℤ cw.tool_tokens +ℤ history_tokens +ℤ memory_tokens in
    record {
      context_size = cw.context_size;
      system_tokens = cw.system_tokens;
      tool_tokens = cw.tool_tokens;
      history_tokens = history_tokens;
      memory_tokens = memory_tokens;
      total_tokens = total_tokens;
      remaining_tokens = cw.context_size -ℤ total_tokens;
      history_messages = length cw.history;
      memory_messages = length cw.memory;
      total_messages = 1 + length cw.history + length cw.memory;
      history_budget =
          at_least_zero (cw.context_size -ℤ cw.system_tokens -ℤ cw.tool_tokens -ℤ memory_tokens);
      messages =
          record { role = system; tokens = cw.system_tokens; source = from_system }
            ∷ stats_of from_history cw.history
          ++ stats_of from_memory cw.memory;
    }
