-- ===== src/Provider/Totals.antt =====
-- What normalising keeps of the messages: the tokens and the tool calls.
use mathlib.Core.List.{append_assoc, append-nil}
use kontekst.Prelude.Int.{ℤ, ◌+ℤ◌, +ℤ_assoc}
use kontekst.Prelude.{◌≡◌, refl, sym, ap, ◌∙◌, Bool, List, [], ◌∷◌, ◌++◌, if◌then◌else◌, if_ind}
use kontekst.Core.{Message, ToolCall, has_any, total_tokens}
use kontekst.Provider.{should_merge, merge_messages, normalize_from, normalize_messages}

unfoldable pub all_tool_calls : List Message → List ToolCall
all_tool_calls [] = []
all_tool_calls (m ∷ ms) = m.tool_calls ++ all_tool_calls ms

joined :
    (target source : List ToolCall)
    → (if has_any source then target ++ source else target) ≡ target ++ source
joined target [] = sym (append-nil target)
joined target (c ∷ cs) = refl

merge-tool_calls : (p s : Message) → (merge_messages p s).tool_calls ≡ p.tool_calls ++ s.tool_calls
unfolding merge_messages
merge-tool_calls p s = joined p.tool_calls s.tool_calls

normalize_from-total :
    (p : Message) (ms : List Message) (u : Bool)
    → total_tokens (normalize_from p ms u) ≡ p.tokens +ℤ total_tokens ms
unfolding normalize_from total_tokens merge_messages
normalize_from-total p [] u = refl
normalize_from-total p (c ∷ ms) u =
    if_ind (λ out. total_tokens out ≡ p.tokens +ℤ (c.tokens +ℤ total_tokens ms))
      (should_merge c p u)
      (λ _.
        normalize_from-total (merge_messages p c) ms u
        ∙ +ℤ_assoc p.tokens c.tokens (total_tokens ms))
      (λ _. ap (λ (t : ℤ). p.tokens +ℤ t) (normalize_from-total c ms u))

normalize_from-calls :
    (p : Message) (ms : List Message) (u : Bool)
    → all_tool_calls (normalize_from p ms u) ≡ p.tool_calls ++ all_tool_calls ms
unfolding normalize_from all_tool_calls
normalize_from-calls p [] u = refl
normalize_from-calls p (c ∷ ms) u =
    if_ind (λ out. all_tool_calls out ≡ p.tool_calls ++ (c.tool_calls ++ all_tool_calls ms))
      (should_merge c p u)
      (λ _.
        normalize_from-calls (merge_messages p c) ms u
        ∙ ap (λ (calls : List ToolCall). calls ++ all_tool_calls ms) (merge-tool_calls p c)
        ∙ append_assoc p.tool_calls c.tool_calls (all_tool_calls ms))
      (λ _. ap (λ (calls : List ToolCall). p.tool_calls ++ calls) (normalize_from-calls c ms u))

-- Normalising keeps the sum of the tokens and the sequence of all tool calls.
pub normalize_messages-totals :
    (ms : List Message) (u : Bool)
    → (total_tokens (normalize_messages ms u) ≡ total_tokens ms)
      × (all_tool_calls (normalize_messages ms u) ≡ all_tool_calls ms)
unfolding normalize_messages total_tokens all_tool_calls
normalize_messages-totals [] u = (refl, refl)
normalize_messages-totals (m ∷ []) u = (refl, refl)
normalize_messages-totals (m ∷ (n ∷ ms)) u =
    (normalize_from-total m (n ∷ ms) u, normalize_from-calls m (n ∷ ms) u)
