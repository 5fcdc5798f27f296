-- ===== src/Provider/Normalized.antt =====
-- Normalising: no two neighbours that it would merge are left, so the validator does not find any.
use kontekst.Prelude.Int.{ℤ, pos, ◌+ℤ◌}
use kontekst.Prelude.{◌≡◌, refl, ap, ◌∙◌, Bool, false, List, [], ◌∷◌, ◌++◌, if◌then◌else◌, if_ind}
use kontekst.Core.{Message, ToolCall}
use kontekst.Provider.{
  effective_role, should_merge, merge_messages, normalize_from, normalize_messages,
}

-- No message would be merged into the one before it.
abbrev pub Alternates : Bool → Message → List Message → Type 0
Alternates use_tool_role previous [] = Unit
Alternates use_tool_role previous (m ∷ ms) =
    (should_merge m previous use_tool_role ≡ false) × Alternates use_tool_role m ms

abbrev pub IsNormalized : Bool → List Message → Type 0
IsNormalized use_tool_role [] = Unit
IsNormalized use_tool_role (m ∷ ms) = Alternates use_tool_role m ms

unfoldable pub total_tokens : List Message → ℤ
total_tokens [] = pos 0
total_tokens (m ∷ ms) = m.tokens +ℤ total_tokens ms

unfoldable pub all_tool_calls : List Message → List ToolCall
all_tool_calls [] = []
all_tool_calls (m ∷ ms) = m.tool_calls ++ all_tool_calls ms

normalize_from-Alternates :
    (q p : Message) (ms : List Message) (u : Bool)
    → should_merge p q u ≡ false
    → Alternates u q (normalize_from p ms u)
unfolding normalize_from should_merge effective_role merge_messages
normalize_from-Alternates q p [] u h = (h, tt)
normalize_from-Alternates q p (c ∷ ms) u h =
    if_ind (Alternates u q) (should_merge c p u)
      (λ _. normalize_from-Alternates q (merge_messages p c) ms u h)
      (λ apart. (h, normalize_from-Alternates p c ms u apart))

normalize_from-IsNormalized :
    (p : Message) (ms : List Message) (u : Bool) → IsNormalized u (normalize_from p ms u)
unfolding normalize_from
normalize_from-IsNormalized p [] u = tt
normalize_from-IsNormalized p (c ∷ ms) u =
    if_ind (IsNormalized u) (should_merge c p u)
      (λ _. normalize_from-IsNormalized (merge_messages p c) ms u)
      (λ apart. normalize_from-Alternates p c ms u apart)

pub normalize_messages-IsNormalized :
    (ms : List Message) (u : Bool) → IsNormalized u (normalize_messages ms u)
unfolding normalize_messages
normalize_messages-IsNormalized [] u = tt
normalize_messages-IsNormalized (m ∷ []) u = tt
normalize_messages-IsNormalized (m ∷ (n ∷ ms)) u = normalize_from-IsNormalized m (n ∷ ms) u

normalize_from-normalized :
    (p : Message) (ms : List Message) (u : Bool)
    → Alternates u p ms
    → normalize_from p ms u ≡ p ∷ ms
unfolding normalize_from
normalize_from-normalized p [] u h = refl
normalize_from-normalized p (c ∷ ms) u h =
    ap
      (λ (b : Bool).
        if b then normalize_from (merge_messages p c) ms u else p ∷ normalize_from c ms u)
      h.0
    ∙ ap (λ (rest : List Message). p ∷ rest) (normalize_from-normalized c ms u h.1)

normalized_fixed : (ms : List Message) (u : Bool) → IsNormalized u ms → normalize_messages ms u ≡ ms
unfolding normalize_messages
normalized_fixed [] u h = refl
normalized_fixed (m ∷ []) u h = refl
normalized_fixed (m ∷ (n ∷ ms)) u h = normalize_from-normalized m (n ∷ ms) u h

-- Normalising twice is normalising once.
pub normalize_messages-idempotent :
    (ms : List Message) (u : Bool)
    → normalize_messages (normalize_messages ms u) u ≡ normalize_messages ms u
normalize_messages-idempotent ms u =
    normalized_fixed (normalize_messages ms u) u (normalize_messages-IsNormalized ms u)
