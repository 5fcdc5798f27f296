-- ===== src/Conversation/Counts.antt =====
-- What a snapshot of the window says agrees with the messages that the window sends.
use kontekst.Prelude.Int.{ℤ, pos, ◌+ℤ◌, ◌-ℤ◌, +ℤ_assoc, +ℤ_zero, int_laws}
use kontekst.Prelude.{
  ◌≡◌, refl, sym, ap, ap₂, ◌∙◌, List, [], ◌∷◌, ◌++◌, length, length-append, arith,
}
use kontekst.Core.{Role, Message, total_tokens}
use kontekst.Conversation.Window.{Window, build_context}
use kontekst.Conversation.Snapshot.{
  Source, from_history, from_memory, MessageStats, sum_tokens_from, sum_tokens, stats_of, snapshot,
}

unfoldable pub roles : List Message → List Role
roles [] = []
roles (m ∷ ms) = m.role ∷ roles ms

unfoldable pub stats_roles : List MessageStats → List Role
stats_roles [] = []
stats_roles (s ∷ ss) = s.role ∷ stats_roles ss

unfoldable pub stats_tokens : List MessageStats → ℤ
stats_tokens [] = pos 0
stats_tokens (s ∷ ss) = s.tokens +ℤ stats_tokens ss

-- The loop adds up what the recursive sum does.
sum_tokens_from-total : (t : ℤ) (ms : List Message) → sum_tokens_from t ms ≡ t +ℤ total_tokens ms
unfolding sum_tokens_from total_tokens
sum_tokens_from-total t [] = sym (+ℤ_zero t)
sum_tokens_from-total t (m ∷ ms) =
    sum_tokens_from-total (t +ℤ m.tokens) ms ∙ +ℤ_assoc t m.tokens (total_tokens ms)

pub sum_tokens-total : (ms : List Message) → sum_tokens ms ≡ total_tokens ms
unfolding sum_tokens
sum_tokens-total ms = sum_tokens_from-total (pos 0) ms ∙ (omega int_laws)

stats_roles-append :
    (ss ts : List MessageStats) → stats_roles (ss ++ ts) ≡ stats_roles ss ++ stats_roles ts
unfolding stats_roles
stats_roles-append [] ts = refl
stats_roles-append (s ∷ ss) ts = ap (λ (rs : List Role). s.role ∷ rs) (stats_roles-append ss ts)

roles-append : (ms ns : List Message) → roles (ms ++ ns) ≡ roles ms ++ roles ns
unfolding roles
roles-append [] ns = refl
roles-append (m ∷ ms) ns = ap (λ (rs : List Role). m.role ∷ rs) (roles-append ms ns)

stats_tokens-append :
    (ss ts : List MessageStats) → stats_tokens (ss ++ ts) ≡ stats_tokens ss +ℤ stats_tokens ts
unfolding stats_tokens
stats_tokens-append [] ts = omega int_laws
stats_tokens-append (s ∷ ss) ts =
    ap (λ (t : ℤ). s.tokens +ℤ t) (stats_tokens-append ss ts)
    ∙ sym (+ℤ_assoc s.tokens (stats_tokens ss) (stats_tokens ts))

stats_of-roles : (source : Source) (ms : List Message) → stats_roles (stats_of source ms) ≡ roles ms
unfolding stats_roles stats_of roles
stats_of-roles source [] = refl
stats_of-roles source (m ∷ ms) = ap (λ (rs : List Role). m.role ∷ rs) (stats_of-roles source ms)

stats_of-tokens :
    (source : Source) (ms : List Message) → stats_tokens (stats_of source ms) ≡ total_tokens ms
unfolding stats_tokens stats_of total_tokens
stats_of-tokens source [] = refl
stats_of-tokens source (m ∷ ms) = ap (λ (t : ℤ). m.tokens +ℤ t) (stats_of-tokens source ms)

-- The snapshot lists the roles of the context that the window builds.
pub snapshot-roles : (cw : Window) → stats_roles (snapshot cw).messages ≡ roles (build_context cw)
unfolding snapshot build_context stats_roles roles
snapshot-roles cw =
    ap (λ (rs : List Role). Role.system ∷ rs)
      (stats_roles-append (stats_of from_history cw.history) (stats_of from_memory cw.memory)
        ∙ ap₂ (λ (rs ss : List Role). rs ++ ss) (stats_of-roles from_history cw.history)
            (stats_of-roles from_memory cw.memory)
        ∙ sym (roles-append cw.history cw.memory))

-- The total is the tokens of the tools and of the messages that the snapshot lists.
pub snapshot-total :
    (cw : Window)
    → (snapshot cw).total_tokens ≡ (snapshot cw).tool_tokens +ℤ stats_tokens (snapshot cw).messages
unfolding snapshot stats_tokens
snapshot-total cw =
    ap₂ (λ (h m : ℤ). cw.system_tokens +ℤ cw.tool_tokens +ℤ h +ℤ m) (sum_tokens-total cw.history)
      (sum_tokens-total cw.memory)
    ∙ regroup cw.system_tokens cw.tool_tokens (total_tokens cw.history) (total_tokens cw.memory)
    ∙ ap (λ (t : ℤ). cw.tool_tokens +ℤ (cw.system_tokens +ℤ t))
        (sym (
          stats_tokens-append (stats_of from_history cw.history) (stats_of from_memory cw.memory)
          ∙ ap₂ (λ (s t : ℤ). s +ℤ t) (stats_of-tokens from_history cw.history)
              (stats_of-tokens from_memory cw.memory)))
  where
    regroup : (s t h m : ℤ) → s +ℤ t +ℤ h +ℤ m ≡ t +ℤ (s +ℤ (h +ℤ m))
    regroup s t h m = omega int_laws

snapshot-remaining :
    (cw : Window)
    → (snapshot cw).total_tokens +ℤ (snapshot cw).remaining_tokens ≡ (snapshot cw).context_size
unfolding snapshot
snapshot-remaining cw =
    restore cw.context_size
      (cw.system_tokens +ℤ cw.tool_tokens +ℤ sum_tokens cw.history +ℤ sum_tokens cw.memory)
  where
    restore : (size total : ℤ) → total +ℤ (size -ℤ total) ≡ size
    restore size total = omega int_laws

snapshot-count : (cw : Window) → (snapshot cw).total_messages ≡ length (build_context cw)
unfolding snapshot build_context
snapshot-count cw = omega (arith, length-append cw.history cw.memory)

-- A snapshot counts and lists, in order, the roles of the messages that BuildContext gives; its total is the tool tokens and the tokens listed, and the total and the remaining tokens make up the context size.
pub snapshot-build_context :
    (cw : Window)
    → (stats_roles (snapshot cw).messages ≡ roles (build_context cw))
      × ((snapshot cw).total_messages ≡ length (build_context cw))
      × ((snapshot cw).total_tokens
          ≡ (snapshot cw).tool_tokens +ℤ stats_tokens (snapshot cw).messages)
      × ((snapshot cw).total_tokens +ℤ (snapshot cw).remaining_tokens ≡ (snapshot cw).context_size)
snapshot-build_context cw =
    (snapshot-roles cw, snapshot-count cw, snapshot-total cw, snapshot-remaining cw)
