-- ===== src/Provider/Roles.antt =====
-- The validator finds no two neighbours of one role among normalised messages.
use mathlib.Core.Bool.{true≢false}
use kontekst.Prelude.{
  ℕ, suc, ◌≡◌, sym, ap, ◌∙◌, ◌||◌, Bool, false, not, ◌&&◌, List, [], ◌∷◌, Option, none, some, All,
  if◌then◌else◌, if_ind, arith,
}
use kontekst.Core.{system, tool, other, role_eq, Message}
use kontekst.Provider.{
  effective_role, should_merge, merge_messages, normalize_from, normalize_messages, RoleError,
  first_not_system, consecutive, result_without_calls, is_result, asks_tools, validate_roles_from,
  validate_role_alternation,
}
use kontekst.Provider.Normalized.{Alternates, IsNormalized, normalize_messages-IsNormalized}

abbrev pub IsConsecutive : Option RoleError → Type 0
IsConsecutive none = ⊥
IsConsecutive (some (first_not_system r)) = ⊥
IsConsecutive (some (consecutive r i j)) = Unit
IsConsecutive (some (result_without_calls i)) = ⊥

-- The message has a role, after the change of results into user messages.
abbrev pub HasRole : Bool → Message → Type 0
HasRole u m = role_eq (effective_role m u) (other []) ≡ false

apart_roles :
    (u is_tool same : Bool)
    → (if u && is_tool then false else same) ≡ false
    → same && not is_tool ≡ false
apart_roles u is_tool same h = ground arith

validate_roles_from-apart :
    (u : Bool) (i : ℕ) (expecting : Bool) (q : Message) (ms : List Message)
    → Alternates u q ms
    → ¬ IsConsecutive (validate_roles_from i (effective_role q u) expecting ms u)
unfolding validate_roles_from should_merge
validate_roles_from-apart u i expecting q [] h = λ e. e
validate_roles_from-apart u i expecting q (m ∷ ms) h =
    if_ind (λ o. ¬ IsConsecutive o)
      (role_eq (effective_role m u) (effective_role q u) && not (role_eq (effective_role m u) tool))
      (λ same.
        elim (true≢false (
          sym same
          ∙ apart_roles u (role_eq (effective_role m u) tool)
              (role_eq (effective_role m u) (effective_role q u)) h.0)) [ ])
      (λ _.
        if_ind (λ o. ¬ IsConsecutive o) (is_result m && not expecting) (λ _ e. e)
          (λ _. validate_roles_from-apart u (suc i) (asks_tools m || is_result m) m ms h.1))

normalize_from-HasRole :
    (u : Bool) (p : Message) (ms : List Message)
    → HasRole u p
    → All (HasRole u) ms
    → All (HasRole u) (normalize_from p ms u)
unfolding normalize_from effective_role merge_messages
normalize_from-HasRole u p [] h hs = (h, tt)
normalize_from-HasRole u p (c ∷ ms) h hs =
    if_ind (All (HasRole u)) (should_merge c p u)
      (λ _. normalize_from-HasRole u (merge_messages p c) ms h hs.1)
      (λ _. (h, normalize_from-HasRole u c ms hs.0 hs.1))

normalize_messages-HasRole :
    (u : Bool) (ms : List Message) → All (HasRole u) ms → All (HasRole u) (normalize_messages ms u)
unfolding normalize_messages
normalize_messages-HasRole u [] hs = tt
normalize_messages-HasRole u (m ∷ []) hs = hs
normalize_messages-HasRole u (m ∷ (n ∷ ms)) hs = normalize_from-HasRole u m (n ∷ ms) hs.0 hs.1

-- The first message behind the system message is compared with the empty role.
validate_role_alternation-apart :
    (u : Bool) (ms : List Message)
    → IsNormalized u ms
    → All (HasRole u) ms
    → ¬ IsConsecutive (validate_role_alternation ms u)
unfolding validate_role_alternation validate_roles_from
validate_role_alternation-apart u [] h hs = λ e. e
validate_role_alternation-apart u (m ∷ []) h hs =
    if_ind (λ o. ¬ IsConsecutive o) (not (role_eq m.role system)) (λ _ e. e) (λ _ e. e)
validate_role_alternation-apart u (m ∷ (n ∷ ms)) h hs =
    if_ind (λ o. ¬ IsConsecutive o) (not (role_eq m.role system)) (λ _ e. e)
      (λ _.
        if_ind (λ o. ¬ IsConsecutive o)
          (role_eq (effective_role n u) (other []) && not (role_eq (effective_role n u) tool))
          (λ same.
            elim (true≢false (
              sym same
              ∙ ap (λ (b : Bool). b && not (role_eq (effective_role n u) tool)) hs.1.0)) [ ])
          (λ _.
            if_ind (λ o. ¬ IsConsecutive o) (is_result n && not false) (λ _ e. e)
              (λ _. validate_roles_from-apart u 2 (asks_tools n || is_result n) n ms h.1)))

-- Where every message has a role, the validator never reports two messages of one role in the normalised messages.
pub normalize_messages-validated :
    (u : Bool) (ms : List Message)
    → All (HasRole u) ms
    → ¬ IsConsecutive (validate_role_alternation (normalize_messages ms u) u)
normalize_messages-validated u ms hs =
    validate_role_alternation-apart u (normalize_messages ms u)
      (normalize_messages-IsNormalized ms u) (normalize_messages-HasRole u ms hs)
