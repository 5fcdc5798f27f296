-- ===== src/Provider/Answered.antt =====
-- What the validator guarantees: every result of a tool answers a message that asked for tools.
use mathlib.Core.Bool.{true≢false}
use kontekst.Prelude.{
  ℕ, suc, ◌⊎◌, ◌≡◌, sym, ap, ◌∙◌, Bool, true, false, not, ◌&&◌, ◌||◌, List, [], ◌∷◌, none, some,
  if_ind, Bool-cases, inl, inr, arith,
}
use kontekst.Core.{Role, system, tool, other, role_eq, Message}
use kontekst.Provider.{
  effective_role, is_result, asks_tools, validate_roles_from, validate_role_alternation,
}

-- Behind `before` (the newest first), a result may stand: a request, with only results after it.
abbrev pub Asked : List Message → Type 0
Asked [] = ⊥
Asked (m ∷ before) = (asks_tools m ≡ true) ⊎ ((is_result m ≡ true) × Asked before)

-- Every result among the messages answers a request; `before` are those in front, newest first.
abbrev pub Answered : (before : List Message) → List Message → Type 0
Answered before [] = Unit
Answered before (m ∷ ms) = (is_result m ≡ true → Asked before) × Answered (m ∷ before) ms

abbrev pub WellFormed : List Message → Type 0
WellFormed [] = Unit
WellFormed (m ∷ ms) = (role_eq m.role system ≡ true) × Answered [] ms

abbrev Expects : Bool → List Message → Type 0
Expects expecting before = expecting ≡ true → Asked before

some≢none {ℓ} : {A : Type ℓ} {a : A} → ¬ (some a ≡ none)
some≢none e = ground arith

result_expected :
    (expecting result : Bool) → result && not expecting ≡ false → result ≡ true → expecting ≡ true
result_expected expecting result h r = ground arith

next_Expects :
    (m : Message) (before : List Message)
    → (is_result m ≡ true → Asked before)
    → Expects (asks_tools m || is_result m) (m ∷ before)
next_Expects m before answers h = elim (Bool-cases (asks_tools m)) [
  | inl asks ↦ inl asks
  | inr not_asks ↦
      let result : is_result m ≡ true = sym (ap (λ (b : Bool). b || is_result m) not_asks) ∙ h in
      inr (result, answers result)
]

validate_roles_from-Answered :
    (u : Bool) (i : ℕ) (prev : Role) (expecting : Bool) (before ms : List Message)
    → Expects expecting before
    → validate_roles_from i prev expecting ms u ≡ none
    → Answered before ms
unfolding validate_roles_from
validate_roles_from-Answered u i prev expecting before [] h = λ _. tt
validate_roles_from-Answered u i prev expecting before (m ∷ ms) h =
    if_ind (λ o. o ≡ none → Answered before (m ∷ ms))
      (role_eq (effective_role m u) prev && not (role_eq (effective_role m u) tool))
      (λ _ e. elim (some≢none e) [ ])
      (λ _.
        if_ind (λ o. o ≡ none → Answered before (m ∷ ms)) (is_result m && not expecting)
          (λ _ e. elim (some≢none e) [ ])
          (λ fine e.
            let answers : is_result m ≡ true → Asked before =
              λ r. h (result_expected expecting (is_result m) fine r) in
            (
              answers,
              validate_roles_from-Answered u (suc i) (effective_role m u)
                  (asks_tools m || is_result m) (m ∷ before) ms (next_Expects m before answers) e,
            )))

-- A nil error of validateRoleAlternation means that the first message is the system's, and that each tool result behind it follows an assistant message with tool calls, with only results in between.
pub validate_role_alternation-WellFormed :
    (u : Bool) (ms : List Message) → validate_role_alternation ms u ≡ none → WellFormed ms
unfolding validate_role_alternation
validate_role_alternation-WellFormed u [] = λ _. tt
validate_role_alternation-WellFormed u (m ∷ ms) =
    if_ind (λ o. o ≡ none → WellFormed (m ∷ ms)) (not (role_eq m.role system))
      (λ _ e. elim (some≢none e) [ ])
      (λ is_system e. (
        ground (arith, is_system),
        validate_roles_from-Answered u 1 (other []) false [] ms (λ h. elim (true≢false (sym h)) [ ])
            e,
      ))
