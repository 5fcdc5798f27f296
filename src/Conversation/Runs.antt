-- ===== src/Conversation/Runs.antt =====
-- A run of the window: what StartRun loads, within the budget, and what the next run finds.
use kontekst.Prelude.Int.{ℤ, pos, ltb_ℤ, ◌+ℤ◌, ◌-ℤ◌, ◌≤ℤ◌, int_laws}
use kontekst.Prelude.{
  ◌≤◌, ◌≡◌, ◌⊎◌, inl, inr, refl, sym, ap, subst, ◌∙◌, List, [], ◌++◌, Option, none, some, Bytes,
  All, length, if_ind, arith,
}
use kontekst.Core.{Message, total_tokens}
use kontekst.Conversation.File.{
  Opened, not_exist, open_error, contents, Loaded, loaded, load_error, load_tail, load_messages,
  default_chunk_size,
}
use kontekst.Conversation.Tail.{IsTail}
use kontekst.Conversation.Breaks.{NoBreak}
use kontekst.Conversation.Loading.{load_messages-IsTail}
use kontekst.Conversation.Window.{
  Appending, encoded, Window, BudgetParams, Outcome, at_least_zero, history_budget_of, set_params,
  with_messages, start_run, complete_run,
}
use kontekst.Conversation.Log.{IsComplete, Recordable, held, add_messages, add_messages-Recorded}

-- No chunk of the file begins with a newline, but the one at its start may.
abbrev pub Unbroken : Opened → Type 0
Unbroken not_exist = Unit
Unbroken (open_error error) = Unit
Unbroken (contents bytes) = NoBreak default_chunk_size bytes

no_messages : (budget : ℤ) → IsTail budget [] []
no_messages budget = record {
  dropped = [];
  parts = refl;
  fits = inl (omega arith);
  maximal = inl refl;
}

module _ (encode : Message → Appending) (parse : Bytes → Option Message) where
  load_tail-IsTail :
      (budget : ℤ) (file : Opened)
      → IsComplete file
      → Unbroken file
      → (kept : List Message) × (load_tail parse budget file ≡ loaded kept)
        × IsTail budget (held encode parse file) kept
  unfolding load_tail
  load_tail-IsTail budget not_exist complete unbroken = ([], refl, no_messages budget)
  load_tail-IsTail budget (contents bytes) complete unbroken = (
    load_messages parse budget default_chunk_size bytes,
    refl,
    load_messages-IsTail parse budget default_chunk_size bytes (omega arith) unbroken,
  )
  load_tail-IsTail budget (open_error error) complete unbroken = elim complete [ ]

  -- StartRun, where the file can be read.
  pub start_run-IsTail :
      (params : BudgetParams) (cw : Window)
      → IsComplete cw.session_file
      → Unbroken cw.session_file
      → (history : List Message) × (start_run parse params cw
          ≡ (with_messages history [] (set_params params cw), none))
        × IsTail (history_budget_of params) (held encode parse cw.session_file) history
  unfolding start_run
  start_run-IsTail params cw complete unbroken =
      let (kept, loads, tail) =
        load_tail-IsTail (history_budget_of params) cw.session_file complete unbroken in
      (
        kept,
        ap
            (λ (out : Loaded). elim out [
              | load_error error ↦ (set_params params cw, some error)
              | loaded history ↦ (with_messages history [] (set_params params cw), none)
            ])
            loads,
        tail,
      )

  -- Messages added in one run are what the next run loads from, behind those of the file, where the file is missing, or can be opened and is empty or ends with a newline, Append writes each message in one line that parses to the message again, and no chunk of the file that comes of it, but the one at its start, begins with a newline: StartRun then gives the longest run of newest messages in its budget.
  pub add_messages-start_run :
      (params : BudgetParams) (news : List Message) (cw : Window)
      → IsComplete cw.session_file
      → All (Recordable encode parse) news
      → Unbroken (add_messages encode parse news cw).0.session_file
      → (history : List Message) × (start_run parse params
            (complete_run (add_messages encode parse news cw).0)
          ≡ (
            with_messages history [] (set_params params (add_messages encode parse news cw).0),
            none,
          ))
        × IsTail (history_budget_of params) (held encode parse cw.session_file ++ news) history
  unfolding complete_run set_params
  add_messages-start_run params news cw complete recordable unbroken =
      let (cw', added, recorded) = add_messages-Recorded encode parse news cw complete recordable in
      let same : (add_messages encode parse news cw).0 ≡ cw' =
        ap (λ (out : Outcome). out.0) added in
      let (history, starts, tail) =
        start_run-IsTail params (complete_run (add_messages encode parse news cw).0)
          (subst (λ (w : Window). IsComplete w.session_file) (sym same) recorded.complete)
          unbroken in
      (
        history,
        starts,
        subst (λ (ms : List Message). IsTail (history_budget_of params) ms history)
            (ap (λ (w : Window). held encode parse w.session_file) same ∙ recorded.file) tail,
      )

-- A history that fits the budget leaves room for the rest of the context.
budget_room :
    (size system tools prompt used : ℤ)
    → system +ℤ tools +ℤ prompt ≤ℤ size
    → used ≤ℤ at_least_zero (size -ℤ system -ℤ tools -ℤ prompt)
    → system +ℤ tools +ℤ prompt +ℤ used ≤ℤ size
budget_room size system tools prompt used room fits =
    if_ind (λ budget. used ≤ℤ budget → system +ℤ tools +ℤ prompt +ℤ used ≤ℤ size)
      (ltb_ℤ (size -ℤ system -ℤ tools -ℤ prompt) (pos 0)) (λ _ h. omega int_laws)
      (λ _ h. omega int_laws) fits

-- Where the system prompt, the tools and the prompt fit the context, and the session file is missing, or can be opened, is empty or ends with a newline and has no chunk, but the one at its start, that begins with a newline, StartRun loads at most one message, or a history with which they all fit.
pub start_run-fits :
    (parse : Bytes → Option Message) (params : BudgetParams) (cw : Window)
    → IsComplete cw.session_file
    → Unbroken cw.session_file
    → params.system_tokens +ℤ params.tool_tokens +ℤ params.user_prompt_tokens ≤ℤ params.context_size
    → (length (start_run parse params cw).0.history ≤ 1)
      ⊎ (params.system_tokens
            +ℤ params.tool_tokens
            +ℤ params.user_prompt_tokens
            +ℤ total_tokens (start_run parse params cw).0.history
          ≤ℤ params.context_size)
unfolding history_budget_of
start_run-fits parse params cw complete unbroken room =
    let (history, starts, tail) =
      start_run-IsTail (λ m. encoded m.content) parse params cw complete unbroken in
    subst
      (λ (out : Outcome).
        (length out.0.history ≤ 1)
        ⊎ (params.system_tokens
              +ℤ params.tool_tokens
              +ℤ params.user_prompt_tokens
              +ℤ total_tokens out.0.history
            ≤ℤ params.context_size))
      (sym starts)
      (elim tail.fits [
        | inl one ↦ inl one
        | inr fits ↦ inr (
            budget_room params.context_size params.system_tokens params.tool_tokens
              params.user_prompt_tokens (total_tokens history) room fits)
      ])
