-- ===== src/Diff/Split/Laws.antt =====
-- Splitting a text into lines and assembling them again.
use mathlib.Core.Bool.{true≢false, false≢true}
use mathlib.Core.List.{append_assoc}
use kontekst.Prelude.{
  ℕ, ◌≡◌, refl, sym, ap, ◌∙◌, inl, inr, Bool, true, false, [], ◌∷◌, ◌++◌, Bytes, ◌==◌, ==_iff,
  Bool-cases, ◌≢◌, if_ind, ap₂, cons_cong, arith,
}
use kontekst.Diff.Lcs.{Lines}
use kontekst.Diff.Split.{
  newline, push_byte, split, strip_last, split_lines, join, is_empty, assemble_content,
  ends_in_newline,
}

last_empty : Lines → Bool
last_empty [] = false
last_empty ([] ∷ []) = true
last_empty ((b ∷ l) ∷ []) = false
last_empty (l ∷ m ∷ ls) = last_empty (m ∷ ls)

join-push_byte : (b : ℕ) (ls : Lines) → join (push_byte b ls) ≡ b ∷ join ls
unfolding join
join-push_byte b [] = refl
join-push_byte b (l ∷ []) = refl
join-push_byte b (l ∷ m ∷ ls) = refl

join-cons :
    (l : Bytes) (ls : Lines) → is_empty ls ≡ false → join (l ∷ ls) ≡ l ++ (newline ∷ join ls)
unfolding join
join-cons l [] h = absurd (true≢false h)
join-cons l (m ∷ ls) h = refl

split-ne-nil : (s : Bytes) → is_empty (split s) ≡ false
unfolding split
split-ne-nil [] = refl
split-ne-nil (b ∷ s) =
    if_ind (λ (ls : Lines). is_empty ls ≡ false) (b == newline) (λ _. refl)
      (λ _. push_ne_nil (split s))
  where
    push_ne_nil : (ls : Lines) → is_empty (push_byte b ls) ≡ false
    push_ne_nil [] = refl
    push_ne_nil (l ∷ ls) = refl

join-split : (s : Bytes) → join (split s) ≡ s
unfolding split
join-split [] = join_empty
  where
    join_empty : join ([] ∷ []) ≡ []
    join_empty = unfold join in refl
join-split (b ∷ s) =
    if_ind (λ (ls : Lines). join ls ≡ b ∷ s) (b == newline)
      (λ e.
        join-cons [] (split s) (split-ne-nil s)
        ∙ ap₂ (◌∷◌) (sym ((==_iff b newline).0 e)) (join-split s))
      (λ _. join-push_byte b (split s) ∙ cons_cong b (join-split s))

strip_last_cons : (l m : Bytes) (ls : Lines) → strip_last (l ∷ m ∷ ls) ≡ l ∷ strip_last (m ∷ ls)
unfolding strip_last
strip_last_cons [] m ls = refl
strip_last_cons (b ∷ l) m ls = refl

last_empty_cons : (l m : Bytes) (ls : Lines) → last_empty (l ∷ m ∷ ls) ≡ last_empty (m ∷ ls)
unfolding last_empty
last_empty_cons [] m ls = refl
last_empty_cons (b ∷ l) m ls = refl

-- A last line that is empty stands for a newline at the end.
strip_last_lem :
    (l m : Bytes) (ls : Lines)
    → last_empty (l ∷ m ∷ ls) ≡ true
    → (join (strip_last (l ∷ m ∷ ls)) ++ newline ∷ [] ≡ join (l ∷ m ∷ ls))
      × (is_empty (strip_last (l ∷ m ∷ ls)) ≡ false)
strip_last_lem l [] [] h =
    (rw (strip_last_cons l [] []) (unfold strip_last join in refl), rw (strip_last_cons l [] []))
strip_last_lem l (b ∷ m) [] h =
    absurd (false≢true (unfold last_empty in (sym (last_empty_cons l (b ∷ m) []) ∙ h)))
strip_last_lem l m (n ∷ ns) h =
    let (joined, more) = strip_last_lem m n ns (sym (last_empty_cons l m (n ∷ ns)) ∙ h) in
    (
      rw (strip_last_cons l m (n ∷ ns), join-cons l (strip_last (m ∷ n ∷ ns)) more)
          (append_assoc l (newline ∷ join (strip_last (m ∷ n ∷ ns))) (newline ∷ [])
            ∙ ap (λ t. l ++ (newline ∷ t)) joined
            ∙ sym (join-cons l (m ∷ n ∷ ns) refl)),
      rw (strip_last_cons l m (n ∷ ns)),
    )

strip_last_same : (ls : Lines) → last_empty ls ≡ false → strip_last ls ≡ ls
unfolding last_empty strip_last
strip_last_same [] h = refl
strip_last_same ([] ∷ []) h = cc
strip_last_same ((b ∷ l) ∷ []) h = refl
strip_last_same ([] ∷ m ∷ ls) h = cons_cong [] (strip_last_same (m ∷ ls) h)
strip_last_same ((b ∷ l) ∷ m ∷ ls) h = cons_cong (b ∷ l) (strip_last_same (m ∷ ls) h)

push_front :
    (b : ℕ) (ls : Lines)
    → is_empty ls ≡ false
    → last_empty (push_byte b ([] ∷ ls)) ≡ last_empty ([] ∷ ls)
unfolding last_empty
push_front b [] h = absurd (true≢false h)
push_front b (m ∷ ls) h = refl

push_again :
    (b c : ℕ) (ls : Lines) → last_empty (push_byte b (push_byte c ls)) ≡ last_empty (push_byte c ls)
unfolding last_empty
push_again b c [] = refl
push_again b c (l ∷ []) = refl
push_again b c (l ∷ m ∷ ls) = refl

last_empty-split :
    (b c : ℕ) (s : Bytes) → last_empty (split (b ∷ c ∷ s)) ≡ last_empty (split (c ∷ s))
unfolding split
last_empty-split b c s =
    if_ind (λ (ls : Lines). last_empty ls ≡ last_empty (split (c ∷ s))) (b == newline)
      (λ _. front_same (split (c ∷ s)) (split-ne-nil (c ∷ s)))
      (λ _.
        if_ind (λ (ls : Lines). last_empty (push_byte b ls) ≡ last_empty ls) (c == newline)
          (λ _. push_front b (split s) (split-ne-nil s)) (λ _. push_again b c (split s)))
  where
    front_same : (ls : Lines) → is_empty ls ≡ false → last_empty ([] ∷ ls) ≡ last_empty ls
    front_same [] h = absurd (true≢false h)
    front_same (m ∷ ls) h = last_empty_cons [] m ls

ends_in_newline-eq : (b : ℕ) (s : Bytes) → ends_in_newline (b ∷ s) ≡ last_empty (split (b ∷ s))
unfolding ends_in_newline
ends_in_newline-eq b [] = one_byte b
  where
    one_byte : (c : ℕ) → (c == newline) ≡ last_empty (split (c ∷ []))
    one_byte c = unfold split last_empty in ground arith
ends_in_newline-eq b (c ∷ s) = ends_in_newline-eq c s ∙ sym (last_empty-split b c s)

assemble_open : (ls : Lines) → assemble_content ls false ≡ join ls
unfolding assemble_content
assemble_open ls = refl

assemble_closed :
    (ls : Lines) → is_empty ls ≡ false → assemble_content ls true ≡ join ls ++ newline ∷ []
unfolding assemble_content
assemble_closed ls h = rw h

assemble-strip_last :
    (ls : Lines) → join ls ≢ [] → assemble_content (strip_last ls) (last_empty ls) ≡ join ls
unfolding join
assemble-strip_last [] h = absurd (h refl)
assemble-strip_last ([] ∷ []) h = absurd (h refl)
assemble-strip_last ((b ∷ l) ∷ []) h = unfold last_empty strip_last assemble_content in refl
assemble-strip_last (l ∷ m ∷ ls) h = elim (Bool-cases (last_empty (l ∷ m ∷ ls))) [
  | inl closed ↦
      let (joined, more) = strip_last_lem l m ls closed in
      rw closed (assemble_closed _ more ∙ joined)
  | inr open_end ↦ rw (open_end, strip_last_same (l ∷ m ∷ ls) open_end) (assemble_open (l ∷ m ∷ ls))
]

-- Splitting a text into its lines and assembling them, with a newline at the end if the text had
-- one, gives the text back, for every text.
pub assemble_content-split_lines :
    (s : Bytes) → assemble_content (split_lines s) (ends_in_newline s) ≡ s
unfolding split_lines
assemble_content-split_lines [] = unfold ends_in_newline assemble_content join in refl
assemble_content-split_lines (b ∷ s) =
    let whole = join-split (b ∷ s) in
    rw (ends_in_newline-eq b s) (assemble-strip_last (split (b ∷ s)) (λ e. cc) ∙ whole)
