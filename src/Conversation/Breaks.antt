-- ===== src/Conversation/Breaks.antt =====
-- Where the chunks of a session file of internal/conversation/file.go begin.
use kontekst.Prelude.{
  ℕ, zero, suc, ◌+◌, ◌-◌, ◌*◌, ◌<◌, ◌≡◌, refl, sym, ap, ◌∙◌, List, [], ◌∷◌, ◌++◌, Bytes, length,
  take, drop, arith,
}
use kontekst.Core.{Message}
use kontekst.Conversation.File.{Taken, Scan, full, more}
use kontekst.Conversation.Lines.{InLine}
use kontekst.Conversation.Scanning.{taken_of, and_then}

-- No chunk but the one at the start of the file begins with a newline.
abbrev pub NoBreak : (chunk_size : ℕ) → Bytes → Type 0
NoBreak chunk_size bytes =
    (k : ℕ)
    → k * chunk_size < length bytes
    → 0 < k
    → InLine (drop (length bytes - k * chunk_size) bytes)

pub take_nil {ℓ} : {A : Type ℓ} (n : ℕ) → take {A = A} n [] ≡ []
take_nil zero = refl
take_nil (suc n) = refl

pub suc_add : (a b : ℕ) → suc a + b ≡ suc (a + b)
suc_add a b = omega arith

pub take_all {ℓ} : {A : Type ℓ} (xs : List A) → take (length xs) xs ≡ xs
take_all [] = refl
take_all (x ∷ xs) = ap (◌∷◌ x) (take_all xs)

pub mul_suc : (k n : ℕ) → suc k * n ≡ n + k * n
mul_suc k n = omega arith

pub not_below : {n : ℕ} → ¬ (n < 0)
not_below h = omega arith

pub not_both : {n : ℕ} → 0 < n → ¬ (n ≡ 0)
not_both h e = omega arith

pub take_split {ℓ} :
    {A : Type ℓ} (a b : ℕ) (xs : List A) → take (a + b) xs ≡ take a xs ++ take b (drop a xs)
take_split zero b xs = ap (λ (n : ℕ). take n xs) (omega arith)
take_split (suc a) b [] = take_nil (suc a + b) ∙ sym (take_nil b)
take_split (suc a) b (x ∷ xs) =
    ap (λ (n : ℕ). take n (x ∷ xs)) (suc_add a b) ∙ ap (◌∷◌ x) (take_split a b xs)

pub InLine-take : (n : ℕ) (xs co : Bytes) → InLine xs → InLine (take (suc n) xs ++ co)
InLine-take n (x ∷ xs) co h = h
InLine-take n [] co h = elim h [ ]

pub elim_scan :
    (s : Scan) (next : Taken → List Message) (next' : Taken → Scan)
    → ((t : Taken) → next t ≡ (taken_of (next' t)).messages)
    → elim s [ full t ↦ t.messages | more t ↦ next t ] ≡ (taken_of (and_then s next')).messages
elim_scan (full t) next next' h = refl
elim_scan (more t) next next' h = h t
