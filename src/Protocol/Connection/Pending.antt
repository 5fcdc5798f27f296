-- ===== src/Protocol/Connection/Pending.antt =====
-- The ids of the map `pending` of internal/protocol/jsonrpc.go.
use kontekst.Prelude.{ℕ, ◌≡◌, true, false, ◌==◌, refl, List, [], ◌∷◌, arith, if_ind}
use kontekst.Protocol.Calls.{has_id, delete_id}

-- No id stands twice.
abbrev pub Apart : List ℕ → Type 0
Apart [] = Unit
Apart (n ∷ ns) = (has_id n ns ≡ false) × Apart ns

pub has_id-delete_id_self : (n : ℕ) (ns : List ℕ) → has_id n (delete_id n ns) ≡ false
unfolding has_id delete_id
has_id-delete_id_self n [] = refl
has_id-delete_id_self n (k ∷ ns) = ground (arith, has_id-delete_id_self n ns)

pub has_id-delete_id :
    (k n : ℕ) (ns : List ℕ) → has_id k (delete_id n ns) ≡ true → has_id k ns ≡ true
unfolding has_id delete_id
has_id-delete_id k n [] h = h
has_id-delete_id k n (m ∷ ns) h = ground (arith, has_id-delete_id k n ns)

pub has_id-delete_id_other :
    (k n : ℕ) (ns : List ℕ)
    → (k == n) ≡ false
    → has_id k ns ≡ true
    → has_id k (delete_id n ns) ≡ true
unfolding has_id delete_id
has_id-delete_id_other k n [] e h = h
has_id-delete_id_other k n (m ∷ ns) e h = ground (arith, has_id-delete_id_other k n ns)

pub delete_id_absent : (n : ℕ) (ns : List ℕ) → has_id n ns ≡ false → delete_id n ns ≡ ns
unfolding has_id delete_id
delete_id_absent n [] h = refl
delete_id_absent n (k ∷ ns) h = ground (arith, delete_id_absent n ns)

pub delete_id-has_id_false :
    (k n : ℕ) (ns : List ℕ) → has_id k ns ≡ false → has_id k (delete_id n ns) ≡ false
unfolding has_id delete_id
delete_id-has_id_false k n [] h = refl
delete_id-has_id_false k n (m ∷ ns) h = ground (arith, delete_id-has_id_false k n ns)

pub delete_id-Apart : (n : ℕ) (ns : List ℕ) → Apart ns → Apart (delete_id n ns)
unfolding has_id delete_id
delete_id-Apart n [] h = tt
delete_id-Apart n (k ∷ ns) h =
    if_ind Apart (n == k) (λ _. delete_id-Apart n ns h.1)
      (λ _. (delete_id-has_id_false k n ns h.0, delete_id-Apart n ns h.1))
