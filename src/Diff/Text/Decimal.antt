-- ===== src/Diff/Text/Decimal.antt =====
-- Printing a number writes all its digits.
use kontekst.Prelude.{
  ℕ, zero, suc, ◌+◌, ◌-◌, ◌*◌, ◌/◌, ◌%◌, ◌<◌, ◌≡◌, refl, ap, ◌∙◌, [], ◌∷◌, ◌++◌, Bytes, ltb, if_ind,
  arith,
}
use kontekst.Diff.Text.{digits, decimal}

-- The number that decimal digits behind `front` stand for.
unfoldable pub number_from : (front : ℕ) → Bytes → ℕ
number_from front [] = front
number_from front (c ∷ cs) = number_from (front * 10 + (c - 48)) cs

number_from-append :
    (front : ℕ) (xs ys : Bytes)
    → number_from front (xs ++ ys) ≡ number_from (number_from front xs) ys
unfolding number_from
number_from-append front [] ys = refl
number_from-append front (c ∷ xs) ys = number_from-append (front * 10 + (c - 48)) xs ys

digits-number_from : (fuel n : ℕ) → n < fuel → number_from 0 (digits fuel n) ≡ n
unfolding digits number_from
digits-number_from zero n h = omega arith
digits-number_from (suc fuel) n h =
    if_ind (λ text. number_from 0 text ≡ n) (ltb n 10) (λ small. omega arith)
      (λ large.
        number_from-append 0 (digits fuel (n / 10)) ((48 + n % 10) ∷ [])
        ∙ ap (λ (m : ℕ). m * 10 + (48 + n % 10 - 48))
            (digits-number_from fuel (n / 10) (ground arith))
        ∙ rejoin n)
  where
    rejoin : (m : ℕ) → m / 10 * 10 + (48 + m % 10 - 48) ≡ m
    rejoin m = omega arith

-- The digits printed for a number, read as a decimal, give the number.
pub decimal-number_from : (n : ℕ) → number_from 0 (decimal n) ≡ n
unfolding decimal
decimal-number_from n = digits-number_from (suc n) n (omega arith)
