-- ===== src/Datanode/Decimal.antt =====
-- A function that prints a number in decimal digits, as `sprintf` does for `%d`: the tests take it
-- for the parameter of the datanode.
use ecse.Common.{
  ℕ, zero, suc, ◌+◌, ◌-◌, ◌*◌, ◌/◌, ◌%◌, ◌<◌, ◌≤◌, ◌≡◌, refl, sym, ap, ◌∙◌, inl, inr, ◌⊎◌, [], ◌∷◌,
  ◌++◌, arith, ◌==◌, length, All, if◌then◌else◌, eqb_of_eq, eqb_of_ne,
}
use ecse.Common.Texts.{Text}
use ecse.Datanode.Paths.{IsDecimal}

-- The digits of a number with at most that many places, and what digits stand for.
unfoldable digits_of : ℕ → ℕ → Text
digits_of zero n = []
digits_of (suc fuel) n =
    let rest = digits_of fuel (n / 10) in (if n / 10 == 0 then [] else rest) ++ ((48 + n % 10) ∷ [])

unfoldable value_of : ℕ → Text → ℕ
value_of acc [] = acc
value_of acc (c ∷ cs) = value_of (acc * 10 + (c - 48)) cs

pub decimal : ℕ → Text
decimal n = digits_of (suc n) n

digits_of-last : (fuel n : ℕ) → n < 10 → digits_of (suc fuel) n ≡ (48 + n) ∷ []
unfolding digits_of
digits_of-last fuel n lt =
    let none_left : n / 10 ≡ 0 = omega arith in
    let same : n % 10 ≡ n = omega arith in rw (eqb_of_eq (n / 10) 0 none_left, same) refl

digits_of-more :
    (fuel n : ℕ) → 10 ≤ n → digits_of (suc fuel) n ≡ digits_of fuel (n / 10) ++ ((48 + n % 10) ∷ [])
unfolding digits_of
digits_of-more fuel n le = rw (eqb_of_ne (n / 10) 0 (λ e. absurd (omega arith))) refl

digit_cases : (n : ℕ) → (n < 10) ⊎ (10 ≤ n)
digit_cases n = omega arith

value_of-append :
    (acc c : ℕ) (xs : Text) → value_of acc (xs ++ (c ∷ [])) ≡ value_of acc xs * 10 + (c - 48)
unfolding value_of
value_of-append acc c [] = refl
value_of-append acc c (x ∷ xs) = value_of-append (acc * 10 + (x - 48)) c xs

value_of-one : (n : ℕ) → value_of 0 ((48 + n) ∷ []) ≡ n
unfolding value_of
value_of-one n = omega arith

value_of-digits_of : (fuel n : ℕ) → n < fuel → value_of 0 (digits_of fuel n) ≡ n
value_of-digits_of zero n lt = absurd (omega arith)
value_of-digits_of (suc fuel) n lt = elim (digit_cases n) [
  | inl low ↦ ap (λ (t : Text). value_of 0 t) (digits_of-last fuel n low) ∙ value_of-one n
  | inr high ↦
      let rest = value_of-digits_of fuel (n / 10) (omega arith) in
      let whole : n / 10 * 10 + (48 + n % 10 - 48) ≡ n = omega arith in
      ap (λ (t : Text). value_of 0 t) (digits_of-more fuel n high)
      ∙ value_of-append 0 (48 + n % 10) (digits_of fuel (n / 10))
      ∙ rw rest whole
]

All-append :
    (xs : Text) (c : ℕ) → All (λ k. k < 58) xs → c < 58 → All (λ k. k < 58) (xs ++ (c ∷ []))
All-append [] c h lt = (lt, _)
All-append (x ∷ xs) c h lt = (h.0, All-append xs c h.1 lt)

digits_of-zero : (n : ℕ) → All (λ k. k < 58) (digits_of 0 n)
unfolding digits_of
digits_of-zero n = _

digits_of-All : (fuel n : ℕ) → All (λ k. k < 58) (digits_of fuel n)
digits_of-All zero n = digits_of-zero n
digits_of-All (suc fuel) n = elim (digit_cases n) [
  | inl low ↦ rw (digits_of-last fuel n low) (omega arith, _)
  | inr high ↦ rw (digits_of-more fuel n high) (
      All-append (digits_of fuel (n / 10)) (48 + n % 10) (digits_of-All fuel (n / 10))
        (omega arith))
]

length_two : (n : ℕ) → 10 ≤ n → n < 100 → length (decimal n) ≡ 2
unfolding decimal
length_two zero le lt = absurd (omega arith)
length_two (suc m) le lt =
    rw (digits_of-more (suc m) (suc m) le, digits_of-last m (suc m / 10) (omega arith)) refl

pub decimal-IsDecimal : IsDecimal decimal
unfolding decimal
decimal-IsDecimal = record {
  digits = λ n. digits_of-All (suc n) n;
  one_digit = λ n lt. rw (digits_of-last n n lt) refl;
  two_digits = length_two;
  injective = λ n m e.
      sym (value_of-digits_of (suc n) n (omega arith))
      ∙ ap (λ (t : Text). value_of 0 t) e
      ∙ value_of-digits_of (suc m) m (omega arith);
}
