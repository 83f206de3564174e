-- ===== src/Sockets/Moved.antt =====
-- How many bytes the calls of `send` or `recv` have moved, and what the copies leave.
use ecse.Common.{
  ℕ, zero, suc, ◌+◌, ◌<◌, ◌≤◌, ◌≡◌, refl, inl, inr, ◌⊎◌, arith, ltb_of_lt, ltb_of_le, leb_of_le,
  leb_of_lt,
}
use ecse.Common.Int.{ℤ, pos, negsuc}
use ecse.Sockets.{copied}

-- How many bytes a call has moved: none if it failed.
unfoldable pub bytes_of : ℤ → ℕ
bytes_of (pos n) = n
bytes_of (negsuc e) = 0

-- How many bytes the first calls have moved.
unfoldable pub moved : (ℕ → ℤ) → ℕ → ℕ
moved results zero = 0
moved results (suc n) = moved results n + bytes_of (results n)

pub order_cases : (a b : ℕ) → (a < b) ⊎ (b ≤ a)
order_cases a b = omega arith

pub ℤ-cases : (z : ℤ) → ((n : ℕ) × (z ≡ pos n)) ⊎ ((e : ℕ) × (z ≡ negsuc e))
ℤ-cases (pos n) = inl (n, refl)
ℤ-cases (negsuc e) = inr (e, refl)

pub moved_pos :
    (results : ℕ → ℤ) (n r : ℕ) → results n ≡ pos r → moved results (n + 1) ≡ moved results n + r
unfolding moved bytes_of
moved_pos results n r e = let next : n + 1 ≡ suc n = omega arith in rw (next, e) refl

pub moved_negsuc :
    (results : ℕ → ℤ) (n r : ℕ) → results n ≡ negsuc r → moved results (n + 1) ≡ moved results n
unfolding moved bytes_of
moved_negsuc results n r e = let next : n + 1 ≡ suc n = omega arith in rw (next, e) (omega arith)

pub copied_below :
    (lo n : ℕ) (new old : ℕ → ℕ)
    → ((p : ℕ) → p < lo → old p ≡ new p)
    → (p : ℕ) → p < lo + n
    → copied lo n new old p ≡ new p
copied_below lo n new old same p lt = elim (order_cases p lo) [
  | inl before ↦ rw (leb_of_lt lo p before) (same p before)
  | inr from ↦ rw (leb_of_le lo p from, ltb_of_lt p (lo + n) lt) refl
]

pub copied_above : (lo n : ℕ) (new old : ℕ → ℕ) (p : ℕ) → lo + n ≤ p → copied lo n new old p ≡ old p
copied_above lo n new old p le = rw (leb_of_le lo p (omega arith), ltb_of_le p (lo + n) le) refl
