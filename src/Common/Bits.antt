-- ===== src/Common/Bits.antt =====
-- The bits of a number, and what `&`, `|` and `^` do to them. The native operations have no laws at
-- variables, so each law goes through the equation for the lowest digit.
use Prim.Native.Nat.{
  ℕ, zero, suc, ◌+◌, ◌-◌, ◌*◌, ◌/◌, ◌%◌, ◌^◌, ◌≤◌, ◌<◌, min, max, bit_and, bit_or, bit_xor, digits,
  differ, bit_and-bitwise, bit_or-bitwise, bit_xor-bitwise,
}
use mathlib.Core.Path.{◌≡◌, refl, ap}
use native.Mathlib.Nat.{pow-suc, one-le-pow}
use native.Mathlib.Omega.{arith}

-- Bit `k` of `w`, as a number.
unfoldable pub bit : ℕ → ℕ → ℕ
bit w zero = w % 2
bit w (suc k) = bit (w / 2) k

pub bit-lt : (w k : ℕ) → bit w k < 2
unfolding bit
bit-lt w zero = omega arith
bit-lt w (suc k) = bit-lt (w / 2) k

pub bit-zero : (k : ℕ) → bit 0 k ≡ 0
unfolding bit
bit-zero zero = refl
bit-zero (suc k) = bit-zero k

module _ (z : ℕ → ℕ) (f : ℕ → ℕ → ℕ) where
  digits-rounds : (n m a b : ℕ) → a ≤ n → a ≤ m → digits z f n a b ≡ digits z f m a b
  digits-rounds zero zero a b p q = refl
  digits-rounds zero (suc m) zero b p q = refl
  digits-rounds zero (suc m) (suc a) b p q = absurd (omega arith)
  digits-rounds (suc n) zero zero b p q = refl
  digits-rounds (suc n) zero (suc a) b p q = absurd (omega arith)
  digits-rounds (suc n) (suc m) zero b p q = refl
  digits-rounds (suc n) (suc m) (suc a) b p q =
      rw (digits-rounds n m (suc a / 2) (b / 2) (omega arith) (omega arith))

bit_and-step : (a b : ℕ) → bit_and a b ≡ bit_and (a / 2) (b / 2) * 2 + min (a % 2) (b % 2)
bit_and-step zero b = simp bit_and-bitwise (omega arith)
bit_and-step (suc a) b = simp bit_and-bitwise (
    omega (
      arith,
      digits-rounds (λ y. 0) min a (suc a / 2) (suc a / 2) (b / 2) (omega arith) (omega arith),
    ))

bit_or-step : (a b : ℕ) → bit_or a b ≡ bit_or (a / 2) (b / 2) * 2 + max (a % 2) (b % 2)
bit_or-step zero b = simp bit_or-bitwise (omega arith)
bit_or-step (suc a) b = simp bit_or-bitwise (
    omega (
      arith,
      digits-rounds (λ y. y) max a (suc a / 2) (suc a / 2) (b / 2) (omega arith) (omega arith),
    ))

-- `a & b` and `a | b`, bit by bit.
pub bit-bit_and : (a b k : ℕ) → bit (bit_and a b) k ≡ min (bit a k) (bit b k)
unfolding bit
bit-bit_and a b zero = omega (arith, bit_and-step a b)
bit-bit_and a b (suc k) =
    let half : bit_and a b / 2 ≡ bit_and (a / 2) (b / 2) = omega (arith, bit_and-step a b) in
    rw half (bit-bit_and (a / 2) (b / 2) k)

pub bit-bit_or : (a b k : ℕ) → bit (bit_or a b) k ≡ max (bit a k) (bit b k)
unfolding bit
bit-bit_or a b zero = omega (arith, bit_or-step a b)
bit-bit_or a b (suc k) =
    let half : bit_or a b / 2 ≡ bit_or (a / 2) (b / 2) = omega (arith, bit_or-step a b) in
    rw half (bit-bit_or (a / 2) (b / 2) k)

-- Two numbers below `2 ^ n` with the same `n` bits are equal.
pub bit_ext : (n a b : ℕ) → a < 2 ^ n → b < 2 ^ n → ((k : ℕ) → k < n → bit a k ≡ bit b k) → a ≡ b
unfolding bit
bit_ext zero a b p q h = omega arith
bit_ext (suc n) a b p q h =
    let high : a / 2 ≡ b / 2 =
      bit_ext n (a / 2) (b / 2) (omega (arith, pow-suc 2 n)) (omega (arith, pow-suc 2 n))
        (λ k r. h (suc k) (omega arith)) in
    let low : a % 2 ≡ b % 2 = h 0 (omega arith) in omega arith

-- The bits of `1 << c`.
abbrev pub delta : ℕ → ℕ → ℕ
delta zero zero = 1
delta zero (suc k) = 0
delta (suc c) zero = 0
delta (suc c) (suc k) = delta c k

pub bit-pow : (c k : ℕ) → bit (2 ^ c) k ≡ delta c k
unfolding bit
bit-pow zero zero = refl
bit-pow zero (suc k) = bit-zero k
bit-pow (suc c) zero = omega (arith, pow-suc 2 c)
bit-pow (suc c) (suc k) =
    let half : 2 ^ suc c / 2 ≡ 2 ^ c = omega (arith, pow-suc 2 c) in rw half (bit-pow c k)

pub delta_self : (c : ℕ) → delta c c ≡ 1
delta_self zero = refl
delta_self (suc c) = delta_self c

pub delta_ne : (c k : ℕ) → ¬ (c ≡ k) → delta c k ≡ 0
delta_ne zero zero h = absurd (h refl)
delta_ne zero (suc k) h = refl
delta_ne (suc c) zero h = refl
delta_ne (suc c) (suc k) h = delta_ne c k (λ e. h (ap suc e))

-- The bits of `~w` in `n` bits, which is `2 ^ n - 1 - w`.
pub bit-complement : (n w k : ℕ) → w < 2 ^ n → k < n → bit (2 ^ n - 1 - w) k ≡ 1 - bit w k
unfolding bit
bit-complement zero w k p q = absurd (omega arith)
bit-complement (suc n) w zero p q = omega (arith, pow-suc 2 n)
bit-complement (suc n) w (suc k) p q =
    let half : (2 ^ suc n - 1 - w) / 2 ≡ 2 ^ n - 1 - w / 2 = omega (arith, pow-suc 2 n) in
    rw half (bit-complement n (w / 2) k (omega (arith, pow-suc 2 n)) (omega arith))

zero-bit_and : (b : ℕ) → bit_and 0 b ≡ 0
zero-bit_and b = bit_and-bitwise 0 b

bit_and-zero_rounds : (n a : ℕ) → a ≤ n → bit_and a 0 ≡ 0
bit_and-zero_rounds n zero h = zero-bit_and 0
bit_and-zero_rounds zero (suc a) h = absurd (omega arith)
bit_and-zero_rounds (suc n) (suc a) h =
    omega (arith, bit_and-step (suc a) 0, bit_and-zero_rounds n (suc a / 2) (omega arith))

bit_and-zero : (a : ℕ) → bit_and a 0 ≡ 0
bit_and-zero a = bit_and-zero_rounds a a (omega arith)

-- `a & b` and `a | b` stay in the width of their arguments.
pub bit_and-lt : (n a b : ℕ) → a < 2 ^ n → bit_and a b < 2 ^ n
bit_and-lt zero a b p = let e : a ≡ 0 = omega arith in rw (e, zero-bit_and b) (omega arith)
bit_and-lt (suc n) a b p = omega (
  arith,
  pow-suc 2 n,
  bit_and-step a b,
  bit_and-lt n (a / 2) (b / 2) (omega (arith, pow-suc 2 n)),
)

pub bit_or-lt : (n a b : ℕ) → a < 2 ^ n → b < 2 ^ n → bit_or a b < 2 ^ n
bit_or-lt zero a b p q =
    let ea : a ≡ 0 = omega arith in let eb : b ≡ 0 = omega arith in rw (ea, eb) (omega arith)
bit_or-lt (suc n) a b p q = omega (
  arith,
  pow-suc 2 n,
  bit_or-step a b,
  bit_or-lt n (a / 2) (b / 2) (omega (arith, pow-suc 2 n)) (omega (arith, pow-suc 2 n)),
)

-- `a & (1 << c)` is that mask or zero.
pub bit_and-pow : (c a : ℕ) → bit_and a (2 ^ c) ≡ bit a c * 2 ^ c
unfolding bit
bit_and-pow zero a = omega (arith, bit_and-step a 1, bit_and-zero (a / 2))
bit_and-pow (suc c) a =
    let half : 2 ^ suc c / 2 ≡ 2 ^ c = omega (arith, pow-suc 2 c) in
    let low : 2 ^ suc c % 2 ≡ 0 = omega (arith, pow-suc 2 c) in
    let step : bit_and a (2 ^ suc c) ≡ bit_and (a / 2) (2 ^ c) * 2 =
      rw (bit_and-step a (2 ^ suc c), half, low) (omega arith) in
    omega (arith, step, bit_and-pow c (a / 2), ap (λ (t : ℕ). bit (a / 2) c * t) (pow-suc 2 c))

bit_xor-step : (a b : ℕ) → bit_xor a b ≡ bit_xor (a / 2) (b / 2) * 2 + differ (a % 2) (b % 2)
bit_xor-step zero b = simp bit_xor-bitwise (omega arith)
bit_xor-step (suc a) b = simp bit_xor-bitwise (
    omega (
      arith,
      digits-rounds (λ y. y) differ a (suc a / 2) (suc a / 2) (b / 2) (omega arith) (omega arith),
    ))

differ_one : (x : ℕ) → x < 2 → differ x 1 ≡ 1 - x
differ_one zero h = refl
differ_one (suc zero) h = refl
differ_one (suc (suc x)) h = absurd (omega arith)

-- `w ^ 0xff…f` is zero exactly at the word of ones.
pub bit_xor-ones : (n w : ℕ) → w < 2 ^ n → bit_xor w (2 ^ n - 1) ≡ 2 ^ n - 1 - w
bit_xor-ones zero w p = let e : w ≡ 0 = omega arith in rw e refl
bit_xor-ones (suc n) w p =
    let half : (2 ^ suc n - 1) / 2 ≡ 2 ^ n - 1 = omega (arith, pow-suc 2 n) in
    let low : (2 ^ suc n - 1) % 2 ≡ 1 = omega (arith, pow-suc 2 n, one-le-pow n 2 (omega arith)) in
    rw (bit_xor-step w (2 ^ suc n - 1), half, low)
      (omega (
        arith,
        differ_one (w % 2) (omega arith),
        bit_xor-ones n (w / 2) (omega (arith, pow-suc 2 n)),
        pow-suc 2 n,
      ))
