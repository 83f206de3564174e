-- ===== src/Sfs/Freemap/Scan.antt =====
-- The two inner loops of `sfs_alloc_block` find the lowest clear bit.
use Prim.Native.Nat.{bit_and, bit_xor}
use native.Mathlib.Nat.{one-le-pow, pow-suc}
use native.Mathlib.Numerals.{add-one}
use ecse.Common.{
  ℕ, zero, suc, ◌+◌, ◌*◌, ◌/◌, ◌%◌, ◌^◌, ◌<◌, ◌≤◌, ◌≡◌, ◌≢◌, refl, ap, sym, ◌∙◌, inl, inr, Option,
  none, some, Outcome, done, undefined, diverged, exited, arith, ◌==◌, Bool-cases, eq_of_eqb,
  ne_of_eqb, leb, le_of_leb, lt_of_leb,
}
use ecse.Common.Bits.{bit, bit-lt, bit-zero, bit-complement, bit_ext, bit_and-pow, bit_xor-ones}
use ecse.Storage.{Block}
use ecse.Sfs.Freemap.{find_bit, find_word, Spot, ones}
use ecse.Sfs.Freemap.Map.{used, IsMap, pow-word}

-- What a search of the bits from `c` on says of the word `w`.
abbrev pub Lowest : ℕ → ℕ → Option (ℕ × ℕ) → Type 0
Lowest w c none = (j : ℕ) → c ≤ j → j < 32 → bit w j ≡ 1
Lowest w c (some (p, k)) =
    (c ≤ p) × (p < 32) × (k ≡ 2 ^ p) × (bit w p ≡ 0) × ((j : ℕ) → c ≤ j → j < p → bit w j ≡ 1)

Lowest-suc : (w c : ℕ) (r : Option (ℕ × ℕ)) → bit w c ≡ 1 → Lowest w (c + 1) r → Lowest w c r
Lowest-suc w c none e h = λ j p q. elim (Bool-cases (j == c)) [
  | inl same ↦ rw (eq_of_eqb j c same) e
  | inr other ↦ h j (let ne = ne_of_eqb j c other in omega arith) q
]
Lowest-suc w c (some (p, k)) e h = (
  omega arith,
  h.1,
  h.2,
  h.3,
  λ j a b. elim (Bool-cases (j == c)) [
    | inl same ↦ rw (eq_of_eqb j c same) e
    | inr other ↦ h.4 j (let ne = ne_of_eqb j c other in omega arith) b
  ],
)

mask_set : (w c : ℕ) → bit_and w (2 ^ c) ≡ 2 ^ c → bit w c ≡ 1
mask_set w c h = grind (arith, bit_and-pow c w, bit-lt w c, one-le-pow c 2)

mask_clear : (w c : ℕ) → bit_and w (2 ^ c) ≢ 2 ^ c → bit w c ≡ 0
mask_clear w c h = elim (Bool-cases (bit w c == 1)) [
  | inl one ↦ absurd (h (bit_and-pow c w ∙ rw (eq_of_eqb (bit w c) 1 one) (omega arith)))
  | inr other ↦ let ne = ne_of_eqb (bit w c) 1 other in omega (arith, bit-lt w c)
]

find_bit-Lowest :
    (n w mask c : ℕ) → n + c ≡ 32 → (c < 32 → mask ≡ 2 ^ c) → Lowest w c (find_bit n w mask c)
unfolding find_bit
find_bit-Lowest zero w mask c e m = λ j p q. absurd (omega arith)
find_bit-Lowest (suc n) w mask c e m = elim (Bool-cases (bit_and w mask == mask)) [
  | inl set ↦ rw set (
      Lowest-suc w c _ (mask_set w c (rw (← m (omega arith)) (eq_of_eqb _ mask set))) (
        find_bit-Lowest n w (mask * 2 % 2 ^ 32) (c + 1) (omega arith) (λ q.
          rw (m (omega arith))
            (omega (arith, pow-suc 2 c, ap (λ (t : ℕ). 2 ^ t) (add-one c), pow-word (c + 1) q)))))
  | inr clear ↦ rw clear (
    omega arith,
    omega arith,
    m (omega arith),
    mask_clear w c (rw (← m (omega arith)) (ne_of_eqb _ mask clear)),
    λ j p q. absurd (omega arith),
  )
]

-- What the search of the words from `i` on comes to: the lowest clear bit, or an access out of
-- bounds behind a full map.
abbrev pub Scanned : Block → ℕ → Outcome (Option Spot) → Type 0
Scanned m i (done none) = ⊥
Scanned m i (done (some (w, c, k))) =
    (i ≤ w)
    × (w < 128)
    × (c < 32)
    × (k ≡ 2 ^ c)
    × (used m (w * 32 + c) ≡ 0)
    × ((j : ℕ) → i * 32 ≤ j → j < w * 32 + c → used m j ≡ 1)
Scanned m i undefined = (j : ℕ) → i * 32 ≤ j → j < 4096 → used m j ≡ 1
Scanned m i diverged = ⊥
Scanned m i exited = ⊥

bit-ones : (j : ℕ) → j < 32 → bit ones j ≡ 1
bit-ones j h = omega (arith, bit-complement 32 0 j (omega arith) h, bit-zero j)

-- A full word is one whose 32 bits are set.
full_word :
    (m : Block) (i : ℕ) → IsMap m → bit_xor (m i) ones ≡ 0 → (j : ℕ) → j / 32 ≡ i → used m j ≡ 1
unfolding used
full_word m i h e j q =
    let full : m i ≡ ones = omega (arith, h i, bit_xor-ones 32 (m i) (h i)) in
    rw (q, full) (bit-ones (j % 32) (omega arith))

Scanned-suc :
    (m : Block) (i : ℕ) (r : Outcome (Option Spot))
    → ((j : ℕ) → j / 32 ≡ i → used m j ≡ 1)
    → Scanned m (i + 1) r
    → Scanned m i r
Scanned-suc m i (done none) f h = h
Scanned-suc m i (done (some (w, c, k))) f h = (
  omega arith,
  h.1,
  h.2,
  h.3,
  h.4,
  λ j p q. elim (Bool-cases (j / 32 == i)) [
    | inl here ↦ f j (eq_of_eqb (j / 32) i here)
    | inr other ↦ h.5 j (let ne = ne_of_eqb (j / 32) i other in omega arith) q
  ],
)
Scanned-suc m i undefined f h = λ j p q. elim (Bool-cases (j / 32 == i)) [
  | inl here ↦ f j (eq_of_eqb (j / 32) i here)
  | inr other ↦ h j (let ne = ne_of_eqb (j / 32) i other in omega arith) q
]
Scanned-suc m i diverged f h = h
Scanned-suc m i exited f h = h

-- A word that is not full has a clear bit.
gap_word :
    (m : Block) (i : ℕ) (rest : Outcome (Option Spot)) (r : Option (ℕ × ℕ))
    → IsMap m
    → i < 128
    → bit_xor (m i) ones ≢ 0
    → Lowest (m i) 0 r
    → Scanned m i (elim r [ none ↦ rest | some (c, k) ↦ done (some (i, c, k)) ])
unfolding used
gap_word m i rest none h lt gap low =
    let full : m i ≡ ones =
      bit_ext 32 (m i) ones (h i) (omega arith)
        (λ k q. low k (omega arith) q ∙ sym (bit-ones k q)) in
    absurd (gap (rw full refl))
gap_word m i rest (some (c, k)) h lt gap low =
    let c_lt : c < 32 = low.1 in
    let word : (i * 32 + c) / 32 ≡ i = omega arith in
    let spot : (i * 32 + c) % 32 ≡ c = omega arith in
    (
      omega arith,
      lt,
      c_lt,
      low.2,
      rw (word, spot) low.3,
      λ j p q.
          let at : j / 32 ≡ i = omega arith in rw at (low.4 (j % 32) (omega arith) (omega arith)),
    )

pub find_word-Scanned :
    (n : ℕ) (m : Block) (i : ℕ) → i ≤ 128 → 128 < n + i → IsMap m → Scanned m i (find_word n m i)
unfolding find_word
find_word-Scanned zero m i p q h = absurd (omega arith)
find_word-Scanned (suc n) m i p q h = elim (Bool-cases (leb 128 i)) [
  | inl end ↦ rw end (λ j a b. absurd (let e = le_of_leb 128 i end in omega arith))
  | inr inside ↦
      let lt = lt_of_leb 128 i inside in
      rw inside (elim (Bool-cases (bit_xor (m i) ones == 0)) [
        | inl full ↦ rw full (
            Scanned-suc m i _ (full_word m i h (eq_of_eqb _ 0 full))
              (find_word-Scanned n m (i + 1) (omega arith) (omega arith) h))
        | inr gap ↦ rw gap (
            gap_word m i _ (find_bit 32 (m i) 1 0) h lt (ne_of_eqb _ 0 gap)
              (find_bit-Lowest 32 (m i) 1 0 refl (λ _. refl)))
      ])
]
