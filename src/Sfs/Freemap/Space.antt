-- ===== src/Sfs/Freemap/Space.antt =====
-- How many blocks the freemap marks, and that a map with room has a free block.
use ecse.Common.{
  ℕ, zero, suc, ◌+◌, ◌<◌, ◌≤◌, ◌≡◌, inl, inr, arith, ltb, ◌==◌, if◌then◌else◌, Bool-cases,
  eq_of_eqb, ne_of_eqb,
}
use ecse.Storage.{Block, Blkid}
use ecse.Sfs.Freemap.Map.{used, used-le}

-- How many of the blocks below `n` are marked.
unfoldable pub used_count : Block → ℕ → ℕ
used_count m zero = 0
used_count m (suc n) = used m n + used_count m n

-- A map that marks fewer blocks than it has leaves one free.
pub spare_block : (m : Block) (n : ℕ) → used_count m n < n → (k : Blkid) × (k < n) × (used m k ≡ 0)
unfolding used_count
spare_block m zero lt = absurd (omega arith)
spare_block m (suc n) lt = elim (Bool-cases (used m n == 0)) [
  | inl free ↦ (n, omega arith, eq_of_eqb _ _ free)
  | inr taken ↦
      let ne = ne_of_eqb _ _ taken in
      let one = used-le m n in
      let (k, small, free) = spare_block m n (omega arith) in (k, omega arith, free)
]

module _ (m u : Block) (x : Blkid) where
  same_below :
      ((j : Blkid) → j < x → used u j ≡ used m j)
      → (n : ℕ) → n ≤ x
      → used_count u n ≡ used_count m n
  unfolding used_count
  same_below same zero le = omega arith
  same_below same (suc n) le = omega (arith, same n, same_below same n)

  -- Marking a free block adds one.
  pub used_count-marked :
      ((j : Blkid) → used u j ≡ (if j == x then 1 else used m j))
      → used m x ≡ 0
      → (n : ℕ) → x < n
      → used_count u n ≡ used_count m n + 1
  unfolding used_count
  used_count-marked marks free zero lt = absurd (omega arith)
  used_count-marked marks free (suc n) lt = elim (Bool-cases (n == x)) [
    | inl same ↦
        let e = eq_of_eqb n x same in
        let below = same_below (λ j lo. ground (arith, marks j)) n (omega arith) in
        rw e (ground (arith, marks x, rw e at below, free))
    | inr other ↦
        let ne = ne_of_eqb n x other in
        ground (arith, marks n, used_count-marked marks free n (omega arith))
  ]

  -- Clearing the mark of a block takes one away.
  pub used_count-cleared :
      ((j : Blkid) → used u j ≡ (if j == x then 0 else used m j))
      → used m x ≡ 1
      → (n : ℕ) → x < n
      → used_count u n + 1 ≡ used_count m n
  unfolding used_count
  used_count-cleared marks taken zero lt = absurd (omega arith)
  used_count-cleared marks taken (suc n) lt = elim (Bool-cases (n == x)) [
    | inl same ↦
        let e = eq_of_eqb n x same in
        let below = same_below (λ j lo. ground (arith, marks j)) n (omega arith) in
        rw e (ground (arith, marks x, rw e at below, taken))
    | inr other ↦
        let ne = ne_of_eqb n x other in
        ground (arith, marks n, used_count-cleared marks taken n (omega arith))
  ]

-- A map that marks exactly the blocks 0 and 1.
pub used_count-two :
    (m : Block)
    → ((j : Blkid) → used m j ≡ (if ltb j 2 then 1 else 0))
    → (n : ℕ) → used_count m n ≡ (if ltb n 2 then n else 2)
unfolding used_count
used_count-two m marks zero = ground arith
used_count-two m marks (suc n) = ground (arith, marks n, used_count-two m marks n)
