-- ===== src/Sfs/Freemap/Map.antt =====
-- The freemap as a set of block numbers: bit `k % 32` of word `k / 32` says whether block `k` is
-- taken.
use Prim.Native.Nat.{bit_and, bit_or}
use native.Mathlib.Nat.{pow-le-pow_right}
use ecse.Common.{
  ℕ, ◌-◌, ◌/◌, ◌%◌, ◌^◌, ◌<◌, ◌≤◌, ◌≡◌, ◌≢◌, inl, inr, arith, ◌==◌, if◌then◌else◌, Bool-cases,
  eq_of_eqb, ne_of_eqb,
}
use ecse.Common.Bits.{
  bit, bit-lt, bit-bit_and, bit-bit_or, bit_and-lt, bit_or-lt, bit-pow, bit-complement, delta_self,
  delta_ne,
}
use ecse.Storage.{Block, Blkid, set_word}
use ecse.Sfs.Freemap.{ones}

unfoldable pub used : Block → Blkid → ℕ
used m k = bit (m (k / 32)) (k % 32)

-- Every word of the map is a `u32`.
abbrev pub IsMap : Block → Type 0
IsMap m = (i : ℕ) → m i < 2 ^ 32

unfoldable pub mark : Block → Blkid → Block
mark m k = set_word m (k / 32) (bit_or (m (k / 32)) (2 ^ (k % 32)))

unfoldable pub unmark : Block → Blkid → Block
unmark m k = set_word m (k / 32) (bit_and (m (k / 32)) (ones - 2 ^ (k % 32)))

pub used-le : (m : Block) (k : Blkid) → used m k ≤ 1
unfolding used
used-le m k = omega (arith, bit-lt (m (k / 32)) (k % 32))

pub pow-word : (c : ℕ) → c < 32 → 2 ^ c < 2 ^ 32
pow-word c h =
    let le : 2 ^ c ≤ 2 ^ 31 = pow-le-pow_right (omega arith) {i = c} {j = 31} (omega arith) in
    omega arith

pub mark-IsMap : (m : Block) (k : Blkid) → IsMap m → IsMap (mark m k)
unfolding mark
mark-IsMap m k h i = ground (
  arith,
  h i,
  bit_or-lt 32 (m (k / 32)) (2 ^ (k % 32)) (h (k / 32)) (pow-word (k % 32) (omega arith)),
)

pub unmark-IsMap : (m : Block) (k : Blkid) → IsMap m → IsMap (unmark m k)
unfolding unmark
unmark-IsMap m k h i =
    ground (arith, h i, bit_and-lt 32 (m (k / 32)) (ones - 2 ^ (k % 32)) (h (k / 32)))

-- Marking a block changes that block's bit and no other.
pub used-mark : (m : Block) (k j : Blkid) → used (mark m k) j ≡ (if j == k then 1 else used m j)
unfolding used mark
used-mark m k j = elim (Bool-cases (j == k)) [
  | inl same ↦
      let e : j ≡ k = eq_of_eqb j k same in
      rw (same, e)
        (ground (
          arith,
          bit-bit_or (m (k / 32)) (2 ^ (k % 32)) (k % 32),
          bit-pow (k % 32) (k % 32),
          delta_self (k % 32),
          bit-lt (m (k / 32)) (k % 32),
        ))
  | inr other ↦ rw other (elim (Bool-cases (j / 32 == k / 32)) [
    | inl word ↦
        let e : j / 32 ≡ k / 32 = eq_of_eqb (j / 32) (k / 32) word in
        let ne : k % 32 ≢ j % 32 = λ h. ne_of_eqb j k other (omega arith) in
        rw (word, e)
          (ground (
            arith,
            bit-bit_or (m (k / 32)) (2 ^ (k % 32)) (j % 32),
            bit-pow (k % 32) (j % 32),
            delta_ne (k % 32) (j % 32) ne,
          ))
    | inr word ↦ rw word
  ])
]

pub used-unmark : (m : Block) (k j : Blkid) → used (unmark m k) j ≡ (if j == k then 0 else used m j)
unfolding used unmark
used-unmark m k j =
    let mask =
      bit-complement 32 (2 ^ (k % 32)) (j % 32) (pow-word (k % 32) (omega arith)) (omega arith) in
    let one = bit-pow (k % 32) (j % 32) in
    let both = bit-bit_and (m (k / 32)) (ones - 2 ^ (k % 32)) (j % 32) in
    elim (Bool-cases (j == k)) [
      | inl same ↦
          let e : j ≡ k = eq_of_eqb j k same in
          rw same (ground (arith, e, mask, one, both, delta_self (k % 32)))
      | inr other ↦ rw other (elim (Bool-cases (j / 32 == k / 32)) [
        | inl word ↦
            let e : j / 32 ≡ k / 32 = eq_of_eqb (j / 32) (k / 32) word in
            let ne : k % 32 ≢ j % 32 = λ h. ne_of_eqb j k other (omega arith) in
            rw (word, e)
              (ground (
                arith,
                mask,
                one,
                both,
                delta_ne (k % 32) (j % 32) ne,
                bit-lt (m (k / 32)) (j % 32),
              ))
        | inr word ↦ rw word
      ])
    ]
