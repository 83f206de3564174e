-- ===== src/Disk/Transfer.antt =====
-- Reads and writes of bytes that stay inside one block, and the checks of their parameters.
use ecse.Common.{
  ℕ, ◌+◌, ◌-◌, ◌*◌, ◌/◌, ◌%◌, ◌<◌, ◌≤◌, ◌≡◌, ◌≢◌, ◌⊎◌, refl, sym, ap, ◌∙◌, done, undefined, arith,
  eqb_of_ne, ltb_of_lt, ltb_of_le, leb_of_le,
}
use ecse.Common.Int.{ℤ, pos, negsuc}
use ecse.Disk.Queue.{Bytes}
use ecse.Disk.{
  DiskFile, Mydisk, zero_bytes, check_params, memcpy, rounds_of, remainder_of, copy_out, read_from,
  read_bytes, mydisk_read, patch_block, write_from, write_bytes, mydisk_write,
}
use ecse.Disk.Blocks.{IsOpen, Written, read_block_inside, mydisk_write_block-Written}

-- The byte of the flat disk at an address.
abbrev pub flat : DiskFile → ℕ → ℕ
flat file a = file.block (a / 512) (a % 512)

flat_at :
    (file : DiskFile) (a k : ℕ)
    → a % 512 + k < 512
    → flat file (a + k) ≡ file.block (a / 512) (a % 512 + k)
flat_at file a k lt =
    let word : (a + k) / 512 ≡ a / 512 = omega arith in
    let spot : (a + k) % 512 ≡ a % 512 + k = omega arith in λ i. file.block (word i) (spot i)

-- `n` bytes from address `a` on lie inside one block of the disk, and the checks accept them.
pub record IsInside (s : Mydisk) (a n : ℕ) : Type 0 where
  pub some_bytes : 0 < n
  pub one_block : a % 512 + n ≤ 512
  pub start : a ≤ s.max_blocks * 511
  pub ending : n + a ≤ s.max_blocks * 512
  pub accepted : s.unreturned ≢ 1

check_params_fine :
    (s : Mydisk) (a n : ℕ)
    → a ≤ s.max_blocks * 511
    → n + a ≤ s.max_blocks * 512
    → 0 < n
    → check_params s (pos a) (pos n) ≡ s.unreturned
unfolding check_params
check_params_fine s a n start ending some_bytes = simp (
  ltb_of_le (s.max_blocks * 511) a start,
  ltb_of_le (s.max_blocks * 512) n (omega arith),
  eqb_of_ne n 0 (λ e. omega arith),
  ltb_of_le (s.max_blocks * 512) (n + a) ending,
)

check_params_inside :
    (s : Mydisk) (a n : ℕ) → IsInside s a n → check_params s (pos a) (pos n) ≡ s.unreturned
check_params_inside s a n h = check_params_fine s a n h.start h.ending h.some_bytes

inside_block : (s : Mydisk) (a n : ℕ) → IsInside s a n → a / 512 < s.max_blocks
inside_block s a n h = omega (arith, h.some_bytes, h.ending)

one_round : (offset n : ℕ) → offset + n ≤ 512 → rounds_of offset n ≡ 1
unfolding rounds_of
one_round offset n le = rw (ltb_of_le 512 (n + offset) (omega arith)) refl

read_one :
    (s : Mydisk) (file : DiskFile) (a n : ℕ) (buffer : Bytes)
    → IsOpen s file
    → IsInside s a n
    → n < 512
    → read_bytes s a n buffer ≡ done (0, memcpy buffer 0 (file.block (a / 512)) (a % 512) n, s)
unfolding read_bytes read_from copy_out remainder_of
read_one s file a n buffer o h short =
    let rest : n % 512 ≡ n = omega arith in
    rw
      (
        one_round (a % 512) n h.one_block,
        read_block_inside s file (a / 512) zero_bytes o (inside_block s a n h),
        ltb_of_le 512 (n + a % 512) (omega (arith, h.one_block)),
        rest,
        ltb_of_le 512 (a % 512 + n) h.one_block,
      )
      refl

-- On an open disk `mydisk_read` of fewer than 512 bytes that lie inside one block returns 0, fills
-- the buffer with the bytes of the disk from the address on, leaves the rest of the buffer, and
-- changes nothing else.
pub mydisk_read-flat :
    (s : Mydisk) (file : DiskFile) (a n : ℕ) (buffer : Bytes)
    → IsOpen s file
    → IsInside s a n
    → n < 512
    → (out : Bytes) × (mydisk_read s (pos a) (pos n) buffer ≡ done (0, out, s))
      × ((k : ℕ) → k < n → out k ≡ flat file (a + k))
      × ((k : ℕ) → n ≤ k → out k ≡ buffer k)
unfolding mydisk_read
mydisk_read-flat s file a n buffer o h short = (
  memcpy buffer 0 (file.block (a / 512)) (a % 512) n,
  rw (check_params_inside s a n h, eqb_of_ne s.unreturned 1 h.accepted)
      (read_one s file a n buffer o h short),
  λ k lt.
      let here : k - 0 ≡ k = omega arith in
      rw (leb_of_le 0 k (omega arith), ltb_of_lt k (0 + n) (omega arith), here)
        (sym (flat_at file a k (omega (arith, h.one_block)))),
  λ k le. rw (leb_of_le 0 k (omega arith), ltb_of_le k (0 + n) (omega arith)) refl,
)

write_one :
    (s : Mydisk) (file : DiskFile) (a n : ℕ) (buffer : Bytes)
    → IsOpen s file
    → IsInside s a n
    → 0 < a % 512
    → (t : Mydisk) × (later : DiskFile) × (write_bytes s a n buffer ≡ done (0, t))
      × Written s file
          (a / 512)
          (memcpy (file.block (a / 512)) (a % 512) buffer 0 (512 - a % 512))
          t
          later
unfolding write_bytes write_from patch_block
write_one s file a n buffer o h partial =
    let patched = memcpy (file.block (a / 512)) (a % 512) buffer 0 (512 - a % 512) in
    let small = inside_block s a n h in
    let (t, later, e, w) = mydisk_write_block-Written s file (a / 512) patched o small in
    (
      t,
      later,
      rw
          (
            one_round (a % 512) n h.one_block,
            ltb_of_lt 0 (a % 512) partial,
            read_block_inside s file (a / 512) zero_bytes o small,
            e,
          )
          refl,
      w,
    )

-- On an open disk the bytes from an address to the end of its block, where the address is not the
-- block's first, are written by `mydisk_write` and read back by `mydisk_read`.
pub mydisk_read-mydisk_write :
    (s : Mydisk) (file : DiskFile) (a n : ℕ) (sent buffer : Bytes)
    → IsOpen s file
    → IsInside s a n
    → 0 < a % 512
    → a % 512 + n ≡ 512
    → (t : Mydisk) × (out : Bytes) × (mydisk_write s (pos a) (pos n) sent ≡ done (0, t))
      × (mydisk_read t (pos a) (pos n) buffer ≡ done (0, out, t))
      × ((k : ℕ) → k < n → out k ≡ sent k)
unfolding mydisk_write
mydisk_read-mydisk_write s file a n sent buffer o h partial ends =
    let (t, later, e, w) = write_one s file a n sent o h partial in
    let inside : IsInside t a n = record {
      some_bytes = h.some_bytes;
      one_block = h.one_block;
      start = rw w.max_blocks h.start;
      ending = rw w.max_blocks h.ending;
      accepted = rw w.unreturned h.accepted;
    } in
    let (out, r, same, rest) =
      mydisk_read-flat t later a n buffer w.reopened inside (omega arith) in
    (
      t,
      out,
      rw (check_params_inside s a n h, eqb_of_ne s.unreturned 1 h.accepted) e,
      r,
      λ k lt.
          let back : 0 + (a % 512 + k - a % 512) ≡ k = omega arith in
          same k lt
          ∙ flat_at later a k (omega (arith, h.one_block))
          ∙ ap (λ (b : Bytes). b (a % 512 + k)) w.here
          ∙ rw
              (
                leb_of_le (a % 512) (a % 512 + k) (omega arith),
                ltb_of_lt (a % 512 + k) (a % 512 + (512 - a % 512)) (omega arith),
                back,
              )
              refl,
    )

-- What the checks refuse on a disk of `blocks` blocks: a negative address or number of bytes, an
-- address above 511 times the number of blocks, more bytes than the disk has, or an end behind it.
abbrev pub IsRefused : ℕ → ℤ → ℤ → Type 0
IsRefused blocks (pos a) (pos n) =
    (blocks * 511 < a) ⊎ ((blocks * 512 < n) ⊎ ((0 < n) × (blocks * 512 < n + a)))
IsRefused blocks (pos a) (negsuc n) = Unit
IsRefused blocks (negsuc a) n = Unit

check_params_refused :
    (s : Mydisk) (a n : ℕ)
    → IsRefused s.max_blocks (pos a) (pos n)
    → check_params s (pos a) (pos n) ≡ 1
unfolding check_params
check_params_refused s a n h = ground (arith, h)

-- `mydisk_read` and `mydisk_write` return 1 and change nothing where the address or the number of
-- bytes is negative, the address is above 511 times the number of blocks, the number of bytes is
-- above the size of the disk, or the end of at least one byte is behind it.
pub mydisk_refused :
    (s : Mydisk) (a n : ℤ) (buffer : Bytes)
    → IsRefused s.max_blocks a n
    → (mydisk_read s a n buffer ≡ done (1, buffer, s)) × (mydisk_write s a n buffer ≡ done (1, s))
unfolding mydisk_read mydisk_write
mydisk_refused s (pos a) (pos n) buffer h =
    let e = check_params_refused s a n h in (rw e refl, rw e refl)
mydisk_refused s (pos a) (negsuc n) buffer h = (refl, refl)
mydisk_refused s (negsuc a) n buffer h = (refl, refl)

-- On an open disk, where the checks accept it, a read of fewer than 512 bytes that goes on in the
-- next block reads behind the buffer of the first block, as soon as twice the offset in the block and
-- the number of bytes are more than 1024 together.
pub mydisk_read_crossing :
    (s : Mydisk) (file : DiskFile) (a n : ℕ) (buffer : Bytes)
    → IsOpen s file
    → a ≤ s.max_blocks * 511
    → n + a ≤ s.max_blocks * 512
    → s.unreturned ≢ 1
    → n < 512
    → 1024 < a % 512 + a % 512 + n
    → mydisk_read s (pos a) (pos n) buffer ≡ undefined
unfolding mydisk_read read_bytes read_from copy_out rounds_of remainder_of
mydisk_read_crossing s file a n buffer o start ending accepted short over =
    let checked : check_params s (pos a) (pos n) ≡ s.unreturned =
      check_params_fine s a n start ending (omega arith) in
    let rest : (a % 512 + n) % 512 ≡ a % 512 + n - 512 = omega arith in
    let none_whole : n / 512 ≡ 0 = omega arith in
    rw
      (
        checked,
        eqb_of_ne s.unreturned 1 accepted,
        ltb_of_lt 512 (n + a % 512) (omega arith),
        rest,
        eqb_of_ne (a % 512 + n - 512) 0 (λ e. omega arith),
        none_whole,
        read_block_inside s file (a / 512) zero_bytes o (omega arith),
        ltb_of_lt 0 (a % 512 + n - 512) (omega arith),
        ltb_of_lt 512 (a % 512 + (a % 512 + n - 512)) (omega arith),
      )
      refl

-- On an open disk, where the checks accept it, `mydisk_write` of at most 512 bytes from the start of
-- a block on fills the whole block, with what stands 512 bytes behind the start of the buffer.
pub mydisk_write_aligned :
    (s : Mydisk) (file : DiskFile) (a n : ℕ) (sent : Bytes)
    → IsOpen s file
    → IsInside s a n
    → a % 512 ≡ 0
    → (t : Mydisk) × (later : DiskFile) × (mydisk_write s (pos a) (pos n) sent ≡ done (0, t))
      × Written s file (a / 512) (λ k. sent (512 + k)) t later
unfolding mydisk_write write_bytes write_from
mydisk_write_aligned s file a n sent o h aligned =
    let (t, later, e, w) =
      mydisk_write_block-Written s file (a / 512) (λ k. sent (512 + k)) o (inside_block s a n h) in
    (
      t,
      later,
      rw
          (
            check_params_inside s a n h,
            eqb_of_ne s.unreturned 1 h.accepted,
            aligned,
            one_round 0 n (omega (arith, h.one_block)),
            ltb_of_le 512 (n + 0) (omega (arith, h.one_block)),
            e,
          )
          refl,
      w,
    )
