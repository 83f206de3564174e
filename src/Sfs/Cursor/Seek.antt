-- ===== src/Sfs/Cursor/Seek.antt =====
-- `sfs_seek` moves the cursor to its base plus the offset, and not below 0.
use ecse.Common.{
  ℕ, zero, suc, ◌+◌, ◌-◌, ◌%◌, ◌^◌, ◌<◌, ◌≤◌, ◌≡◌, ap, done, arith, leb_of_lt, ltb_of_lt, ltb_of_le,
  lt_of_ltb, le_of_ltb, ltb, Bool-cases, inl, inr,
}
use ecse.Common.Int.{ℤ, pos, negsuc, pos_part, neg_part}
use ecse.Sfs.Layout.{file_size}
use ecse.Sfs.State.{Fs, read_fresh}
use ecse.Sfs.Cursor.{to_u32, to_int, set_cur, store_cur, new_cur, sfs_seek}

-- Where the move begins: the start of the file, the cursor, or the size in the inode on disk.
abbrev pub seek_base : Fs → ℕ → ℕ → ℕ
seek_base s fd zero = 0
seek_base s fd (suc zero) = (s.fdtable fd).cur
seek_base s fd (suc (suc loc)) = file_size (read_fresh s (s.fdtable fd).inode_bid)

clamped_sum :
    (s : Fs) (fd base : ℕ) (relative : ℤ)
    → neg_part relative ≤ 2 ^ 31
    → base + pos_part relative < 2 ^ 31
    → store_cur s fd (to_int ((base + to_u32 relative) % 2 ^ 32))
      ≡ set_cur s fd (base + pos_part relative - neg_part relative)
clamped_sum s fd base (pos n) low high =
    let e : (base + n % 2 ^ 32) % 2 ^ 32 ≡ base + n = omega arith in
    rw (e, ltb_of_lt (base + n) (2 ^ 31) high) (ap (set_cur s fd) (omega arith))
clamped_sum s fd base (negsuc n) low high = elim (Bool-cases (ltb n base)) [
  | inl forward ↦
      let lt = lt_of_ltb n base forward in
      let e : (base + (2 ^ 32 - 1 - n % 2 ^ 32)) % 2 ^ 32 ≡ base - 1 - n = omega arith in
      rw (e, ltb_of_lt (base - 1 - n) (2 ^ 31) (omega arith)) (ap (set_cur s fd) (omega arith))
  | inr back ↦
      let le = le_of_ltb n base back in
      let e : (base + (2 ^ 32 - 1 - n % 2 ^ 32)) % 2 ^ 32 ≡ base + 2 ^ 32 - 1 - n = omega arith in
      rw (e, ltb_of_le (base + 2 ^ 32 - 1 - n) (2 ^ 31) (omega arith))
        (ap (set_cur s fd) (omega arith))
]

set_start :
    (s : Fs) (fd : ℕ) (relative : ℤ)
    → store_cur s fd relative ≡ set_cur s fd (0 + pos_part relative - neg_part relative)
set_start s fd (pos n) = ap (set_cur s fd) (omega arith)
set_start s fd (negsuc n) = ap (set_cur s fd) (omega arith)

-- For each of the three bases and a valid descriptor `sfs_seek` returns 0 and moves the cursor of
-- that descriptor alone to the base plus the offset, or to 0 where that is negative, as long as the
-- sum fits an `int`.
pub sfs_seek-clamped :
    (s : Fs) (fd : ℕ) (relative : ℤ) (loc : ℕ)
    → fd < 32
    → loc < 3
    → neg_part relative ≤ 2 ^ 31
    → seek_base s fd loc + pos_part relative < 2 ^ 31
    → sfs_seek s fd relative loc
      ≡ done (pos 0, set_cur s fd (seek_base s fd loc + pos_part relative - neg_part relative))
unfolding sfs_seek new_cur
sfs_seek-clamped s fd relative zero valid three low high =
    rw (leb_of_lt 32 fd valid) (ap done (λ i. (pos 0, set_start s fd relative i)))
sfs_seek-clamped s fd relative (suc zero) valid three low high =
    rw (leb_of_lt 32 fd valid)
      (ap done (λ i. (pos 0, clamped_sum s fd (s.fdtable fd).cur relative low high i)))
sfs_seek-clamped s fd relative (suc (suc zero)) valid three low high = rw (leb_of_lt 32 fd valid) (
    ap done (λ i. (
      pos 0,
      clamped_sum s fd (file_size (read_fresh s (s.fdtable fd).inode_bid)) relative low high i,
    )))
sfs_seek-clamped s fd relative (suc (suc (suc loc))) valid three low high = absurd (omega arith)
