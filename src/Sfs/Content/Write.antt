-- ===== src/Sfs/Content/Write.antt =====
-- `sfs_write` of bytes that the file already has, in its first frame.
use ecse.Common.{
  ℕ, suc, ◌+◌, ◌-◌, ◌/◌, ◌%◌, ◌^◌, ◌<◌, ◌≤◌, ◌≡◌, ◌≢◌, refl, ap, ◌∙◌, [], ◌∷◌, false, done,
  undefined, arith, leb_of_lt, ltb_of_le, ltb_of_lt,
}
use ecse.Storage.{Block, Blkid, sfs_read_block}
use ecse.Sfs.Layout.{file_size, content}
use ecse.Sfs.State.{Fs, read_fresh, write_to}
use ecse.Sfs.Cursor.{set_cur}
use ecse.Sfs.Content.{sfs_get_file_content, strncpy, to_copy_of, put_blocks, enlarge, sfs_write}
use ecse.Sfs.Content.Slice.{frame_bid_of, slice, length-slice, sfs_get_file_content-slice}

-- A valid descriptor of a file that has `size` bytes from the cursor on; they lie in its first frame,
-- whose blocks up to the one at their end exist.
pub record HasBytes (s : Fs) (fd size : ℕ) : Type 0 where
  pub valid : fd < 32
  pub small : frame_bid_of s fd < 8388608
  pub inside : frame_bid_of s fd < s.disk.length
  pub one_frame : (s.fdtable fd).cur + size < 65024
  pub within : (s.fdtable fd).cur + size ≤ file_size (read_fresh s (s.fdtable fd).inode_bid)
  pub full :
      (j : ℕ)
      → (s.fdtable fd).cur / 512 ≤ j
      → j ≤ ((s.fdtable fd).cur + size) / 512
      → content (s.disk.block (frame_bid_of s fd)) j ≢ 0

pub to_copy_all : (offset m : ℕ) → offset + suc m < 512 → to_copy_of offset (suc m) ≡ suc m
unfolding to_copy_of
to_copy_all offset m short = ground (arith, short)

put_one :
    (bid : Blkid) (block : Block) (buf : ℕ → ℕ) (offset m cur : ℕ) (s : Fs)
    → offset + suc m < 512
    → cur + suc m < 65024
    → put_blocks (bid ∷ []) block buf offset (suc m) cur s
      ≡ done (
        cur + suc m,
        write_to s (strncpy (sfs_read_block s.disk block bid) offset buf 0 false (suc m)) bid,
      )
unfolding put_blocks
put_one bid block buf offset m cur s short low =
    let none_left : suc m - suc m ≡ 0 = omega arith in
    let wrap : (cur + suc m) % 2 ^ 32 ≡ cur + suc m = omega arith in
    rw (to_copy_all offset m short, none_left, wrap, put_blocks) refl

-- The state after the block numbers are fetched.
abbrev pub fetched : Fs → ℕ → Fs
fetched s fd = write_to s (s.disk.block (frame_bid_of s fd)) (frame_bid_of s fd)

-- The block that the cursor is in.
abbrev pub block_at_cur : Fs → ℕ → Blkid
block_at_cur s fd = content (s.disk.block (frame_bid_of s fd)) ((s.fdtable fd).cur / 512)

module _ (rounds : ℕ) (s : Fs) (fd : ℕ) (buf : ℕ → ℕ) (size : ℕ) (h : HasBytes s fd size) where
  pub no_growth : enlarge s fd ((size + (s.fdtable fd).cur) % 2 ^ 32) ≡ done s
  unfolding enlarge
  no_growth =
      let wrap : (size + (s.fdtable fd).cur) % 2 ^ 32 ≡ (s.fdtable fd).cur + size =
        omega (arith, h.one_frame) in
      rw (wrap, ltb_of_le _ _ h.within) refl

  -- A write, through a valid descriptor, of bytes that the file has, in its first frame, whose range
  -- with its end touches more blocks than the size divided by 512 and one, overruns the array of
  -- block numbers.
  pub sfs_write_crossing :
      size / 512 + 1 < suc (((s.fdtable fd).cur + size) / 512 - (s.fdtable fd).cur / 512)
      → sfs_write (suc rounds) s fd buf size ≡ undefined
  unfolding sfs_write
  sfs_write_crossing more =
      rw
        (
          leb_of_lt 32 fd h.valid,
          no_growth,
          sfs_get_file_content-slice rounds s fd (s.fdtable fd).cur size h.small h.inside
              h.one_frame h.full,
          length-slice ((s.fdtable fd).cur / 512)
              (suc (((s.fdtable fd).cur + size) / 512 - (s.fdtable fd).cur / 512))
              (s.disk.block (frame_bid_of s fd)),
          ltb_of_lt _ _ more,
        )
        refl

  pub fetch_one :
      (s.fdtable fd).cur % 512 + size < 512
      → sfs_get_file_content (suc rounds) s fd (s.fdtable fd).cur size
        ≡ done (block_at_cur s fd ∷ [], fetched s fd)
  unfolding slice
  fetch_one short =
      let zero_more : ((s.fdtable fd).cur + size) / 512 - (s.fdtable fd).cur / 512 ≡ 0 =
        omega arith in
      sfs_get_file_content-slice rounds s fd (s.fdtable fd).cur size h.small h.inside h.one_frame
        h.full
      ∙ ap
          (λ (k : ℕ). done (
            slice ((s.fdtable fd).cur / 512) (suc k) (s.disk.block (frame_bid_of s fd)),
            fetched s fd,
          ))
          zero_more

  -- A write, through a valid descriptor, of at least one byte that the file has, in its first frame,
  -- that ends before the end of the block of the cursor, copies the bytes into that block at the
  -- cursor with `strncpy`, moves the cursor behind them, returns their number, and allocates nothing.
  pub sfs_write_inside :
      0 < size
      → (s.fdtable fd).cur % 512 + size < 512
      → sfs_write (suc rounds) s fd buf size
        ≡ done (
          size,
          set_cur
              (write_to
                (fetched s fd)
                (strncpy
                  (sfs_read_block (fetched s fd).disk s.stack (block_at_cur s fd))
                  ((s.fdtable fd).cur % 512)
                  buf
                  0
                  false
                  size)
                (block_at_cur s fd))
              fd
              ((s.fdtable fd).cur + size),
        )
  unfolding sfs_write
  sfs_write_inside some_bytes short =
      let last : suc (size - 1) ≡ size = omega arith in
      let put =
        put_one (block_at_cur s fd) s.stack buf ((s.fdtable fd).cur % 512) (size - 1)
          (s.fdtable fd).cur (fetched s fd) (omega arith) (omega (arith, h.one_frame)) in
      rw
        (
          leb_of_lt 32 fd h.valid,
          no_growth,
          fetch_one short,
          ltb_of_le (size / 512 + 1) 1 (omega arith),
          rw last at put,
        )
        refl
