-- ===== src/Sfs/Content/Slice.antt =====
-- `sfs_get_file_content` of a file whose blocks exist gives the run of its first frame.
use ecse.Common.{
  ℕ, zero, suc, ◌+◌, ◌-◌, ◌/◌, ◌%◌, ◌<◌, ◌≤◌, ◌≡◌, ◌≢◌, refl, ap, List, [], ◌∷◌, ◌++◌, done, arith,
  eqb_of_ne, length,
}
use ecse.Storage.{Block, Blkid, sfs_read_block}
use ecse.Storage.Laws.{read_inside}
use ecse.Sfs.Layout.{content, first_frame}
use ecse.Sfs.State.{Fs, read_fresh, write_to}
use ecse.Sfs.Content.{ensure_block, take_blocks, content_from, blocks_of, sfs_get_file_content}

-- The block numbers of a frame from slot `i` on, `n` of them.
unfoldable pub slice : ℕ → ℕ → Block → List Blkid
slice i zero frame = []
slice i (suc n) frame = content frame i ∷ slice (i + 1) n frame

pub length-slice : (i n : ℕ) (frame : Block) → length (slice i n frame) ≡ n
unfolding slice
length-slice i zero frame = refl
length-slice i (suc n) frame = ap suc (length-slice (i + 1) n frame)

module _ (frame : Block) (s : Fs) where
  ensure_block_set : (k : ℕ) → content frame k ≢ 0 → ensure_block frame k s ≡ done (frame, s)
  unfolding ensure_block
  ensure_block_set k ne = rw (eqb_of_ne (content frame k) 0 ne) refl

  take_blocks-slice :
      (n count wanted : ℕ)
      → wanted ≤ n
      → ((j : ℕ) → count ≤ j → j < count + wanted → content frame j ≢ 0)
      → take_blocks n count wanted frame s ≡ done (frame, 0, slice count wanted frame, s)
  unfolding take_blocks slice
  take_blocks-slice zero count zero le full = refl
  take_blocks-slice zero count (suc wanted) le full = absurd (omega arith)
  take_blocks-slice (suc n) count zero le full = refl
  take_blocks-slice (suc n) count (suc wanted) le full =
      let set : ensure_block frame count s ≡ done (frame, s) =
        ensure_block_set count (full count (omega arith) (omega arith)) in
      rw
        (
          set,
          take_blocks-slice n (count + 1) wanted (omega arith)
              λ j lo hi. full j (omega arith) (omega arith),
        )
        refl

append_nil : (xs : List Blkid) → xs ++ [] ≡ xs
append_nil [] = refl
append_nil (x ∷ xs) = ap (λ (ys : List Blkid). x ∷ ys) (append_nil xs)

content_from_one :
    (n : ℕ) (buf frame : Block) (bid count wanted : ℕ) (s : Fs)
    → sfs_read_block s.disk buf bid ≡ frame
    → count + suc wanted ≤ 127
    → ((j : ℕ) → count ≤ j → j < count + suc wanted → content frame j ≢ 0)
    → content_from (suc n) buf bid count (suc wanted) s
      ≡ done (slice count (suc wanted) frame, write_to s frame bid)
unfolding content_from
content_from_one n buf frame bid count wanted s e le full =
    rw
      (
        e,
        take_blocks-slice frame s (127 - count) count (suc wanted) (omega arith) full,
        append_nil (slice count (suc wanted) frame),
      )
      refl

-- The block of a file's first frame.
abbrev pub frame_bid_of : Fs → ℕ → Blkid
frame_bid_of s fd = first_frame (read_fresh s (s.fdtable fd).inode_bid)

blocks_of_lem :
    (cur length : ℕ)
    → cur + length < 65024
    → blocks_of cur length ≡ suc ((cur + length) / 512 - cur / 512)
unfolding blocks_of
blocks_of_lem cur length lt = omega arith

-- For a file whose range lies in its first frame and whose blocks there all exist,
-- `sfs_get_file_content` ends and gives the blocks from that of the cursor to that of the end of the
-- range, in order; nothing is allocated, and the frame is written back as it was.
pub sfs_get_file_content-slice :
    (rounds : ℕ) (s : Fs) (fd cur length : ℕ)
    → frame_bid_of s fd < 8388608
    → frame_bid_of s fd < s.disk.length
    → cur + length < 65024
    → ((j : ℕ)
        → cur / 512 ≤ j
        → j ≤ (cur + length) / 512
        → content (s.disk.block (frame_bid_of s fd)) j ≢ 0)
    → sfs_get_file_content (suc rounds) s fd cur length
      ≡ done (
        slice
            (cur / 512)
            (suc ((cur + length) / 512 - cur / 512))
            (s.disk.block (frame_bid_of s fd)),
        write_to s (s.disk.block (frame_bid_of s fd)) (frame_bid_of s fd),
      )
unfolding sfs_get_file_content
sfs_get_file_content-slice rounds s fd cur length small inside short full =
    let count : cur / 512 % 127 ≡ cur / 512 = omega arith in
    rw (blocks_of_lem cur length short, count)
      (content_from_one rounds s.stack (s.disk.block (frame_bid_of s fd)) (frame_bid_of s fd)
        (cur / 512) ((cur + length) / 512 - cur / 512) s
        (read_inside s.disk s.stack (frame_bid_of s fd) small inside) (omega arith)
        (λ j lo hi. full j lo (omega arith)))
