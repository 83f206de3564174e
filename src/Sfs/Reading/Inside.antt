-- ===== src/Sfs/Reading/Inside.antt =====
-- `sfs_read` of bytes that lie in one block of the first frame.
use ecse.Common.{
  ℕ, zero, suc, ◌+◌, ◌-◌, ◌/◌, ◌%◌, ◌^◌, ◌<◌, ◌≡◌, ◌≢◌, refl, [], ◌∷◌, false, done, arith,
  leb_of_lt, ltb_of_le, ltb, ltb_of_lt, eqb_of_ne, ◌==◌, Bool-cases, inl, inr,
}
use ecse.Storage.{Block, Blkid, Storage, sfs_read_block}
use ecse.Storage.Laws.{read_inside}
use ecse.Sfs.Layout.{content, next_frame}
use ecse.Sfs.State.{Fs}
use ecse.Sfs.Cursor.{set_cur}
use ecse.Sfs.Content.Slice.{frame_bid_of}
use ecse.Sfs.Content.Write.{HasBytes, fetched, block_at_cur, fetch_one, to_copy_all}
use ecse.Sfs.Reading.{scan_slots, scan_frames, copy_text, get_blocks, allowed, sfs_read}

scan_slots_end : (n : ℕ) (frame : Block) (slot : ℕ) → scan_slots n frame slot 1 1 ≡ done 1
unfolding scan_slots
scan_slots_end zero frame slot = elim (Bool-cases (ltb slot 127)) [
  | inl before ↦ rw before refl
  | inr behind ↦ rw behind refl
]
scan_slots_end (suc n) frame slot = elim (Bool-cases (ltb slot 127)) [
  | inl before ↦ rw before refl
  | inr behind ↦ rw behind refl
]

scan_slots_one :
    (n : ℕ) (frame : Block) (slot : ℕ)
    → slot < 127
    → content frame slot ≢ 0
    → scan_slots (suc n) frame slot 1 0 ≡ done 1
unfolding scan_slots
scan_slots_one n frame slot lt ne =
    rw (ltb_of_lt slot 127 lt, eqb_of_ne (content frame slot) 0 ne)
      (scan_slots_end n frame (slot + 1))

scan_frames_more :
    (n : ℕ) (d : Storage) (buf : Block) (bid slot first last : ℕ)
    → scan_frames n d buf bid slot first last 1 1 ≡ done 1
unfolding scan_frames
scan_frames_more zero d buf bid slot first last = refl
scan_frames_more (suc n) d buf bid slot first last = refl

scan_frames_one :
    (n : ℕ) (d : Storage) (buf frame : Block) (bid slot : ℕ)
    → sfs_read_block d buf bid ≡ frame
    → slot < 127
    → content frame slot ≢ 0
    → scan_frames (suc n) d buf bid slot 0 0 1 0 ≡ done 1
unfolding scan_frames
scan_frames_one n d buf frame bid slot read lt ne = elim (Bool-cases (next_frame frame == 0)) [
  | inl ends ↦
      rw (read, scan_slots_one n frame slot lt ne, ends)
        (scan_frames_more n d frame (next_frame frame) 0 0 0)
  | inr more ↦
      rw (read, scan_slots_one n frame slot lt ne, more)
        (scan_frames_more n d frame (next_frame frame) 0 0 0)
]

get_one :
    (bid : Blkid) (block : Block) (buf : ℕ → ℕ) (offset m cur : ℕ) (s : Fs) (fd : ℕ)
    → offset + suc m < 512
    → cur + suc m < 65024
    → get_blocks (bid ∷ []) block buf offset (suc m) cur s fd
      ≡ done (
        copy_text (suc m) 0 false (sfs_read_block s.disk block bid) offset buf,
        set_cur s fd (cur + suc m),
      )
unfolding get_blocks
get_one bid block buf offset m cur s fd short low =
    let none_left : suc m - suc m ≡ 0 = omega arith in
    let wrap : (cur + suc m) % 2 ^ 32 ≡ cur + suc m = omega arith in
    rw (to_copy_all offset m short, none_left, wrap, get_blocks, to_copy_all offset m short) refl

allowed_all : (offset size : ℕ) → size < 512 → allowed offset size 1 ≡ size
unfolding allowed
allowed_all offset size lt = rw (ltb_of_le 1 (size / 512 + 1) (omega arith)) refl

-- At least one byte that the file has, in its first frame, that ends before the end of the block of
-- the cursor: the bytes of that block from the cursor on are copied with `strncpy`, and the cursor
-- moves behind them.
pub sfs_read_inside :
    (rounds : ℕ) (s : Fs) (fd : ℕ) (buf : ℕ → ℕ) (size : ℕ)
    → HasBytes s fd size
    → 0 < size
    → (s.fdtable fd).cur % 512 + size < 512
    → sfs_read (suc rounds) s fd buf size
      ≡ done (
        size,
        copy_text size 0 false
            (sfs_read_block (fetched s fd).disk s.stack (block_at_cur s fd))
            ((s.fdtable fd).cur % 512)
            buf,
        set_cur (fetched s fd) fd ((s.fdtable fd).cur + size),
      )
unfolding sfs_read
sfs_read_inside rounds s fd buf size h some_bytes short =
    let cur = (s.fdtable fd).cur in
    let low = h.one_frame in
    let last : suc (size - 1) ≡ size = omega arith in
    let one : size / 512 + 1 ≡ 1 = omega arith in
    let first_frame_only : cur / 65024 ≡ 0 = omega arith in
    let last_frame_only : (cur + size) % 2 ^ 32 / 65024 ≡ 0 = omega arith in
    let seen =
      scan_frames_one rounds s.disk s.stack (s.disk.block (frame_bid_of s fd)) (frame_bid_of s fd)
        (cur / 512) (read_inside s.disk s.stack (frame_bid_of s fd) h.small h.inside) (omega arith)
        (h.full (cur / 512) (omega arith) (omega arith)) in
    let got =
      get_one (block_at_cur s fd) s.stack buf (cur % 512) (size - 1) cur (fetched s fd) fd
        (omega arith) (omega arith) in
    rw
      (
        leb_of_lt 32 fd h.valid,
        one,
        first_frame_only,
        last_frame_only,
        seen,
        fetch_one rounds s fd buf size h short,
        allowed_all (cur % 512) size (omega arith),
        rw last at got,
      )
      refl
