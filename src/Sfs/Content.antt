-- ===== src/Sfs/Content.antt =====
-- `sfs_resize_file`, `sfs_get_file_content` and `sfs_write` of PA3/a2/fs.c.
pub mod Slice
pub mod Write
pub mod Growth
mod Tests
use ecse.Common.{
  ℕ, zero, suc, ◌+◌, ◌-◌, ◌*◌, ◌/◌, ◌%◌, ◌^◌, List, [], ◌∷◌, ◌++◌, Bool, false, ◌||◌, Outcome, done,
  undefined, diverged, ◌>>=◌, leb, ltb, ◌==◌, if◌then◌else◌, length,
}
use ecse.Storage.{Block, Blkid, block_size, set_word, sfs_read_block}
use ecse.Sfs.Layout.{
  file_size, first_frame, next_frame, content, sfs_frame_count, sfs_max_opened_files, set_byte,
}
use ecse.Sfs.State.{Fd, Fs, read_fresh, write_to, set_fd}
use ecse.Sfs.Freemap.{sfs_alloc_block}
use ecse.Sfs.Cursor.{set_cur}

-- The bytes that a full frame stands for.
abbrev pub frame_size : ℕ
frame_size = 65024

-- `for(i = 0; i < SFS_FRAME_COUNT; i++)` of `sfs_resize_file`, with the rounds left first.
unfoldable pub fill_frame : ℕ → ℕ → Block → Fs → Outcome (Block × Fs)
fill_frame zero i frame s = done (frame, s)
fill_frame (suc n) i frame s =
    sfs_alloc_block s >>= λ (bid, s1). fill_frame n (i + 1) (set_word frame (1 + i) bid) s1

-- `while(count < new_nframe)`, with the rounds left first; `tmp` is the buffer of that name. Each
-- round links a new frame behind `frame_bid` and fills it.
unfoldable pub grow_frames : ℕ → Block → Blkid → Fs → Outcome Fs
grow_frames zero tmp frame_bid s = done s
grow_frames (suc n) tmp frame_bid s =
    let old = sfs_read_block s.disk tmp frame_bid in
    sfs_alloc_block s >>= λ (new_bid, s1).
    let s2 = write_to s1 (set_word old 0 new_bid) frame_bid in
    let fresh = sfs_read_block s2.disk old new_bid in
    fill_frame sfs_frame_count 0 fresh s2 >>= λ (frame, s3).
    grow_frames n fresh new_bid (write_to s3 frame new_bid)

-- The frames of a file before it is resized: at least one. The old size is read as an `int`; a file
-- is far smaller than that allows.
unfoldable pub old_frames : ℕ → ℕ
old_frames size =
    if (size + frame_size - 1) / frame_size == 0 then 1 else (size + frame_size - 1) / frame_size

unfoldable pub sfs_resize_file : Fs → ℕ → ℕ → Outcome Fs
sfs_resize_file s fd new_size =
    let inode_bid = (s.fdtable fd).inode_bid in
    let inode = read_fresh s inode_bid in
    let new_nframe = (new_size + frame_size - 1) % 2 ^ 32 / frame_size in
    if leb sfs_max_opened_files fd
    then undefined
    else (grow_frames (new_nframe - old_frames (file_size (s.fdtable fd).inode)) s.stack
          (first_frame inode) s
        >>= λ s1. done (write_to s1 (set_word inode 0 new_size) inode_bid))

-- A slot of a frame that is not set gets a new block.
unfoldable pub ensure_block : Block → ℕ → Fs → Outcome (Block × Fs)
ensure_block frame count s =
    if content frame count == 0
    then (sfs_alloc_block s >>= λ (bid, s1). done (set_word frame (1 + count) bid, s1))
    else done (frame, s)

-- The loop over the slots of one frame, with the slots left first: the frame after it, how many
-- blocks are still wanted, the numbers of the blocks taken, and the state.
unfoldable pub take_blocks : ℕ → ℕ → ℕ → Block → Fs → Outcome (Block × ℕ × List Blkid × Fs)
take_blocks zero count remaining frame s = done (frame, remaining, [], s)
take_blocks (suc n) count zero frame s = done (frame, zero, [], s)
take_blocks (suc n) count (suc remaining) frame s = ensure_block frame count s >>= λ (ensured, s1).
    take_blocks n (count + 1) remaining ensured s1 >>= λ (last, left, bids, s2).
    done (last, left, content ensured count ∷ bids, s2)

-- `while(blocks_remaining > 0)`, with the rounds left first; `buf` is `frame_ptr`. At the end of the
-- chain of frames the super block is taken for a frame.
unfoldable pub content_from : ℕ → Block → Blkid → ℕ → ℕ → Fs → Outcome (List Blkid × Fs)
content_from n buf frame_bid count zero s = done ([], s)
content_from zero buf frame_bid count (suc remaining) s = diverged
content_from (suc n) buf frame_bid count (suc remaining) s =
    let frame = sfs_read_block s.disk buf frame_bid in
    take_blocks (sfs_frame_count - count) count (suc remaining) frame s
    >>= λ (last, left, bids, s1).
        content_from n frame (next_frame last) 0 left (write_to s1 last frame_bid) >>= λ (rest, s2).
        done (bids ++ rest, s2)

-- How many blocks the bytes from `cur` on, and the one behind them, lie in.
unfoldable pub blocks_of : ℕ → ℕ → ℕ
blocks_of cur length =
    ((cur + length) % 2 ^ 32 / block_size + 2 ^ 32 - cur / block_size + 1) % 2 ^ 32

-- The search always begins in the first frame.
unfoldable pub sfs_get_file_content : ℕ → Fs → ℕ → ℕ → ℕ → Outcome (List Blkid × Fs)
sfs_get_file_content rounds s fd cur length =
    let inode = read_fresh s (s.fdtable fd).inode_bid in
    let count = cur / block_size % sfs_frame_count in
    content_from rounds s.stack (first_frame inode) count (blocks_of cur length) s

-- `strncpy` into a block from byte `o` on: behind a NUL it writes zeros.
unfoldable pub strncpy : Block → ℕ → (ℕ → ℕ) → ℕ → Bool → ℕ → Block
strncpy b o buf k ended zero = b
strncpy b o buf k ended (suc n) =
    let over = ended || (buf k == 0) in
    strncpy (set_byte b o (if over then 0 else buf k)) (o + 1) buf (k + 1) over n

-- How many bytes one round of the main loop of `sfs_write` copies.
unfoldable pub to_copy_of : ℕ → ℕ → ℕ
to_copy_of offset remaining =
    if ltb 0 offset
    then (if ltb remaining (block_size - offset) then remaining else block_size - offset)
    else if ltb block_size remaining
    then block_size
    else remaining

-- The main loop of `sfs_write` over the block numbers: each round copies from the start of `buf`.
-- Behind the last number the array was never set.
unfoldable pub put_blocks : List Blkid → Block → (ℕ → ℕ) → ℕ → ℕ → ℕ → Fs → Outcome (ℕ × Fs)
put_blocks bids block buf offset zero cur s = done (cur, s)
put_blocks [] block buf offset (suc remaining) cur s = undefined
put_blocks (bid ∷ bids) block buf offset (suc remaining) cur s =
    let to_copy = to_copy_of offset (suc remaining) in
    let old = sfs_read_block s.disk block bid in
    let new = strncpy old offset buf 0 false to_copy in
    put_blocks bids new buf 0 (suc remaining - to_copy) ((cur + to_copy) % 2 ^ 32)
      (write_to s new bid)

-- The first part of `sfs_write`: where the end lies behind the size, the inode is copied into the
-- descriptor and the file is enlarged.
unfoldable pub enlarge : Fs → ℕ → ℕ → Outcome Fs
enlarge s fd end =
    let inode = read_fresh s (s.fdtable fd).inode_bid in
    if ltb (file_size inode) end
    then sfs_resize_file (set_fd s fd (record (s.fdtable fd) { inode = inode })) fd end
    else done s

-- The array of block numbers has `length / 512 + 1` entries. The length is not negative.
unfoldable pub sfs_write : ℕ → Fs → ℕ → (ℕ → ℕ) → ℕ → Outcome (ℕ × Fs)
sfs_write rounds s fd buf size =
    let cur = (s.fdtable fd).cur in
    if leb sfs_max_opened_files fd
    then undefined
    else (enlarge s fd ((size + cur) % 2 ^ 32) >>= λ s1.
        sfs_get_file_content rounds s1 fd cur size >>= λ (bids, s2).
        if ltb (size / block_size + 1) (length bids)
        then undefined
        else (put_blocks bids s2.stack buf (cur % block_size) size cur s2 >>= λ (last, s3).
            done (size, set_cur s3 fd last)))
