-- ===== src/Sfs/Reading.antt =====
-- `sfs_read` of PA3/a2/fs.c.
pub mod Inside
pub mod Texts
pub mod Back
pub mod Fresh
mod Tests
use ecse.Common.{
  ℕ, zero, suc, ◌+◌, ◌-◌, ◌*◌, ◌/◌, ◌%◌, ◌^◌, ◌<◌, ◌≡◌, refl, List, [], ◌∷◌, Bool, false, ◌||◌,
  ◌&&◌, Outcome, done, undefined, diverged, ◌>>=◌, arith, leb, ltb, ◌==◌, if◌then◌else◌, length,
  ltb_of_lt, leb_of_lt, ne_of_eqb, Bool-cases, inl, inr, ◌≤◌, ◌≢◌,
}
use ecse.Storage.{Block, Blkid, Storage, block_size, sfs_read_block}
use ecse.Storage.Laws.{read_inside}
use ecse.Sfs.Layout.{first_frame, next_frame, content, sfs_frame_count, sfs_max_opened_files, byte}
use ecse.Sfs.State.{Fs, read_fresh}
use ecse.Sfs.Cursor.{set_cur}
use ecse.Sfs.Content.{frame_size, sfs_get_file_content, to_copy_of}
use ecse.Sfs.Content.Slice.{frame_bid_of}

-- `while(content_blk < SFS_FRAME_COUNT && count < num_blocks)`, with the rounds left first: a round
-- moves on by one where the slot is set, and not at all where it is 0.
unfoldable pub scan_slots : ℕ → Block → ℕ → ℕ → ℕ → Outcome ℕ
scan_slots zero frame slot wanted count =
    if ltb slot sfs_frame_count && ltb count wanted then diverged else done count
scan_slots (suc n) frame slot wanted count =
    let step = if content frame slot == 0 then 0 else 1 in
    let rest = scan_slots n frame (slot + step) wanted (count + step) in
    if ltb slot sfs_frame_count && ltb count wanted then rest else done count

-- `while(count < num_blocks)`, with the rounds left first, which the loop inside has as well; `buf`
-- is `tmp`. The bound on `count` is `frame_start - frame_end + 1`, which is an `int`.
unfoldable pub scan_frames : ℕ → Storage → Block → Blkid → ℕ → ℕ → ℕ → ℕ → ℕ → Outcome ℕ
scan_frames zero d buf bid slot first last wanted count =
    if leb wanted count then done count else diverged
scan_frames (suc n) d buf bid slot first last wanted count =
    let frame = sfs_read_block d buf bid in
    let rest = scan_slots (suc n) frame slot wanted count >>= λ seen.
    if (next_frame frame == 0) && ltb (seen + last) (first + 1)
    then done seen
    else scan_frames n d frame (next_frame frame) 0 first last wanted seen in
    if leb wanted count then done count else rest

-- `strncpy` to the start of the caller's buffer from byte `o` of a block; `k` bytes are copied.
unfoldable pub copy_text : ℕ → ℕ → Bool → Block → ℕ → (ℕ → ℕ) → ℕ → ℕ
copy_text zero k ended b o buf = buf
copy_text (suc n) k ended b o buf =
    let over = ended || (byte b o == 0) in
    copy_text n (k + 1) over b (o + 1)
      (λ i. if i == k then (if over then 0 else byte b o) else buf i)

-- The main loop of `sfs_read` over the block numbers: each round copies to the start of `buf`.
unfoldable pub get_blocks :
    List Blkid → Block → (ℕ → ℕ) → ℕ → ℕ → ℕ → Fs → ℕ → Outcome ((ℕ → ℕ) × Fs)
get_blocks bids block buf offset zero cur s fd = done (buf, s)
get_blocks [] block buf offset (suc remaining) cur s fd = undefined
get_blocks (bid ∷ bids) block buf offset (suc remaining) cur s fd =
    let to_copy = to_copy_of offset (suc remaining) in
    let read = sfs_read_block s.disk block bid in
    let next = (cur + to_copy) % 2 ^ 32 in
    get_blocks bids read (copy_text to_copy 0 false read offset buf) 0 (suc remaining - to_copy)
      next (set_cur s fd next) fd

-- How many bytes are read: where blocks are missing, what the number of blocks allows.
unfoldable pub allowed : ℕ → ℕ → ℕ → ℕ
allowed offset size seen =
    if ltb seen (size / block_size + 1)
    then block_size - offset + size / block_size * block_size
    else size

-- The array of block numbers has `length / 512 + 1` entries. The length is not negative.
unfoldable pub sfs_read : ℕ → Fs → ℕ → (ℕ → ℕ) → ℕ → Outcome (ℕ × (ℕ → ℕ) × Fs)
sfs_read rounds s fd buf size =
    let cur = (s.fdtable fd).cur in
    let wanted = size / block_size + 1 in
    let offset = cur % block_size in
    let last = (cur + size) % 2 ^ 32 / frame_size in
    let first_bid = first_frame (read_fresh s (s.fdtable fd).inode_bid) in
    if leb sfs_max_opened_files fd
    then undefined
    else (scan_frames rounds s.disk s.stack first_bid (cur / block_size) (cur / frame_size) last
          wanted 0
        >>= λ seen. sfs_get_file_content rounds s fd cur size >>= λ (bids, s1).
            if ltb wanted (length bids)
            then undefined
            else (get_blocks bids s1.stack buf offset (allowed offset size seen) cur s1 fd
                >>= λ (out, s2). done (size, out, s2)))

-- Where a slot that is still to be counted is 0, no number of rounds is enough.
scan_slots_hole :
    (n : ℕ) (frame : Block) (slot wanted count hole : ℕ)
    → slot ≤ hole
    → hole < 127
    → count + (hole - slot) < wanted
    → content frame hole ≡ 0
    → scan_slots n frame slot wanted count ≡ diverged
unfolding scan_slots
scan_slots_hole zero frame slot wanted count hole le lt few e =
    rw (ltb_of_lt slot 127 (omega arith), ltb_of_lt count wanted (omega arith)) refl
scan_slots_hole (suc n) frame slot wanted count hole le lt few e =
    rw (ltb_of_lt slot 127 (omega arith), ltb_of_lt count wanted (omega arith))
      (elim (Bool-cases (content frame slot == 0)) [
        | inl unset ↦ rw unset (
            scan_slots_hole n frame (slot + 0) wanted (count + 0) hole (omega arith) lt
              (omega arith) e)
        | inr set ↦
            let other : slot ≢ hole = λ q. ne_of_eqb (content frame slot) 0 set (rw q e) in
            rw set (
              scan_slots_hole n frame (slot + 1) wanted (count + 1) hole (omega arith) lt
                (omega arith) e)
      ])

scan_frames_hole :
    (n : ℕ) (d : Storage) (buf frame : Block) (bid slot first last wanted hole : ℕ)
    → sfs_read_block d buf bid ≡ frame
    → slot ≤ hole
    → hole < 127
    → hole - slot < wanted
    → content frame hole ≡ 0
    → scan_frames n d buf bid slot first last wanted 0 ≡ diverged
unfolding scan_frames
scan_frames_hole zero d buf frame bid slot first last wanted hole read le lt few e =
    rw (leb_of_lt wanted 0 (omega arith)) refl
scan_frames_hole (suc n) d buf frame bid slot first last wanted hole read le lt few e =
    rw
      (
        leb_of_lt wanted 0 (omega arith),
        read,
        scan_slots_hole (suc n) frame slot wanted 0 hole le lt (omega arith) e,
      )
      refl

-- For a valid descriptor whose first frame has a slot that is not set, from the slot of the cursor on
-- and among as many as the size divided by 512 and one, `sfs_read` never ends: no number of rounds is
-- enough, and nothing is truncated.
pub sfs_read_hole :
    (rounds : ℕ) (s : Fs) (fd : ℕ) (buf : ℕ → ℕ) (size hole : ℕ)
    → fd < 32
    → frame_bid_of s fd < 8388608
    → frame_bid_of s fd < s.disk.length
    → (s.fdtable fd).cur / 512 ≤ hole
    → hole < 127
    → hole - (s.fdtable fd).cur / 512 ≤ size / 512
    → content (s.disk.block (frame_bid_of s fd)) hole ≡ 0
    → sfs_read rounds s fd buf size ≡ diverged
unfolding sfs_read
sfs_read_hole rounds s fd buf size hole valid small inside from lt few e =
    rw
      (
        leb_of_lt 32 fd valid,
        scan_frames_hole rounds s.disk s.stack (s.disk.block (frame_bid_of s fd))
            (frame_bid_of s fd) ((s.fdtable fd).cur / 512) ((s.fdtable fd).cur / 65024)
            (((s.fdtable fd).cur + size) % 2 ^ 32 / 65024) (size / 512 + 1) hole
            (read_inside s.disk s.stack (frame_bid_of s fd) small inside) from lt (omega arith) e,
      )
      refl
