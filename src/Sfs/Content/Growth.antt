-- ===== src/Sfs/Content/Growth.antt =====
-- `sfs_write` behind the end of a file, within its first frame: the file is enlarged first.
use ecse.Common.{
  ℕ, ◌+◌, ◌-◌, ◌/◌, ◌%◌, ◌^◌, ◌<◌, ◌≤◌, ◌≡◌, ◌≢◌, refl, sym, ap, ◌∙◌, done, arith, leb_of_lt,
  ltb_of_lt, eqb_of_eq,
}
use ecse.Storage.{Block, Blkid, set_word}
use ecse.Storage.Laws.{read_inside, write_self, write_other, length-write_inside}
use ecse.Sfs.Layout.{file_size, first_frame, content}
use ecse.Sfs.State.{Fd, Fs, read_fresh, write_to, set_fd}
use ecse.Sfs.Content.{old_frames, grow_frames, sfs_resize_file, enlarge, sfs_write}
use ecse.Sfs.Content.Slice.{frame_bid_of}
use ecse.Sfs.Content.Write.{HasBytes, block_at_cur, no_growth}

-- A valid descriptor of a file that ends before `size` bytes from the cursor on; they lie in its
-- first frame, apart from the inode, whose blocks up to the one at their end exist.
pub record HasRoom (s : Fs) (fd size : ℕ) : Type 0 where
  pub valid : fd < 32
  pub inode_small : (s.fdtable fd).inode_bid < 8388608
  pub inode_inside : (s.fdtable fd).inode_bid < s.disk.length
  pub small : frame_bid_of s fd < 8388608
  pub inside : frame_bid_of s fd < s.disk.length
  pub apart : frame_bid_of s fd ≢ (s.fdtable fd).inode_bid
  pub one_frame : (s.fdtable fd).cur + size < 65024
  pub grows : file_size (read_fresh s (s.fdtable fd).inode_bid) < (s.fdtable fd).cur + size
  pub full :
      (j : ℕ)
      → (s.fdtable fd).cur / 512 ≤ j
      → j ≤ ((s.fdtable fd).cur + size) / 512
      → content (s.disk.block (frame_bid_of s fd)) j ≢ 0

-- The descriptor takes the inode from disk.
abbrev pub refreshed : Fs → ℕ → Fs
refreshed s fd =
    set_fd s fd (record (s.fdtable fd) { inode = read_fresh s (s.fdtable fd).inode_bid })

-- The inode on disk takes the new size.
abbrev pub grown : Fs → ℕ → ℕ → Fs
grown s fd end =
    write_to (refreshed s fd) (set_word (read_fresh s (s.fdtable fd).inode_bid) 0 end)
      (s.fdtable fd).inode_bid

one_old_frame : (size : ℕ) → size < 65024 → old_frames size ≡ 1
unfolding old_frames
one_old_frame size lt = ground arith

refreshed_fd :
    (s : Fs) (fd : ℕ)
    → (refreshed s fd).fdtable fd
      ≡ record (s.fdtable fd) { inode = read_fresh s (s.fdtable fd).inode_bid }
refreshed_fd s fd = rw (eqb_of_eq fd fd refl) refl

-- A new size within the first frame takes no new frame.
sfs_resize_file-grown :
    (s : Fs) (fd end : ℕ)
    → fd < 32
    → file_size (read_fresh s (s.fdtable fd).inode_bid) < end
    → end < 65024
    → sfs_resize_file (refreshed s fd) fd end ≡ done (grown s fd end)
unfolding sfs_resize_file grow_frames
sfs_resize_file-grown s fd end lt more low =
    let one : (end + 65024 - 1) % 2 ^ 32 / 65024 ≡ 1 = omega arith in
    let old = one_old_frame (file_size (read_fresh s (s.fdtable fd).inode_bid)) (omega arith) in
    rw (refreshed_fd s fd, leb_of_lt 32 fd lt, one, old) refl

pub enlarge-grown :
    (s : Fs) (fd end : ℕ)
    → fd < 32
    → file_size (read_fresh s (s.fdtable fd).inode_bid) < end
    → end < 65024
    → enlarge s fd end ≡ done (grown s fd end)
unfolding enlarge
enlarge-grown s fd end lt more low =
    rw (ltb_of_lt _ _ more) (sfs_resize_file-grown s fd end lt more low)

module _ (s : Fs) (fd size : ℕ) (h : HasRoom s fd size) where
  abbrev end : ℕ
  end = (s.fdtable fd).cur + size

  abbrev bid : Blkid
  bid = (s.fdtable fd).inode_bid

  abbrev g : Fs
  g = grown s fd end

  pub length-grown : g.disk.length ≡ s.disk.length
  length-grown = length-write_inside s.disk _ bid h.inode_small h.inode_inside

  pub grown_other : (k : Blkid) → k < s.disk.length → k ≢ bid → g.disk.block k ≡ s.disk.block k
  grown_other k lt ne = write_other s.disk _ bid k h.inode_small lt ne

  pub fd-grown :
      g.fdtable fd ≡ record (s.fdtable fd) { inode = read_fresh s (s.fdtable fd).inode_bid }
  fd-grown = refreshed_fd s fd

  pub bid-grown : (g.fdtable fd).inode_bid ≡ bid
  bid-grown = ap (λ (v : Fd). v.inode_bid) fd-grown

  pub cur-grown : (g.fdtable fd).cur ≡ (s.fdtable fd).cur
  cur-grown = ap (λ (v : Fd). v.cur) fd-grown

  inode-g :
      read_fresh g (g.fdtable fd).inode_bid ≡ set_word (read_fresh s (s.fdtable fd).inode_bid) 0 end
  inode-g =
      ap (λ k. read_fresh g k) bid-grown
      ∙ read_inside g.disk g.stack bid h.inode_small (rw length-grown h.inode_inside)
      ∙ write_self s.disk _ bid h.inode_small

  pub frame-grown : frame_bid_of g fd ≡ frame_bid_of s fd
  frame-grown = ap first_frame inode-g

  block-g : g.disk.block (frame_bid_of g fd) ≡ s.disk.block (frame_bid_of s fd)
  block-g = ap g.disk.block frame-grown ∙ grown_other (frame_bid_of s fd) h.inside h.apart

  pub block_at_cur-grown : block_at_cur g fd ≡ block_at_cur s fd
  block_at_cur-grown =
      ap (λ (b : Block). content b ((g.fdtable fd).cur / 512)) block-g
      ∙ ap (λ k. content (s.disk.block (frame_bid_of s fd)) (k / 512)) cur-grown

  pub HasBytes-grown : HasBytes g fd size
  HasBytes-grown = record {
    valid = h.valid;
    small = rw frame-grown h.small;
    inside = rw (frame-grown, length-grown) h.inside;
    one_frame = rw cur-grown h.one_frame;
    within = rw (inode-g, cur-grown) (omega arith);
    full = λ j lo hi e.
        h.full j (rw (← cur-grown) lo) (rw (← cur-grown) hi)
          (sym (ap (λ (b : Block). content b j) block-g) ∙ e);
  }

  -- The write goes on as one of bytes that the enlarged file has.
  pub sfs_write-grown :
      (rounds : ℕ) (buf : ℕ → ℕ) → sfs_write rounds s fd buf size ≡ sfs_write rounds g fd buf size
  unfolding sfs_write
  sfs_write-grown rounds buf =
      let wrap : (size + (s.fdtable fd).cur) % 2 ^ 32 ≡ end = omega (arith, h.one_frame) in
      rw
        (
          no_growth rounds g fd buf size HasBytes-grown,
          wrap,
          enlarge-grown s fd end h.valid h.grows h.one_frame,
          cur-grown,
        )
        refl
