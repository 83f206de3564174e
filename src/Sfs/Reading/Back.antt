-- ===== src/Sfs/Reading/Back.antt =====
-- What `sfs_write` has written is read back by `sfs_read`.
use ecse.Common.{
  ℕ, suc, ◌+◌, ◌-◌, ◌/◌, ◌%◌, ◌<◌, ◌≡◌, ◌≢◌, refl, sym, ap, ◌∙◌, false, done, arith, ◌==◌, inl, inr,
  Bool-cases, eq_of_eqb, ne_of_eqb, eqb_of_eq,
}
use ecse.Common.Int.{pos}
use ecse.Storage.{Block, Blkid, Storage, sfs_read_block, sfs_write_block}
use ecse.Storage.Laws.{read_inside, write_self, write_other, length-write_inside}
use ecse.Sfs.Layout.{content, first_frame, byte}
use ecse.Sfs.State.{Fs, Fd, read_fresh, write_to}
use ecse.Sfs.Cursor.{set_cur, sfs_seek}
use ecse.Sfs.Cursor.Seek.{sfs_seek-clamped}
use ecse.Sfs.Content.{strncpy, sfs_write}
use ecse.Sfs.Content.Slice.{frame_bid_of}
use ecse.Sfs.Content.Write.{HasBytes, fetched, block_at_cur, sfs_write_inside}
use ecse.Sfs.Reading.{copy_text, sfs_read}
use ecse.Sfs.Reading.Inside.{sfs_read_inside}
use ecse.Sfs.Reading.Texts.{IsTextOf, byte-strncpy, copy_text-byte}

-- A block with its own content is written where it stands.
rewritten :
    (d : Storage) (bid k : Blkid)
    → bid < 8388608
    → bid < d.length
    → k < d.length
    → (sfs_write_block d (d.block bid) bid).block k ≡ d.block k
rewritten d bid k small inside lt = elim (Bool-cases (k == bid)) [
  | inl same ↦ let e : k ≡ bid = eq_of_eqb k bid same in rw e (write_self d (d.block bid) bid small)
  | inr other ↦ write_other d (d.block bid) bid k small lt (ne_of_eqb k bid other)
]

-- The block of the cursor stands in the image, apart from the blocks of the inode and of the frame.
pub record IsApart (s : Fs) (fd : ℕ) : Type 0 where
  pub small : block_at_cur s fd < 8388608
  pub inside : block_at_cur s fd < s.disk.length
  pub not_frame : frame_bid_of s fd ≢ block_at_cur s fd
  pub not_inode : (s.fdtable fd).inode_bid ≢ block_at_cur s fd
  pub inode_small : (s.fdtable fd).inode_bid < 8388608
  pub inode_inside : (s.fdtable fd).inode_bid < s.disk.length

module _ (s : Fs) (fd size : ℕ) (h : HasBytes s fd size) (a : IsApart s fd) (new : Block) where
  -- After a write of the block of the cursor, with the cursor where it was.
  abbrev frame : Blkid
  frame = frame_bid_of s fd

  abbrev bid : Blkid
  bid = block_at_cur s fd

  abbrev later : Storage
  later = sfs_write_block (fetched s fd).disk new bid

  length-fetched : (fetched s fd).disk.length ≡ s.disk.length
  length-fetched = length-write_inside s.disk (s.disk.block frame) frame h.small h.inside

  length-later : later.length ≡ s.disk.length
  length-later =
      length-write_inside (fetched s fd).disk new bid a.small (rw length-fetched a.inside)
      ∙ length-fetched

  later_other : (k : Blkid) → k < s.disk.length → k ≢ bid → later.block k ≡ s.disk.block k
  later_other k lt ne =
      write_other (fetched s fd).disk new bid k a.small (rw length-fetched lt) ne
      ∙ rewritten s.disk frame k h.small h.inside lt

  later_self : later.block bid ≡ new
  later_self = write_self (fetched s fd).disk new bid a.small

  module _ (u : Fs) (on : u.disk ≡ later) (stack : u.stack ≡ s.stack)
      (same : u.fdtable fd ≡ s.fdtable fd) where
    length-u : u.disk.length ≡ s.disk.length
    length-u = ap (λ (d : Storage). d.length) on ∙ length-later

    u_other : (k : Blkid) → k < s.disk.length → k ≢ bid → u.disk.block k ≡ s.disk.block k
    u_other k lt ne = ap (λ (d : Storage). d.block k) on ∙ later_other k lt ne

    inode-u : read_fresh u (u.fdtable fd).inode_bid ≡ read_fresh s (s.fdtable fd).inode_bid
    inode-u =
        let i = (s.fdtable fd).inode_bid in
        rw same (
          read_inside u.disk u.stack i a.inode_small (rw length-u a.inode_inside)
          ∙ u_other i a.inode_inside a.not_inode
          ∙ sym (read_inside s.disk s.stack i a.inode_small a.inode_inside))

    frame-u : frame_bid_of u fd ≡ frame
    frame-u = ap first_frame inode-u

    block-u : u.disk.block (frame_bid_of u fd) ≡ s.disk.block frame
    block-u = ap u.disk.block frame-u ∙ u_other frame h.inside a.not_frame

    cur-u : (u.fdtable fd).cur ≡ (s.fdtable fd).cur
    cur-u = ap (λ (v : Fd). v.cur) same

    HasBytes-u : HasBytes u fd size
    HasBytes-u = record {
      valid = h.valid;
      small = rw frame-u h.small;
      inside = rw (frame-u, length-u) h.inside;
      one_frame = rw same h.one_frame;
      within = rw (inode-u, same) h.within;
      full = λ j lo hi e.
          h.full j (rw (← cur-u) lo) (rw (← cur-u) hi)
            (sym (ap (λ (b : Block). content b j) block-u) ∙ e);
    }

    block_at_cur-u : block_at_cur u fd ≡ bid
    block_at_cur-u =
        ap (λ (b : Block). content b ((u.fdtable fd).cur / 512)) block-u
        ∙ ap (λ k. content (s.disk.block frame) (k / 512)) cur-u

    read-u : sfs_read_block (fetched u fd).disk u.stack (block_at_cur u fd) ≡ new
    read-u =
        let frame_small : frame_bid_of u fd < 8388608 = rw frame-u h.small in
        let frame_inside : frame_bid_of u fd < u.disk.length = rw (frame-u, length-u) h.inside in
        let inside : bid < u.disk.length = rw length-u a.inside in
        let all =
          length-write_inside u.disk (u.disk.block (frame_bid_of u fd)) (frame_bid_of u fd)
            frame_small frame_inside in
        rw block_at_cur-u (
          read_inside (fetched u fd).disk u.stack bid a.small (rw all inside)
          ∙ rewritten u.disk (frame_bid_of u fd) bid frame_small frame_inside inside
          ∙ ap (λ (d : Storage). d.block bid) on
          ∙ later_self)

-- A text that was copied into a block is copied out of it.
copy_text-strncpy :
    (size l : ℕ) (b old : Block) (at o : ℕ) (buf out : ℕ → ℕ)
    → IsTextOf buf 0 size
    → b ≡ strncpy old o buf 0 false size
    → at ≡ o
    → l < size
    → copy_text size 0 false b at out l ≡ buf l
copy_text-strncpy size l b old at o buf out text e same q =
    let start : (k : ℕ) → 0 + k ≡ k = λ k. omega arith in
    let put = λ (k : ℕ) (q : k < size).
      ap (λ (g : Block). byte g (o + k)) e ∙ byte-strncpy size k old o 0 buf text q in
    let nonzero = λ (k : ℕ) (q : k < size). ap (λ c. c == 0) (put k q) ∙ text.nonzero k q in
    let got = copy_text-byte size l 0 o b out nonzero q in
    ap (λ p. copy_text size 0 false b p out l) same
    ∙ ap (copy_text size 0 false b o out) (sym (start l))
    ∙ got
    ∙ put l q
    ∙ ap buf (start l)

same_fd :
    (s : Fs) (fd other : ℕ) (new : Block)
    → (set_cur
          (set_cur (write_to (fetched s fd) new (block_at_cur s fd)) fd other)
          fd
          (0 + (s.fdtable fd).cur - 0)).fdtable
        fd
      ≡ s.fdtable fd
same_fd s fd other new =
    let back : 0 + (s.fdtable fd).cur - 0 ≡ (s.fdtable fd).cur = omega arith in
    rw (eqb_of_eq fd fd refl, back) refl

-- Through a valid descriptor of a file that has the bytes from the cursor on in its first frame,
-- whose block of the cursor stands apart from the inode and the frame: a text without NUL, that ends
-- before the end of that block, is written by `sfs_write`, and after `sfs_seek` back to where it
-- began `sfs_read` fills the buffer with it.
pub sfs_read-sfs_write :
    (rounds : ℕ) (s : Fs) (fd : ℕ) (buf out : ℕ → ℕ) (size : ℕ)
    → HasBytes s fd size
    → IsApart s fd
    → IsTextOf buf 0 size
    → 0 < size
    → (s.fdtable fd).cur % 512 + size < 512
    → (t : Fs) × (u : Fs) × (v : Fs) × (got : ℕ → ℕ) × (sfs_write (suc rounds) s fd buf size
        ≡ done (size, t))
      × (sfs_seek t fd (pos (s.fdtable fd).cur) 0 ≡ done (pos 0, u))
      × (sfs_read (suc rounds) u fd out size ≡ done (size, got, v))
      × ((l : ℕ) → l < size → got l ≡ buf l)
sfs_read-sfs_write rounds s fd buf out size h a text some_bytes short =
    let cur = (s.fdtable fd).cur in
    let low = h.one_frame in
    let old = sfs_read_block (fetched s fd).disk s.stack (block_at_cur s fd) in
    let new = strncpy old (cur % 512) buf 0 false size in
    let t = set_cur (write_to (fetched s fd) new (block_at_cur s fd)) fd (cur + size) in
    let u = set_cur t fd (0 + cur - 0) in
    let same : u.fdtable fd ≡ s.fdtable fd = same_fd s fd (cur + size) new in
    let bytes = HasBytes-u s fd size h a new u refl refl same in
    let is_cur = cur-u s fd size h a new u refl refl same in
    let read = read-u s fd size h a new u refl refl same in
    let run = sfs_read_inside rounds u fd out size bytes some_bytes (rw same short) in
    (
      t,
      u,
      _,
      _,
      sfs_write_inside rounds s fd buf size h some_bytes short,
      sfs_seek-clamped t fd (pos cur) 0 h.valid (omega arith) (omega arith) (omega arith),
      run,
      λ l q.
          copy_text-strncpy size l _ old _ (cur % 512) buf out text read (ap (λ c. c % 512) is_cur)
            q,
    )
