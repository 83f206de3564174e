-- ===== src/Sfs/Reading/Fresh.antt =====
-- A text that `sfs_write` puts behind the end of a file, or into a new file, is read by `sfs_read`.
use ecse.Common.{
  ℕ, suc, ◌+◌, ◌/◌, ◌%◌, ◌<◌, ◌≤◌, ◌≡◌, ◌≢◌, refl, sym, ap, ◌∙◌, List, done, arith, All, length,
  eqb_of_eq,
}
use mathlib.Core.Path.{subst}
use ecse.Common.Int.{pos}
use ecse.Storage.{Block, Blkid}
use ecse.Storage.Laws.{read_inside}
use ecse.Sfs.Layout.{Name, content, first_frame}
use ecse.Sfs.State.{Fd, Fs, read_fresh, set_fd}
use ecse.Sfs.Freemap.Space.{used_count}
use ecse.Sfs.Freemap.Alloc.{disk_map}
use ecse.Sfs.Directory.Chain.{search}
use ecse.Sfs.Directory.Tree.{HasDirs}
use ecse.Sfs.Cursor.{sfs_seek}
use ecse.Sfs.Content.{sfs_write}
use ecse.Sfs.Content.Slice.{frame_bid_of}
use ecse.Sfs.Content.Write.{block_at_cur}
use ecse.Sfs.Content.Growth.{
  HasRoom, grown, length-grown, bid-grown, cur-grown, frame-grown, block_at_cur-grown,
  HasBytes-grown, sfs_write-grown,
}
use ecse.Sfs.File.{sfs_open}
use ecse.Sfs.File.Opening.{IsFreeFd}
use ecse.Sfs.File.Missing.{IsVacant}
use ecse.Sfs.File.Created.{Created}
use ecse.Sfs.File.Creating.{sfs_open-Created}
use ecse.Sfs.File.Opening.{new_fd}
use ecse.Sfs.Reading.{sfs_read}
use ecse.Sfs.Reading.Back.{IsApart, sfs_read-sfs_write}
use ecse.Sfs.Reading.Texts.{IsTextOf}

module _ (s : Fs) (fd size : ℕ) (h : HasRoom s fd size) (a : IsApart s fd) where
  abbrev g : Fs
  g = grown s fd ((s.fdtable fd).cur + size)

  IsApart-grown : IsApart g fd
  IsApart-grown = record {
    small = rw (block_at_cur-grown s fd size h) a.small;
    inside = rw (block_at_cur-grown s fd size h, length-grown s fd size h) a.inside;
    not_frame = rw (block_at_cur-grown s fd size h, frame-grown s fd size h) a.not_frame;
    not_inode = rw (block_at_cur-grown s fd size h, bid-grown s fd size h) a.not_inode;
    inode_small = rw (bid-grown s fd size h) a.inode_small;
    inode_inside = rw (bid-grown s fd size h, length-grown s fd size h) a.inode_inside;
  }

  -- Through a valid descriptor of a file that ends before `size` bytes from the cursor on, which lie
  -- in blocks of its first frame that exist apart from the inode and the frame: a text without NUL,
  -- that ends before the end of the block of the cursor, is written by `sfs_write`, which enlarges
  -- the file, and after `sfs_seek` back to where it began `sfs_read` fills the buffer with it.
  pub sfs_read-sfs_write_grown :
      (rounds : ℕ) (buf out : ℕ → ℕ)
      → IsTextOf buf 0 size
      → 0 < size
      → (s.fdtable fd).cur % 512 + size < 512
      → (t : Fs) × (u : Fs) × (v : Fs) × (got : ℕ → ℕ) × (sfs_write (suc rounds) s fd buf size
          ≡ done (size, t))
        × (sfs_seek t fd (pos (s.fdtable fd).cur) 0 ≡ done (pos 0, u))
        × (sfs_read (suc rounds) u fd out size ≡ done (size, got, v))
        × ((l : ℕ) → l < size → got l ≡ buf l)
  sfs_read-sfs_write_grown rounds buf out text some_bytes short =
      let same : (g.fdtable fd).cur ≡ (s.fdtable fd).cur = cur-grown s fd size h in
      let (t, u, v, got, wrote, sought, read, all) =
        sfs_read-sfs_write rounds g fd buf out size (HasBytes-grown s fd size h) IsApart-grown text
          some_bytes (rw same short) in
      (
        t,
        u,
        v,
        got,
        sfs_write-grown s fd size h (suc rounds) buf ∙ wrote,
        subst (λ c. sfs_seek t fd (pos c) 0 ≡ done (pos 0, u)) same sought,
        read,
        all,
      )

module _ {s u : Fs} {ids : List Blkid} {x : Blkid} {name : Name} {i : ℕ} {n1 n2 n3 : Blkid}
    (c : Created s ids x name i n1 n2 n3 u) (k : ℕ) where
  abbrev t : Fs
  t = set_fd u k (new_fd (u.disk.block n1) n1 x)

  fd-t : t.fdtable k ≡ new_fd (u.disk.block n1) n1 x
  fd-t = rw (eqb_of_eq k k refl) refl

  inode-t : read_fresh t (t.fdtable k).inode_bid ≡ u.disk.block n1
  inode-t =
      let (low, small, there) = c.inode_inside in
      ap (λ (v : Fd). read_fresh t v.inode_bid) fd-t
      ∙ read_inside t.disk t.stack n1 (omega arith) there

  frame-t : frame_bid_of t k ≡ n2
  frame-t = ap first_frame inode-t ∙ c.framed

  content-t : content (t.disk.block (frame_bid_of t k)) 0 ≡ n3
  content-t = ap (λ f. content (u.disk.block f) 0) frame-t ∙ ap (λ (b : Block). b 1) c.frame

  block-t : block_at_cur t k ≡ n3
  block-t =
      ap (λ (v : Fd). content (t.disk.block (frame_bid_of t k)) (v.cur / 512)) fd-t ∙ content-t

  HasRoom-new : (size : ℕ) → k < 32 → 0 < size → size < 512 → HasRoom t k size
  HasRoom-new size lt some_bytes short =
      let (low1, small1, there1) = c.inode_inside in
      let (low2, small2, there2) = c.frame_inside in
      let (low3, small3, there3) = c.block_inside in
      record {
        valid = lt;
        inode_small = rw fd-t (omega arith);
        inode_inside = rw fd-t there1;
        small = rw frame-t (omega arith);
        inside = rw frame-t there2;
        apart = rw (frame-t, fd-t) (λ e. c.apart.0 (sym e));
        one_frame = rw fd-t (omega arith);
        grows = rw (inode-t, fd-t, c.size) (omega arith);
        full = λ j lo hi e.
            let first : j ≡ 0 = omega (arith, rw fd-t at hi) in
            absurd (omega (arith, sym content-t ∙ rw first at e));
      }

  IsApart-new : IsApart t k
  IsApart-new =
      let (low1, small1, there1) = c.inode_inside in
      let (low3, small3, there3) = c.block_inside in
      record {
        small = rw block-t (omega arith);
        inside = rw block-t there3;
        not_frame = rw (block-t, frame-t) c.apart.2;
        not_inode = rw (block-t, fd-t) c.apart.1;
        inode_small = rw fd-t (omega arith);
        inode_inside = rw fd-t there1;
      }

-- Where the directories are a well-formed chain, there are more rounds than directories, a directory
-- has the name `dirname`, none of its files has the name and one of its slots is free, a descriptor
-- is free, three blocks are free, and the name is short enough for the inode: `sfs_open` of the name
-- makes a file to which `sfs_write` writes a text of 1 to 511 bytes without NUL, and after `sfs_seek`
-- to the start `sfs_read` fills the buffer with the text.
pub sfs_read-sfs_open :
    (rounds more : ℕ) (s : Fs) (ids : List Blkid) (dirname name : Name) (i k : ℕ) (buf out : ℕ → ℕ)
    (size : ℕ)
    → HasDirs s ids
    → length ids < rounds
    → search s.disk dirname ids ≢ 0
    → IsVacant s (search s.disk dirname ids) name i
    → IsFreeFd s.fdtable k
    → All (λ c. c < 256) name
    → length name < 504
    → used_count (disk_map s) 4096 + 3 ≤ 4096
    → IsTextOf buf 0 size
    → 0 < size
    → size < 512
    → (t : Fs) × (u : Fs) × (v : Fs) × (w : Fs) × (got : ℕ → ℕ) × (sfs_open rounds s dirname name
        ≡ done (pos k, t))
      × (sfs_write (suc more) t k buf size ≡ done (size, u))
      × (sfs_seek u k (pos 0) 0 ≡ done (pos 0, v))
      × (sfs_read (suc more) v k out size ≡ done (size, got, w))
      × ((l : ℕ) → l < size → got l ≡ buf l)
sfs_read-sfs_open rounds more s ids dirname name i k buf out size h enough ne vacant free bytes
      short room text some_bytes small =
    let (n1, n2, n3, u, made, c) =
      sfs_open-Created rounds s ids dirname name i k h enough ne vacant free bytes short room in
    let start : ((t c k).fdtable k).cur ≡ 0 = ap (λ (v : Fd). v.cur) (fd-t c k) in
    let (u2, v, w, got, wrote, sought, read, all) =
      sfs_read-sfs_write_grown (t c k) k size (HasRoom-new c k size free.inside some_bytes small)
        (IsApart-new c k) more buf out text some_bytes (rw start (omega arith)) in
    (
      t c k,
      u2,
      v,
      w,
      got,
      made,
      wrote,
      subst (λ p. sfs_seek u2 k (pos p) 0 ≡ done (pos 0, v)) start sought,
      read,
      all,
    )
