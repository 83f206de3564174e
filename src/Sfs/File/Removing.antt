-- ===== src/Sfs/File/Removing.antt =====
-- `sfs_remove` of a file of one block.
use ecse.Common.{
  ℕ, zero, suc, ◌+◌, ◌<◌, ◌≤◌, ◌≡◌, ◌≢◌, refl, sym, ap, ◌∙◌, done, arith, ◌==◌, if◌then◌else◌,
  eqb_of_eq, eqb_of_ne, leb_of_lt,
}
use ecse.Common.Int.{pos}
use ecse.Storage.{Block, Blkid, set_word, sfs_read_block}
use ecse.Storage.Laws.{read_inside, write_self, write_other, length-write_inside}
use ecse.Sfs.Layout.{inodes, first_frame, next_frame, content}
use ecse.Sfs.State.{Fs, read_fresh, write_to}
use ecse.Sfs.Freemap.{sfs_free_block}
use ecse.Sfs.Freemap.Map.{used}
use ecse.Sfs.Freemap.Alloc.{disk_map, IsMounted, sfs_free_block_lem}
use ecse.Sfs.Freemap.Taking.{write_to-IsMounted}
use ecse.Sfs.File.{clear_slot, free_contents, free_frames, sfs_remove}

-- A data block of the file within the range of the freemap.
abbrev pub IsData : Fs → Blkid → Type 0
IsData s b = (1 < b) × (b < 4096) × (b < s.disk.length)

-- Descriptor `k` is of a file whose inode `n1`, with a number below that of the slots of a directory,
-- stands in slot `i` of directory `x` first; its only frame `n2` has the block `n3` and no other.
pub record HasOneBlock (s : Fs) (k : ℕ) (x : Blkid) (i : ℕ) (n1 n2 n3 : Blkid) : Type 0 where
  pub valid : k < 32
  pub directory : (s.fdtable k).dir_bid ≡ x
  pub inode : (s.fdtable k).inode_bid ≡ n1
  pub low_inode : n1 < 97
  pub slot : i < 97
  pub entered : inodes (s.disk.block x) i ≡ n1
  pub before : (l : ℕ) → l < i → inodes (s.disk.block x) l ≢ n1
  pub directory_data : IsData s x
  pub inode_data : IsData s n1
  pub frame_data : IsData s n2
  pub block_data : IsData s n3
  pub apart_inode : n1 ≢ x
  pub apart_frame : n2 ≢ x
  pub framed : first_frame (s.disk.block n1) ≡ n2
  pub last : next_frame (s.disk.block n2) ≡ 0
  pub block : content (s.disk.block n2) 0 ≡ n3
  pub empty : (j : ℕ) → 0 < j → j < 127 → content (s.disk.block n2) j ≡ 0

-- The blocks of the file are free, its slot is, and so is the slot with the number of its inode.
pub record Removed (s : Fs) (x : Blkid) (i : ℕ) (n1 n2 n3 : Blkid) (u : Fs) : Type 0 where
  pub marked :
      (j : Blkid)
      → used (disk_map u) j ≡ (
          if j == n1
          then 0
          else (if j == n2 then 0 else (if j == n3 then 0 else used (disk_map s) j)))
  pub entered :
      (j : ℕ)
      → u.disk.block x j
        ≡ (if j == 31 + n1 then 0 else (if j == 31 + i then 0 else s.disk.block x j))
  pub others : (b : Blkid) → b < s.disk.length → b ≢ 1 → b ≢ x → u.disk.block b ≡ s.disk.block b
  pub fdtable : u.fdtable ≡ s.fdtable

clear_slot_step :
    (n count : ℕ) (dir : Block) (bid : Blkid)
    → inodes dir count ≢ bid
    → clear_slot (suc n) count dir bid ≡ clear_slot n (count + 1) dir bid
unfolding clear_slot
clear_slot_step n count dir bid ne = rw (clear_slot, eqb_of_ne (inodes dir count) bid ne) refl

clear_slot_here :
    (n count : ℕ) (dir : Block) (bid : Blkid)
    → inodes dir count ≡ bid
    → clear_slot (suc n) count dir bid ≡ set_word dir (31 + count) 0
unfolding clear_slot
clear_slot_here n count dir bid e = rw (eqb_of_eq (inodes dir count) bid e) refl

-- The first slot with the inode is cleared.
clear_slot-first :
    (m n count i : ℕ) (dir : Block) (bid : Blkid)
    → count + m ≡ i
    → m < n
    → inodes dir i ≡ bid
    → ((l : ℕ) → l < i → inodes dir l ≢ bid)
    → clear_slot n count dir bid ≡ set_word dir (31 + i) 0
clear_slot-first m zero count i dir bid e lt at first = absurd (omega arith)
clear_slot-first zero (suc n) count i dir bid e lt at first =
    let here : count ≡ i = omega arith in rw here (clear_slot_here n i dir bid at)
clear_slot-first (suc m) (suc n) count i dir bid e lt at first =
    clear_slot_step n count dir bid (first count (omega arith))
    ∙ clear_slot-first m n (count + 1) i dir bid (omega arith) (omega arith) at first

-- Slots of a frame that are not set free nothing.
free_contents_none :
    (n i : ℕ) (frame : Block) (s : Fs)
    → ((j : ℕ) → i ≤ j → j < i + n → content frame j ≡ 0)
    → free_contents n i frame s ≡ done s
unfolding free_contents
free_contents_none zero i frame s none_set = refl
free_contents_none (suc n) i frame s none_set =
    rw (eqb_of_eq (content frame i) 0 (none_set i (omega arith) (omega arith)))
      (free_contents_none n (i + 1) frame s (λ j lo hi. none_set j (omega arith) (omega arith)))

free_contents_one :
    (frame : Block) (s t : Fs) (n3 : Blkid)
    → content frame 0 ≡ n3
    → n3 ≢ 0
    → ((j : ℕ) → 0 < j → j < 127 → content frame j ≡ 0)
    → sfs_free_block s n3 ≡ done t
    → free_contents 127 0 frame s ≡ done t
unfolding free_contents
free_contents_one frame s t n3 at ne empty e =
    let nonzero : content frame 0 ≢ 0 = λ q. ne (sym at ∙ q) in
    let rest = free_contents_none 126 1 frame t (λ j lo hi. empty j (omega arith) (omega arith)) in
    rw (eqb_of_ne (content frame 0) 0 nonzero, at, e) rest

free_frames_none : (n : ℕ) (buf : Block) (s : Fs) → free_frames (suc n) buf 0 s ≡ done s
unfolding free_frames
free_frames_none n buf s = refl

free_frames_one :
    (n : ℕ) (buf frame : Block) (s s1 s2 : Fs) (n2 : Blkid)
    → sfs_read_block s.disk buf n2 ≡ frame
    → n2 ≢ 0
    → free_contents 127 0 frame s ≡ done s1
    → sfs_free_block s1 n2 ≡ done s2
    → next_frame frame ≡ 0
    → free_frames (suc (suc n)) buf n2 s ≡ done s2
unfolding free_frames
free_frames_one n buf frame s s1 s2 n2 read ne contents freed ends =
    rw (eqb_of_ne n2 0 ne, read, contents, freed, ends) (free_frames_none n frame s2)

module _ (s : Fs) (k : ℕ) (x : Blkid) (i : ℕ) (n1 n2 n3 : Blkid) (v : IsMounted s)
    (h : HasOneBlock s k x i n1 n2 n3) where
  -- The directory without the file.
  abbrev detached : Fs
  detached = write_to s (set_word (set_word (s.disk.block x) (31 + i) 0) (31 + n1) 0) x

  length-detached : detached.disk.length ≡ s.disk.length
  length-detached =
      let (above, below, inside) = h.directory_data in
      length-write_inside s.disk _ x (omega arith) inside

  detached_other : (b : Blkid) → b < s.disk.length → b ≢ x → detached.disk.block b ≡ s.disk.block b
  detached_other b lt ne =
      let (above, below, inside) = h.directory_data in write_other s.disk _ x b (omega arith) lt ne

  detached_self :
      detached.disk.block x ≡ set_word (set_word (s.disk.block x) (31 + i) 0) (31 + n1) 0
  detached_self =
      let (above, below, inside) = h.directory_data in write_self s.disk _ x (omega arith)

  detached-IsMounted : IsMounted detached
  detached-IsMounted =
      let (above, below, inside) = h.directory_data in write_to-IsMounted s _ x above below inside v

  read_directory : read_fresh s x ≡ s.disk.block x
  read_directory =
      let (above, below, inside) = h.directory_data in
      read_inside s.disk s.stack x (omega arith) inside

  read_inode : sfs_read_block detached.disk (s.disk.block x) n1 ≡ s.disk.block n1
  read_inode =
      let (above, below, inside) = h.inode_data in
      read_inside detached.disk (s.disk.block x) n1 (omega arith) (rw length-detached inside)
      ∙ detached_other n1 inside h.apart_inode

  read_frame : sfs_read_block detached.disk s.stack n2 ≡ s.disk.block n2
  read_frame =
      let (above, below, inside) = h.frame_data in
      read_inside detached.disk s.stack n2 (omega arith) (rw length-detached inside)
      ∙ detached_other n2 inside h.apart_frame

  remove_runs :
      (rounds : ℕ) (t u : Fs)
      → free_frames rounds s.stack n2 detached ≡ done t
      → sfs_free_block t n1 ≡ done u
      → sfs_remove rounds s k ≡ done (pos 0, u)
  unfolding sfs_remove
  remove_runs rounds t u frames last =
      rw
        (
          leb_of_lt 32 k h.valid,
          h.inode,
          leb_of_lt 97 n1 h.low_inode,
          h.directory,
          read_directory,
          clear_slot-first i 97 0 i (s.disk.block x) n1 (omega arith) h.slot h.entered h.before,
          read_inode,
          h.framed,
          frames,
          last,
        )
        refl

  -- In a mounted file system, of a descriptor of a file with one block, whose inode has a number
  -- below 97, stands in a slot of its directory, and is not in an earlier one: with at least two
  -- rounds `sfs_remove` returns 0. The inode, the frame and the block become free, and no other block
  -- does; the slot of the file is cleared, and so is the slot with the number of the inode, whatever
  -- file stood there. No other block but the freemap changes, and the descriptor stays as it was.
  pub sfs_remove-Removed :
      (rounds : ℕ)
      → (u : Fs) × (sfs_remove (suc (suc rounds)) s k ≡ done (pos 0, u)) × Removed s x i n1 n2 n3 u
  sfs_remove-Removed rounds =
      let (above1, below1, inside1) = h.inode_data in
      let (above2, below2, inside2) = h.frame_data in
      let (above3, below3, inside3) = h.block_data in
      let (above, below, inside) = h.directory_data in
      let (t1, e1, f1) = sfs_free_block_lem detached-IsMounted n3 above3 below3 in
      let (t2, e2, f2) = sfs_free_block_lem f1.mounted n2 above2 below2 in
      let (t3, e3, f3) = sfs_free_block_lem f2.mounted n1 above1 below1 in
      let contents =
        free_contents_one (s.disk.block n2) detached t1 n3 h.block (λ e. omega arith) h.empty e1 in
      let frames =
        free_frames_one rounds s.stack (s.disk.block n2) detached t1 t2 n2 read_frame
          (λ e. omega arith) contents e2 h.last in
      let map : disk_map detached ≡ disk_map s =
        detached_other 1 v.long (λ e. omega (arith, e, above)) in
      let same = λ (b : Blkid) (lt : b < s.disk.length) (ne : b ≢ 1).
        f3.others b (rw (f2.length, f1.length, length-detached) lt) ne
        ∙ f2.others b (rw (f1.length, length-detached) lt) ne
        ∙ f1.others b (rw length-detached lt) ne in
      (
        t3,
        remove_runs (suc (suc rounds)) t2 t3 frames e3,
        record {
          marked = λ j.
              f3.marked j
              ∙ ap (λ w. if j == n1 then 0 else w)
                  (f2.marked j
                    ∙ ap (λ w. if j == n2 then 0 else w)
                        (f1.marked j ∙ ap (λ (m : Block). if j == n3 then 0 else used m j) map));
          entered = λ j.
              ap (λ (w : Block). w j)
                (same x inside (λ e. omega (arith, e, above)) ∙ detached_self);
          others = λ b lt ne nx. same b lt ne ∙ detached_other b lt nx;
          fdtable = f3.fdtable ∙ f2.fdtable ∙ f1.fdtable;
        },
      )
