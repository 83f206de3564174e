-- ===== src/Sfs/File/Created.antt =====
-- The file that the three steps of `sfs_open` leave.
use ecse.Common.{
  ℕ, ◌+◌, ◌<◌, ◌≤◌, ◌≡◌, ◌≢◌, refl, sym, ap, ◌∙◌, true, List, [], ◌∷◌, arith, ◌==◌, if◌then◌else◌,
  All,
}
use ecse.Storage.{Block, Blkid, set_word, zero_block}
use ecse.Sfs.Layout.{Name, file_size, first_frame, file_name_at, strcpy, strcmp_eq, byte}
use ecse.Sfs.Layout.Strings.{strcmp_eq-strcpy}
use ecse.Sfs.State.{Fs}
use ecse.Sfs.Freemap.Map.{used}
use ecse.Sfs.Freemap.Space.{used_count}
use ecse.Sfs.Freemap.Alloc.{disk_map, differ_of_used}
use ecse.Sfs.Directory.Tree.{HasDirs}
use ecse.Sfs.File.Steps.{Threefold, new_inode, HasDirs-Stepped}

-- What is on disk after `sfs_open` has made a file in the free slot `i` of directory `x`: its inode
-- `n1`, its frame `n2` and its first block `n3` were free.
pub record Created (s : Fs) (ids : List Blkid) (x : Blkid) (name : Name) (i : ℕ) (n1 n2 n3 : Blkid)
    (u : Fs) : Type 0 where
  pub dirs : HasDirs u ids
  pub entered : (j : ℕ) → u.disk.block x j ≡ (if j == 31 + i then n1 else s.disk.block x j)
  pub named : strcmp_eq name (u.disk.block n1) file_name_at ≡ true
  pub size : file_size (u.disk.block n1) ≡ 0
  pub framed : first_frame (u.disk.block n1) ≡ n2
  pub frame : u.disk.block n2 ≡ set_word zero_block 1 n3
  pub empty : u.disk.block n3 ≡ zero_block
  pub inode_inside : (1 < n1) × (n1 < 4096) × (n1 < u.disk.length)
  pub frame_inside : (1 < n2) × (n2 < 4096) × (n2 < u.disk.length)
  pub block_inside : (1 < n3) × (n3 < 4096) × (n3 < u.disk.length)
  pub apart : (n1 ≢ n2) × (n1 ≢ n3) × (n2 ≢ n3)
  pub marked :
      (j : Blkid)
      → used (disk_map u) j ≡ (
          if j == n3
          then 1
          else (if j == n2 then 1 else (if j == n1 then 1 else used (disk_map s) j)))
  pub lowest : (j : Blkid) → j < n1 → used (disk_map s) j ≡ 1
  pub free1 : used (disk_map s) n1 ≡ 0
  pub free2 : used (disk_map s) n2 ≡ 0
  pub free3 : used (disk_map s) n3 ≡ 0
  pub counted : used_count (disk_map u) 4096 ≡ used_count (disk_map s) 4096 + 3
  pub kept :
      (k : Blkid)
      → k < s.disk.length
      → 1 ≢ k
      → x ≢ k
      → used (disk_map s) k ≡ 1
      → u.disk.block k ≡ s.disk.block k
  pub long : s.disk.length ≤ u.disk.length
  pub fdtable : u.fdtable ≡ s.fdtable
  pub stack : u.stack ≡ s.stack

strcmp_eq-above :
    (name : Name) (b g : Block) (o : ℕ)
    → ((p : ℕ) → o ≤ p → byte g p ≡ byte b p)
    → strcmp_eq name g o ≡ strcmp_eq name b o
unfolding strcmp_eq
strcmp_eq-above [] b g o same = rw (same o (omega arith)) refl
strcmp_eq-above (c ∷ cs) b g o same =
    rw (same o (omega arith), strcmp_eq-above cs b g (o + 1) (λ p q. same p (omega arith))) refl

new_inode_name :
    (inode : Block) (name : Name) (frame_bid : Blkid)
    → All (λ c. c < 256) name
    → strcmp_eq name (new_inode inode name frame_bid) file_name_at ≡ true
unfolding byte
new_inode_name inode name frame_bid bytes =
    strcmp_eq-above name (strcpy inode file_name_at name) (new_inode inode name frame_bid)
      file_name_at (λ p q. ground arith)
    ∙ strcmp_eq-strcpy inode file_name_at name bytes

module _ {s : Fs} {x : Blkid} {inode : Block} {i : ℕ} {name : Name} {n1 n2 n3 : Blkid} {u : Fs}
    (above : 1 < x) (inside : x < s.disk.length) (taken : used (disk_map s) x ≡ 1)
    (h : Threefold s x (s.disk.block x) inode i name n1 n2 n3 u) where
  -- A block that was taken is none of the three.
  taken2 : (k : Blkid) → used (disk_map s) k ≡ 1 → used (disk_map h.s2) k ≡ 1
  taken2 k e = ground (arith, h.first.marked k)

  taken4 : (k : Blkid) → used (disk_map h.s2) k ≡ 1 → used (disk_map h.s4) k ≡ 1
  taken4 k e = ground (arith, h.second.marked k)

  taken_n1 : used (disk_map h.s2) n1 ≡ 1
  taken_n1 = ground (arith, h.first.marked n1)

  taken_n2 : used (disk_map h.s4) n2 ≡ 1
  taken_n2 = ground (arith, h.second.marked n2)

  n1_ne_x : n1 ≢ x
  n1_ne_x = differ_of_used (disk_map s) n1 x h.free1 taken

  n2_ne_x : n2 ≢ x
  n2_ne_x = differ_of_used (disk_map h.s2) n2 x h.free2 (taken2 x taken)

  n2_ne_n1 : n2 ≢ n1
  n2_ne_n1 = differ_of_used (disk_map h.s2) n2 n1 h.free2 taken_n1

  n3_ne_x : n3 ≢ x
  n3_ne_x = differ_of_used (disk_map h.s4) n3 x h.free3 (taken4 x (taken2 x taken))

  n3_ne_n1 : n3 ≢ n1
  n3_ne_n1 = differ_of_used (disk_map h.s4) n3 n1 h.free3 (taken4 n1 taken_n1)

  n3_ne_n2 : n3 ≢ n2
  n3_ne_n2 = differ_of_used (disk_map h.s4) n3 n2 h.free3 taken_n2

  block_x : u.disk.block x ≡ set_word (s.disk.block x) (31 + i) n1
  block_x =
      let long = h.first.long in
      let long2 = h.second.long in
      h.third.others x (omega arith) (λ e. omega arith) (λ e. n3_ne_x (sym e))
        (λ e. n2_ne_x (sym e))
      ∙ h.second.others x (omega arith) (λ e. omega arith) (λ e. n2_ne_x (sym e))
          (λ e. n1_ne_x (sym e))
      ∙ h.first.self

  pub block_n1 : u.disk.block n1 ≡ new_inode inode name n2
  block_n1 =
      let long = h.second.long in
      let there = h.first.inside in
      let low = h.low1 in
      h.third.others n1 (omega arith) (λ e. omega arith) (λ e. n3_ne_n1 (sym e))
        (λ e. n2_ne_n1 (sym e))
      ∙ h.second.self

  block_kept :
      (k : Blkid)
      → k < s.disk.length
      → 1 ≢ k
      → x ≢ k
      → used (disk_map s) k ≡ 1
      → u.disk.block k ≡ s.disk.block k
  block_kept k lt nm nx e =
      let long = h.first.long in
      let long2 = h.second.long in
      let in2 = taken2 k e in
      let in4 = taken4 k in2 in
      let ne1 : n1 ≢ k = differ_of_used (disk_map s) n1 k h.free1 e in
      let ne2 : n2 ≢ k = differ_of_used (disk_map h.s2) n2 k h.free2 in2 in
      let ne3 : n3 ≢ k = differ_of_used (disk_map h.s4) n3 k h.free3 in4 in
      h.third.others k (omega arith) (λ e. nm (sym e)) (λ e. ne3 (sym e)) (λ e. ne2 (sym e))
      ∙ h.second.others k (omega arith) (λ e. nm (sym e)) (λ e. ne2 (sym e)) (λ e. ne1 (sym e))
      ∙ h.first.others k lt (λ e. nm (sym e)) (λ e. ne1 (sym e)) (λ e. nx (sym e))

  dirs_after : (ids : List Blkid) → HasDirs s ids → HasDirs u ids
  dirs_after ids dirs =
      let two = HasDirs-Stepped h.free1 h.low1 above (ground arith) h.first ids dirs in
      let four =
        HasDirs-Stepped h.free2 h.low2 h.low1 (sym (ap (λ (w : Block). w 0) h.first.cleared))
          h.second ids two in
      HasDirs-Stepped h.free3 h.low3 h.low2 (sym (ap (λ (w : Block). w 0) h.second.cleared)) h.third
        ids four

  pub Threefold-Created :
      (ids : List Blkid)
      → HasDirs s ids
      → All (λ c. c < 256) name
      → Created s ids x name i n1 n2 n3 u
  Threefold-Created ids dirs bytes =
      let long1 = h.first.long in
      let long2 = h.second.long in
      let long3 = h.third.long in
      let in1 = h.first.inside in
      let in2 = h.second.inside in
      record {
        dirs = dirs_after ids dirs;
        entered = λ j. ap (λ (w : Block). w j) block_x;
        named = rw block_n1 (new_inode_name inode name n2 bytes);
        size = ap (λ (w : Block). w 0) block_n1;
        framed = ap (λ (w : Block). w 1) block_n1;
        frame = h.third.self;
        empty = h.third.cleared;
        inode_inside = (h.low1, h.small1, omega arith);
        frame_inside = (h.low2, h.small2, omega arith);
        block_inside = (h.low3, h.small3, h.third.inside);
        apart = (λ e. n2_ne_n1 (sym e), λ e. n3_ne_n1 (sym e), λ e. n3_ne_n2 (sym e));
        marked = λ j. ground (arith, h.first.marked j, h.second.marked j, h.third.marked j);
        lowest = h.lowest1;
        free1 = h.free1;
        free2 = ground (arith, h.free2, h.first.marked n2);
        free3 = ground (arith, h.free3, h.first.marked n3, h.second.marked n3);
        counted = omega (arith, h.first.counted, h.second.counted, h.third.counted);
        kept = block_kept;
        long = omega arith;
        fdtable = h.third.fdtable ∙ h.second.fdtable ∙ h.first.fdtable;
        stack = h.third.stack ∙ h.second.stack ∙ h.first.stack;
      }
