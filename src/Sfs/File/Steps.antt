-- ===== src/Sfs/File/Steps.antt =====
-- The three steps in which `sfs_open` makes a file: each allocates a block and writes another one.
use ecse.Common.{
  ℕ, ◌+◌, ◌<◌, ◌≤◌, ◌≡◌, refl, sym, ap, ◌∙◌, inl, inr, List, [], ◌∷◌, done, some, arith, ◌==◌, All,
  length, Bool-cases, eq_of_eqb, ne_of_eqb, ltb_of_lt,
}
use ecse.Storage.{Block, Blkid, set_word, zero_block}
use ecse.Storage.Laws.{read_inside}
use ecse.Sfs.Layout.{Name, inodes_at, first_dir, next_dir, file_name_at, strcpy}
use ecse.Sfs.State.{Fs, write_to}
use ecse.Sfs.Freemap.Map.{used}
use ecse.Sfs.Freemap.Space.{used_count}
use ecse.Sfs.Freemap.Alloc.{disk_map, IsMounted, differ_of_used}
use ecse.Sfs.Freemap.Taking.{Stepped, sfs_alloc_block-Taken, Taken-Stepped}
use ecse.Sfs.Directory.Chain.{Chain, Chain-frame}
use ecse.Sfs.Directory.Tree.{HasDirs, All-mono}
use ecse.Sfs.File.{create_file}

module _ {s t : Fs} {n y : Blkid} {b : Block} (free : used (disk_map s) n ≡ 0) (low : 1 < n)
    (above : 1 < y) (link : next_dir b ≡ next_dir (s.disk.block y)) (p : Stepped s n y b t) where
  links :
      (from : Blkid) (ids : List Blkid)
      → Chain s.disk from ids
      → All (λ x. used (disk_map s) x ≡ 1) ids
      → All (λ x. next_dir (t.disk.block x) ≡ next_dir (s.disk.block x)) ids
  links from [] c taken = tt
  links from (x ∷ xs) c taken = (
    elim (Bool-cases (x == y)) [
      | inl same ↦
          let e : x ≡ y = eq_of_eqb x y same in rw e (ap (λ (w : Block). w 0) p.self ∙ link)
      | inr other ↦
          ap (λ (w : Block). w 0)
            (p.others x c.3 (λ e. absurd (omega (arith, c.1, e)))
              (λ e. differ_of_used (disk_map s) n x free taken.0 (sym e)) (ne_of_eqb x y other))
    ],
    links (next_dir (s.disk.block x)) xs c.5 taken.1,
  )

  -- Where the block that is written keeps its first word, the directories stay.
  pub HasDirs-Stepped : (ids : List Blkid) → HasDirs s ids → HasDirs t ids
  HasDirs-Stepped ids h = record {
    mounted = p.mounted;
    synced =
        p.others 0 (omega (arith, h.mounted.long)) (λ e. omega arith) (λ e. omega (arith, low, e))
          (λ e. omega (arith, above, e))
        ∙ h.synced
        ∙ sym p.sb;
    chain = rw p.sb (
        Chain-frame s.disk t.disk (first_dir s.sb) ids h.chain p.long
          (links (first_dir s.sb) ids h.chain h.taken));
    taken =
        All-mono (λ x. used (disk_map s) x ≡ 1) (λ x. used (disk_map t) x ≡ 1) ids
          (λ x q. ground (arith, p.marked x)) h.taken;
  }

-- The inode of a new file.
abbrev pub new_inode : Block → Name → Blkid → Block
new_inode inode name frame_bid =
    set_word (set_word (strcpy inode file_name_at name) 1 frame_bid) 0 0

-- The three steps: into the directory `x`, into the inode `n1`, into the frame `n2`.
pub record Threefold (s : Fs) (x : Blkid) (dir inode : Block) (i : ℕ) (name : Name)
    (n1 n2 n3 : Blkid) (u : Fs) : Type 0 where
  pub s2 : Fs
  pub s4 : Fs
  pub lowest1 : (j : Blkid) → j < n1 → used (disk_map s) j ≡ 1
  pub free1 : used (disk_map s) n1 ≡ 0
  pub free2 : used (disk_map s2) n2 ≡ 0
  pub free3 : used (disk_map s4) n3 ≡ 0
  pub low1 : 1 < n1
  pub low2 : 1 < n2
  pub low3 : 1 < n3
  pub small1 : n1 < 4096
  pub small2 : n2 < 4096
  pub small3 : n3 < 4096
  pub first : Stepped s n1 x (set_word dir (inodes_at + i) n1) s2
  pub second : Stepped s2 n2 n1 (new_inode inode name n2) s4
  pub third : Stepped s4 n3 n2 (set_word zero_block 1 n3) u

-- `create_file` in a mounted file system with three free blocks.
pub create_file-Threefold :
    (s : Fs) (x : Blkid) (dir inode : Block) (i : ℕ) (name : Name)
    → IsMounted s
    → 1 < x
    → x < 4096
    → x < s.disk.length
    → used (disk_map s) x ≡ 1
    → used_count (disk_map s) 4096 + 3 ≤ 4096
    → length name < 504
    → (n1 : Blkid) × (n2 : Blkid) × (n3 : Blkid) × (u : Fs) × (create_file s dir x
          (some i)
          inode
          name
        ≡ done (u, n1, new_inode inode name n2))
      × Threefold s x dir inode i name n1 n2 n3 u
unfolding create_file
create_file-Threefold s x dir inode i name v above below inside taken room short =
    let (n1, s1, e1, t1) = sfs_alloc_block-Taken s v (omega arith) in
    let dir_new = set_word dir (inodes_at + i) n1 in
    let s2 = write_to s1 dir_new x in
    let p1 =
      Taken-Stepped s n1 x s1 dir_new t1 above below inside
        (differ_of_used (disk_map s) n1 x t1.free taken) in
    let (n2, s3, e2, t2) = sfs_alloc_block-Taken s2 p1.mounted (omega (arith, p1.counted)) in
    let node = new_inode inode name n2 in
    let s4 = write_to s3 node n1 in
    let was1 : used (disk_map s2) n1 ≡ 1 = ground (arith, p1.marked n1) in
    let p2 =
      Taken-Stepped s2 n2 n1 s3 node t2 t1.low t1.small p1.inside
        (differ_of_used (disk_map s2) n2 n1 t2.free was1) in
    let (n3, s5, e3, t3) =
      sfs_alloc_block-Taken s4 p2.mounted (omega (arith, p1.counted, p2.counted)) in
    let was2 : used (disk_map s4) n2 ≡ 1 = ground (arith, p2.marked n2) in
    let frame = set_word zero_block 1 n3 in
    let p3 =
      Taken-Stepped s4 n3 n2 s5 frame t3 t2.low t2.small p2.inside
        (differ_of_used (disk_map s4) n3 n2 t3.free was2) in
    let fresh = read_inside s4.disk s4.stack n2 (omega (arith, t2.small)) p2.inside ∙ p2.cleared in
    (
      n1,
      n2,
      n3,
      write_to s5 frame n2,
      rw (e1, ltb_of_lt (length name) 504 short, e2, e3, fresh) refl,
      record {
        s2 = s2;
        s4 = s4;
        lowest1 = t1.lowest;
        free1 = t1.free;
        free2 = t2.free;
        free3 = t3.free;
        low1 = t1.low;
        low2 = t2.low;
        low3 = t3.low;
        small1 = t1.small;
        small2 = t2.small;
        small3 = t3.small;
        first = p1;
        second = p2;
        third = p3;
      },
    )
