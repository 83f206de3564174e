-- ===== src/Sfs/File/Creating.antt =====
-- `sfs_open` of a new name makes a file, which it finds again.
use ecse.Common.{
  ℕ, ◌+◌, ◌/◌, ◌<◌, ◌≤◌, ◌≡◌, ◌≢◌, refl, sym, ap, inl, inr, List, [], ◌∷◌, done, arith, ◌==◌, All,
  length, Bool-cases, eq_of_eqb, ne_of_eqb,
}
use ecse.Storage.{Block, Blkid, Storage}
use ecse.Storage.Laws.{read_inside}
use ecse.Sfs.Layout.{
  Name, inodes, first_dir, next_dir, dir_name_at, byte, strcmp_eq, sfs_max_opened_files,
}
use ecse.Sfs.Layout.Strings.{strcmp_eq-agree}
use ecse.Common.Int.{pos}
use ecse.Sfs.State.{Fs, set_fd}
use ecse.Sfs.Freemap.Map.{used}
use ecse.Sfs.Freemap.Space.{used_count}
use ecse.Sfs.Freemap.Alloc.{disk_map}
use ecse.Sfs.Directory.Chain.{Chain, search}
use ecse.Sfs.Directory.Tree.{HasDirs}
use ecse.Sfs.Directory.Make.{sfs_find_dir-search}
use ecse.Sfs.File.{open_found, open_at, sfs_open}
use ecse.Sfs.File.Opening.{HasFile, IsFreeFd, IsPassed, new_fd, free_fd_hit, search-inside}
use ecse.Sfs.File.Missing.{IsOther, IsVacant, find_file-IsVacant}
use ecse.Sfs.File.Steps.{create_file-Threefold}
use ecse.Sfs.File.Created.{Created, block_n1, Threefold-Created}

-- What holds of every directory holds of the one that is found.
pub All-search :
    (P : Blkid → Type 0) (d : Storage) (name : Name) (ids : List Blkid)
    → All P ids
    → search d name ids ≢ 0
    → P (search d name ids)
All-search P d name [] a ne = absurd (ne refl)
All-search P d name (x ∷ xs) a ne = elim (Bool-cases (strcmp_eq name (d.block x) dir_name_at)) [
  | inl same ↦ rw same a.0
  | inr other ↦ rw other (All-search P d name xs a.1 (rw other at ne))
]

pub search-bounds :
    (d : Storage) (name : Name) (b : Blkid) (ids : List Blkid)
    → Chain d b ids
    → search d name ids ≢ 0
    → (1 < search d name ids) × (search d name ids < 4096)
search-bounds d name b [] c ne = absurd (ne refl)
search-bounds d name b (x ∷ xs) c ne = elim (Bool-cases (strcmp_eq name (d.block x) dir_name_at)) [
  | inl same ↦ rw same (c.1, c.2)
  | inr other ↦ rw other (search-bounds d name _ xs c.5 (rw other at ne))
]

-- Where the directories are a well-formed chain, there are more rounds than directories, a directory
-- has the name `dirname`, none of its files has the name and one of its slots is free, a descriptor
-- is free, three blocks are free, and the name is short enough for the inode: `sfs_open` gives the
-- first free descriptor. Three free blocks become the inode, with the name and the size 0, its frame,
-- and the first block of the frame, which is empty; the inode is entered in the first free slot of
-- the directory. The directories stay, every other block that was taken keeps its content, and the
-- descriptor is valid, with the inode on disk and the cursor at the start.
pub sfs_open-Created :
    (rounds : ℕ) (s : Fs) (ids : List Blkid) (dirname name : Name) (i k : ℕ)
    → HasDirs s ids
    → length ids < rounds
    → search s.disk dirname ids ≢ 0
    → IsVacant s (search s.disk dirname ids) name i
    → IsFreeFd s.fdtable k
    → All (λ c. c < 256) name
    → length name < 504
    → used_count (disk_map s) 4096 + 3 ≤ 4096
    → (n1 : Blkid) × (n2 : Blkid) × (n3 : Blkid) × (u : Fs) × (sfs_open rounds s dirname name
        ≡ done (pos k, set_fd u k (new_fd (u.disk.block n1) n1 (search s.disk dirname ids))))
      × Created s ids (search s.disk dirname ids) name i n1 n2 n3 u
unfolding sfs_open open_at open_found
sfs_open-Created rounds s ids dirname name i k h enough ne vacant free bytes short room =
    let x = search s.disk dirname ids in
    let (small, inside) = search-inside s.disk dirname (first_dir s.sb) ids h.chain ne in
    let (above, below) = search-bounds s.disk dirname (first_dir s.sb) ids h.chain ne in
    let taken = All-search (λ y. used (disk_map s) y ≡ 1) s.disk dirname ids h.taken ne in
    let (inode, missed) = find_file-IsVacant s x name i s.stack vacant in
    let (n1, n2, n3, u, made, three) =
      create_file-Threefold s x (s.disk.block x) inode i name h.mounted above below inside taken
        room short in
    let created = Threefold-Created above inside taken three ids h bytes in
    (
      n1,
      n2,
      n3,
      u,
      rw
          (
            free_fd_hit k sfs_max_opened_files 0 k s.fdtable (omega arith) free.inside free,
            sfs_open,
            sfs_find_dir-search rounds s ids h enough dirname,
            read_inside s.disk s.stack x small inside,
            missed,
            made,
          )
          (ap (λ (b : Block). done (pos k, set_fd u k (new_fd b n1 x)))
            (sym (block_n1 above inside taken three))),
      created,
    )

module _ {s u : Fs} {ids : List Blkid} {x : Blkid} {name : Name} {i : ℕ} {n1 n2 n3 : Blkid}
    (above : 1 < x) (inside : x < s.disk.length) (vacant : IsVacant s x name i)
    (c : Created s ids x name i n1 n2 n3 u) where
  entry_new : inodes (u.disk.block x) i ≡ n1
  entry_new = ground (arith, c.entered (31 + i))

  entry_old : (l : ℕ) → l < i → inodes (u.disk.block x) l ≡ inodes (s.disk.block x) l
  entry_old l lt = ground (arith, c.entered (31 + l))

  passed : (l : ℕ) → l < i → IsOther s x name l → IsPassed u.disk (u.disk.block x) name l
  passed l lt (inl none_here) = absurd (vacant.before l lt none_here)
  passed l lt (inr (low, small, there, apart, taken, other)) =
      let same =
        c.kept (inodes (s.disk.block x) l) there (λ e. omega arith) (λ e. apart (sym e)) taken in
      let long = c.long in
      inr (rw (entry_old l lt) (λ e. omega arith, omega arith, omega arith, rw same other))

  -- The slot holds the first file of the name.
  pub Created-HasFile : HasFile u.disk (u.disk.block x) name i
  Created-HasFile =
      let (low, small, there) = c.inode_inside in
      record {
        slot = vacant.slot;
        taken = rw entry_new (λ e. omega arith);
        small = rw entry_new (omega arith);
        inside = rw entry_new there;
        named = rw entry_new c.named;
        before = λ l lt. passed l lt (vacant.others l (omega (arith, vacant.slot)));
      }

  -- The directories keep their names.
  same_name :
      (dirname : Name) (y : Blkid)
      → length dirname < 120
      → 1 < y
      → y < s.disk.length
      → used (disk_map s) y ≡ 1
      → strcmp_eq dirname (u.disk.block y) dir_name_at
        ≡ strcmp_eq dirname (s.disk.block y) dir_name_at
  unfolding byte
  same_name dirname y short low there taken = elim (Bool-cases (y == x)) [
    | inl same ↦
        let e : y ≡ x = eq_of_eqb y x same in
        rw e (
          strcmp_eq-agree dirname (s.disk.block x) (u.disk.block x) dir_name_at 124
            (λ p lt. ground (arith, c.entered (p / 4))) (omega arith))
    | inr other ↦
        ap (λ (w : Block). strcmp_eq dirname w dir_name_at)
          (c.kept y there (λ e. omega arith) (λ e. ne_of_eqb y x other (sym e)) taken)
  ]

  pub search_same :
      (dirname : Name) (from : Blkid) (ys : List Blkid)
      → length dirname < 120
      → Chain s.disk from ys
      → All (λ y. used (disk_map s) y ≡ 1) ys
      → search u.disk dirname ys ≡ search s.disk dirname ys
  search_same dirname from [] short chain taken = refl
  search_same dirname from (y ∷ ys) short chain taken =
      rw
        (
          same_name dirname y short chain.1 chain.3 taken.0,
          search_same dirname (next_dir (s.disk.block y)) ys short chain.5 taken.1,
        )
        refl
