-- ===== src/Sfs/File/Opening.antt =====
-- `sfs_open` of a file that exists: the directory, the slot and the descriptor that it finds.
use ecse.Common.{
  ℕ, zero, suc, ◌+◌, ◌<◌, ◌≡◌, ◌≢◌, ◌⊎◌, inl, inr, refl, ◌∙◌, true, false, List, [], ◌∷◌, Option,
  none, some, done, arith, length, eqb_of_ne, eqb_of_eq, Bool-cases,
}
use ecse.Storage.{Block, Blkid, Storage}
use ecse.Storage.Laws.{read_inside}
use ecse.Sfs.Layout.{
  Name, inodes, next_dir, first_dir, file_name_at, dir_name_at, strcmp_eq, sfs_db_ninodes,
  sfs_max_opened_files,
}
use ecse.Common.Int.{pos}
use ecse.Sfs.State.{Fd, Fs, set_fd}
use ecse.Sfs.Directory.Chain.{Chain, search}
use ecse.Sfs.Directory.Tree.{HasDirs}
use ecse.Sfs.Directory.Make.{sfs_find_dir-search}
use ecse.Sfs.File.{free_fd, hit, keep_first, find_file, open_found, open_at, sfs_open}

-- The slot is free, or holds a file of another name.
abbrev pub IsPassed : Storage → Block → Name → ℕ → Type 0
IsPassed d dir name i =
    (inodes dir i ≡ 0)
    ⊎ ((inodes dir i ≢ 0)
        × (inodes dir i < 8388608)
        × (inodes dir i < d.length)
        × (strcmp_eq name (d.block (inodes dir i)) file_name_at ≡ false))

-- The slot `i` of a directory is the first that holds a file of the name.
pub record HasFile (d : Storage) (dir : Block) (name : Name) (i : ℕ) : Type 0 where
  pub slot : i < 97
  pub taken : inodes dir i ≢ 0
  pub small : inodes dir i < 8388608
  pub inside : inodes dir i < d.length
  pub named : strcmp_eq name (d.block (inodes dir i)) file_name_at ≡ true
  pub before : (l : ℕ) → l < i → IsPassed d dir name l

module _ (d : Storage) (dir : Block) (name : Name) where
  pub find_file_free :
      (n count : ℕ) (free : Option ℕ) (inode : Block)
      → inodes dir count ≡ 0
      → find_file (suc n) d dir name count free inode
        ≡ find_file n d dir name (count + 1) (keep_first free count) inode
  unfolding find_file
  find_file_free n count free inode e = rw (eqb_of_eq (inodes dir count) 0 e) refl

  pub find_file_other :
      (n count : ℕ) (free : Option ℕ) (inode : Block)
      → inodes dir count ≢ 0
      → inodes dir count < 8388608
      → inodes dir count < d.length
      → strcmp_eq name (d.block (inodes dir count)) file_name_at ≡ false
      → find_file (suc n) d dir name count free inode
        ≡ find_file n d dir name (count + 1) free (d.block (inodes dir count))
  unfolding find_file
  find_file_other n count free inode ne small inside other =
      rw
        (
          eqb_of_ne (inodes dir count) 0 ne,
          read_inside d inode (inodes dir count) small inside,
          other,
        )
        refl

  find_file_here :
      (n count : ℕ) (free : Option ℕ) (inode : Block)
      → inodes dir count ≢ 0
      → inodes dir count < 8388608
      → inodes dir count < d.length
      → strcmp_eq name (d.block (inodes dir count)) file_name_at ≡ true
      → find_file (suc n) d dir name count free inode
        ≡ hit (inodes dir count) (d.block (inodes dir count))
  unfolding find_file
  find_file_here n count free inode ne small inside same =
      rw
        (
          eqb_of_ne (inodes dir count) 0 ne,
          read_inside d inode (inodes dir count) small inside,
          same,
        )
        refl

  find_file_hit :
      (m n count i : ℕ) (free : Option ℕ) (inode : Block)
      → count + m ≡ i
      → m < n
      → HasFile d dir name i
      → find_file n d dir name count free inode ≡ hit (inodes dir i) (d.block (inodes dir i))
  find_file_hit m zero count i free inode e lt h = absurd (omega arith)
  find_file_hit zero (suc n) count i free inode e lt h =
      let here : count ≡ i = omega arith in
      rw here (find_file_here n i free inode h.taken h.small h.inside h.named)
  find_file_hit (suc m) (suc n) count i free inode e lt h = elim (h.before count (omega arith)) [
    | inl none_here ↦
        find_file_free n count free inode none_here
        ∙ find_file_hit m n (count + 1) i (keep_first free count) inode (omega arith) (omega arith)
            h
    | inr (ne, small, inside, other) ↦
        find_file_other n count free inode ne small inside other
        ∙ find_file_hit m n (count + 1) i free (d.block (inodes dir count)) (omega arith)
            (omega arith) h
  ]

-- The first descriptor that is not in use.
pub record IsFreeFd (table : ℕ → Fd) (k : ℕ) : Type 0 where
  pub inside : k < 32
  pub unused : (table k).valid ≡ 0
  pub before : (l : ℕ) → l < k → (table l).valid ≢ 0

pub free_fd_hit :
    (m n count k : ℕ) (table : ℕ → Fd)
    → count + m ≡ k
    → m < n
    → IsFreeFd table k
    → free_fd n table count ≡ some k
unfolding free_fd
free_fd_hit m zero count k table e lt h = absurd (omega arith)
free_fd_hit zero (suc n) count k table e lt h =
    let here : count ≡ k = omega arith in rw (here, eqb_of_eq (table k).valid 0 h.unused) refl
free_fd_hit (suc m) (suc n) count k table e lt h =
    rw (eqb_of_ne (table count).valid 0 (h.before count (omega arith)))
      (free_fd_hit m n (count + 1) k table (omega arith) (omega arith) h)

pub search-inside :
    (d : Storage) (name : Name) (b : Blkid) (ids : List Blkid)
    → Chain d b ids
    → search d name ids ≢ 0
    → (search d name ids < 8388608) × (search d name ids < d.length)
search-inside d name b [] c ne = absurd (ne refl)
search-inside d name b (x ∷ xs) c ne = elim (Bool-cases (strcmp_eq name (d.block x) dir_name_at)) [
  | inl same ↦ rw same (omega (arith, c.2), c.3)
  | inr other ↦ rw other (search-inside d name (next_dir (d.block x)) xs c.5 (rw other at ne))
]

-- The descriptor of a file just opened.
abbrev pub new_fd : Block → Blkid → Blkid → Fd
new_fd node bid dir_bid = record {
  inode = node;
  inode_bid = bid;
  dir_bid = dir_bid;
  cur = 0;
  valid = 1;
}

-- `sfs_open` of a file that exists sets the first free descriptor, and nothing else.
pub sfs_open_found :
    (rounds : ℕ) (s : Fs) (ids : List Blkid) (dirname name : Name) (i k : ℕ)
    → HasDirs s ids
    → length ids < rounds
    → search s.disk dirname ids ≢ 0
    → HasFile s.disk (s.disk.block (search s.disk dirname ids)) name i
    → IsFreeFd s.fdtable k
    → sfs_open rounds s dirname name
      ≡ done (
        pos k,
        set_fd s k (
            new_fd
              (s.disk.block (inodes (s.disk.block (search s.disk dirname ids)) i))
              (inodes (s.disk.block (search s.disk dirname ids)) i)
              (search s.disk dirname ids)),
      )
unfolding sfs_open open_at open_found
sfs_open_found rounds s ids dirname name i k h enough ne f free =
    let x = search s.disk dirname ids in
    let (small, inside) = search-inside s.disk dirname (first_dir s.sb) ids h.chain ne in
    rw
      (
        free_fd_hit k sfs_max_opened_files 0 k s.fdtable (omega arith) free.inside free,
        sfs_open,
        sfs_find_dir-search rounds s ids h enough dirname,
        read_inside s.disk s.stack x small inside,
        find_file_hit s.disk (s.disk.block x) name i sfs_db_ninodes 0 i none s.stack (omega arith)
            f.slot f,
      )
      refl

-- Descriptor `k` of `t` stands, at its start, for the file whose inode is in block `node_bid`; else
-- `t` is as `s`.
pub record IsOpened (s t : Fs) (k : ℕ) (dir_bid node_bid : Blkid) : Type 0 where
  pub valid : (t.fdtable k).valid ≡ 1
  pub at_start : (t.fdtable k).cur ≡ 0
  pub in_dir : (t.fdtable k).dir_bid ≡ dir_bid
  pub inode_at : (t.fdtable k).inode_bid ≡ node_bid
  pub inode : (t.fdtable k).inode ≡ s.disk.block node_bid
  pub others : (l : ℕ) → l ≢ k → t.fdtable l ≡ s.fdtable l
  pub disk : t.disk ≡ s.disk
  pub freemap : t.freemap ≡ s.freemap
  pub sb : t.sb ≡ s.sb
  pub stack : t.stack ≡ s.stack

set_fd-IsOpened :
    (s : Fs) (k : ℕ) (dir_bid node_bid : Blkid)
    → IsOpened s (set_fd s k (new_fd (s.disk.block node_bid) node_bid dir_bid)) k dir_bid node_bid
set_fd-IsOpened s k dir_bid node_bid =
    let here = eqb_of_eq k k refl in
    record {
      valid = rw here refl;
      at_start = rw here refl;
      in_dir = rw here refl;
      inode_at = rw here refl;
      inode = rw here refl;
      others = λ l ne. rw (eqb_of_ne l k ne) refl;
      disk = refl;
      freemap = refl;
      sb = refl;
      stack = refl;
    }

-- Where the directories are a well-formed chain, there are more rounds than directories, a directory
-- has the name, a file of the other name stands in it, and a descriptor is free, `sfs_open` gives the
-- first free descriptor: it becomes valid, with the inode of the file and its block number, the block
-- number of the directory, and the cursor at the start, and nothing else changes.
pub sfs_open-IsOpened :
    (rounds : ℕ) (s : Fs) (ids : List Blkid) (dirname name : Name) (i k : ℕ)
    → HasDirs s ids
    → length ids < rounds
    → search s.disk dirname ids ≢ 0
    → HasFile s.disk (s.disk.block (search s.disk dirname ids)) name i
    → IsFreeFd s.fdtable k
    → (t : Fs) × (sfs_open rounds s dirname name ≡ done (pos k, t))
      × IsOpened s t k
          (search s.disk dirname ids)
          (inodes (s.disk.block (search s.disk dirname ids)) i)
sfs_open-IsOpened rounds s ids dirname name i k h enough ne f free =
    let x = search s.disk dirname ids in
    let node_bid = inodes (s.disk.block x) i in
    (
      set_fd s k (new_fd (s.disk.block node_bid) node_bid x),
      sfs_open_found rounds s ids dirname name i k h enough ne f free,
      set_fd-IsOpened s k x node_bid,
    )
