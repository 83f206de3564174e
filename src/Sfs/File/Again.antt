-- ===== src/Sfs/File/Again.antt =====
-- `sfs_open` of a new name, `sfs_close`, and `sfs_open` of the same name again.
use ecse.Common.{
  ℕ, ◌+◌, ◌<◌, ◌≤◌, ◌≡◌, ◌≢◌, refl, ◌∙◌, fun_ext, inl, inr, List, done, arith, ◌==◌, All, length,
  Bool-cases, eqb_of_eq, eqb_of_ne, leb_of_lt,
}
use ecse.Common.Int.{pos}
use ecse.Storage.{Blkid}
use ecse.Sfs.Layout.{Name, inodes, first_dir}
use ecse.Sfs.State.{Fd, Fs, set_fd}
use ecse.Sfs.Freemap.Space.{used_count}
use ecse.Sfs.Freemap.Alloc.{disk_map}
use ecse.Sfs.Directory.Chain.{search}
use ecse.Sfs.Directory.Tree.{HasDirs}
use ecse.Sfs.File.{sfs_open, sfs_close}
use ecse.Sfs.File.Opening.{IsFreeFd, search-inside, new_fd, sfs_open_found}
use ecse.Sfs.File.Missing.{IsVacant}
use ecse.Sfs.File.Creating.{search-bounds, sfs_open-Created, Created-HasFile, search_same}

-- The descriptors do not matter to the directories.
pub HasDirs-set_fd :
    (s : Fs) (k : ℕ) (v : Fd) (ids : List Blkid) → HasDirs s ids → HasDirs (set_fd s k v) ids
HasDirs-set_fd s k v ids h = record {
  mounted = record {
    one_map = h.mounted.one_map;
    long = h.mounted.long;
    words = h.mounted.words;
    super_used = h.mounted.super_used;
    map_used = h.mounted.map_used;
  };
  synced = h.synced;
  chain = h.chain;
  taken = h.taken;
}

module _ (u : Fs) (k : ℕ) (a : Fd) where
  abbrev pub closed : Fs
  closed = set_fd (set_fd u k a) k (record ((set_fd u k a).fdtable k) { valid = 0 })

  pub sfs_close-closed : k < 32 → sfs_close (set_fd u k a) k ≡ done (pos 0, closed)
  unfolding sfs_close
  sfs_close-closed lt = rw (leb_of_lt 32 k lt) refl

  pub IsFreeFd-closed : IsFreeFd u.fdtable k → IsFreeFd closed.fdtable k
  IsFreeFd-closed h = record {
    inside = h.inside;
    unused = rw (eqb_of_eq k k refl) refl;
    before = λ l lt. rw (eqb_of_ne l k (λ e. omega arith)) (h.before l lt);
  }

  reopened_at : (j : ℕ) → (set_fd closed k a).fdtable j ≡ (set_fd u k a).fdtable j
  reopened_at j = elim (Bool-cases (j == k)) [ inl same ↦ rw same refl | inr other ↦ rw other refl ]

  pub reopened : (set_fd closed k a).fdtable ≡ (set_fd u k a).fdtable
  reopened = fun_ext reopened_at

-- Where the directories are a well-formed chain, there are more rounds than directories, a directory
-- has the name `dirname` of at most 119 bytes, none of its files has the name and one of its slots is
-- free, a descriptor is free, three blocks are free, and the name is short enough for the inode:
-- after `sfs_open` of the new name and `sfs_close`, `sfs_open` of the same name gives the same
-- number; it leaves the disk and the descriptors that the first `sfs_open` left.
pub sfs_open-sfs_close :
    (rounds : ℕ) (s : Fs) (ids : List Blkid) (dirname name : Name) (i k : ℕ)
    → HasDirs s ids
    → length ids < rounds
    → length dirname < 120
    → search s.disk dirname ids ≢ 0
    → IsVacant s (search s.disk dirname ids) name i
    → IsFreeFd s.fdtable k
    → All (λ c. c < 256) name
    → length name < 504
    → used_count (disk_map s) 4096 + 3 ≤ 4096
    → (t : Fs) × (v : Fs) × (w : Fs) × (sfs_open rounds s dirname name ≡ done (pos k, t))
      × (sfs_close t k ≡ done (pos 0, v))
      × (sfs_open rounds v dirname name ≡ done (pos k, w))
      × (w.disk ≡ t.disk)
      × (w.fdtable ≡ t.fdtable)
sfs_open-sfs_close rounds s ids dirname name i k h enough small ne vacant free bytes short room =
    let x = search s.disk dirname ids in
    let (n1, n2, n3, u, e, c) =
      sfs_open-Created rounds s ids dirname name i k h enough ne vacant free bytes short room in
    let (low, inside) = search-inside s.disk dirname (first_dir s.sb) ids h.chain ne in
    let (above, below) = search-bounds s.disk dirname (first_dir s.sb) ids h.chain ne in
    let a = new_fd (u.disk.block n1) n1 x in
    let v = closed u k a in
    let same : search u.disk dirname ids ≡ x =
      search_same above inside vacant c dirname (first_dir s.sb) ids small h.chain h.taken in
    let free_u : IsFreeFd u.fdtable k = rw c.fdtable free in
    let found = Created-HasFile above inside vacant c in
    let entry : inodes (u.disk.block x) i ≡ n1 = ground (arith, c.entered (31 + i)) in
    let dirs = HasDirs-set_fd _ k _ ids (HasDirs-set_fd u k a ids c.dirs) in
    let again =
      sfs_open_found rounds v ids dirname name i k dirs enough (rw same ne) (rw same found)
        (IsFreeFd-closed u k a free_u) in
    (
      set_fd u k a,
      v,
      set_fd v k a,
      e,
      sfs_close-closed u k a free.inside,
      again ∙ rw (same, entry) refl,
      refl,
      reopened u k a,
    )
