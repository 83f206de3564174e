-- ===== src/Sfs/Directory/Remove.antt =====
-- `sfs_rmdir` takes a directory out of the chain, and `sfs_lsdir` counts the chain.
use ecse.Common.{
  ℕ, ◌+◌, ◌<◌, ◌≡◌, ◌≢◌, sym, ap, ◌∙◌, inl, inr, List, [], ◌∷◌, done, arith, ◌==◌, if◌then◌else◌,
  All, length, Bool-cases, eqb_of_ne, eq_of_eqb, ne_of_eqb,
}
use ecse.Common.Int.{pos, negsuc}
use ecse.Storage.{Block, Blkid, Storage}
use ecse.Storage.Laws.{read_inside}
use ecse.Sfs.Layout.{Name, first_dir, next_dir}
use ecse.Sfs.State.{Fs}
use ecse.Sfs.Freemap.Map.{used}
use ecse.Sfs.Freemap.Alloc.{disk_map, Freed, sfs_free_block_lem}
use ecse.Sfs.Directory.{sfs_rmdir, sfs_lsdir}
use ecse.Sfs.Directory.Chain.{Chain, Fresh, search, Chain-frame, count_from-length}
use ecse.Sfs.Directory.Tree.{HasDirs, All-Chain, Fresh-small}
use ecse.Sfs.Directory.Make.{sfs_find_dir-search}
use ecse.Sfs.Directory.Detach.{Unlinked, search-Mem, unlink_dir-Unlinked}
use mathlib.Core.Path.{subst}
use ecse.Sfs.Directory.Unlink.{erase, Mem, Fresh-erase}

-- What a successful `sfs_rmdir` of the directory `x` leaves behind.
pub record Removed (s : Fs) (ids : List Blkid) (x : Blkid) (u : Fs) : Type 0 where
  pub dirs : HasDirs u (erase x ids)
  pub marked : (j : Blkid) → used (disk_map u) j ≡ (if j == x then 0 else used (disk_map s) j)
  pub others :
      (k j : ℕ) → k < s.disk.length → k ≢ 0 → k ≢ 1 → j ≢ 0 → u.disk.block k j ≡ s.disk.block k j
  pub outside :
      (k : Blkid)
      → k < s.disk.length
      → k ≢ 0
      → k ≢ 1
      → Fresh k (erase x ids)
      → u.disk.block k ≡ s.disk.block k

Fresh-erase_self :
    (d : Storage) (b x : Blkid) (xs : List Blkid) → Chain d b xs → Fresh x (erase x xs)
Fresh-erase_self d b x [] c = tt
Fresh-erase_self d b x (y ∷ ys) c = elim (Bool-cases (y == x)) [
  | inl same ↦ rw same (subst (λ (z : Blkid). Fresh z ys) (eq_of_eqb y x same) c.4)
  | inr other ↦
      rw other
        ((λ e. ne_of_eqb y x other (sym e)), Fresh-erase_self d (next_dir (d.block y)) x ys c.5)
]

-- What is taken of a list without `x` is taken of every other element.
pub All-fresh :
    (P Q : Blkid → Type 0) (x : Blkid) (xs : List Blkid)
    → Fresh x xs
    → ((y : Blkid) → y ≢ x → P y → Q y)
    → All P xs
    → All Q xs
All-fresh P Q x [] f g a = tt
All-fresh P Q x (y ∷ ys) f g a = (g y (λ e. f.0 (sym e)) a.0, All-fresh P Q x ys f.1 g a.1)

pub All-erase : (P : Blkid → Type 0) (x : Blkid) (xs : List Blkid) → All P xs → All P (erase x xs)
All-erase P x [] a = tt
All-erase P x (y ∷ ys) a = elim (Bool-cases (y == x)) [
  | inl same ↦ rw same a.1
  | inr other ↦ rw other (a.0, All-erase P x ys a.1)
]

first_ne_zero : (d : Storage) (b x : Blkid) (ids : List Blkid) → Chain d b ids → Mem x ids → b ≢ 0
first_ne_zero d b x [] c m = absurd m
first_ne_zero d b x (y ∷ ys) c m = omega (arith, c.0, c.1)

Mem-bounds :
    (d : Storage) (b x : Blkid) (ids : List Blkid)
    → Chain d b ids
    → Mem x ids
    → (1 < x) × (x < 4096)
Mem-bounds d b x [] c m = absurd m
Mem-bounds d b x (y ∷ ys) c (inl e) = omega (arith, c.1, c.2)
Mem-bounds d b x (y ∷ ys) c (inr m) = Mem-bounds d (next_dir (d.block y)) x ys c.5 m

-- The chain after a block is given back.
Chain-free :
    (s t : Fs) (x : Blkid) (ids : List Blkid)
    → Freed s x t
    → Chain s.disk (first_dir s.sb) ids
    → Chain t.disk (first_dir t.sb) ids
Chain-free s t x ids f c = rw f.sb (
    Chain-frame s.disk t.disk (first_dir s.sb) ids c (omega (arith, f.length)) (
      All-Chain (λ y. next_dir (t.disk.block y) ≡ next_dir (s.disk.block y)) s.disk (first_dir s.sb)
        ids c λ y low small lt. ap (λ (w : Block). w 0) (f.others y lt (omega arith))))

module _ {s s1 t : Fs} {ids : List Blkid} (x : Blkid) (low : 1 < x) (h : HasDirs s ids)
    (f : Freed s x s1) (r : Unlinked s1 (erase x ids) t) where
  one_fresh : Fresh 1 (erase x ids)
  one_fresh = Fresh-erase 1 x ids (Fresh-small s.disk (first_dir s.sb) ids 1 (omega arith) h.chain)

  same_map : disk_map t ≡ disk_map s1
  same_map = r.outside 1 f.mounted.long (omega arith) one_fresh

  same_marks : (j : Blkid) → used (disk_map t) j ≡ (if j == x then 0 else used (disk_map s) j)
  same_marks j = rw same_map (f.marked j)

  Unlinked-Removed : Removed s ids x t
  Unlinked-Removed = record {
    dirs = record {
      mounted = record {
        one_map = r.one_map ∙ f.mounted.one_map;
        long = omega (arith, r.length, f.mounted.long);
        words = rw same_map f.mounted.words;
        super_used = rw same_map f.mounted.super_used;
        map_used = rw same_map f.mounted.map_used;
      };
      synced = r.synced;
      chain = r.chain;
      taken =
          All-fresh (λ y. used (disk_map s) y ≡ 1) (λ y. used (disk_map t) y ≡ 1) x (erase x ids)
            (Fresh-erase_self s.disk (first_dir s.sb) x ids h.chain)
            (λ y ne p. rw (same_marks y, eqb_of_ne y x ne) p)
            (All-erase (λ y. used (disk_map s) y ≡ 1) x ids h.taken);
    };
    marked = same_marks;
    others = λ k j lt nz no nj.
        r.words k j (omega (arith, f.length)) nz nj ∙ ap (λ (w : Block). w j) (f.others k lt no);
    outside = λ k lt nz no fr. r.outside k (omega (arith, f.length)) nz fr ∙ f.others k lt no;
  }

module _ (rounds : ℕ) (s : Fs) (ids : List Blkid) (h : HasDirs s ids)
    (enough : length ids < rounds) where
  -- Where the directories are a well-formed chain and there are more rounds than directories,
  -- `sfs_lsdir` ends, returns the number of directories and changes nothing.
  pub sfs_lsdir-length : sfs_lsdir rounds s ≡ done (length ids, s)
  unfolding sfs_lsdir
  sfs_lsdir-length =
      let none_yet : 0 + length ids ≡ length ids = omega arith in
      rw (
        read_inside s.disk s.sb 0 (omega arith) (omega (arith, h.mounted.long)),
        h.synced,
        count_from-length rounds s.disk s.stack (first_dir s.sb) 0 ids h.chain enough,
        none_yet,
      )

  -- Where the directories are a well-formed chain and there are more rounds than directories,
  -- `sfs_rmdir` of a name that no directory has returns -1 and changes nothing.
  pub sfs_rmdir_absent :
      (name : Name) → search s.disk name ids ≡ 0 → sfs_rmdir rounds s name ≡ done (negsuc 0, s)
  unfolding sfs_rmdir
  sfs_rmdir_absent name absent = rw (sfs_find_dir-search rounds s ids h enough name, absent)

  -- Where the directories are a well-formed chain and there are more rounds than directories,
  -- `sfs_rmdir` of a name that is taken succeeds, whatever files the directory holds: the first
  -- directory with the name leaves the chain and its block is given back; the other directories keep
  -- their order, names and files, and every block outside the chain its content.
  pub sfs_rmdir-Removed :
      (name : Name)
      → search s.disk name ids ≢ 0
      → (u : Fs) × (sfs_rmdir rounds s name ≡ done (pos 0, u))
        × Removed s ids (search s.disk name ids) u
  unfolding sfs_rmdir
  sfs_rmdir-Removed name ne =
      let x = search s.disk name ids in
      let m = search-Mem s.disk name ids ne in
      let (low, small) = Mem-bounds s.disk (first_dir s.sb) x ids h.chain m in
      let (s1, e1, f) = sfs_free_block_lem h.mounted x low small in
      let synced = f.others 0 (omega (arith, h.mounted.long)) (omega arith) ∙ h.synced ∙ sym f.sb in
      let (t, e2, r) =
        unlink_dir-Unlinked s1 f.mounted.long synced rounds x ids (Chain-free s s1 x ids f h.chain)
          m enough in
      (
        t,
        rw (
          sfs_find_dir-search rounds s ids h enough name,
          eqb_of_ne x 0 ne,
          eqb_of_ne (first_dir s.sb) 0 (first_ne_zero s.disk (first_dir s.sb) x ids h.chain m),
          e1,
          e2,
        ),
        Unlinked-Removed x low h f r,
      )
