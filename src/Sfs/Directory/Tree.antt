-- ===== src/Sfs/Directory/Tree.antt =====
-- The directories of a file system as the list of their blocks.
use ecse.Common.{◌<◌, ◌≡◌, ◌≢◌, sym, List, [], ◌∷◌, ◌++◌, arith, All}
use ecse.Storage.{Block, Blkid, Storage}
use ecse.Sfs.Layout.{first_dir, next_dir}
use ecse.Sfs.State.{Fs}
use ecse.Sfs.Freemap.Map.{used}
use ecse.Sfs.Freemap.Alloc.{disk_map, IsMounted, Allocated, differ_of_used}
use ecse.Sfs.Directory.Chain.{Chain, Fresh}

-- The directories of the file system are the blocks of the list, in the order of creation; each is
-- marked in the freemap, and the super block in memory is the one on disk.
pub record HasDirs (s : Fs) (ids : List Blkid) : Type 0 where
  pub mounted : IsMounted s
  pub synced : s.disk.block 0 ≡ s.sb
  pub chain : Chain s.disk (first_dir s.sb) ids
  pub taken : All (λ x. used (disk_map s) x ≡ 1) ids

pub Fresh-small :
    (d : Storage) (b : Blkid) (ids : List Blkid) (k : Blkid) → k < 2 → Chain d b ids → Fresh k ids
Fresh-small d b [] k lt c = tt
Fresh-small d b (x ∷ xs) k lt c =
    (λ e. omega (arith, c.1), Fresh-small d (next_dir (d.block x)) xs k lt c.5)

pub All-append :
    (P : Blkid → Type 0) (xs : List Blkid) (n : Blkid) → All P xs → P n → All P (xs ++ n ∷ [])
All-append P [] n a p = (p, tt)
All-append P (x ∷ xs) n a p = (a.0, All-append P xs n a.1 p)

pub All-mono :
    (P Q : Blkid → Type 0) (xs : List Blkid) → ((x : Blkid) → P x → Q x) → All P xs → All Q xs
All-mono P Q [] f a = tt
All-mono P Q (x ∷ xs) f a = (f x a.0, All-mono P Q xs f a.1)

-- What holds of every data block of the file holds of the directories.
pub All-Chain :
    (P : Blkid → Type 0) (d : Storage) (b : Blkid) (xs : List Blkid)
    → Chain d b xs
    → ((x : Blkid) → 1 < x → x < 4096 → x < d.length → P x)
    → All P xs
All-Chain P d b [] c f = tt
All-Chain P d b (x ∷ xs) c f = (f x c.1 c.2 c.3, All-Chain P d (next_dir (d.block x)) xs c.5 f)

-- A free block is no directory.
pub fresh_of_free :
    (m : Block) (n : Blkid) (ids : List Blkid)
    → used m n ≡ 0
    → All (λ x. used m x ≡ 1) ids
    → Fresh n ids
fresh_of_free m n ids free taken =
    All-mono (λ x. used m x ≡ 1) (λ x. n ≢ x) ids (λ x. differ_of_used m n x free) taken

-- The chain after the allocation of a block.
pub Chain-alloc :
    (s t : Fs) (n b : Blkid) (ids : List Blkid)
    → used (disk_map s) n ≡ 0
    → Allocated s n t
    → Chain s.disk b ids
    → All (λ x. used (disk_map s) x ≡ 1) ids
    → Chain t.disk b ids
Chain-alloc s t n b [] free a c taken = c
Chain-alloc s t n b (x ∷ xs) free a c taken =
    let ne : x ≢ n = λ e. differ_of_used (disk_map s) n x free taken.0 (sym e) in
    (
      c.0,
      c.1,
      c.2,
      omega (arith, a.long),
      c.4,
      rw (a.others x c.3 ne (omega (arith, c.1)))
          (Chain-alloc s t n (next_dir (s.disk.block x)) xs free a c.5 taken.1),
    )
