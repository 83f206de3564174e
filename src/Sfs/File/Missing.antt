-- ===== src/Sfs/File/Missing.antt =====
-- `sfs_open` of a new name: the search of the slots finds the first free one.
use ecse.Common.{
  ℕ, zero, suc, ◌+◌, ◌<◌, ◌≡◌, ◌≢◌, ◌⊎◌, inl, inr, refl, ◌∙◌, false, none, some, arith,
}
use ecse.Storage.{Block, Blkid, Storage}
use ecse.Sfs.Layout.{Name, inodes, file_name_at, strcmp_eq, sfs_db_ninodes}
use ecse.Sfs.State.{Fs}
use ecse.Sfs.Freemap.Map.{used}
use ecse.Sfs.Freemap.Alloc.{disk_map}
use ecse.Sfs.File.{miss, find_file}
use ecse.Sfs.File.Opening.{IsPassed, find_file_free, find_file_other}

-- The slot of directory `x` is free, or holds a file of another name in a data block of its own that
-- is marked as taken.
abbrev pub IsOther : Fs → Blkid → Name → ℕ → Type 0
IsOther s x name l =
    let b = inodes (s.disk.block x) l in
    (b ≡ 0)
    ⊎ ((1 < b)
        × (b < 4096)
        × (b < s.disk.length)
        × (b ≢ x)
        × (used (disk_map s) b ≡ 1)
        × (strcmp_eq name (s.disk.block b) file_name_at ≡ false))

-- No file of directory `x` has the name, and `i` is its first free slot.
pub record IsVacant (s : Fs) (x : Blkid) (name : Name) (i : ℕ) : Type 0 where
  pub slot : i < 97
  pub empty : inodes (s.disk.block x) i ≡ 0
  pub before : (l : ℕ) → l < i → inodes (s.disk.block x) l ≢ 0
  pub others : (l : ℕ) → l < 97 → IsOther s x name l

pub IsPassed-other :
    (s : Fs) (x : Blkid) (name : Name) (l : ℕ)
    → IsOther s x name l
    → IsPassed s.disk (s.disk.block x) name l
IsPassed-other s x name l (inl none_here) = inl none_here
IsPassed-other s x name l (inr (low, small, inside, apart, taken, other)) =
    inr (λ e. omega arith, omega arith, inside, other)

module _ (d : Storage) (dir : Block) (name : Name) where
  find_file_kept :
      (n count i : ℕ) (inode : Block)
      → ((l : ℕ) → l < count + n → IsPassed d dir name l)
      → (node : Block) × (find_file n d dir name count (some i) inode ≡ miss (some i) node)
  unfolding find_file
  find_file_kept zero count i inode h = (inode, refl)
  find_file_kept (suc n) count i inode h = elim (h count (omega arith)) [
    | inl none_here ↦
        let (node, e) = find_file_kept n (count + 1) i inode (λ l q. h l (omega arith)) in
        (node, find_file_free d dir name n count (some i) inode none_here ∙ e)
    | inr (ne, small, inside, other) ↦
        let (node, e) =
          find_file_kept n (count + 1) i (d.block (inodes dir count)) (λ l q. h l (omega arith)) in
        (node, find_file_other d dir name n count (some i) inode ne small inside other ∙ e)
  ]

  find_file_miss :
      (m n count i : ℕ) (inode : Block)
      → count + m ≡ i
      → m < n
      → inodes dir i ≡ 0
      → ((l : ℕ) → l < i → inodes dir l ≢ 0)
      → ((l : ℕ) → l < count + n → IsPassed d dir name l)
      → (node : Block) × (find_file n d dir name count none inode ≡ miss (some i) node)
  find_file_miss m zero count i inode e lt free first h = absurd (omega arith)
  find_file_miss zero (suc n) count i inode e lt free first h =
      let here : count ≡ i = omega arith in
      let (node, kept) = find_file_kept n (i + 1) i inode (λ l q. h l (omega arith)) in
      (node, rw here (find_file_free d dir name n i none inode free ∙ kept))
  find_file_miss (suc m) (suc n) count i inode e lt free first h = elim (h count (omega arith)) [
    | inl none_here ↦ absurd (first count (omega arith) none_here)
    | inr (ne, small, inside, other) ↦
        let (node, rest) =
          find_file_miss m n (count + 1) i (d.block (inodes dir count)) (omega arith) (omega arith)
            free first (λ l q. h l (omega arith)) in
        (node, find_file_other d dir name n count none inode ne small inside other ∙ rest)
  ]

pub find_file-IsVacant :
    (s : Fs) (x : Blkid) (name : Name) (i : ℕ) (inode : Block)
    → IsVacant s x name i
    → (node : Block) × (find_file sfs_db_ninodes s.disk (s.disk.block x) name 0 none inode
        ≡ miss (some i) node)
find_file-IsVacant s x name i inode h =
    find_file_miss s.disk (s.disk.block x) name i sfs_db_ninodes 0 i inode (omega arith) h.slot
      h.empty h.before (λ l q. IsPassed-other s x name l (h.others l (omega arith)))
