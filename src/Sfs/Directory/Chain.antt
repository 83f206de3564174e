-- ===== src/Sfs/Directory/Chain.antt =====
-- The chain of directory blocks, and the walk of `sfs_find_dir` along it.
use ecse.Common.{
  ℕ, zero, suc, ◌+◌, ◌<◌, ◌≤◌, ◌≡◌, ◌≢◌, ap, ◌∙◌, List, [], ◌∷◌, done, arith, if◌then◌else◌, All,
  length, eqb_of_ne,
}
use ecse.Storage.{Block, Blkid, Storage}
use ecse.Storage.Laws.{read_inside}
use ecse.Sfs.Layout.{Name, next_dir, dir_name_at, strcmp_eq}
use ecse.Sfs.Directory.{find_from, count_from}

-- `k` is none of the blocks `xs`.
abbrev pub Fresh : Blkid → List Blkid → Type 0
Fresh k xs = All (λ x. k ≢ x) xs

-- From block `b` the links lead through the distinct blocks of the list to 0. A directory is a data
-- block of the file within the range of the freemap.
abbrev pub Chain : Storage → Blkid → List Blkid → Type 0
Chain d b [] = b ≡ 0
Chain d b (x ∷ xs) =
    (b ≡ x) × (1 < x) × (x < 4096) × (x < d.length) × Fresh x xs × Chain d (next_dir (d.block x)) xs

-- The first directory of the list with the name, or 0.
abbrev pub search : Storage → Name → List Blkid → Blkid
search d name [] = 0
search d name (x ∷ xs) = if strcmp_eq name (d.block x) dir_name_at then x else search d name xs

pub find_from-search :
    (n : ℕ) (d : Storage) (buf : Block) (name : Name) (b : Blkid) (xs : List Blkid)
    → Chain d b xs
    → length xs < n
    → find_from n d buf name b ≡ done (search d name xs)
unfolding find_from
find_from-search zero d buf name b xs c lt = absurd (omega arith)
find_from-search (suc n) d buf name b [] c lt = rw c
find_from-search (suc n) d buf name b (x ∷ xs) c lt =
    rw (c.0, eqb_of_ne x 0 (omega arith), read_inside d buf x (omega arith) c.3)
      (rw (find_from-search n d (d.block x) name (next_dir (d.block x)) xs c.5 (omega arith))
        (ground arith))

pub count_from-length :
    (n : ℕ) (d : Storage) (buf : Block) (b : Blkid) (num : ℕ) (xs : List Blkid)
    → Chain d b xs
    → length xs < n
    → count_from n d buf b num ≡ done (num + length xs)
unfolding count_from
count_from-length zero d buf b num xs c lt = absurd (omega arith)
count_from-length (suc n) d buf b num [] c lt = rw c (ap done (omega arith))
count_from-length (suc n) d buf b num (x ∷ xs) c lt =
    rw (c.0, eqb_of_ne x 0 (omega arith), read_inside d buf x (omega arith) c.3)
      (count_from-length n d (d.block x) (next_dir (d.block x)) (num + 1) xs c.5 (omega arith)
        ∙ ap done (omega arith))

-- A chain depends on the links of its blocks only.
pub Chain-frame :
    (d g : Storage) (b : Blkid) (xs : List Blkid)
    → Chain d b xs
    → d.length ≤ g.length
    → All (λ x. next_dir (g.block x) ≡ next_dir (d.block x)) xs
    → Chain g b xs
Chain-frame d g b [] c le same = c
Chain-frame d g b (x ∷ xs) c le same = (
  c.0,
  c.1,
  c.2,
  omega arith,
  c.4,
  rw same.0 (Chain-frame d g (next_dir (d.block x)) xs c.5 le same.1),
)
