-- ===== src/Sfs/File/Listing.antt =====
-- `sfs_ls` counts the files of all directories.
use ecse.Common.{
  ℕ, zero, suc, ◌+◌, ◌<◌, ◌≡◌, refl, ap, ◌∙◌, List, [], ◌∷◌, done, arith, ◌==◌, if◌then◌else◌,
  length, eqb_of_ne,
}
use ecse.Storage.{Block, Blkid, Storage}
use ecse.Storage.Laws.{read_inside}
use ecse.Sfs.Layout.{inodes, next_dir, first_dir}
use ecse.Sfs.State.{Fs}
use ecse.Sfs.Directory.Chain.{Chain}
use ecse.Sfs.Directory.Tree.{HasDirs}
use ecse.Sfs.File.{count_files, ls_from, sfs_ls}

-- How many of the slots below `n` hold a file.
unfoldable pub files_below : ℕ → Block → ℕ
files_below zero dir = 0
files_below (suc n) dir = (if inodes dir n == 0 then 0 else 1) + files_below n dir

-- How many files the directories of the list hold.
unfoldable pub total_files : Storage → List Blkid → ℕ
total_files d [] = 0
total_files d (x ∷ xs) = files_below 97 (d.block x) + total_files d xs

-- The slots from `count` on, as many as there are rounds.
files_from : ℕ → ℕ → Block → ℕ
files_from zero count dir = 0
files_from (suc n) count dir =
    (if inodes dir count == 0 then 0 else 1) + files_from n (count + 1) dir

count_files-add :
    (n count : ℕ) (d : Storage) (dir buf : Block) (num : ℕ)
    → (count_files n count d dir buf num).0 ≡ num + files_from n count dir
unfolding count_files files_from
count_files-add zero count d dir buf num = omega arith
count_files-add (suc n) count d dir buf num =
    count_files-add n (count + 1) d dir _ (if inodes dir count == 0 then num else num + 1)
    ∙ ground arith

files_from-below :
    (n count : ℕ) (dir : Block)
    → files_below (count + n) dir ≡ files_below count dir + files_from n count dir
unfolding files_from files_below
files_from-below zero count dir = let e : count + 0 ≡ count = omega arith in rw e (omega arith)
files_from-below (suc n) count dir =
    let shift : count + suc n ≡ suc count + n = omega arith in
    let next : count + 1 ≡ suc count = omega arith in
    rw (shift, next, files_from-below n (suc count) dir) (omega arith)

files_below_none : (dir : Block) → files_below 0 dir ≡ 0
unfolding files_below
files_below_none dir = refl

ls_from-total :
    (n : ℕ) (d : Storage) (buf : Block) (b : Blkid) (num : ℕ) (xs : List Blkid)
    → Chain d b xs
    → length xs < n
    → ls_from n d buf b num ≡ done (num + total_files d xs)
unfolding ls_from total_files
ls_from-total zero d buf b num xs c lt = absurd (omega arith)
ls_from-total (suc n) d buf b num [] c lt = rw c (ap done (omega arith))
ls_from-total (suc n) d buf b num (x ∷ xs) c lt =
    rw (c.0, eqb_of_ne x 0 (omega arith), read_inside d buf x (omega arith) c.3)
      (ls_from-total n d _ (next_dir (d.block x)) _ xs c.5 (omega arith)
        ∙ ap done (
            omega (
              arith,
              count_files-add 97 0 d (d.block x) (d.block x) num,
              files_from-below 97 0 (d.block x),
              files_below_none (d.block x),
            )))

-- Where the directories are a well-formed chain and there are more rounds than directories, `sfs_ls`
-- ends, returns the number of files of all directories, by the slots in use, and changes nothing.
pub sfs_ls-total :
    (rounds : ℕ) (s : Fs) (ids : List Blkid)
    → HasDirs s ids
    → length ids < rounds
    → sfs_ls rounds s ≡ done (total_files s.disk ids, s)
unfolding sfs_ls
sfs_ls-total rounds s ids h enough =
    let none_yet : 0 + total_files s.disk ids ≡ total_files s.disk ids = omega arith in
    rw (
      read_inside s.disk s.sb 0 (omega arith) (omega (arith, h.mounted.long)),
      h.synced,
      ls_from-total rounds s.disk s.stack (first_dir s.sb) 0 ids h.chain enough,
      none_yet,
    )
