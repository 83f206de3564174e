-- ===== src/Sfs/Tests.antt =====
-- The theorems on the file system at concrete states: a blank image, the same image formatted, and
-- the formatted image with one directory.
use ecse.Common.{◌<◌, ◌≡◌, ◌≢◌, refl, [], ◌∷◌, done, arith, All}
use ecse.Common.Int.{pos, negsuc}
use ecse.Storage.{Blkid, zero_block}
use ecse.Sfs.Layout.{Name, sfs_magic}
use ecse.Sfs.State.{Fd, Fs}
use ecse.Sfs.Freemap.{sfs_alloc_block, sfs_free_block}
use ecse.Sfs.Freemap.Map.{used}
use ecse.Sfs.Freemap.Alloc.{disk_map, AllocResult, Freed, sfs_alloc_block_lem, sfs_free_block_lem}
use ecse.Sfs.Directory.{new_dir, sfs_mkdir, sfs_rmdir}
use ecse.Sfs.Directory.Chain.{search}
use ecse.Sfs.Directory.Tree.{HasDirs}
use ecse.Sfs.Directory.Make.{Made, sfs_mkdir-Made}
use ecse.Sfs.Directory.Remove.{Removed, sfs_rmdir-Removed}
use ecse.Sfs.Format.{sfs_mkfs, sfs_print_info, sfs_reloadfs}
use ecse.Sfs.Format.Mount.{mkfs_marks, mkfs-HasDirs, reloadfs-HasDirs, mkdir_unmounted}
use ecse.Sfs.File.{sfs_ls}
use ecse.Sfs.File.Listing.{total_files, sfs_ls-total}
use ecse.Sfs.Cursor.{set_cur, sfs_seek}
use ecse.Sfs.Cursor.Seek.{sfs_seek-clamped}

abbrev closed_fd : Fd
closed_fd = record { inode = zero_block; inode_bid = 0; dir_bid = 0; cur = 0; valid = 0 }

abbrev blank : Fs
blank = record {
  sb = zero_block;
  freemap = zero_block;
  fdtable = λ k. closed_fd;
  disk = record { length = 0; block = λ k. zero_block };
  stack = zero_block;
}

-- Formatted and mounted.
abbrev fresh : Fs
fresh = (sfs_print_info (sfs_mkfs blank).1).1

-- The directory name `doc`.
abbrev doc : Name
doc = 100 ∷ 111 ∷ 99 ∷ []

fresh-HasDirs : HasDirs fresh []
fresh-HasDirs = mkfs-HasDirs blank

two_free : used (disk_map fresh) 2 ≡ 0
unfolding sfs_print_info
two_free = mkfs_marks blank 2

doc_bytes : All (λ c. c < 256) doc
doc_bytes = (omega arith, (omega arith, (omega arith, tt)))

doc-Made :
    (n : Blkid) × (u : Fs) × (sfs_mkdir 1 fresh doc ≡ done (pos 0, u)) × Made fresh [] doc n u
doc-Made =
    sfs_mkdir-Made 1 fresh [] fresh-HasDirs (omega arith) doc refl doc_bytes (omega arith) 2
      (omega arith) two_free

sfs_mkdir-Made_example :
    (n : Blkid) × (u : Fs) × (sfs_mkdir 1 fresh doc ≡ done (pos 0, u)) × Made fresh [] doc n u
sfs_mkdir-Made_example =
    sfs_mkdir-Made 1 fresh [] fresh-HasDirs (omega arith) doc refl doc_bytes (omega arith) 2
      (omega arith) two_free

-- The formatted image with the directory `doc`, and its block.
abbrev with_doc : Fs
with_doc = doc-Made.1

abbrev doc_bid : Blkid
doc_bid = doc-Made.0

with_doc-HasDirs : HasDirs with_doc (doc_bid ∷ [])
with_doc-HasDirs = doc-Made.3.dirs

doc_found : search with_doc.disk doc (doc_bid ∷ []) ≢ 0
doc_found =
    let low : 1 < doc_bid = with_doc-HasDirs.chain.1 in rw doc-Made.3.named (λ e. omega arith)

sfs_rmdir-Removed_example :
    (u : Fs) × (sfs_rmdir 2 with_doc doc ≡ done (pos 0, u))
    × Removed with_doc (doc_bid ∷ []) (search with_doc.disk doc (doc_bid ∷ [])) u
sfs_rmdir-Removed_example =
    sfs_rmdir-Removed 2 with_doc (doc_bid ∷ []) with_doc-HasDirs (omega arith) doc doc_found

sfs_ls-total_example : sfs_ls 1 fresh ≡ done (total_files fresh.disk [], fresh)
sfs_ls-total_example = sfs_ls-total 1 fresh [] fresh-HasDirs (omega arith)

sfs_alloc_block_lem_example : AllocResult fresh (sfs_alloc_block fresh)
sfs_alloc_block_lem_example = sfs_alloc_block_lem fresh fresh-HasDirs.mounted

sfs_free_block_lem_example : (t : Fs) × (sfs_free_block fresh 2 ≡ done t) × Freed fresh 2 t
sfs_free_block_lem_example = sfs_free_block_lem fresh-HasDirs.mounted 2 (omega arith) (omega arith)

mkfs-HasDirs_example : HasDirs (sfs_print_info (sfs_mkfs blank).1).1 []
mkfs-HasDirs_example = mkfs-HasDirs blank

reloadfs-HasDirs_example : HasDirs (sfs_reloadfs blank with_doc.disk).1 (doc_bid ∷ [])
reloadfs-HasDirs_example = reloadfs-HasDirs with_doc blank (doc_bid ∷ []) with_doc-HasDirs

mkdir_unmounted_example :
    (u : Fs) × (sfs_mkdir 1 (sfs_mkfs blank).1 doc ≡ done (pos 0, u))
    × (u.disk.block 0 ≡ new_dir blank.stack doc)
    × (u.disk.block 0 0 ≢ sfs_magic)
mkdir_unmounted_example = mkdir_unmounted 1 blank doc (omega arith) (omega arith)

-- Descriptor 3 at position 10.
abbrev moved : Fs
moved = set_cur blank 3 10

sfs_seek-clamped_example : sfs_seek moved 3 (negsuc 4) 1 ≡ done (pos 0, set_cur moved 3 5)
sfs_seek-clamped_example =
    sfs_seek-clamped moved 3 (negsuc 4) 1 (omega arith) (omega arith) (omega arith) (omega arith)
