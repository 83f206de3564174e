-- ===== src/Sfs/Directory.antt =====
-- `sfs_find_dir`, `sfs_mkdir`, `sfs_rmdir` and `sfs_lsdir` of PA3/a2/fs.c. The directories are a
-- chain of blocks that begins at `first_dir` of the super block and ends at 0.
pub mod Chain
pub mod Link
pub mod Tree
pub mod Enter
pub mod Make
pub mod Unlink
pub mod Detach
pub mod Remove
use ecse.Common.{
  ℕ, zero, suc, ◌+◌, ◌||◌, [], Outcome, done, undefined, diverged, ◌>>=◌, ltb, ◌==◌, if◌then◌else◌,
}
use ecse.Common.Int.{ℤ, pos, negsuc}
use ecse.Storage.{Block, Blkid, Storage, set_word, sfs_read_block, sfs_write_block}
use ecse.Sfs.Layout.{
  Name, first_dir, next_dir, dir_name_at, inodes_at, sfs_db_ninodes, clear_words, strcpy, strcmp_eq,
}
use ecse.Common.{length}
use ecse.Sfs.State.{Fs, read_fresh, write_to}
use ecse.Sfs.Freemap.{sfs_alloc_block, sfs_free_block}

-- The walk of `sfs_find_dir`. The first argument counts the rounds left; `buf` is `block_ptr`.
unfoldable pub find_from : ℕ → Storage → Block → Name → Blkid → Outcome Blkid
find_from zero d buf name bid = diverged
find_from (suc n) d buf name bid =
    let dir = sfs_read_block d buf bid in
    let rest = find_from n d dir name (next_dir dir) in
    if bid == 0 then done 0 else if strcmp_eq name dir dir_name_at then done bid else rest

unfoldable pub sfs_find_dir : ℕ → Fs → Name → Outcome Blkid
sfs_find_dir rounds s name = find_from rounds s.disk s.stack name (first_dir s.sb)

-- `while (next_dir_id != 0)` of `sfs_mkdir`: link `new_bid` behind the last directory.
unfoldable pub link_last : ℕ → Storage → Block → Blkid → Blkid → Outcome Storage
link_last zero d buf bid new_bid = diverged
link_last (suc n) d buf bid new_bid =
    let dir = sfs_read_block d buf bid in
    let again = sfs_read_block d dir bid in
    let rest = link_last n d dir (next_dir dir) new_bid in
    if bid == 0
    then done d
    else if next_dir dir == 0
    then done (sfs_write_block d (set_word again 0 new_bid) bid)
    else rest

-- Enter the new block into the chain: in the super block, which is written back, or behind the last
-- directory. `block_ptr` has been read from the first directory's block before.
unfoldable pub enter_dir : ℕ → Fs → Blkid → Outcome Fs
enter_dir rounds s new_bid =
    let first = first_dir s.sb in
    let sb = set_word s.sb 3 new_bid in
    if first == 0
    then done (write_to (record s { sb = sb }) sb 0)
    else link_last rounds s.disk (read_fresh s first) first new_bid >>= λ d.
        done (record s { disk = d })

-- `temp_dir`: a local struct of which the link, the name and the inodes are set.
unfoldable pub new_dir : Block → Name → Block
new_dir stack name =
    clear_words (strcpy (set_word stack 0 0) dir_name_at name) inodes_at sfs_db_ninodes

-- `sizeof(dirname)` is the size of a pointer.
abbrev pub pointer_size : ℕ
pointer_size = 8

-- The bytes of `temp_dir` from `dir_name` on: a longer string leaves the struct.
abbrev pub dir_room : ℕ
dir_room = 508

-- The branch of `sfs_mkdir` for a name that is not taken.
unfoldable pub make_dir : ℕ → Fs → Name → Outcome (ℤ × Fs)
make_dir rounds s name = sfs_alloc_block s >>= λ (new_bid, s1).
    enter_dir rounds s1 new_bid >>= λ s2.
    if ltb (length name) dir_room
    then done (pos 0, write_to s2 (new_dir s2.stack name) new_bid)
    else undefined

unfoldable pub sfs_mkdir : ℕ → Fs → Name → Outcome (ℤ × Fs)
sfs_mkdir rounds s name =
    if ltb 120 pointer_size
    then done (negsuc 0, s)
    else (sfs_find_dir rounds s name >>= λ bid.
        if bid == 0 then make_dir rounds s name else done (negsuc 0, s))

-- `while (next_dir != dir_bid)` of `sfs_rmdir`: the walk to the directory before `dir_bid`, which
-- takes over the link of `dir_bid`.
unfoldable pub unlink_from : ℕ → Storage → Block → Blkid → Blkid → Outcome Storage
unlink_from zero d buf next dir_bid = diverged
unlink_from (suc n) d buf next dir_bid =
    let dir = sfs_read_block d buf next in
    let gone = sfs_read_block d dir (next_dir dir) in
    let before = sfs_read_block d gone next in
    let rest = unlink_from n d dir (next_dir dir) dir_bid in
    if next == dir_bid
    then done d
    else if next_dir dir == dir_bid
    then done (sfs_write_block d (set_word before 0 (next_dir gone)) next)
    else rest

-- The first directory of the chain is taken out in the super block, which is read back first.
unfoldable pub unlink_first : Fs → Blkid → Fs
unlink_first s dir_bid =
    let dir = read_fresh s dir_bid in
    let sb = set_word (sfs_read_block s.disk s.sb 0) 3 (next_dir dir) in
    write_to (record s { sb = sb }) sb 0

unfoldable pub unlink_dir : ℕ → Fs → Blkid → Outcome Fs
unlink_dir rounds s dir_bid =
    if first_dir s.sb == dir_bid
    then done (unlink_first s dir_bid)
    else unlink_from rounds s.disk s.stack (first_dir s.sb) dir_bid >>= λ d.
        done (record s { disk = d })

unfoldable pub sfs_rmdir : ℕ → Fs → Name → Outcome (ℤ × Fs)
sfs_rmdir rounds s name = sfs_find_dir rounds s name >>= λ dir_bid.
    if dir_bid == 0 || first_dir s.sb == 0
    then done (negsuc 0, s)
    else do s1 ← sfs_free_block s dir_bid; s2 ← unlink_dir rounds s1 dir_bid; done (pos 0, s2)

-- The count of `sfs_lsdir` from a directory on.
unfoldable pub count_from : ℕ → Storage → Block → Blkid → ℕ → Outcome ℕ
count_from zero d buf bid num = diverged
count_from (suc n) d buf bid num =
    let dir = sfs_read_block d buf bid in
    let rest = count_from n d dir (next_dir dir) (num + 1) in if bid == 0 then done num else rest

-- `sfs_lsdir` reads the super block back first.
unfoldable pub sfs_lsdir : ℕ → Fs → Outcome (ℕ × Fs)
sfs_lsdir rounds s =
    let s1 = record s { sb = sfs_read_block s.disk s.sb 0 } in
    count_from rounds s1.disk s1.stack (first_dir s1.sb) 0 >>= λ num. done (num, s1)
