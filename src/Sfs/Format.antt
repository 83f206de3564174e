-- ===== src/Sfs/Format.antt =====
-- `sfs_mkfs`, `sfs_print_info` and `sfs_reloadfs` of PA3/a2/fs.c.
pub mod Mount
use ecse.Common.{ℕ, ltb, if◌then◌else◌}
use ecse.Common.Int.{ℤ, pos}
use ecse.Storage.{Storage, Block, zero_block, set_word, sfs_read_block}
use ecse.Sfs.Layout.{sfs_magic, sfs_max_opened_files}
use ecse.Sfs.State.{Fs, write_to}

-- The number of blocks that the super block states, which is also the block written to enlarge the
-- file.
abbrev pub total_blocks : ℕ
total_blocks = 1024

-- The super block as `sfs_mkfs` fills it, over what the static variable held.
unfoldable pub fill_super : Block → Block
fill_super sb = set_word (set_word (set_word (set_word sb 0 sfs_magic) 1 total_blocks) 2 1) 3 0

-- In memory the super block is zeroed at the end.
unfoldable pub sfs_mkfs : Fs → ℤ × Fs
sfs_mkfs s =
    let sb = fill_super s.sb in
    let closed = λ (k : ℕ).
      if ltb k sfs_max_opened_files then record (s.fdtable k) { valid = 0 } else s.fdtable k in
    let s1 = write_to (record s { sb = sb; fdtable = closed }) sb 0 in
    let s2 = write_to s1 zero_block total_blocks in
    let map = set_word zero_block 0 3 in
    let s3 = write_to (record s2 { freemap = map }) map 1 in (pos 0, record s3 { sb = zero_block })

-- The result is the super block in memory, after it is read from disk.
unfoldable pub sfs_print_info : Fs → Block × Fs
sfs_print_info s = let sb = sfs_read_block s.disk s.sb 0 in (sb, record s { sb = sb })

-- `sfs_reloadfs` of an image file: the super block and the freemap are read from it, and it becomes
-- the storage.
unfoldable pub sfs_reloadfs : Fs → Storage → ℤ × Fs
sfs_reloadfs s image =
    let map = sfs_read_block image (set_word zero_block 0 3) 1 in
    (pos 0, record s { sb = sfs_read_block image s.sb 0; freemap = map; disk = image })
