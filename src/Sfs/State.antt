-- ===== src/Sfs/State.antt =====
-- The variables of PA3/a2/fs.c and the image file, as one state.
use ecse.Common.{ℕ, ◌==◌, if◌then◌else◌}
use ecse.Storage.{Block, Blkid, Storage, sfs_read_block, sfs_write_block}

-- `fd_struct_t`
pub record Fd : Type 0 where
  pub inode : Block
  pub inode_bid : Blkid
  pub dir_bid : Blkid
  pub cur : ℕ
  pub valid : ℕ

-- `sb`, `freemap` and `fdtable` in memory, and the image on disk. `stack` is what the local buffers
-- hold before anything is written to them.
pub record Fs : Type 0 where
  pub sb : Block
  pub freemap : Block
  pub fdtable : ℕ → Fd
  pub disk : Storage
  pub stack : Block

-- A local buffer after `sfs_read_block(buf, bid)`, where nothing was in it before.
abbrev pub read_fresh : Fs → Blkid → Block
read_fresh s bid = sfs_read_block s.disk s.stack bid

-- `sfs_write_block(buf, bid)`
abbrev pub write_to : Fs → Block → Blkid → Fs
write_to s buf bid = record s { disk = sfs_write_block s.disk buf bid }

-- `fdtable[fd] = v`
abbrev pub set_fd : Fs → ℕ → Fd → Fs
set_fd s fd v = record s { fdtable = λ k. if k == fd then v else s.fdtable k }
