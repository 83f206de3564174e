-- ===== src/Sfs/Freemap/Tests.antt =====
-- The flush of the earlier copy at a disk with three freemap blocks.
use ecse.Common.{◌<◌, ◌≤◌, ◌≡◌, arith, ◌==◌, if◌then◌else◌}
use ecse.Storage.{Blkid, zero_block, set_word}
use ecse.Sfs.State.{Fs}
use ecse.Sfs.Freemap.{sfs_flush_freemap}
use ecse.Sfs.Freemap.Earlier.{flush_all, flush_all-copies}

abbrev three_maps : Fs
three_maps = record {
  sb = set_word (set_word zero_block 1 12288) 2 4;
  freemap = set_word zero_block 0 15;
  fdtable = λ k. record { inode = zero_block; inode_bid = 0; dir_bid = 0; cur = 0; valid = 0 };
  disk = record { length = 8; block = λ k. if k == 1 then set_word zero_block 0 7 else zero_block };
  stack = zero_block;
}

flush_all-copies_example :
    ((flush_all three_maps).disk.block 1 ≡ three_maps.freemap)
    × ((j : Blkid) → 0 < j → j < 4 → (flush_all three_maps).disk.block j ≡ three_maps.freemap)
    × ((flush_all three_maps).disk.block 0 ≡ three_maps.disk.block 0)
    × ((k : Blkid)
        → 1 < k
        → 4 ≤ k
        → k < 8
        → (flush_all three_maps).disk.block k ≡ three_maps.disk.block k)
    × ((sfs_flush_freemap three_maps).disk.block 1 ≡ three_maps.freemap)
    × ((k : Blkid)
        → 1 < k
        → k < 8
        → (sfs_flush_freemap three_maps).disk.block k ≡ three_maps.disk.block k)
flush_all-copies_example = flush_all-copies three_maps (omega arith) (omega arith) (omega arith)
