-- ===== src/Sfs/Reading/Tests.antt =====
-- `sfs_read` at a concrete file whose frame has one block.
use ecse.Common.{◌≡◌, refl, diverged, arith, ◌==◌, if◌then◌else◌}
use ecse.Storage.{zero_block, set_word, sfs_read_block, slot}
use ecse.Sfs.State.{Fs}
use ecse.Sfs.Reading.{sfs_read, sfs_read_hole}

-- Block 2 is an inode whose frame is block 3, which has one block.
abbrev hollow : Fs
hollow = record {
  sb = zero_block;
  freemap = zero_block;
  fdtable = λ k. record { inode = zero_block; inode_bid = 2; dir_bid = 6; cur = 0; valid = 1 };
  disk = record {
    length = 6;
    block = λ k.
        if k == 2
        then set_word zero_block 1 3
        else if k == 3
        then set_word zero_block 1 5
        else zero_block;
  };
  stack = zero_block;
}

sfs_read_hole_example : sfs_read 5 hollow 1 (λ k. 0) 600 ≡ diverged
unfolding sfs_read_block slot
sfs_read_hole_example =
    sfs_read_hole 5 hollow 1 (λ k. 0) 600 1 (omega arith) (omega arith) (omega arith) (omega arith)
      (omega arith) (omega arith) refl
