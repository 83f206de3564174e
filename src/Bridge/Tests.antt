-- ===== src/Bridge/Tests.antt =====
-- The theorem on the bridge at a concrete block.
use ecse.Common.{◌≡◌, [], ◌∷◌, undefined, arith}
use ecse.Storage.{zero_block}
use ecse.Sfs.State.{Fs}
use ecse.Datanode.Decimal.{decimal, decimal-IsDecimal}
use ecse.Bridge.{ext_read_block, ext_write_block}
use ecse.Bridge.Paths.{ext_blocks_overrun}

abbrev blank : Fs
blank = record {
  sb = zero_block;
  freemap = zero_block;
  fdtable = λ k. record { inode = zero_block; inode_bid = 0; dir_bid = 0; cur = 0; valid = 0 };
  disk = record { length = 0; block = λ k. zero_block };
  stack = zero_block;
}

ext_blocks_overrun_example :
    (ext_read_block 9 decimal blank (97 ∷ []) 10 (λ k. 0) ≡ undefined)
    × (ext_write_block 9 decimal blank (97 ∷ []) 10 (λ k. 0) ≡ undefined)
ext_blocks_overrun_example =
    ext_blocks_overrun decimal decimal-IsDecimal (97 ∷ []) 10 9 blank (λ k. 0) (omega arith)
      (omega arith)
