-- ===== src/Storage.antt =====
-- The block device of PA3/a2/ext.c: an image file that is read and written in whole blocks.
pub mod Laws
use ecse.Common.{
  ℕ, suc, ◌*◌, ◌/◌, ◌%◌, ◌^◌, ◌<◌, max, ◌≡◌, ◌&&◌, arith, ltb, leb, ◌==◌, if◌then◌else◌,
}

-- `BLOCK_SIZE` of fs.h, in bytes.
abbrev pub block_size : ℕ
block_size = 512

-- A `blkid`, which is a `u32`.
abbrev pub Blkid : Type 0
Blkid = ℕ

-- 512 bytes as 128 words of 32 bits, little-endian. A struct of fs.h is a view of such a block.
abbrev pub Block : Type 0
Block = ℕ → ℕ

abbrev pub zero_block : Block
zero_block _ = 0

-- One word changed.
abbrev pub set_word : Block → ℕ → ℕ → Block
set_word b k v j = if j == k then v else b j

-- The image file: its length in blocks, and the blocks.
pub record Storage : Type 0 where
  pub length : ℕ
  pub block : ℕ → Block

-- `bid * BLOCK_SIZE` is computed on `u32`, so it wraps. The offset is a multiple of the block size;
-- this is the block that it names.
unfoldable pub slot : Blkid → ℕ
slot bid = bid * block_size % 2 ^ 32 / block_size

-- `sfs_read_block`: behind the end of the file `fread` delivers nothing and the buffer stays.
unfoldable pub sfs_read_block : Storage → Block → Blkid → Block
sfs_read_block d buf bid = if ltb (slot bid) d.length then d.block (slot bid) else buf

-- `sfs_write_block`: behind the end the file grows, and the gap reads as zeros.
unfoldable pub sfs_write_block : Storage → Block → Blkid → Storage
sfs_write_block d buf bid = record {
  length = max d.length (suc (slot bid));
  block = λ k.
      if k == slot bid
      then buf
      else if leb d.length k && ltb k (slot bid)
      then zero_block
      else d.block k;
}

-- A block number that does not wrap.
pub slot_small : (bid : Blkid) → bid < 8388608 → slot bid ≡ bid
unfolding slot
slot_small bid h = omega arith
