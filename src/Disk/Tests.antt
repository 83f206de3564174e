-- ===== src/Disk/Tests.antt =====
-- The theorems on the disk at concrete states: a disk of four blocks, with the cache off and on.
use ecse.Common.{ℕ, ◌+◌, ◌<◌, ◌≤◌, ◌≡◌, ◌≢◌, refl, none, some, done, undefined, arith}
use ecse.Common.Int.{pos}
use ecse.Disk.Queue.{Bytes, Cache}
use ecse.Disk.{
  DiskFile, Mydisk, zero_bytes, mydisk_read_block, mydisk_write_block, mydisk_read, mydisk_write,
}
use ecse.Disk.Blocks.{IsOpen, Written, mydisk_read_block-mydisk_write_block}
use ecse.Disk.Transfer.{
  flat, IsInside, mydisk_read-flat, mydisk_read-mydisk_write, mydisk_read_crossing,
  mydisk_write_aligned,
}

abbrev no_cache : Cache
no_cache = record { in_pos = 0; out_pos = 0; cache_blocks = 0; queue = λ k. none; stack = 0 }

-- The globals before `mydisk_init`.
abbrev unopened : Mydisk
unopened = record {
  thefile = none;
  max_blocks = 0;
  disk_type = 0;
  cache_enabled = 0;
  cache = no_cache;
  unreturned = 0;
}

-- Byte `j` of block `k` is `k + j`.
abbrev filled : DiskFile
filled = record { length = 4; block = λ k j. k + j }

abbrev four_blocks : Mydisk
four_blocks = record unopened { thefile = some filled; max_blocks = 4 }

four_blocks-IsOpen : IsOpen four_blocks filled
four_blocks-IsOpen = record { opened = refl; uncached = refl; full = omega arith }

abbrev ones_bytes : Bytes
ones_bytes k = 1

mydisk_read_block-mydisk_write_block_example :
    (t : Mydisk) × (mydisk_write_block four_blocks 2 ones_bytes ≡ done (0, t))
    × (mydisk_read_block t 2 zero_bytes ≡ done (0, ones_bytes, t))
    × ((k : ℕ) → k < 4 → k ≢ 2 → mydisk_read_block t k zero_bytes ≡ done (0, filled.block k, t))
mydisk_read_block-mydisk_write_block_example =
    mydisk_read_block-mydisk_write_block four_blocks filled 2 ones_bytes zero_bytes
      four_blocks-IsOpen (omega arith)

-- The same disk with a cache of two entries.
abbrev cached : Mydisk
cached = record four_blocks {
  cache_enabled = 1;
  cache = record no_cache { cache_blocks = 2; in_pos = 1 };
}

-- Bytes from address 1000 on, which is 488 in its block.
four_blocks-IsInside : (n : ℕ) → 0 < n → n ≤ 24 → IsInside four_blocks 1000 n
four_blocks-IsInside n some_bytes le = record {
  some_bytes = some_bytes;
  one_block = omega arith;
  start = omega arith;
  ending = omega arith;
  accepted = λ e. omega arith;
}

mydisk_read-flat_example :
    (out : Bytes) × (mydisk_read four_blocks (pos 1000) (pos 10) zero_bytes
      ≡ done (0, out, four_blocks))
    × ((k : ℕ) → k < 10 → out k ≡ flat filled (1000 + k))
    × ((k : ℕ) → 10 ≤ k → out k ≡ 0)
mydisk_read-flat_example =
    mydisk_read-flat four_blocks filled 1000 10 zero_bytes four_blocks-IsOpen
      (four_blocks-IsInside 10 (omega arith) (omega arith)) (omega arith)

mydisk_read-mydisk_write_example :
    (t : Mydisk) × (out : Bytes) × (mydisk_write four_blocks (pos 1000) (pos 24) ones_bytes
      ≡ done (0, t))
    × (mydisk_read t (pos 1000) (pos 24) zero_bytes ≡ done (0, out, t))
    × ((k : ℕ) → k < 24 → out k ≡ 1)
mydisk_read-mydisk_write_example =
    mydisk_read-mydisk_write four_blocks filled 1000 24 ones_bytes zero_bytes four_blocks-IsOpen
      (four_blocks-IsInside 24 (omega arith) (omega arith)) (omega arith) refl

mydisk_read_crossing_example : mydisk_read four_blocks (pos 500) (pos 100) zero_bytes ≡ undefined
mydisk_read_crossing_example =
    mydisk_read_crossing four_blocks filled 500 100 zero_bytes four_blocks-IsOpen (omega arith)
      (omega arith) (λ e. omega arith) (omega arith) (omega arith)

mydisk_write_aligned_example :
    (t : Mydisk) × (later : DiskFile) × (mydisk_write four_blocks (pos 1024) (pos 512) ones_bytes
      ≡ done (0, t))
    × Written four_blocks filled 2 (λ k. 1) t later
mydisk_write_aligned_example =
    mydisk_write_aligned four_blocks filled 1024 512 ones_bytes four_blocks-IsOpen
      (record {
        some_bytes = omega arith;
        one_block = omega arith;
        start = omega arith;
        ending = omega arith;
        accepted = λ e. omega arith;
      })
      refl
