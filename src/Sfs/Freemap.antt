-- ===== src/Sfs/Freemap.antt =====
-- `sfs_flush_freemap`, `sfs_alloc_block` and `sfs_free_block` of PA3/a2/fs.c.
pub mod Map
pub mod Scan
pub mod Alloc
pub mod Space
pub mod Taking
pub mod Earlier
mod Tests
use Prim.Native.Nat.{bit_and, bit_or, bit_xor}
use ecse.Common.{
  ℕ, zero, suc, ◌+◌, ◌-◌, ◌*◌, ◌/◌, ◌%◌, ◌^◌, Option, none, some, Outcome, done, undefined, ◌>>=◌,
  leb, ◌==◌, if◌then◌else◌,
}
use ecse.Storage.{Block, Blkid, set_word, zero_block, block_size, sfs_read_block, sfs_write_block}
use ecse.Sfs.Layout.{nfreemap_blocks}
use ecse.Sfs.State.{Fs, write_to}

abbrev pub nbits : ℕ
nbits = 32

-- `~0u`
abbrev pub ones : ℕ
ones = 0xffff_ffff

-- How many words the static array behind `freemap` has.
abbrev pub freemap_words : ℕ
freemap_words = 128

-- The `do … while (bid < 1)` runs once: it writes the first block of the freemap to block 1.
unfoldable pub sfs_flush_freemap : Fs → Fs
sfs_flush_freemap s = write_to s s.freemap 1

-- `while (count < SFS_NBITS_IN_FREEMAP_ENTRY)`: the position and the mask of the lowest clear bit.
-- The first argument counts the rounds left.
unfoldable pub find_bit : ℕ → ℕ → ℕ → ℕ → Option (ℕ × ℕ)
find_bit zero bitmap mask count = none
find_bit (suc n) bitmap mask count =
    let rest = find_bit n bitmap (mask * 2 % 2 ^ 32) (count + 1) in
    if bit_and bitmap mask == mask then rest else some (count, mask)

-- What the search of one freemap block finds: index of the word, position of the bit, mask.
abbrev pub Spot : Type 0
Spot = ℕ × ℕ × ℕ

-- `for (fm_byte = 0; fm_byte < BLOCK_SIZE; fm_byte++)`: the bound counts bytes, the index counts
-- words, so from index 128 on the access is out of bounds.
unfoldable pub find_word : ℕ → Block → ℕ → Outcome (Option Spot)
find_word zero m i = done none
find_word (suc n) m i =
    let rest = find_word n m (i + 1) in
    if leb freemap_words i
    then undefined
    else if bit_xor (m i) ones == 0
    then rest
    else elim (find_bit nbits (m i) 1 0) [ none ↦ rest | some (c, k) ↦ done (some (i, c, k)) ]

-- The branch that takes the block: set the bit, flush the freemap, clear the block.
unfoldable pub claim : Fs → Spot → Blkid × Fs
claim s (i, c, k) =
    let s1 =
      sfs_flush_freemap (record s { freemap = set_word s.freemap i (bit_or (s.freemap i) k) }) in
    let bid = i * nbits + c in (bid, write_to s1 zero_block bid)

-- Behind the search of one freemap block: take what was found, or go on to the next block.
abbrev pub take_or : Fs → Outcome (Blkid × Fs) → Option Spot → Outcome (Blkid × Fs)
take_or s rest none = rest
take_or s rest (some spot) = done (claim s spot)

-- `for (fm_blk = 0; …)`, with the rounds left first.
unfoldable pub alloc_from : ℕ → ℕ → Fs → Outcome (Blkid × Fs)
alloc_from zero fm_blk s = done (0, s)
alloc_from (suc n) fm_blk s =
    let s1 = record s { freemap = sfs_read_block s.disk s.freemap (fm_blk + 1) } in
    let rest = alloc_from n (fm_blk + 1) s1 in find_word block_size s1.freemap 0 >>= take_or s1 rest

unfoldable pub sfs_alloc_block : Fs → Outcome (Blkid × Fs)
sfs_alloc_block s = alloc_from (nfreemap_blocks s.sb) 0 s

-- `freemap[bid / 32]` is out of bounds from block 4096 on.
unfoldable pub sfs_free_block : Fs → Blkid → Outcome Fs
sfs_free_block s bid =
    let m = sfs_read_block s.disk s.freemap (bid / (block_size * 8) + 1) in
    let word = bit_and (m (bid / 32)) (ones - 2 ^ (bid % 32)) in
    if leb freemap_words (bid / 32)
    then undefined
    else done (sfs_flush_freemap (record s { freemap = set_word m (bid / 32) word }))
