-- ===== src/Disk.antt =====
-- The disk of PA1/assignment01/mydisk.c: a file of 512-byte blocks, read and written in blocks or in
-- bytes. A buffer of the caller is a function from the offset of a byte to its value; what a call
-- reads behind the caller's bytes is what the function holds there. Block numbers and the number of
-- blocks are not negative, and the number of bytes of the disk fits an `int`.
pub mod Queue
pub mod Blocks
pub mod Transfer
mod Tests
use ecse.Common.{
  ℕ, zero, suc, ◌+◌, ◌-◌, ◌*◌, ◌/◌, ◌%◌, max, Bool, true, false, ◌&&◌, Option, none, some, Outcome,
  done, undefined, ◌>>=◌, leb, ltb, ◌==◌, if◌then◌else◌,
}
use ecse.Common.Int.{ℤ, pos, negsuc}
use ecse.Disk.Queue.{Bytes, Cache, create_cached_block}

-- The file: its length in blocks, and the blocks. It is written in whole blocks alone.
pub record DiskFile : Type 0 where
  pub length : ℕ
  pub block : ℕ → Bytes

-- The global variables. `unreturned` is what a caller finds as the result of a function that ends
-- without a `return`.
pub record Mydisk : Type 0 where
  pub thefile : Option DiskFile
  pub max_blocks : ℕ
  pub disk_type : ℕ
  pub cache_enabled : ℕ
  pub cache : Cache
  pub unreturned : ℕ

abbrev pub zero_bytes : Bytes
zero_bytes _ = 0

-- `mydisk_init`, where `opened` says whether `fopen` gave a file. A new file is empty, and all its
-- blocks are written at once.
unfoldable pub mydisk_init : Mydisk → Bool → ℕ → ℕ → ℕ × Mydisk
mydisk_init s false nblocks type = (1, record s { thefile = none })
mydisk_init s true nblocks type = (
  0,
  record s {
    thefile = some (record { length = nblocks; block = λ k. zero_bytes });
    max_blocks = nblocks;
    disk_type = type;
  },
)

-- `fread` of the block at the position: behind the end of the file nothing is delivered.
abbrev pub fread_block : DiskFile → ℕ → Bytes → Bytes
fread_block file block_id buffer = if ltb block_id file.length then file.block block_id else buffer

-- `fwrite` of a block at the position: behind the end the file grows, and the gap reads as zeros.
abbrev pub fwrite_block : DiskFile → ℕ → Bytes → DiskFile
fwrite_block file block_id buffer = record {
  length = max file.length (suc block_id);
  block = λ k.
      if k == block_id
      then buffer
      else if leb file.length k && ltb k block_id
      then zero_bytes
      else file.block k;
}

-- With the cache, an entry for the block is made and the buffer is not filled.
unfoldable pub mydisk_read_block : Mydisk → ℕ → Bytes → Outcome (ℕ × Bytes × Mydisk)
mydisk_read_block s block_id buffer =
    let cached =
      create_cached_block s.cache block_id >>= λ c. done (0, buffer, record s { cache = c }) in
    if ltb s.max_blocks block_id then done (1, buffer, s) else elim s.thefile [
      | none ↦ undefined
      | some file ↦
          if s.cache_enabled == 0 then done (0, fread_block file block_id buffer, s) else cached
    ]

unfoldable pub mydisk_write_block : Mydisk → ℕ → Bytes → Outcome (ℕ × Mydisk)
mydisk_write_block s block_id buffer =
    if ltb s.max_blocks block_id then done (1, s) else elim s.thefile [
      | none ↦ undefined
      | some file ↦ done (0, record s { thefile = some (fwrite_block file block_id buffer) })
    ]

-- `checkParams`, of a buffer that is not null: where all is in order it ends without a `return`.
unfoldable pub check_params : Mydisk → ℤ → ℤ → ℕ
check_params s (negsuc a) nbytes = 1
check_params s (pos a) (negsuc n) = 1
check_params s (pos a) (pos n) =
    if ltb (s.max_blocks * 511) a
    then 1
    else if ltb (s.max_blocks * 512) n
    then 1
    else if n == 0
    then 0
    else if ltb (s.max_blocks * 512) (n + a)
    then 1
    else s.unreturned

-- `memcpy(to + at, from + offset, n)`
abbrev pub memcpy : Bytes → ℕ → Bytes → ℕ → ℕ → Bytes
memcpy to at from offset n k = if leb at k && ltb k (at + n) then from (offset + (k - at)) else to k

-- How many rounds the loops of `mydisk_read` and `mydisk_write` make.
unfoldable pub rounds_of : ℕ → ℕ → ℕ
rounds_of offset n =
    if ltb 512 (n + offset) then (if (offset + n) % 512 == 0 then n / 512 else n / 512 + 1) else 1

-- `remainderBytes` of `mydisk_read`.
unfoldable pub remainder_of : ℕ → ℕ → ℕ
remainder_of offset n =
    if ltb 512 (n + offset) && ltb 0 ((offset + n) % 512) then (offset + n) % 512 else n % 512

-- `bytesToRead` of `mydisk_read`.
unfoldable pub first_of : ℕ → ℕ → ℕ
first_of offset n = if ltb 512 (n + offset) then 512 - offset else n

-- What one round of `mydisk_read` copies from the block; the block's buffer has 512 bytes.
unfoldable pub copy_out : ℕ → ℕ → ℕ → ℕ → ℕ → Bytes → Bytes → Outcome Bytes
copy_out amount remaining offset first remainder block buffer =
    if amount == 0 && remaining == 1
    then (if ltb 512 (offset + remainder)
        then undefined
        else done (memcpy buffer 0 block offset remainder))
    else if amount == 0 && ltb 0 offset
    then done (memcpy buffer 0 block offset first)
    else if remaining == 1 && ltb 0 remainder
    then done (memcpy buffer first block 0 remainder)
    else done (memcpy buffer 0 block 0 512)

-- `while(remaining > 0)` of `mydisk_read`.
unfoldable pub read_from : ℕ → Mydisk → ℕ → ℕ → ℕ → ℕ → ℕ → Bytes → Outcome (ℕ × Bytes × Mydisk)
read_from zero s amount offset first remainder block_id buffer = done (0, buffer, s)
read_from (suc n) s amount offset first remainder block_id buffer =
    mydisk_read_block s block_id zero_bytes >>= λ (code, block, s1).
    copy_out amount (suc n) offset first remainder block buffer >>= λ copied.
    read_from n s1 (amount + 1) offset first remainder (block_id + 1) copied

unfoldable pub read_bytes : Mydisk → ℕ → ℕ → Bytes → Outcome (ℕ × Bytes × Mydisk)
read_bytes s a n buffer =
    let offset = a % 512 in
    read_from (rounds_of offset n) s 0 offset (first_of offset n) (remainder_of offset n) (a / 512)
      buffer

unfoldable pub mydisk_read : Mydisk → ℤ → ℤ → Bytes → Outcome (ℕ × Bytes × Mydisk)
mydisk_read s (pos a) (pos n) buffer =
    if check_params s (pos a) (pos n) == 1 then done (1, buffer, s) else read_bytes s a n buffer
mydisk_read s (pos a) (negsuc n) buffer = done (1, buffer, s)
mydisk_read s (negsuc a) nbytes buffer = done (1, buffer, s)

-- A block is read, changed in part and written back.
unfoldable pub patch_block : Mydisk → ℕ → ℕ → Bytes → ℕ → ℕ → Outcome Mydisk
patch_block s block_id at buffer from n =
    mydisk_read_block s block_id zero_bytes >>= λ (code, block, s1).
    mydisk_write_block s1 block_id (memcpy block at buffer from n) >>= λ (code2, s2). done s2

-- `while(remaining > 0)` of `mydisk_write`; `partial_end` says that the last block is filled in part,
-- with `remainder` bytes.
unfoldable pub write_from : ℕ → Mydisk → ℕ → ℕ → Bool → ℕ → ℕ → Bytes → Outcome (ℕ × Mydisk)
write_from zero s amount offset partial_end remainder block_id buffer = done (0, s)
write_from (suc n) s amount offset partial_end remainder block_id buffer =
    let whole =
      mydisk_write_block s block_id (λ k. buffer (512 - offset + k)) >>= λ (code, s1). done s1 in
    (if amount == 0 && ltb 0 offset
      then patch_block s block_id offset buffer 0 (512 - offset)
      else if n == 0 && partial_end
      then patch_block s block_id 0 buffer (512 - offset) remainder
      else whole)
    >>= λ s1. write_from n s1 (amount + 1) offset partial_end remainder (block_id + 1) buffer

unfoldable pub write_bytes : Mydisk → ℕ → ℕ → Bytes → Outcome (ℕ × Mydisk)
write_bytes s a n buffer =
    let offset = a % 512 in
    let partial_end = ltb 512 (n + offset) && ltb 0 ((offset + n) % 512) in
    write_from (rounds_of offset n) s 0 offset partial_end ((offset + n) % 512) (a / 512) buffer

unfoldable pub mydisk_write : Mydisk → ℤ → ℤ → Bytes → Outcome (ℕ × Mydisk)
mydisk_write s (pos a) (pos n) buffer =
    if check_params s (pos a) (pos n) == 1 then done (1, s) else write_bytes s a n buffer
mydisk_write s (pos a) (negsuc n) buffer = done (1, s)
mydisk_write s (negsuc a) nbytes buffer = done (1, s)

-- `init_cache` and `close_cache` of caching.c switch the cache of the disk on and off.
unfoldable pub init_cache : Mydisk → ℕ → ℕ × Mydisk
init_cache s nblocks = (
  0,
  record s {
    cache = record s.cache { in_pos = 0; out_pos = 0; cache_blocks = nblocks; queue = λ k. none };
    cache_enabled = 1;
  },
)

unfoldable pub close_cache : Mydisk → ℕ × Mydisk
close_cache s = (0, record s { cache_enabled = 0 })
