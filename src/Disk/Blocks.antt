-- ===== src/Disk/Blocks.antt =====
-- Blocks of the disk: what is written is read back, with the cache off; with the cache on nothing is.
use ecse.Common.{
  ℕ, ◌+◌, ◌%◌, ◌<◌, ◌≤◌, ◌≡◌, ◌≢◌, refl, ap, ◌∙◌, true, some, done, arith, ◌==◌, if◌then◌else◌,
  eqb_of_eq, eqb_of_ne, ltb_of_lt, ltb_of_le, leb_of_lt,
}
use native.Mathlib.Nat.{mod-lt}
use ecse.Disk.Queue.{Bytes, Cache, new_entry, create_cached_block}
use ecse.Disk.{
  DiskFile, Mydisk, zero_bytes, mydisk_init, fwrite_block, mydisk_read_block, mydisk_write_block,
}

-- A disk that is open with the cache off, whose file holds every block below `max_blocks`.
pub record IsOpen (s : Mydisk) (file : DiskFile) : Type 0 where
  pub opened : s.thefile ≡ some file
  pub uncached : s.cache_enabled ≡ 0
  pub full : s.max_blocks ≤ file.length

-- On an open disk a block that exists is read into the buffer, and nothing changes.
pub read_block_inside :
    (s : Mydisk) (file : DiskFile) (block_id : ℕ) (buffer : Bytes)
    → IsOpen s file
    → block_id < s.max_blocks
    → mydisk_read_block s block_id buffer ≡ done (0, file.block block_id, s)
unfolding mydisk_read_block
read_block_inside s file block_id buffer h lt = simp (
  ltb_of_le s.max_blocks block_id (omega arith),
  h.opened,
  h.uncached,
  ltb_of_lt block_id file.length (omega (arith, h.full)),
)

-- What `mydisk_write_block` of a block that exists leaves behind.
pub record Written (s : Mydisk) (file : DiskFile) (block_id : ℕ) (buffer : Bytes) (t : Mydisk)
    (later : DiskFile) : Type 0 where
  pub reopened : IsOpen t later
  pub max_blocks : t.max_blocks ≡ s.max_blocks
  pub unreturned : t.unreturned ≡ s.unreturned
  pub here : later.block block_id ≡ buffer
  pub others : (k : ℕ) → k < s.max_blocks → k ≢ block_id → later.block k ≡ file.block k

pub mydisk_write_block-Written :
    (s : Mydisk) (file : DiskFile) (block_id : ℕ) (buffer : Bytes)
    → IsOpen s file
    → block_id < s.max_blocks
    → (t : Mydisk) × (later : DiskFile) × (mydisk_write_block s block_id buffer ≡ done (0, t))
      × Written s file block_id buffer t later
unfolding mydisk_write_block
mydisk_write_block-Written s file block_id buffer h lt = (
  record s { thefile = some (fwrite_block file block_id buffer) },
  fwrite_block file block_id buffer,
  rw (ltb_of_le s.max_blocks block_id (omega arith), h.opened) refl,
  record {
    reopened = record { opened = refl; uncached = h.uncached; full = omega (arith, h.full) };
    max_blocks = refl;
    unreturned = refl;
    here = rw (eqb_of_eq block_id block_id refl) refl;
    others = λ k small ne.
        rw (eqb_of_ne k block_id ne, leb_of_lt file.length k (omega (arith, h.full))) refl;
  },
)

-- After a block that exists is written on an open disk, reading it gives what was written, and
-- reading any other block gives what it gave before.
pub mydisk_read_block-mydisk_write_block :
    (s : Mydisk) (file : DiskFile) (block_id : ℕ) (sent buffer : Bytes)
    → IsOpen s file
    → block_id < s.max_blocks
    → (t : Mydisk) × (mydisk_write_block s block_id sent ≡ done (0, t))
      × (mydisk_read_block t block_id buffer ≡ done (0, sent, t))
      × ((k : ℕ)
          → k < s.max_blocks
          → k ≢ block_id
          → mydisk_read_block t k buffer ≡ done (0, file.block k, t))
mydisk_read_block-mydisk_write_block s file block_id sent buffer h lt =
    let (t, later, e, w) = mydisk_write_block-Written s file block_id sent h lt in
    let inside : (k : ℕ) → k < s.max_blocks → k < t.max_blocks =
      λ k q. omega (arith, w.max_blocks) in
    (
      t,
      e,
      read_block_inside t later block_id buffer w.reopened (inside block_id lt)
          ∙ ap (λ (b : Bytes). done (0, b, t)) w.here,
      λ k q ne.
          read_block_inside t later k buffer w.reopened (inside k q)
          ∙ ap (λ (b : Bytes). done (0, b, t)) (w.others k q ne),
    )

-- After `mydisk_init` with a file that could be opened and the cache off, the disk is open, and every
-- block below the number of blocks is read as zeros.
pub mydisk_init-zeros :
    (s : Mydisk) (nblocks type block_id : ℕ) (buffer : Bytes)
    → s.cache_enabled ≡ 0
    → block_id < nblocks
    → mydisk_read_block (mydisk_init s true nblocks type).1 block_id buffer
      ≡ done (0, zero_bytes, (mydisk_init s true nblocks type).1)
unfolding mydisk_init
mydisk_init-zeros s nblocks type block_id buffer off lt =
    let file : DiskFile = record { length = nblocks; block = λ k. zero_bytes } in
    read_block_inside _ file block_id buffer
      (record { opened = refl; uncached = off; full = omega arith }) lt

-- With the cache on, a block number within `max_blocks`, the file open and at least one entry, a read
-- reports success and leaves the buffer as it was; the entry at `in` is overwritten by one for the
-- block that is not dirty, and `in` stays inside the queue.
pub read_block_cached :
    (s : Mydisk) (file : DiskFile) (block_id : ℕ) (buffer : Bytes)
    → s.thefile ≡ some file
    → s.cache_enabled ≢ 0
    → 0 < s.cache.cache_blocks
    → block_id ≤ s.max_blocks
    → (c : Cache) × (mydisk_read_block s block_id buffer ≡ done (0, buffer, record s { cache = c }))
      × (c.queue s.cache.in_pos ≡ some (new_entry block_id s.cache.stack))
      × (c.in_pos < s.cache.cache_blocks)
unfolding mydisk_read_block create_cached_block
read_block_cached s file block_id buffer e on room le = (
  record s.cache {
    queue = λ k.
        if k == s.cache.in_pos then some (new_entry block_id s.cache.stack) else s.cache.queue k;
    in_pos = (s.cache.in_pos + 1) % s.cache.cache_blocks;
  },
  simp (
    ltb_of_le s.max_blocks block_id le,
    e,
    eqb_of_ne s.cache_enabled 0 on,
    eqb_of_ne s.cache.cache_blocks 0 (λ z. omega arith),
  ),
  rw (eqb_of_eq s.cache.in_pos s.cache.in_pos refl) refl,
  mod-lt (s.cache.in_pos + 1) room,
)
