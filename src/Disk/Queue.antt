-- ===== src/Disk/Queue.antt =====
-- The queue of cache entries of PA1/assignment01/caching.c.
use ecse.Common.{ℕ, ◌+◌, ◌%◌, Option, none, some, Outcome, done, undefined, ◌==◌, if◌then◌else◌}

-- The bytes of a buffer.
abbrev pub Bytes : Type 0
Bytes = ℕ → ℕ

-- `struct cache_entry`
pub record CacheEntry : Type 0 where
  pub block_id : ℕ
  pub is_dirty : ℕ
  pub content : Bytes

-- `in`, `out`, `cache_blocks` and the queue, where `none` is an entry that was never made, of zeros.
-- `stack` is the first byte of a local block that is never set.
pub record Cache : Type 0 where
  pub in_pos : ℕ
  pub out_pos : ℕ
  pub cache_blocks : ℕ
  pub queue : ℕ → Option CacheEntry
  pub stack : ℕ

-- `{block_id, 0, *emptyBlock}`: the first byte of the content is set, the others are zero.
abbrev pub new_entry : ℕ → ℕ → CacheEntry
new_entry block_id byte = record {
  block_id = block_id;
  is_dirty = 0;
  content = λ k. if k == 0 then byte else 0;
}

-- The entry at `in` is overwritten, whatever it holds. A queue of no entries has no room, and
-- `in % cache_blocks` has no value.
unfoldable pub create_cached_block : Cache → ℕ → Outcome Cache
create_cached_block c block_id =
    let entry = some (new_entry block_id c.stack) in
    if c.cache_blocks == 0
    then undefined
    else done (record c {
      queue = λ k. if k == c.in_pos then entry else c.queue k;
      in_pos = (c.in_pos + 1) % c.cache_blocks;
    })

-- `get_cached_block` moves `out` on and finds nothing.
unfoldable pub get_cached_block : Cache → ℕ → Outcome (Option CacheEntry × Cache)
get_cached_block c block_id =
    if c.cache_blocks == 0
    then undefined
    else done (none, record c { out_pos = (c.out_pos + 1) % c.cache_blocks })
