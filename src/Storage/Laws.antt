-- ===== src/Storage/Laws.antt =====
-- Reading blocks back.
use ecse.Common.{ℕ, ◌<◌, ◌≤◌, ◌≡◌, ◌≢◌, arith, ltb_of_lt}
use ecse.Storage.{Block, Blkid, Storage, slot_small, sfs_read_block, sfs_write_block}

-- A block number whose byte offset does not wrap on `u32`.
abbrev pub addressable : ℕ
addressable = 8388608

-- A block inside the file is read as it is stored.
pub read_inside :
    (d : Storage) (buf : Block) (bid : Blkid)
    → bid < addressable
    → bid < d.length
    → sfs_read_block d buf bid ≡ d.block bid
unfolding sfs_read_block
read_inside d buf bid a h = rw (slot_small bid a, ltb_of_lt bid d.length h)

-- A write changes the block that it names; of the blocks inside the file it changes no other.
pub write_self :
    (d : Storage) (buf : Block) (bid : Blkid)
    → bid < addressable
    → (sfs_write_block d buf bid).block bid ≡ buf
unfolding sfs_write_block
write_self d buf bid a = rw (slot_small bid a) (ground arith)

pub write_other :
    (d : Storage) (buf : Block) (bid k : Blkid)
    → bid < addressable
    → k < d.length
    → k ≢ bid
    → (sfs_write_block d buf bid).block k ≡ d.block k
unfolding sfs_write_block
write_other d buf bid k a h ne = rw (slot_small bid a) (ground arith)

pub length-write :
    (d : Storage) (buf : Block) (bid : Blkid)
    → bid < addressable
    → (d.length ≤ (sfs_write_block d buf bid).length) × (bid < (sfs_write_block d buf bid).length)
unfolding sfs_write_block
length-write d buf bid a = rw (slot_small bid a) (omega arith)

-- A write inside the file leaves its length.
pub length-write_inside :
    (d : Storage) (buf : Block) (bid : Blkid)
    → bid < addressable
    → bid < d.length
    → (sfs_write_block d buf bid).length ≡ d.length
unfolding sfs_write_block
length-write_inside d buf bid a h = rw (slot_small bid a) (omega arith)
