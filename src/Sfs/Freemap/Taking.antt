-- ===== src/Sfs/Freemap/Taking.antt =====
-- A block is allocated and then another one is written, as `sfs_open` does three times.
use ecse.Common.{
  ◌+◌, ◌<◌, ◌≤◌, ◌≡◌, ◌≢◌, refl, ◌∙◌, Outcome, done, undefined, diverged, exited, arith, ◌==◌,
  if◌then◌else◌,
}
use ecse.Storage.{Block, Blkid, zero_block}
use ecse.Storage.Laws.{write_self, write_other, length-write_inside}
use ecse.Sfs.State.{Fs, write_to}
use ecse.Sfs.Freemap.{sfs_alloc_block}
use ecse.Sfs.Freemap.Map.{used}
use ecse.Sfs.Freemap.Space.{used_count, used_count-marked, spare_block}
use ecse.Sfs.Freemap.Alloc.{
  disk_map, IsMounted, Allocated, AllocResult, sfs_alloc_block_lem, beyond_super,
}

-- Block `n` was the lowest free one, and the file system is the one after its allocation.
pub record Taken (s : Fs) (n : Blkid) (t : Fs) : Type 0 where
  pub small : n < 4096
  pub low : 1 < n
  pub free : used (disk_map s) n ≡ 0
  pub lowest : (j : Blkid) → j < n → used (disk_map s) j ≡ 1
  pub after : Allocated s n t
  pub counted : used_count (disk_map t) 4096 ≡ used_count (disk_map s) 4096 + 1

Taken-result :
    (s : Fs) (r : Outcome (Blkid × Fs))
    → IsMounted s
    → used_count (disk_map s) 4096 < 4096
    → AllocResult s r
    → (n : Blkid) × (t : Fs) × (r ≡ done (n, t)) × Taken s n t
Taken-result s (done (n, t)) v room (small, free, lowest, a) = (
  n,
  t,
  refl,
  record {
    small = small;
    low = beyond_super v n small free;
    free = free;
    lowest = lowest;
    after = a;
    counted = used_count-marked (disk_map s) (disk_map t) n a.marked free 4096 small;
  },
)
Taken-result s undefined v room full =
    let (k, small, free) = spare_block (disk_map s) 4096 room in
    absurd (omega (arith, full k small, free))
Taken-result s diverged v room f = absurd f
Taken-result s exited v room f = absurd f

-- Where a block is free, the allocation succeeds.
pub sfs_alloc_block-Taken :
    (s : Fs)
    → IsMounted s
    → used_count (disk_map s) 4096 < 4096
    → (n : Blkid) × (t : Fs) × (sfs_alloc_block s ≡ done (n, t)) × Taken s n t
sfs_alloc_block-Taken s v room = Taken-result s (sfs_alloc_block s) v room (sfs_alloc_block_lem s v)

-- A write to a data block of the file.
pub write_to-IsMounted :
    (s : Fs) (b : Block) (y : Blkid)
    → 1 < y
    → y < 4096
    → y < s.disk.length
    → IsMounted s
    → IsMounted (write_to s b y)
write_to-IsMounted s b y low small inside v =
    let map = write_other s.disk b y 1 (omega arith) v.long (λ e. absurd (omega arith)) in
    let long = length-write_inside s.disk b y (omega arith) inside in
    record {
      one_map = v.one_map;
      long = omega (arith, long, v.long);
      words = rw map v.words;
      super_used = rw map v.super_used;
      map_used = rw map v.map_used;
    }

-- What the allocation of block `n` and a write of `b` to block `y` leave.
pub record Stepped (s : Fs) (n y : Blkid) (b : Block) (t : Fs) : Type 0 where
  pub self : t.disk.block y ≡ b
  pub cleared : t.disk.block n ≡ zero_block
  pub others :
      (k : Blkid) → k < s.disk.length → k ≢ 1 → k ≢ n → k ≢ y → t.disk.block k ≡ s.disk.block k
  pub marked : (j : Blkid) → used (disk_map t) j ≡ (if j == n then 1 else used (disk_map s) j)
  pub counted : used_count (disk_map t) 4096 ≡ used_count (disk_map s) 4096 + 1
  pub long : s.disk.length ≤ t.disk.length
  pub inside : n < t.disk.length
  pub sb : t.sb ≡ s.sb
  pub fdtable : t.fdtable ≡ s.fdtable
  pub stack : t.stack ≡ s.stack
  pub mounted : IsMounted t

pub Taken-Stepped :
    (s : Fs) (n y : Blkid) (t : Fs) (b : Block)
    → Taken s n t
    → 1 < y
    → y < 4096
    → y < s.disk.length
    → n ≢ y
    → Stepped s n y b (write_to t b y)
Taken-Stepped s n y t b h low small inside differ =
    let a = h.after in
    let there : y < t.disk.length = omega (arith, a.long) in
    let long = length-write_inside t.disk b y (omega arith) there in
    let map = write_other t.disk b y 1 (omega arith) a.mounted.long (λ e. absurd (omega arith)) in
    record {
      self = write_self t.disk b y (omega arith);
      cleared = write_other t.disk b y n (omega arith) a.inside differ ∙ a.cleared;
      others = λ k lt no nn ny.
          write_other t.disk b y k (omega arith) (omega (arith, a.long)) ny ∙ a.others k lt nn no;
      marked = λ j. rw map (a.marked j);
      counted = rw map h.counted;
      long = omega (arith, long, a.long);
      inside = omega (arith, long, a.inside);
      sb = a.sb;
      fdtable = a.fdtable;
      stack = a.stack;
      mounted = write_to-IsMounted t b y low small there a.mounted;
    }
