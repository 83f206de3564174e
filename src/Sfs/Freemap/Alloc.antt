-- ===== src/Sfs/Freemap/Alloc.antt =====
-- `sfs_alloc_block` takes the lowest free block, and `sfs_free_block` gives a block back.
use ecse.Common.{
  ℕ, ◌+◌, ◌*◌, ◌/◌, ◌%◌, ◌^◌, ◌<◌, ◌≤◌, ◌≡◌, ◌≢◌, refl, sym, ap, ◌∙◌, none, some, Outcome, done,
  undefined, diverged, exited, Option, ◌>>=◌, arith, ◌==◌, if◌then◌else◌, leb_of_lt,
}
use mathlib.Core.Path.{subst}
use ecse.Storage.{Block, Blkid, zero_block, sfs_write_block}
use ecse.Storage.Laws.{read_inside, write_self, write_other, length-write, length-write_inside}
use ecse.Sfs.Layout.{nfreemap_blocks}
use ecse.Sfs.State.{Fs, write_to}
use ecse.Sfs.Freemap.{
  Spot, find_word, take_or, claim, alloc_from, sfs_alloc_block, sfs_free_block, sfs_flush_freemap,
}
use ecse.Sfs.Freemap.Map.{
  used, IsMap, mark, unmark, mark-IsMap, unmark-IsMap, used-mark, used-unmark,
}
use ecse.Sfs.Freemap.Scan.{Scanned, find_word-Scanned}

-- The freemap on disk.
abbrev pub disk_map : Fs → Block
disk_map s = s.disk.block 1

-- The super block in memory describes a file system with one freemap block, on which the super
-- block and the freemap itself are marked as taken.
pub record IsMounted (s : Fs) : Type 0 where
  pub one_map : nfreemap_blocks s.sb ≡ 1
  pub long : 1 < s.disk.length
  pub words : IsMap (disk_map s)
  pub super_used : used (disk_map s) 0 ≡ 1
  pub map_used : used (disk_map s) 1 ≡ 1

-- What the allocation of block `n` changes, and all that it leaves alone.
pub record Allocated (s : Fs) (n : Blkid) (t : Fs) : Type 0 where
  pub marked : (j : Blkid) → used (disk_map t) j ≡ (if j == n then 1 else used (disk_map s) j)
  pub cleared : t.disk.block n ≡ zero_block
  pub others : (k : Blkid) → k < s.disk.length → k ≢ n → k ≢ 1 → t.disk.block k ≡ s.disk.block k
  pub long : s.disk.length ≤ t.disk.length
  pub inside : n < t.disk.length
  pub flushed : t.freemap ≡ disk_map t
  pub sb : t.sb ≡ s.sb
  pub fdtable : t.fdtable ≡ s.fdtable
  pub stack : t.stack ≡ s.stack
  pub mounted : IsMounted t

-- The state after the allocation of block `n`.
abbrev claimed : Fs → Blkid → Fs
claimed s n = write_to (sfs_flush_freemap (record s { freemap = mark (disk_map s) n })) zero_block n

pub differ_of_used : (m : Block) (n k : Blkid) → used m n ≡ 0 → used m k ≡ 1 → n ≢ k
differ_of_used m n k free taken e = omega (arith, ap (used m) e)

module _ {s : Fs} (v : IsMounted s) (n : Blkid) (small : n < 4096)
    (was : used (disk_map s) n ≡ 0) where
  pub beyond_super : 1 < n
  beyond_super =
      let a = differ_of_used (disk_map s) n 0 was v.super_used in
      let b = differ_of_used (disk_map s) n 1 was v.map_used in omega arith

  claimed_map : disk_map (claimed s n) ≡ mark (disk_map s) n
  unfolding sfs_flush_freemap
  claimed_map =
      let m = mark (disk_map s) n in
      write_other (sfs_write_block s.disk m 1) zero_block n 1 (omega arith)
        (omega (arith, length-write s.disk m 1 (omega arith))) (λ e. omega (arith, beyond_super))
      ∙ write_self s.disk m 1 (omega arith)

  used-claimed :
      (j : Blkid) → used (disk_map (claimed s n)) j ≡ (if j == n then 1 else used (disk_map s) j)
  used-claimed j = rw claimed_map (used-mark (disk_map s) n j)

  claimed-IsMounted : IsMounted (claimed s n)
  unfolding sfs_flush_freemap
  claimed-IsMounted = record {
    one_map = v.one_map;
    long = omega (
      arith,
      v.long,
      length-write s.disk (mark (disk_map s) n) 1 (omega arith),
      length-write (sfs_write_block s.disk (mark (disk_map s) n) 1) zero_block n (omega arith),
    );
    words = rw claimed_map (mark-IsMap (disk_map s) n v.words);
    super_used = ground (arith, used-claimed 0, v.super_used);
    map_used = ground (arith, used-claimed 1, v.map_used);
  }

  claimed-Allocated : Allocated s n (claimed s n)
  unfolding sfs_flush_freemap
  claimed-Allocated =
      let m = mark (disk_map s) n in
      let d = sfs_write_block s.disk m 1 in
      record {
        marked = used-claimed;
        cleared = write_self d zero_block n (omega arith);
        others = λ k h ne nf.
            write_other d zero_block n k (omega arith)
              (omega (arith, length-write s.disk m 1 (omega arith))) ne
            ∙ write_other s.disk m 1 k (omega arith) h nf;
        long = omega (
          arith,
          length-write s.disk m 1 (omega arith),
          length-write d zero_block n (omega arith),
        );
        inside = omega (arith, length-write d zero_block n (omega arith));
        flushed = sym claimed_map;
        sb = refl;
        fdtable = refl;
        stack = refl;
        mounted = claimed-IsMounted;
      }

-- What `sfs_alloc_block` comes to.
abbrev pub AllocResult : Fs → Outcome (Blkid × Fs) → Type 0
AllocResult s (done (n, t)) =
    (n < 4096)
    × (used (disk_map s) n ≡ 0)
    × ((j : Blkid) → j < n → used (disk_map s) j ≡ 1)
    × Allocated s n t
AllocResult s undefined = (j : Blkid) → j < 4096 → used (disk_map s) j ≡ 1
AllocResult s diverged = ⊥
AllocResult s exited = ⊥

claimed-claim :
    (s : Fs) (w c k : ℕ)
    → c < 32
    → k ≡ 2 ^ c
    → claimed s (w * 32 + c) ≡ (claim (record s { freemap = disk_map s }) (w, c, k)).1
unfolding claim mark
claimed-claim s w c k lt e =
    let word : (w * 32 + c) / 32 ≡ w = omega arith in
    let spot : (w * 32 + c) % 32 ≡ c = omega arith in rw (word, spot, e)

alloc-Scanned :
    (s : Fs) (r : Outcome (Option Spot)) (rest : Outcome (Blkid × Fs))
    → IsMounted s
    → Scanned (disk_map s) 0 r
    → AllocResult s (r >>= take_or (record s { freemap = disk_map s }) rest)
unfolding claim
alloc-Scanned s (done none) rest v h = absurd h
alloc-Scanned s (done (some (w, c, k))) rest v h = (
  omega arith,
  h.4,
  λ j lt. h.5 j (omega arith) lt,
  subst (λ (t : Fs). Allocated s (w * 32 + c) t) (claimed-claim s w c k h.2 h.3)
      (claimed-Allocated v (w * 32 + c) (omega arith) h.4),
)
alloc-Scanned s undefined rest v h = λ j lt. h j (omega arith) lt
alloc-Scanned s diverged rest v h = h
alloc-Scanned s exited rest v h = h

-- On a mounted file system with one freemap block `sfs_alloc_block` takes the lowest free block: it
-- marks that block and no other, flushes the freemap, clears the block and changes no other block.
-- Where all 4096 blocks of the map are taken it runs out of the array's bounds.
pub sfs_alloc_block_lem : (s : Fs) → IsMounted s → AllocResult s (sfs_alloc_block s)
unfolding sfs_alloc_block alloc_from
sfs_alloc_block_lem s v =
    rw (v.one_map, read_inside s.disk s.freemap 1 (omega arith) v.long)
      (alloc-Scanned s (find_word 512 (disk_map s) 0) _ v
        (find_word-Scanned 512 (disk_map s) 0 (omega arith) (omega arith) v.words))

-- The state after block `n` is given back.
abbrev released : Fs → Blkid → Fs
released s n = sfs_flush_freemap (record s { freemap = unmark (disk_map s) n })

-- What giving back block `n` changes, and all that it leaves alone.
pub record Freed (s : Fs) (n : Blkid) (t : Fs) : Type 0 where
  pub marked : (j : Blkid) → used (disk_map t) j ≡ (if j == n then 0 else used (disk_map s) j)
  pub others : (k : Blkid) → k < s.disk.length → k ≢ 1 → t.disk.block k ≡ s.disk.block k
  pub length : t.disk.length ≡ s.disk.length
  pub flushed : t.freemap ≡ disk_map t
  pub sb : t.sb ≡ s.sb
  pub fdtable : t.fdtable ≡ s.fdtable
  pub stack : t.stack ≡ s.stack
  pub mounted : IsMounted t

module _ {s : Fs} (v : IsMounted s) (n : Blkid) (low : 1 < n) (small : n < 4096) where
  free-released : sfs_free_block s n ≡ done (released s n)
  unfolding sfs_free_block unmark
  free-released =
      let first : n / 4096 + 1 ≡ 1 = omega arith in
      rw (
        leb_of_lt 128 (n / 32) (omega arith),
        first,
        read_inside s.disk s.freemap 1 (omega arith) v.long,
      )

  released_map : disk_map (released s n) ≡ unmark (disk_map s) n
  unfolding sfs_flush_freemap
  released_map = write_self s.disk (unmark (disk_map s) n) 1 (omega arith)

  used-released :
      (j : Blkid) → used (disk_map (released s n)) j ≡ (if j == n then 0 else used (disk_map s) j)
  used-released j = rw released_map (used-unmark (disk_map s) n j)

  released-Freed : Freed s n (released s n)
  unfolding sfs_flush_freemap
  released-Freed = record {
    marked = used-released;
    others = λ k h ne. write_other s.disk (unmark (disk_map s) n) 1 k (omega arith) h ne;
    length = length-write_inside s.disk (unmark (disk_map s) n) 1 (omega arith) v.long;
    flushed = sym released_map;
    sb = refl;
    fdtable = refl;
    stack = refl;
    mounted = record {
      one_map = v.one_map;
      long = omega (arith, v.long, length-write s.disk (unmark (disk_map s) n) 1 (omega arith));
      words = rw released_map (unmark-IsMap (disk_map s) n v.words);
      super_used = ground (arith, used-released 0, v.super_used);
      map_used = ground (arith, used-released 1, v.map_used);
    };
  }

  -- `sfs_free_block` of a data block of a mounted file system clears that block's bit and no other,
  -- flushes the freemap and changes no other block.
  pub sfs_free_block_lem : (t : Fs) × (sfs_free_block s n ≡ done t) × Freed s n t
  sfs_free_block_lem = (released s n, free-released, released-Freed)
