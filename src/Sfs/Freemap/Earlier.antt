-- ===== src/Sfs/Freemap/Earlier.antt =====
-- `sfs_flush_freemap` of the earlier copy, PA2/fs.c, whose other functions are those of PA3/a2/fs.c
-- but for messages and comments: it writes all freemap blocks, each from the start of the freemap.
use ecse.Common.{
  ℕ, zero, suc, ◌+◌, ◌<◌, ◌≤◌, ◌≡◌, refl, ◌∙◌, inl, inr, arith, ltb, ◌==◌, if◌then◌else◌,
  Bool-cases, eq_of_eqb, ne_of_eqb, ltb_of_le, lt_of_ltb, le_of_ltb,
}
use ecse.Storage.{Blkid}
use ecse.Storage.Laws.{write_self, write_other, length-write}
use ecse.Sfs.Layout.{nfreemap_blocks}
use ecse.Sfs.State.{Fs, write_to}
use ecse.Sfs.Freemap.{sfs_flush_freemap}

-- `do … while(bid < sb.nfreemap_blocks)`, with the rounds left first.
unfoldable pub flush_from : ℕ → Blkid → Fs → Fs
flush_from zero bid s = s
flush_from (suc n) bid s =
    let s1 = write_to s s.freemap bid in
    let rest = flush_from n (bid + 1) s1 in
    if ltb (bid + 1) (nfreemap_blocks s.sb) then rest else s1

-- There is a round for each freemap block, and one if there is none.
unfoldable pub flush_all : Fs → Fs
flush_all s = flush_from (suc (nfreemap_blocks s.sb)) 1 s

-- What the loop leaves from block `bid` on, with `count` freemap blocks.
record Flushed (s : Fs) (bid count : ℕ) (t : Fs) : Type 0 where
  pub copies : (j : Blkid) → bid ≤ j → j < count → t.disk.block j ≡ s.freemap
  pub first : t.disk.block bid ≡ s.freemap
  pub others : (k : Blkid) → k < s.disk.length → (k < bid) → t.disk.block k ≡ s.disk.block k
  pub behind :
      (k : Blkid) → k < s.disk.length → bid < k → count ≤ k → t.disk.block k ≡ s.disk.block k
  pub long : s.disk.length ≤ t.disk.length
  pub freemap : t.freemap ≡ s.freemap
  pub sb : t.sb ≡ s.sb
  pub fdtable : t.fdtable ≡ s.fdtable

module _ (s : Fs) (bid : Blkid) (small : bid < 8388608) where
  abbrev s1 : Fs
  s1 = write_to s s.freemap bid

  -- The loop ends after this block.
  Flushed-last : nfreemap_blocks s.sb ≤ bid + 1 → Flushed s bid (nfreemap_blocks s.sb) s1
  Flushed-last le = record {
    copies =
        λ j lo hi. let e : j ≡ bid = omega arith in rw e (write_self s.disk s.freemap bid small);
    first = write_self s.disk s.freemap bid small;
    others = λ k lt below. write_other s.disk s.freemap bid k small lt (λ e. omega (arith, e));
    behind = λ k lt above past. write_other s.disk s.freemap bid k small lt (λ e. omega (arith, e));
    long = (length-write s.disk s.freemap bid small).0;
    freemap = refl;
    sb = refl;
    fdtable = refl;
  }

  -- The loop goes on.
  Flushed-more :
      (t : Fs)
      → bid + 1 < nfreemap_blocks s.sb
      → Flushed s1 (bid + 1) (nfreemap_blocks s.sb) t
      → Flushed s bid (nfreemap_blocks s.sb) t
  Flushed-more t lt h =
      let (long, inside) = length-write s.disk s.freemap bid small in
      let here : t.disk.block bid ≡ s.freemap =
        h.others bid inside (omega arith) ∙ write_self s.disk s.freemap bid small in
      record {
        copies = λ j lo hi. elim (Bool-cases (j == bid)) [
          | inl same ↦ rw (eq_of_eqb j bid same) here
          | inr other ↦ let ne = ne_of_eqb j bid other in h.copies j (omega arith) hi
        ];
        first = here;
        others = λ k less below.
            h.others k (omega arith) (omega arith)
            ∙ write_other s.disk s.freemap bid k small less (λ e. omega (arith, e));
        behind = λ k less above past.
            h.behind k (omega arith) (omega arith) past
            ∙ write_other s.disk s.freemap bid k small less (λ e. omega (arith, e));
        long = let long2 = h.long in omega arith;
        freemap = h.freemap;
        sb = h.sb;
        fdtable = h.fdtable;
      }

flush_from-Flushed :
    (n : ℕ) (bid : Blkid) (s : Fs)
    → nfreemap_blocks s.sb ≤ n + bid
    → nfreemap_blocks s.sb < 8388608
    → bid < 8388608
    → Flushed s bid (nfreemap_blocks s.sb) (flush_from (suc n) bid s)
unfolding flush_from
flush_from-Flushed zero bid s enough few small =
    rw (ltb_of_le (bid + 1) (nfreemap_blocks s.sb) (omega arith))
      (Flushed-last s bid small (omega arith))
flush_from-Flushed (suc n) bid s enough few small =
    elim (Bool-cases (ltb (bid + 1) (nfreemap_blocks s.sb))) [
      | inl more ↦
          let lt = lt_of_ltb (bid + 1) (nfreemap_blocks s.sb) more in
          let rest =
            flush_from-Flushed n (bid + 1) (write_to s s.freemap bid) (omega arith) few
              (omega arith) in
          rw more (Flushed-more s bid small _ lt rest)
      | inr last ↦
          rw last (Flushed-last s bid small (le_of_ltb (bid + 1) (nfreemap_blocks s.sb) last))
    ]

-- With at most two freemap blocks by the super block, the earlier flush is the later one.
pub flush_all-sfs_flush_freemap :
    (s : Fs) → nfreemap_blocks s.sb ≤ 2 → flush_all s ≡ sfs_flush_freemap s
unfolding flush_all flush_from sfs_flush_freemap
flush_all-sfs_flush_freemap s few = rw (ltb_of_le 2 (nfreemap_blocks s.sb) few) refl

-- With fewer freemap blocks than the disk has blocks, and block numbers that do not wrap, the earlier
-- flush writes the first freemap block to block 1 and to every block below the number of freemap
-- blocks, so the others are lost; block 0 and the blocks behind keep their content. The later flush
-- writes block 1 alike, and leaves all blocks behind it.
pub flush_all-copies :
    (s : Fs)
    → 1 < s.disk.length
    → nfreemap_blocks s.sb < s.disk.length
    → nfreemap_blocks s.sb < 8388608
    → ((flush_all s).disk.block 1 ≡ s.freemap)
      × ((j : Blkid) → 0 < j → j < nfreemap_blocks s.sb → (flush_all s).disk.block j ≡ s.freemap)
      × ((flush_all s).disk.block 0 ≡ s.disk.block 0)
      × ((k : Blkid)
          → 1 < k
          → nfreemap_blocks s.sb ≤ k
          → k < s.disk.length
          → (flush_all s).disk.block k ≡ s.disk.block k)
      × ((sfs_flush_freemap s).disk.block 1 ≡ s.freemap)
      × ((k : Blkid)
          → 1 < k
          → k < s.disk.length
          → (sfs_flush_freemap s).disk.block k ≡ s.disk.block k)
unfolding flush_all sfs_flush_freemap
flush_all-copies s two all few =
    let h = flush_from-Flushed (nfreemap_blocks s.sb) 1 s (omega arith) few (omega arith) in
    (
      h.first,
      λ j lo hi. h.copies j (omega arith) hi,
      h.others 0 (omega arith) (omega arith),
      λ k lo past lt. h.behind k lt lo past,
      write_self s.disk s.freemap 1 (omega arith),
      λ k lo lt. write_other s.disk s.freemap 1 k (omega arith) lt (λ e. omega (arith, e)),
    )
