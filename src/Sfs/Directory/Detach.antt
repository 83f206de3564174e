-- ===== src/Sfs/Directory/Detach.antt =====
-- `sfs_rmdir` takes the block of a directory out of the chain.
use ecse.Common.{
  ℕ, ◌<◌, ◌≡◌, ◌≢◌, refl, sym, ap, ◌∙◌, inl, inr, List, [], ◌∷◌, done, arith, ◌==◌, length,
  Bool-cases, eqb_of_ne, eqb_of_eq, eq_of_eqb, ne_of_eqb,
}
use ecse.Storage.{Block, Blkid, Storage, set_word, sfs_write_block}
use ecse.Storage.Laws.{read_inside, write_self, write_other, length-write_inside}
use ecse.Sfs.Layout.{Name, first_dir, next_dir}
use ecse.Sfs.State.{Fs}
use ecse.Sfs.Directory.{unlink_first, unlink_dir}
use ecse.Sfs.Directory.Chain.{Chain, Fresh, search}
use ecse.Sfs.Directory.Tree.{Fresh-small}
use mathlib.Core.Path.{subst}
use ecse.Sfs.Directory.Unlink.{erase, Mem, Fresh-erase, Chain-write, unlink_from-Relinked}

-- What taking the directory out of the chain leaves alone, in memory and on disk.
pub record Unlinked (s : Fs) (ys : List Blkid) (t : Fs) : Type 0 where
  pub chain : Chain t.disk (first_dir t.sb) ys
  pub synced : t.disk.block 0 ≡ t.sb
  pub one_map : t.sb 2 ≡ s.sb 2
  pub words : (k j : ℕ) → k < s.disk.length → k ≢ 0 → j ≢ 0 → t.disk.block k j ≡ s.disk.block k j
  pub outside :
      (k : Blkid) → k < s.disk.length → k ≢ 0 → Fresh k ys → t.disk.block k ≡ s.disk.block k
  pub length : t.disk.length ≡ s.disk.length

pub search-Mem :
    (d : Storage) (name : Name) (ids : List Blkid)
    → search d name ids ≢ 0
    → Mem (search d name ids) ids
search-Mem d name [] ne = absurd (ne refl)
search-Mem d name (x ∷ xs) ne = ground (arith, search-Mem d name xs)

module _ (s : Fs) (long : 1 < s.disk.length) (synced : s.disk.block 0 ≡ s.sb) where
  pub unlink_dir-Unlinked :
      (rounds : ℕ) (x : Blkid) (ids : List Blkid)
      → Chain s.disk (first_dir s.sb) ids
      → Mem x ids
      → length ids < rounds
      → (t : Fs) × (unlink_dir rounds s x ≡ done t) × Unlinked s (erase x ids) t
  unfolding unlink_dir unlink_first
  unlink_dir-Unlinked rounds x [] c m lt = absurd m
  unlink_dir-Unlinked rounds x (y ∷ ys) c m lt = elim (Bool-cases (y == x)) [
    | inl same ↦
        let e : y ≡ x = eq_of_eqb y x same in
        let sb = set_word s.sb 3 (next_dir (s.disk.block x)) in
        let c' = subst (λ (z : Blkid). Chain s.disk (first_dir s.sb) (z ∷ ys)) e c in
        let low = Fresh-small s.disk (next_dir (s.disk.block x)) ys 0 (omega arith) c'.5 in
        (
          record s { sb = sb; disk = sfs_write_block s.disk sb 0 },
          rw (
            eqb_of_eq (first_dir s.sb) x c'.0,
            read_inside s.disk s.stack x (omega arith) c'.3,
            read_inside s.disk s.sb 0 (omega arith) (omega arith),
            synced,
          ),
          rw same (record {
            chain =
                Chain-write s.disk sb 0 (next_dir (s.disk.block x)) ys (omega arith) (omega arith)
                  low c'.5;
            synced = write_self s.disk sb 0 (omega arith);
            one_map = refl;
            words = λ k j a nz b.
                ap (λ (w : Block). w j) (write_other s.disk sb 0 k (omega arith) a nz);
            outside = λ k a nz g. write_other s.disk sb 0 k (omega arith) a nz;
            length = length-write_inside s.disk sb 0 (omega arith) (omega arith);
          }),
        )
    | inr other ↦
        let ne = ne_of_eqb y x other in
        let later : Mem x ys = elim m [ inl e ↦ absurd (ne (sym e)) | inr r ↦ r ] in
        let (g, e, r) =
          unlink_from-Relinked s.disk x rounds s.stack (first_dir s.sb) y ys c ne later
            (omega arith) in
        (
          record s { disk = g },
          rw (eqb_of_ne (first_dir s.sb) x (λ q. ne (sym c.0 ∙ q)), e),
          rw other (record {
            chain = r.chain;
            synced =
                r.outside 0 (omega arith) (
                  (λ q. omega (arith, c.1)),
                  Fresh-erase 0 x ys
                      (Fresh-small s.disk (next_dir (s.disk.block y)) ys 0 (omega arith) c.5),
                )
                ∙ synced;
            one_map = refl;
            words = λ k j a nz b. r.words k j a b;
            outside = λ k a nz f. r.outside k a f;
            length = r.length;
          }),
        )
  ]
