-- ===== src/Sfs/Directory/Enter.antt =====
-- The new directory block, and how `sfs_mkdir` enters it into the chain.
use ecse.Common.{
  ℕ, ◌<◌, ◌≡◌, ◌≢◌, refl, ap, ◌∙◌, true, List, [], ◌∷◌, ◌++◌, done, arith, All, length, eqb_of_ne,
}
use ecse.Storage.{Block, Blkid, set_word}
use ecse.Storage.Laws.{write_self, write_other, length-write_inside}
use ecse.Sfs.Layout.{Name, first_dir, next_dir, inodes, dir_name_at, strcpy, strcmp_eq}
use ecse.Sfs.Layout.Strings.{word-strcpy_below, strcmp_eq-strcpy, strcmp_eq-agree, byte-clear_below}
use ecse.Sfs.State.{Fs, read_fresh, write_to}
use ecse.Sfs.Directory.{enter_dir, new_dir}
use ecse.Sfs.Directory.Chain.{Chain, Fresh}
use ecse.Sfs.Directory.Link.{link_last-Linked}
use ecse.Sfs.Directory.Tree.{Fresh-small}

-- The directory that `sfs_mkdir` writes: no successor, its name, and no file.
pub new_dir_next : (stack : Block) (name : Name) → next_dir (new_dir stack name) ≡ 0
unfolding new_dir
new_dir_next stack name = word-strcpy_below (set_word stack 0 0) 4 0 name (omega arith)

pub new_dir_name :
    (stack : Block) (name : Name)
    → All (λ c. c < 256) name
    → length name < 120
    → strcmp_eq name (new_dir stack name) dir_name_at ≡ true
unfolding new_dir
new_dir_name stack name bytes short =
    let b = strcpy (set_word stack 0 0) 4 name in
    strcmp_eq-agree name b _ 4 124 (λ p lt. byte-clear_below b 31 97 p (omega arith)) (omega arith)
    ∙ strcmp_eq-strcpy (set_word stack 0 0) 4 name bytes

pub inodes-new_dir :
    (stack : Block) (name : Name) (i : ℕ) → i < 97 → inodes (new_dir stack name) i ≡ 0
unfolding new_dir
inodes-new_dir stack name i lt = ground arith

-- What entering block `new` into the chain leaves alone.
pub record Entered (s : Fs) (ids : List Blkid) (new : Blkid) (t : Fs) : Type 0 where
  pub chain : Chain t.disk (first_dir t.sb) (ids ++ new ∷ [])
  pub synced : t.disk.block 0 ≡ t.sb
  pub one_map : t.sb 2 ≡ s.sb 2
  pub words : (k j : ℕ) → k < s.disk.length → k ≢ 0 → j ≢ 0 → t.disk.block k j ≡ s.disk.block k j
  pub outside :
      (k : Blkid) → k < s.disk.length → k ≢ 0 → Fresh k ids → t.disk.block k ≡ s.disk.block k
  pub length : t.disk.length ≡ s.disk.length
  pub fdtable : t.fdtable ≡ s.fdtable

module _ (s : Fs) (new : Blkid) (low : 1 < new) (small : new < 4096) (inside : new < s.disk.length)
    (ends : next_dir (s.disk.block new) ≡ 0) (synced : s.disk.block 0 ≡ s.sb) where
  pub enter_dir-Entered :
      (rounds : ℕ) (ids : List Blkid)
      → Chain s.disk (first_dir s.sb) ids
      → Fresh new ids
      → length ids < rounds
      → (t : Fs) × (enter_dir rounds s new ≡ done t) × Entered s ids new t
  unfolding enter_dir
  enter_dir-Entered rounds [] c f lt =
      let sb = set_word s.sb 3 new in
      (
        write_to (record s { sb = sb }) sb 0,
        rw c refl,
        record {
          chain = (
            refl,
            low,
            small,
            omega (arith, length-write_inside s.disk sb 0 (omega arith) (omega arith)),
            tt,
            rw (write_other s.disk sb 0 new (omega arith) inside (omega arith)) ends,
          );
          synced = write_self s.disk sb 0 (omega arith);
          one_map = refl;
          words =
              λ k j a nz b. ap (λ (w : Block). w j) (write_other s.disk sb 0 k (omega arith) a nz);
          outside = λ k a nz g. write_other s.disk sb 0 k (omega arith) a nz;
          length = length-write_inside s.disk sb 0 (omega arith) (omega arith);
          fdtable = refl;
        },
      )
  enter_dir-Entered rounds (x ∷ xs) c f lt =
      let (g, e, l) =
        link_last-Linked s.disk new low small inside ends rounds (read_fresh s (first_dir s.sb))
          (first_dir s.sb) x xs c f (omega arith) in
      (
        record s { disk = g },
        rw (eqb_of_ne (first_dir s.sb) 0 (omega (arith, c.0, c.1)), e),
        record {
          chain = l.chain;
          synced =
              l.outside 0 (omega arith)
                (Fresh-small s.disk (first_dir s.sb) (x ∷ xs) 0 (omega arith) c)
              ∙ synced;
          one_map = refl;
          words = λ k j a nz b. l.words k j a b;
          outside = λ k a nz fr. l.outside k a fr;
          length = l.length;
          fdtable = refl;
        },
      )
