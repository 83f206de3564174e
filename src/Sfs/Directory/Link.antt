-- ===== src/Sfs/Directory/Link.antt =====
-- Entering a block behind the last directory of the chain.
use ecse.Common.{
  ℕ, zero, suc, ◌<◌, ◌≡◌, ◌≢◌, refl, sym, ap, inl, inr, List, [], ◌∷◌, ◌++◌, done, arith, ◌==◌,
  if◌then◌else◌, length, false, Bool-cases, eqb_of_ne, eq_of_eqb, ne_of_eqb,
}
use ecse.Storage.{Block, Blkid, Storage, set_word, sfs_write_block}
use ecse.Storage.Laws.{read_inside, write_self, write_other, length-write_inside}
use ecse.Sfs.Layout.{next_dir}
use ecse.Sfs.Directory.{link_last}
use ecse.Sfs.Directory.Chain.{Chain, Fresh}

-- What linking the block `new` behind the chain `xs` from `b` does to the image.
pub record Linked (d : Storage) (b : Blkid) (xs : List Blkid) (new : Blkid) (g : Storage)
    : Type 0 where
  pub chain : Chain g b (xs ++ new ∷ [])
  pub words : (k j : ℕ) → k < d.length → j ≢ 0 → g.block k j ≡ d.block k j
  pub outside : (k : Blkid) → k < d.length → Fresh k xs → g.block k ≡ d.block k
  pub length : g.length ≡ d.length

Fresh-append : (k new : Blkid) (xs : List Blkid) → Fresh k xs → k ≢ new → Fresh k (xs ++ new ∷ [])
Fresh-append k new [] f ne = (ne, tt)
Fresh-append k new (x ∷ xs) f ne = (f.0, Fresh-append k new xs f.1 ne)

module _ (d : Storage) (new : Blkid) (low : 1 < new) (small : new < 4096) (inside : new < d.length)
    (ends : next_dir (d.block new) ≡ 0) where
  -- the state after the write of the link
  linked : Blkid → Storage
  linked x = sfs_write_block d (set_word (d.block x) 0 new) x

  linked_last : (b x : Blkid) → Chain d b (x ∷ []) → new ≢ x → Linked d b (x ∷ []) new (linked x)
  unfolding linked
  linked_last b x c ne =
      let big : x < 8388608 = omega arith in
      let buf = set_word (d.block x) 0 new in
      let self = write_self d buf x big in
      let len = length-write_inside d buf x big c.3 in
      record {
        chain = (
          c.0,
          c.1,
          c.2,
          omega arith,
          ((λ e. ne (sym e)), tt),
          rw self
              (refl, low, small, omega arith, tt, rw (write_other d buf x new big inside ne) ends),
        );
        words = λ k j lt nz. elim (Bool-cases (k == x)) [
          | inl same ↦ rw (eq_of_eqb k x same, self) (ground arith)
          | inr other ↦ ap (λ (w : Block). w j) (write_other d buf x k big lt (ne_of_eqb k x other))
        ];
        outside = λ k lt f. write_other d buf x k big lt f.0;
        length = len;
      }

  Linked-cons :
      (b x : Blkid) (xs : List Blkid) (g : Storage)
      → Chain d b (x ∷ xs)
      → x ≢ new
      → Linked d (next_dir (d.block x)) xs new g
      → Linked d b (x ∷ xs) new g
  Linked-cons b x xs g c ne l = record {
    chain = (
      c.0,
      c.1,
      c.2,
      omega (arith, l.length),
      Fresh-append x new xs c.4 ne,
      rw (l.outside x c.3 c.4) l.chain,
    );
    words = l.words;
    outside = λ k lt f. l.outside k lt f.1;
    length = l.length;
  }

  link_step :
      (n : ℕ) (buf : Block) (b x : Blkid)
      → b ≡ x
      → 1 < x
      → x < 4096
      → x < d.length
      → link_last (suc n) d buf b new ≡ (
          if next_dir (d.block x) == 0
          then done (linked x)
          else link_last n d (d.block x) (next_dir (d.block x)) new)
  unfolding link_last linked
  link_step n buf b x e low small lt = rw (
    e,
    eqb_of_ne x 0 (omega arith),
    read_inside d buf x (omega arith) lt,
    read_inside d (d.block x) x (omega arith) lt,
  )

  pub link_last-Linked :
      (n : ℕ) (buf : Block) (b x : Blkid) (xs : List Blkid)
      → Chain d b (x ∷ xs)
      → Fresh new (x ∷ xs)
      → length xs < n
      → (g : Storage) × (link_last n d buf b new ≡ done g) × Linked d b (x ∷ xs) new g
  link_last-Linked zero buf b x xs c f lt = absurd (omega arith)
  link_last-Linked (suc n) buf b x [] c f lt =
      (linked x, rw (link_step n buf b x c.0 c.1 c.2 c.3, c.5), linked_last b x c f.0)
  link_last-Linked (suc n) buf b x (y ∷ ys) c f lt =
      let (g, e, l) =
        link_last-Linked n (d.block x) (next_dir (d.block x)) y ys c.5 f.1 (omega arith) in
      let more : (next_dir (d.block x) == 0) ≡ false =
        eqb_of_ne _ 0 (omega (arith, c.5.0, c.5.1)) in
      (
        g,
        rw (link_step n buf b x c.0 c.1 c.2 c.3, more) e,
        Linked-cons b x (y ∷ ys) g c (λ q. f.0 (sym q)) l,
      )
