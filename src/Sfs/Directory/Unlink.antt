-- ===== src/Sfs/Directory/Unlink.antt =====
-- Taking a block out of the chain of directories.
use ecse.Common.{
  ℕ, zero, suc, ◌<◌, ◌≡◌, ◌≢◌, refl, sym, ap, inl, inr, List, [], ◌∷◌, ◌⊎◌, done, arith, ◌==◌,
  if◌then◌else◌, length, Bool-cases, eqb_of_ne, eq_of_eqb, ne_of_eqb,
}
use mathlib.Core.Path.{subst}
use ecse.Storage.{Block, Blkid, Storage, set_word, sfs_write_block}
use ecse.Storage.Laws.{read_inside, write_self, write_other, length-write_inside}
use ecse.Sfs.Layout.{next_dir}
use ecse.Sfs.Directory.{unlink_from}
use ecse.Sfs.Directory.Chain.{Chain, Fresh}

-- The list without its first `x`.
abbrev pub erase : Blkid → List Blkid → List Blkid
erase x [] = []
erase x (y ∷ ys) = if y == x then ys else y ∷ erase x ys

abbrev pub Mem : Blkid → List Blkid → Type 0
Mem x [] = ⊥
Mem x (y ∷ ys) = (x ≡ y) ⊎ Mem x ys

-- What replacing a chain from `b` by the chain `ys` does to the image.
pub record Relinked (d : Storage) (b : Blkid) (ys : List Blkid) (g : Storage) : Type 0 where
  pub chain : Chain g b ys
  pub words : (k j : ℕ) → k < d.length → j ≢ 0 → g.block k j ≡ d.block k j
  pub outside : (k : Blkid) → k < d.length → Fresh k ys → g.block k ≡ d.block k
  pub length : g.length ≡ d.length

pub Fresh-erase : (k x : Blkid) (xs : List Blkid) → Fresh k xs → Fresh k (erase x xs)
Fresh-erase k x [] f = tt
Fresh-erase k x (y ∷ ys) f = elim (Bool-cases (y == x)) [
  | inl same ↦ rw same f.1
  | inr other ↦ rw other (f.0, Fresh-erase k x ys f.1)
]

-- A chain that does not pass through block `p` survives a write to it.
pub Chain-write :
    (d : Storage) (buf : Block) (p b : Blkid) (xs : List Blkid)
    → p < 4096
    → p < d.length
    → Fresh p xs
    → Chain d b xs
    → Chain (sfs_write_block d buf p) b xs
Chain-write d buf p b [] small lt f c = c
Chain-write d buf p b (x ∷ xs) small lt f c = (
  c.0,
  c.1,
  c.2,
  omega (arith, length-write_inside d buf p (omega arith) lt),
  c.4,
  rw (write_other d buf p x (omega arith) c.3 (λ e. f.0 (sym e)))
      (Chain-write d buf p (next_dir (d.block x)) xs small lt f.1 c.5),
)

module _ (d : Storage) (x : Blkid) where
  -- the state after the directory `p` before `x` has taken over the link of `x`
  bypass : Blkid → Storage
  bypass p = sfs_write_block d (set_word (d.block p) 0 (next_dir (d.block x))) p

  bypass-Relinked :
      (b p : Blkid) (xs : List Blkid) → Chain d b (p ∷ x ∷ xs) → Relinked d b (p ∷ xs) (bypass p)
  unfolding bypass
  bypass-Relinked b p xs c =
      let buf = set_word (d.block p) 0 (next_dir (d.block x)) in
      let big : p < 8388608 = omega arith in
      let keep = length-write_inside d buf p big c.3 in
      record {
        chain = (
          c.0,
          c.1,
          c.2,
          omega arith,
          c.4.1,
          rw (write_self d buf p big)
              (Chain-write d buf p (next_dir (d.block x)) xs c.2 c.3 c.4.1 c.5.5),
        );
        words = λ k j lt nz. elim (Bool-cases (k == p)) [
          | inl at ↦ rw (eq_of_eqb k p at, write_self d buf p big) (ground arith)
          | inr other ↦ ap (λ (w : Block). w j) (write_other d buf p k big lt (ne_of_eqb k p other))
        ];
        outside = λ k lt f. write_other d buf p k big lt f.0;
        length = keep;
      }

  Relinked-cons :
      (b p : Blkid) (xs ys : List Blkid) (g : Storage)
      → Chain d b (p ∷ xs)
      → Fresh p ys
      → Relinked d (next_dir (d.block p)) ys g
      → Relinked d b (p ∷ ys) g
  Relinked-cons b p xs ys g c f r = record {
    chain = (c.0, c.1, c.2, omega (arith, r.length), f, rw (r.outside p c.3 f) r.chain);
    words = r.words;
    outside = λ k lt h. r.outside k lt h.1;
    length = r.length;
  }

  unlink_step :
      (n : ℕ) (buf : Block) (b p q : Blkid) (xs : List Blkid)
      → Chain d b (p ∷ q ∷ xs)
      → p ≢ x
      → unlink_from (suc n) d buf b x ≡ (
          if q == x
          then done (sfs_write_block d (set_word (d.block p) 0 (next_dir (d.block q))) p)
          else unlink_from n d (d.block p) q x)
  unfolding unlink_from
  unlink_step n buf b p q xs c ne = rw (
    c.0,
    eqb_of_ne p x ne,
    read_inside d buf p (omega arith) c.3,
    c.5.0,
    read_inside d (d.block p) q (omega arith) c.5.3,
    read_inside d (d.block q) p (omega arith) c.3,
  )

  pub unlink_from-Relinked :
      (n : ℕ) (buf : Block) (b p : Blkid) (xs : List Blkid)
      → Chain d b (p ∷ xs)
      → p ≢ x
      → Mem x xs
      → length xs < n
      → (g : Storage) × (unlink_from n d buf b x ≡ done g) × Relinked d b (p ∷ erase x xs) g
  unfolding bypass
  unlink_from-Relinked zero buf b p xs c ne m lt = absurd (omega arith)
  unlink_from-Relinked (suc n) buf b p [] c ne m lt = absurd m
  unlink_from-Relinked (suc n) buf b p (q ∷ xs) c ne m lt = elim (Bool-cases (q == x)) [
    | inl same ↦
        let e : q ≡ x = eq_of_eqb q x same in
        (
          bypass p,
          rw (unlink_step n buf b p q xs c ne, same, e) refl,
          rw same (bypass-Relinked b p xs (subst (λ (z : Blkid). Chain d b (p ∷ z ∷ xs)) e c)),
        )
    | inr other ↦
        let later : Mem x xs = elim m [
          | inl e ↦ absurd (ne_of_eqb q x other (sym e))
          | inr r ↦ r
        ] in
        let (g, e, r) =
          unlink_from-Relinked n (d.block p) q q xs (refl, c.5.1, c.5.2, c.5.3, c.5.4, c.5.5)
            (ne_of_eqb q x other) later (omega arith) in
        (
          g,
          rw (unlink_step n buf b p q xs c ne, other) e,
          rw other (
              Relinked-cons b p (q ∷ xs) (q ∷ erase x xs) g c (c.4.0, Fresh-erase p x xs c.4.1)
                (rw c.5.0 r)),
        )
  ]
