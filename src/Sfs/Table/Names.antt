-- ===== src/Sfs/Table/Names.antt =====
-- The names of the directories, as the comparisons of the code see them.
use ecse.Common.{
  ℕ, suc, ◌+◌, ◌/◌, ◌≤◌, ◌≡◌, ◌≢◌, refl, sym, ap, ◌∙◌, inl, inr, true, false, List, [], ◌∷◌, ◌++◌,
  arith, All, length, Bool-cases, eqb_of_ne, eqb_of_eq,
}
use mathlib.Core.Path.{subst}
use ecse.Common.Texts.{Text, text_eq, IsText}
use ecse.Storage.{Block, Blkid, Storage}
use ecse.Sfs.Layout.{byte, strcmp_eq, dir_name_at, next_dir}
use ecse.Sfs.Directory.Chain.{Chain, Fresh, search}
use ecse.Sfs.Directory.Unlink.{erase}
use ecse.Sfs.Table.{holds, without}

-- A block that holds one string at an offset compares with every other string as that one does.
pub strcmp_eq_unique :
    (name c : Text) (b : Block) (o : ℕ)
    → IsText name
    → IsText c
    → strcmp_eq name b o ≡ true
    → strcmp_eq c b o ≡ text_eq c name
unfolding strcmp_eq text_eq
strcmp_eq_unique [] [] b o hn hc h = h
strcmp_eq_unique [] (c ∷ cs) b o hn hc h = ground arith
strcmp_eq_unique (n ∷ ns) [] b o hn hc h = ground arith
strcmp_eq_unique (n ∷ ns) (c ∷ cs) b o hn hc h =
    ground (arith, strcmp_eq_unique ns cs b (o + 1) hn.1 hc.1)

-- A comparison behind the first word does not see the link.
pub strcmp_eq-link :
    (name : Text) (b g : Block) (o : ℕ)
    → 4 ≤ o
    → ((j : ℕ) → j ≢ 0 → g j ≡ b j)
    → strcmp_eq name g o ≡ strcmp_eq name b o
unfolding strcmp_eq byte
strcmp_eq-link [] b g o le same = rw (same (o / 4) (λ e. omega arith)) refl
strcmp_eq-link (c ∷ cs) b g o le same =
    rw (same (o / 4) (λ e. omega arith), strcmp_eq-link cs b g (o + 1) (omega arith) same) refl

-- The directories have these names, in this order.
abbrev pub Named : Storage → List Blkid → List Text → Type 0
Named d [] [] = Unit
Named d [] (n ∷ ns) = ⊥
Named d (x ∷ xs) [] = ⊥
Named d (x ∷ xs) (n ∷ ns) =
    ((c : Text) → IsText c → strcmp_eq c (d.block x) dir_name_at ≡ text_eq c n) × Named d xs ns

pub length-Named :
    (d : Storage) (ids : List Blkid) (names : List Text)
    → Named d ids names
    → length ids ≡ length names
length-Named d [] [] h = refl
length-Named d [] (n ∷ ns) h = absurd h
length-Named d (x ∷ xs) [] h = absurd h
length-Named d (x ∷ xs) (n ∷ ns) h = ap suc (length-Named d xs ns h.1)

-- The names survive what leaves the directories' blocks alone but for the links.
pub Named-frame :
    (d g : Storage) (ids : List Blkid) (names : List Text)
    → Named d ids names
    → All (λ x. (j : ℕ) → j ≢ 0 → g.block x j ≡ d.block x j) ids
    → Named g ids names
Named-frame d g [] [] h a = tt
Named-frame d g [] (n ∷ ns) h a = h
Named-frame d g (x ∷ xs) [] h a = h
Named-frame d g (x ∷ xs) (n ∷ ns) h a = (
  λ c t. strcmp_eq-link c (d.block x) (g.block x) 4 (omega arith) a.0 ∙ h.0 c t,
  Named-frame d g xs ns h.1 a.1,
)

pub Named-append :
    (d : Storage) (ids : List Blkid) (names : List Text) (x : Blkid) (n : Text)
    → Named d ids names
    → ((c : Text) → IsText c → strcmp_eq c (d.block x) dir_name_at ≡ text_eq c n)
    → Named d (ids ++ x ∷ []) (names ++ n ∷ [])
Named-append d [] [] x n h p = (p, tt)
Named-append d [] (m ∷ ms) x n h p = absurd h
Named-append d (y ∷ ys) [] x n h p = absurd h
Named-append d (y ∷ ys) (m ∷ ms) x n h p = (h.0, Named-append d ys ms x n h.1 p)

-- A block outside the list is not what the search finds.
Fresh-search :
    (d : Storage) (name : Text) (x : Blkid) (ids : List Blkid)
    → Fresh x ids
    → search d name ids ≢ 0
    → x ≢ search d name ids
Fresh-search d name x [] f ne = absurd (ne refl)
Fresh-search d name x (y ∷ ys) f ne = elim (Bool-cases (strcmp_eq name (d.block y) dir_name_at)) [
  | inl same ↦ rw same f.0
  | inr other ↦ rw other (Fresh-search d name x ys f.1 (rw other at ne))
]

module _ (d : Storage) (name : Text) (t : IsText name) where
  -- A name that the list does not hold is not found.
  pub search_absent :
      (ids : List Blkid) (names : List Text)
      → Named d ids names
      → holds name names ≡ false
      → search d name ids ≡ 0
  unfolding holds
  search_absent [] [] h e = refl
  search_absent [] (n ∷ ns) h e = absurd h
  search_absent (x ∷ xs) [] h e = absurd h
  search_absent (x ∷ xs) (n ∷ ns) h e = rw (h.0 name t) (ground (arith, search_absent xs ns h.1))

  -- A name that the list holds is found, and the directory that is found is the first of the name.
  pub search_held :
      (b : Blkid) (ids : List Blkid) (names : List Text)
      → Chain d b ids
      → Named d ids names
      → holds name names ≡ true
      → (search d name ids ≢ 0) × Named d (erase (search d name ids) ids) (without name names)
  unfolding holds without
  search_held b [] [] c h e = absurd (cc)
  search_held b [] (n ∷ ns) c h e = absurd h
  search_held b (x ∷ xs) [] c h e = absurd h
  search_held b (x ∷ xs) (n ∷ ns) c h e = elim (Bool-cases (text_eq name n)) [
    | inl same ↦ rw (h.0 name t, same, eqb_of_eq x x refl) ((λ z. omega (arith, c.1)), h.1)
    | inr other ↦
        let rest : holds name ns ≡ true = ground (arith, e) in
        let (found, named) = search_held (next_dir (d.block x)) xs ns c.5 h.1 rest in
        let skip : search d name (x ∷ xs) ≡ search d name xs = rw (h.0 name t, other) refl in
        let differ = Fresh-search d name x xs c.4 found in
        subst (λ (z : Blkid). (z ≢ 0) × Named d (erase z (x ∷ xs)) (without name (n ∷ ns)))
          (sym skip) (found, rw (other, eqb_of_ne x (search d name xs) differ) (h.0, named))
  ]
