-- ===== src/Datanode/Paths.antt =====
-- The paths of block files: they fit the bytes allocated for them, and different blocks of a file
-- have different paths.
use ecse.Common.{
  ap, sym, ◌∙◌, ◌==◌, eqb_of_eq, eqb_of_ne, ℕ, ◌+◌, ◌/◌, ◌<◌, ◌≤◌, ◌≡◌, ◌≢◌, refl, true, false, [],
  ◌∷◌, ◌++◌, done, arith, All, length, length-append, ltb_of_le, Bool-cases, inl, inr,
}
use ecse.Common.Texts.{Text, text_eq, text_eq_refl}
use ecse.Datanode.{get_block_file_path, path_room, allocated_path}

-- What `sprintf` does for `%d`: decimal digits, as many as the number needs.
pub record IsDecimal (decimal : ℕ → Text) : Type 0 where
  pub digits : (n : ℕ) → All (λ c. c < 58) (decimal n)
  pub one_digit : (n : ℕ) → n < 10 → length (decimal n) ≡ 1
  pub two_digits : (n : ℕ) → 10 ≤ n → n < 100 → length (decimal n) ≡ 2
  pub injective : (n m : ℕ) → decimal n ≡ decimal m → n ≡ m

-- None of the characters is the separator.
abbrev pub IsFreeOf : ℕ → Text → Type 0
IsFreeOf c name = All (λ k. (k == c) ≡ false) name

decimal-IsFreeOf : (a : Text) → All (λ c. c < 58) a → IsFreeOf 95 a
decimal-IsFreeOf [] h = _
decimal-IsFreeOf (x ∷ a) h =
    (eqb_of_ne x 95 (λ e. absurd (omega (arith, h.0))), decimal-IsFreeOf a h.1)

not_free : (c : ℕ) (xs a : Text) → IsFreeOf c (xs ++ c ∷ a) → ⊥
not_free c [] a h = let same = eqb_of_eq c c refl in cc
not_free c (x ∷ xs) a h = not_free c xs a h.1

tail_eq : (x y : ℕ) (a b : Text) → ◌≡◌ {A = Text} (x ∷ a) (y ∷ b) → a ≡ b
tail_eq x y a b e = cc

head_eq : (x y : ℕ) (a b : Text) → ◌≡◌ {A = Text} (x ∷ a) (y ∷ b) → x ≡ y
head_eq x y a b e = cc

-- A text is split at its last separator in one way only.
split_eq :
    (c : ℕ) (xs ys a b : Text)
    → IsFreeOf c a
    → IsFreeOf c b
    → xs ++ c ∷ a ≡ ys ++ c ∷ b
    → (xs ≡ ys) × (a ≡ b)
split_eq c [] [] a b ha hb e = (refl, tail_eq c c a b e)
split_eq c [] (y ∷ ys) a b ha hb e =
    let q = tail_eq c y a (ys ++ c ∷ b) e in absurd (not_free c ys b (rw (← q) ha))
split_eq c (x ∷ xs) [] a b ha hb e =
    let q = tail_eq x c (xs ++ c ∷ a) b e in absurd (not_free c xs a (rw q hb))
split_eq c (x ∷ xs) (y ∷ ys) a b ha hb e =
    let (before, behind) = split_eq c xs ys a b ha hb (tail_eq x y (xs ++ c ∷ a) (ys ++ c ∷ b) e) in
    let first = head_eq x y (xs ++ c ∷ a) (ys ++ c ∷ b) e in
    (ap (λ (t : Text). x ∷ t) before ∙ ap (λ k. k ∷ ys) first, behind)

append_dir : (x name : Text) (c : ℕ) → (x ++ c ∷ []) ++ name ≡ x ++ c ∷ name
append_dir [] name c = refl
append_dir (y ∷ x) name c = ap (λ (t : Text). y ∷ t) (append_dir x name c)

pub eq_of_text_eq : (a b : Text) → text_eq a b ≡ true → a ≡ b
unfolding text_eq
eq_of_text_eq [] [] h = refl
eq_of_text_eq [] (c ∷ cs) h = absurd (cc)
eq_of_text_eq (b ∷ bs) [] h = absurd (cc)
eq_of_text_eq (b ∷ bs) (c ∷ cs) h = ground (arith, eq_of_text_eq bs cs)

pub text_eq_of_ne : (a b : Text) → a ≢ b → text_eq a b ≡ false
text_eq_of_ne a b ne = elim (Bool-cases (text_eq a b)) [
  | inl same ↦ absurd (ne (eq_of_text_eq a b same))
  | inr other ↦ other
]

module _ (decimal : ℕ → Text) (d : IsDecimal decimal) where
  -- Blocks with different numbers have different paths, whatever the names and the working
  -- directories are, where numbers are printed in decimal digits.
  pub path-ne :
      (wd wd' name name' : Text) (i j : ℕ)
      → i ≢ j
      → text_eq (get_block_file_path decimal wd name i) (get_block_file_path decimal wd' name' j)
        ≡ false
  unfolding get_block_file_path
  path-ne wd wd' name name' i j ne =
      let differ =
        λ (e : get_block_file_path decimal wd name i ≡ get_block_file_path decimal wd' name' j).
          ne (
            d.injective i j
              (split_eq 95 _ _ (decimal i) (decimal j) (decimal-IsFreeOf (decimal i) (d.digits i))
                (decimal-IsFreeOf (decimal j) (d.digits j)) e).1) in
      text_eq_of_ne _ _ differ

  names_of_paths :
      (x x' name name' : Text) (i j : ℕ)
      → IsFreeOf 47 name
      → IsFreeOf 47 name'
      → get_block_file_path decimal (x ++ 47 ∷ []) name i
        ≡ get_block_file_path decimal (x' ++ 47 ∷ []) name' j
      → name ≡ name'
  unfolding get_block_file_path
  names_of_paths x x' name name' i j h h' e =
      let numbered =
        split_eq 95 _ _ (decimal i) (decimal j) (decimal-IsFreeOf (decimal i) (d.digits i))
          (decimal-IsFreeOf (decimal j) (d.digits j)) e in
      let marked : Text = 98 ∷ 108 ∷ 107 ∷ [] in
      let named =
        split_eq 95 _ _ marked marked (refl, (refl, (refl, _))) (refl, (refl, (refl, _)))
          numbered.0 in
      let joined = sym (append_dir x name 47) ∙ named.0 ∙ append_dir x' name' 47 in
      (split_eq 47 x x' name name' h h' joined).1

  -- Blocks of files with different names have different paths, where the names have no `/` and the
  -- working directories end with one.
  pub path-ne_name :
      (x x' name name' : Text) (i j : ℕ)
      → IsFreeOf 47 name
      → IsFreeOf 47 name'
      → text_eq name name' ≡ false
      → text_eq
          (get_block_file_path decimal (x ++ 47 ∷ []) name i)
          (get_block_file_path decimal (x' ++ 47 ∷ []) name' j)
        ≡ false
  path-ne_name x x' name name' i j h h' ne =
      let differ =
        λ (e : get_block_file_path decimal (x ++ 47 ∷ []) name i
            ≡ get_block_file_path decimal (x' ++ 47 ∷ []) name' j).
          let same = names_of_paths x x' name name' i j h h' e in
          let equal : text_eq name name' ≡ true = rw same (text_eq_refl name') in absurd (cc) in
      text_eq_of_ne _ _ differ

  path_length :
      (wd name : Text) (i : ℕ)
      → i < 100
      → length (get_block_file_path decimal wd name i) + 1 ≤ path_room wd name i
  unfolding path_room get_block_file_path
  path_length wd name i lt =
      let marked : Text = 95 ∷ 98 ∷ 108 ∷ 107 ∷ [] in
      let whole = length-append (wd ++ name ++ marked) (95 ∷ decimal i) in
      let parts = length-append (wd ++ name) marked in
      let start = length-append wd name in
      let two : 10 ≤ i → length (decimal i) ≡ 2 = λ q. d.two_digits i q lt in
      let one : i / 10 ≡ 0 → length (decimal i) ≡ 1 = λ q. d.one_digit i (omega arith) in
      ground (arith, whole, parts, start, two, one)

  -- For a block number below 100 the path fits the bytes that are allocated for it.
  pub allocated_path_fits :
      (wd name : Text) (i : ℕ)
      → i < 100
      → allocated_path decimal wd name i ≡ done (get_block_file_path decimal wd name i)
  unfolding allocated_path path_room get_block_file_path
  allocated_path_fits wd name i lt =
      rw (ltb_of_le (path_room wd name i) _ (path_length wd name i lt), allocated_path) refl
