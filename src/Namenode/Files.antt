-- ===== src/Namenode/Files.antt =====
-- The table of file images: the search by name, and what the requests on files do to the table.
use ecse.Common.{
  ℕ, zero, suc, ◌+◌, ◌<◌, ◌≡◌, inl, inr, refl, sym, ap, ◌∙◌, Bool, true, false, Option, none, some,
  arith, ◌==◌, Bool-cases, Option-cases, eqb_of_eq, eqb_of_ne, eq_of_eqb,
}
use mathlib.Core.Path.{subst}
use ecse.Common.Texts.{text_eq, Text}
use ecse.Namenode.{FileImage, is_some, set_at, find_image, find_free, max_file_count}

-- The entry is a file of this name.
abbrev pub is_named : Option FileImage → Text → Bool
is_named none name = false
is_named (some f) name = text_eq f.filename name

pub find_image_zero :
    (images : ℕ → Option FileImage) (name : Text) (i : ℕ) → find_image 0 images name i ≡ none
unfolding find_image
find_image_zero images name i = refl

pub find_image_other :
    (n : ℕ) (images : ℕ → Option FileImage) (name : Text) (i : ℕ)
    → is_named (images i) name ≡ false
    → find_image (suc n) images name i ≡ find_image n images name (i + 1)
unfolding find_image
find_image_other n images name i e = elim (Option-cases (images i)) [
  | inl none_here ↦ rw (none_here, find_image) refl
  | inr (f, some_here) ↦
      let other : text_eq f.filename name ≡ false =
        subst (λ (o : Option FileImage). is_named o name ≡ false) some_here e in
      rw (some_here, find_image, other) refl
]

pub find_image_here :
    (n : ℕ) (images : ℕ → Option FileImage) (name : Text) (i : ℕ) (f : FileImage)
    → images i ≡ some f
    → text_eq f.filename name ≡ true
    → find_image (suc n) images name i ≡ some (i, f)
unfolding find_image
find_image_here n images name i f e same = rw (e, same, find_image) refl

-- The first `n` entries from `i` on are of other names.
unfoldable pub Without : ℕ → (ℕ → Option FileImage) → Text → ℕ → Type 0
Without n images name i = (l : ℕ) → l < n → is_named (images (i + l)) name ≡ false

Without-here :
    (n i : ℕ) (images : ℕ → Option FileImage) (name : Text)
    → Without (suc n) images name i
    → is_named (images i) name ≡ false
unfolding Without
Without-here n i images name w =
    let here : i + 0 ≡ i = omega arith in rw (← here) (w 0 (omega arith))

Without-suc :
    (n i : ℕ) (images : ℕ → Option FileImage) (name : Text)
    → Without (suc n) images name i
    → Without n images name (i + 1)
unfolding Without
Without-suc n i images name w =
    λ l q. let there : i + suc l ≡ i + 1 + l = omega arith in rw (← there) (w (suc l) (omega arith))

pub find_image_miss :
    (n i : ℕ) (images : ℕ → Option FileImage) (name : Text)
    → Without n images name i
    → find_image n images name i ≡ none
find_image_miss zero i images name w = find_image_zero images name i
find_image_miss (suc n) i images name w =
    find_image_other n images name i (Without-here n i images name w)
    ∙ find_image_miss n (i + 1) images name (Without-suc n i images name w)

find_image_hit :
    (m n i : ℕ) (images : ℕ → Option FileImage) (name : Text) (f : FileImage)
    → m < n
    → Without m images name i
    → images (i + m) ≡ some f
    → text_eq f.filename name ≡ true
    → find_image n images name i ≡ some (i + m, f)
find_image_hit m zero i images name f lt w at same = absurd (omega arith)
find_image_hit zero (suc n) i images name f lt w at same =
    let here : i + 0 ≡ i = omega arith in
    rw here (find_image_here n images name i f (rw (← here) at) same)
find_image_hit (suc m) (suc n) i images name f lt w at same =
    let there : i + suc m ≡ i + 1 + m = omega arith in
    let rest =
      find_image_hit m n (i + 1) images name f (omega arith) (Without-suc m i images name w) in
    find_image_other n images name i (Without-here m i images name w)
    ∙ rest (rw (← there) at) same
    ∙ ap (λ k. some (k, f)) (sym there)

find_image_same :
    (n i : ℕ) (images later : ℕ → Option FileImage) (name : Text)
    → later i ≡ images i
    → find_image n later name (i + 1) ≡ find_image n images name (i + 1)
    → find_image (suc n) later name i ≡ find_image (suc n) images name i
find_image_same n i images later name e rest = elim (Bool-cases (is_named (images i) name)) [
  | inl yes_named ↦ named (images i) refl yes_named
  | inr other ↦
      find_image_other n later name i (rw e other)
      ∙ rest
      ∙ sym (find_image_other n images name i other)
]
  where
    named :
        (o : Option FileImage)
        → images i ≡ o
        → is_named o name ≡ true
        → find_image (suc n) later name i ≡ find_image (suc n) images name i
    named none at yes_named = cc
    named (some f) at yes_named =
        find_image_here n later name i f (e ∙ at) yes_named
        ∙ sym (find_image_here n images name i f at yes_named)

-- An entry that is not of a name may change to another such entry.
pub find_image_replaced :
    (n i slot : ℕ) (images : ℕ → Option FileImage) (g : FileImage) (name : Text)
    → is_named (images slot) name ≡ false
    → text_eq g.filename name ≡ false
    → find_image n (set_at images slot (some g)) name i ≡ find_image n images name i
find_image_replaced zero i slot images g name was is =
    find_image_zero _ name i ∙ sym (find_image_zero images name i)
find_image_replaced (suc n) i slot images g name was is =
    let rest = find_image_replaced n (i + 1) slot images g name was is in
    elim (Bool-cases (i == slot)) [
      | inl same ↦
          let at : i ≡ slot = eq_of_eqb i slot same in
          find_image_other n _ name i (rw same is)
          ∙ rest
          ∙ sym (find_image_other n images name i (rw at was))
      | inr differ ↦ find_image_same n i images _ name (rw differ refl) rest
    ]

-- The first free entry of the table.
pub record IsFree (images : ℕ → Option FileImage) (slot : ℕ) : Type 0 where
  pub inside : slot < 1000
  pub empty : images slot ≡ none
  pub before : (l : ℕ) → l < slot → is_some (images l) ≡ true

-- The first file of a name.
pub record IsFile (images : ℕ → Option FileImage) (name : Text) (slot : ℕ) (f : FileImage)
    : Type 0 where
  pub inside : slot < 1000
  pub entry : images slot ≡ some f
  pub named : text_eq f.filename name ≡ true
  pub before : Without slot images name 0

pub find_free_here :
    (n i : ℕ) (images : ℕ → Option FileImage)
    → images i ≡ none
    → find_free (suc n) images i ≡ some i
unfolding find_free
find_free_here n i images e = rw (e, find_free) refl

pub find_free_next :
    (n i : ℕ) (images : ℕ → Option FileImage)
    → is_some (images i) ≡ true
    → find_free (suc n) images i ≡ find_free n images (i + 1)
unfolding find_free
find_free_next n i images e = rw (find_free, e) refl

find_free_hit :
    (m n i : ℕ) (images : ℕ → Option FileImage)
    → m < n
    → images (i + m) ≡ none
    → ((l : ℕ) → l < m → is_some (images (i + l)) ≡ true)
    → find_free n images i ≡ some (i + m)
find_free_hit m zero i images lt e w = absurd (omega arith)
find_free_hit zero (suc n) i images lt e w =
    let here : i + 0 ≡ i = omega arith in rw here (find_free_here n i images (rw (← here) e))
find_free_hit (suc m) (suc n) i images lt e w =
    let there : (k : ℕ) → i + suc k ≡ i + 1 + k = λ k. omega arith in
    let here : i + 0 ≡ i = omega arith in
    find_free_next n i images (rw (← here) (w 0 (omega arith)))
    ∙ find_free_hit m n (i + 1) images (omega arith) (rw (← there m) e)
        (λ l q. rw (← there l) (w (suc l) (omega arith)))
    ∙ ap (λ k. some k) (sym (there m))

pub IsFile-found :
    (images : ℕ → Option FileImage) (name : Text) (slot : ℕ) (f : FileImage)
    → IsFile images name slot f
    → find_image max_file_count images name 0 ≡ some (slot, f)
IsFile-found images name slot f h =
    let start : 0 + slot ≡ slot = omega arith in
    find_image_hit slot 1000 0 images name f h.inside h.before (rw start h.entry) h.named
    ∙ ap (λ k. some (k, f)) start

pub IsFree-found :
    (images : ℕ → Option FileImage) (slot : ℕ)
    → IsFree images slot
    → find_free max_file_count images 0 ≡ some slot
IsFree-found images slot h =
    let start : (k : ℕ) → 0 + k ≡ k = λ k. omega arith in
    find_free_hit slot 1000 0 images h.inside (rw (start slot) h.empty)
      (λ l q. rw (start l) (h.before l q))
    ∙ ap (λ k. some k) (start slot)

-- Once an entry is filled with a file of the name, and none before it has the name, it is the file.
pub IsFile-set :
    (images : ℕ → Option FileImage) (name : Text) (slot : ℕ) (g : FileImage)
    → slot < 1000
    → Without slot images name 0
    → text_eq g.filename name ≡ true
    → IsFile (set_at images slot (some g)) name slot g
unfolding Without
IsFile-set images name slot g lt w same = record {
  inside = lt;
  entry = rw (eqb_of_eq slot slot refl) refl;
  named = same;
  before = λ l q. rw (eqb_of_ne (0 + l) slot (λ e. absurd (omega arith))) (w l q);
}
