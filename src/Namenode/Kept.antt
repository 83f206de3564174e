-- ===== src/Namenode/Kept.antt =====
-- Requests on other names leave a file of the table where it is found.
use ecse.Common.{
  arith, ℕ, zero, suc, ◌+◌, ◌<◌, ◌≤◌, ◌≡◌, refl, sym, ap, ◌∙◌, inl, inr, true, false, Option, none,
  some, ◌==◌, Bool-cases, Option-cases, done-injective, eqb_of_eq, eq_of_eqb, ne_of_eqb,
}
use mathlib.Core.Path.{subst}
use ecse.Common.Texts.{Text, text_eq}
use ecse.Datanode.Paths.{eq_of_text_eq}
use ecse.Namenode.{
  FileImage, Request, Namenode, Answer, file, is_some, find_image, find_free, new_image,
  get_file_location, requests_dispatcher, max_file_count,
}
use ecse.Namenode.Cases.{answered, with_image, assigned_image, FindsAt, requests_dispatcher-cases}
use ecse.Namenode.Files.{
  is_named, find_image_zero, find_image_other, find_image_here, find_image_replaced, find_free_here,
  find_free_next,
}

pub some-injective : {A : Type 0} (a b : A) → some a ≡ some b → a ≡ b
some-injective a b e = cc

-- What the search returns is an entry with the name.
pub find_image-named :
    (n i slot : ℕ) (images : ℕ → Option FileImage) (name : Text) (f : FileImage)
    → find_image n images name i ≡ some (slot, f)
    → (images slot ≡ some f) × (text_eq f.filename name ≡ true)
find_image-named zero i slot images name f e =
    let stops = find_image_zero images name i in absurd (cc)
find_image-named (suc n) i slot images name f e = elim (Bool-cases (is_named (images i) name)) [
  | inr other ↦
      find_image-named n (i + 1) slot images name f
        (sym (find_image_other n images name i other) ∙ e)
  | inl is ↦ here (images i) refl is
]
  where
    here :
        (o : Option FileImage)
        → images i ≡ o
        → is_named o name ≡ true
        → (images slot ≡ some f) × (text_eq f.filename name ≡ true)
    here none at is = absurd (cc)
    here (some g) at is =
        let same = some-injective _ _ (sym (find_image_here n images name i g at is) ∙ e) in
        let index : i ≡ slot = ap (λ (p : ℕ × FileImage). p.0) same in
        let image : g ≡ f = ap (λ (p : ℕ × FileImage). p.1) same in
        (
          subst (λ k. images k ≡ some f) index (at ∙ ap (λ (h : FileImage). some h) image),
          subst (λ (h : FileImage). text_eq h.filename name ≡ true) image is,
        )

pub find_free-none :
    (n i slot : ℕ) (images : ℕ → Option FileImage)
    → find_free n images i ≡ some slot
    → images slot ≡ none
unfolding find_free
find_free-none zero i slot images e = absurd (cc)
find_free-none (suc n) i slot images e = elim (Option-cases (images i)) [
  | inl empty ↦
      let index : i ≡ slot = some-injective _ _ (sym (find_free_here n i images empty) ∙ e) in
      rw (← index) empty
  | inr (f, full) ↦
      find_free-none n (i + 1) slot images (sym (find_free_next n i images (rw full refl)) ∙ e)
]

-- The first free entry: those before it are filled.
pub find_free-before :
    (n i slot : ℕ) (images : ℕ → Option FileImage)
    → find_free n images i ≡ some slot
    → (l : ℕ) → i ≤ l
    → l < slot
    → is_some (images l) ≡ true
unfolding find_free
find_free-before zero i slot images e l le lt = absurd (cc)
find_free-before (suc n) i slot images e l le lt = elim (Option-cases (images i)) [
  | inl empty ↦
      let index : i ≡ slot = some-injective _ _ (sym (find_free_here n i images empty) ∙ e) in
      absurd (omega arith)
  | inr (f, full) ↦ elim (Bool-cases (l == i)) [
    | inl same ↦ rw (eq_of_eqb l i same, full) refl
    | inr other ↦
        let ne = ne_of_eqb l i other in
        find_free-before n (i + 1) slot images (sym (find_free_next n i images (rw full refl)) ∙ e)
          l (omega arith) lt
  ]
]

-- The file of the name is found as before.
abbrev pub Finds : Text → Namenode → Namenode → Type 0
Finds name s t =
    find_image max_file_count t.file_images name 0 ≡ find_image max_file_count s.file_images name 0

module _ (s : Namenode) (request : Request) (name : Text)
    (differ : text_eq request.file_name name ≡ false) where
  -- A file with the name of the request has another name.
  known :
      (slot : ℕ) (f : FileImage)
      → FindsAt s request slot f
      → (is_named (s.file_images slot) name ≡ false) × (text_eq f.filename name ≡ false)
  known slot f e =
      let (entry, same) = find_image-named 1000 0 slot s.file_images request.file_name f e in
      let equal : f.filename ≡ request.file_name = eq_of_text_eq _ _ same in
      let other : text_eq f.filename name ≡ false = rw equal differ in (rw entry other, other)

  set :
      (slot : ℕ) (g : FileImage)
      → is_named (s.file_images slot) name ≡ false
      → text_eq g.filename name ≡ false
      → Finds name s (with_image s slot g)
  set slot g was is = find_image_replaced max_file_count 0 slot s.file_images g name was is

  -- Whatever the request is, a file of another name is found as before.
  pub requests_dispatcher-Finds :
      (a : Answer) (t : Namenode) → requests_dispatcher s request ≡ answered a t → Finds name s t
  requests_dispatcher-Finds =
      requests_dispatcher-cases (Finds name s) s request refl
        (λ slot f hit blocks e. let (was, is) = known slot f hit in set slot _ was is)
        (λ slot free blocks e.
          set slot (assigned_image request (new_image request) blocks)
            (rw (find_free-none 1000 0 slot s.file_images free) refl) differ)
        (λ slot f hit blocks e. let (was, is) = known slot f hit in set slot _ was is)

-- A lookup changes nothing.
pub requests_dispatcher_lookup :
    (s : Namenode) (request : Request) (a : Answer) (t : Namenode)
    → request.req_type ≡ 0
    → requests_dispatcher s request ≡ answered a t
    → s ≡ t
unfolding requests_dispatcher
requests_dispatcher_lookup s request a t kind e =
    ap (λ (p : Answer × Namenode). p.1)
      (done-injective (file (get_file_location s request), s) (a, t)
        (rw (eqb_of_eq request.req_type 0 kind) at e))
