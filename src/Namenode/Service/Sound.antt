-- ===== src/Namenode/Service/Sound.antt =====
-- What holds of the namenode at all times, and that registrations and requests keep it.
use ecse.Common.{
  ℕ, zero, suc, ◌+◌, ◌<◌, ◌≤◌, ◌≡◌, ◌≢◌, ◌-◌, max, ltb, lt_of_ltb, le_of_ltb, refl, sym, ap, ◌∙◌,
  inl, inr, true, false, Option, none, some, done, arith, ◌==◌, Bool-cases, eq_of_eqb, ne_of_eqb,
  eqb_of_ne, done-injective,
}
use mathlib.Core.Path.{subst}
use ecse.Common.Int.{ℤ, pos, negsuc}
use ecse.Common.Texts.{Text}
use ecse.Namenode.{
  Datanode, FileBlock, FileImage, Request, Namenode, Answer, is_some, new_image, blocks_for,
  find_free, max_file_count, register_datanode, requests_dispatcher,
}
use ecse.Namenode.Nodes.{
  IsCounted, Registered, register_datanode-Registered, register_datanode_refused,
}
use ecse.Namenode.Spread.{IsOn, Spread, assign_blocks-Spread, extend_blocks-Spread}
use ecse.Namenode.Cases.{
  answered, with_image, assigned_image, extended_image, requests_dispatcher-cases,
}
use ecse.Namenode.Kept.{find_image-named, find_free-before, some-injective}

-- Each block that the file counts has its number and is on a datanode of the list.
abbrev pub IsPlaced : (ℕ → Option Datanode) → FileImage → Type 0
IsPlaced nodes f = (j : ℕ) → j < f.blocknum → IsOn nodes j (f.block_list j)

-- The counter agrees with the list, a datanode is registered once safe mode has ended, the first
-- entries of the table of files are in use and no others, and every block is on a listed datanode.
pub record Sound (s : Namenode) : Type 0 where
  pub counted : IsCounted s
  pub live : s.safe_mode ≢ 1 → (k : ℕ) × (dn : Datanode) × (k < 10) × (s.dnlist k ≡ some dn)
  pub entries : ℕ
  pub filled : (l : ℕ) → l < entries → is_some (s.file_images l) ≡ true
  pub vacant : (l : ℕ) → entries ≤ l → s.file_images l ≡ none
  pub placed : (slot : ℕ) (f : FileImage) → s.file_images slot ≡ some f → IsPlaced s.dnlist f

-- A registration takes no datanode off the list.
IsOn-Registered :
    (s t : Namenode) (i port : ℕ) (ip : Text) (j : ℕ) (b : FileBlock)
    → i < 9
    → Registered s i port ip t
    → IsOn s.dnlist j b
    → IsOn t.dnlist j b
IsOn-Registered s t i port ip j b lt r h = elim (Bool-cases (h.node == i)) [
  | inl same ↦
      let e : h.node ≡ i = eq_of_eqb h.node i same in
      record {
        node = i;
        datanode = record { dn_id = i + 1; ip = ip; port = port };
        small = omega arith;
        listed = r.entry;
        named = h.named ∙ ap (λ k. k + 1) e;
        numbered = h.numbered;
      }
  | inr other ↦ record {
    node = h.node;
    datanode = h.datanode;
    small = h.small;
    listed = r.others h.node (ne_of_eqb h.node i other) ∙ h.listed;
    named = h.named;
    numbered = h.numbered;
  }
]

Sound-Registered :
    (s t : Namenode) (i port : ℕ) (ip : Text) → i < 9 → Registered s i port ip t → Sound s → Sound t
Sound-Registered s t i port ip lt r h = record {
  counted = r.counted;
  live = λ awake. (i, record { dn_id = i + 1; ip = ip; port = port }, omega arith, r.entry);
  entries = h.entries;
  filled = λ l q. rw r.files (h.filled l q);
  vacant = λ l q. rw r.files (h.vacant l q);
  placed = λ slot f at j q.
      IsOn-Registered s t i port ip j (f.block_list j) lt r
        (h.placed slot f (sym (ap (λ (g : ℕ → Option FileImage). g slot) r.files) ∙ at) j q);
}

pub register_datanode-Sound :
    (s t : Namenode) (id : ℤ) (port : ℕ) (ip : Text)
    → register_datanode s id port ip ≡ done t
    → Sound s
    → Sound t
unfolding register_datanode
register_datanode-Sound s t (pos zero) port ip e h = absurd (cc)
register_datanode-Sound s t (negsuc n) port ip e h = absurd (cc)
register_datanode-Sound s t (pos (suc i)) port ip e h = elim (Bool-cases (ltb i 9)) [
  | inl inside ↦
      let lt = lt_of_ltb i 9 inside in
      let (u, ran, registered) = register_datanode-Registered s i port ip h.counted lt in
      subst Sound (done-injective u t (sym ran ∙ e))
        (Sound-Registered s u i port ip lt registered h)
  | inr outside ↦
      let same = register_datanode_refused s i port ip (le_of_ltb i 9 outside) in
      subst Sound (done-injective s t (sym same ∙ e)) h
]

-- A file is stored at an entry in use, or at the first that is not.
Sound-with_image :
    (s : Namenode) (slot : ℕ) (g : FileImage) (h : Sound s)
    → slot ≤ h.entries
    → IsPlaced s.dnlist g
    → Sound (with_image s slot g)
Sound-with_image s slot g h le on = record {
  counted = record { agrees = h.counted.agrees };
  live = h.live;
  entries = max h.entries (slot + 1);
  filled = λ l q. elim (Bool-cases (l == slot)) [
    | inl same ↦ rw same refl
    | inr other ↦ let ne = ne_of_eqb l slot other in rw other (h.filled l (omega arith))
  ];
  vacant = λ l q. rw (eqb_of_ne l slot (λ e. absurd (omega arith))) (h.vacant l (omega arith));
  placed = λ k f at. elim (Bool-cases (k == slot)) [
    | inl same ↦
        let stored : g ≡ f = some-injective g f (rw same at at) in
        subst (λ (x : FileImage). IsPlaced s.dnlist x) stored on
    | inr other ↦ h.placed k f (rw other at at)
  ];
}

-- An entry in use is one of the first.
used_entry :
    (s : Namenode) (h : Sound s) (slot : ℕ) (f : FileImage)
    → s.file_images slot ≡ some f
    → slot < h.entries
used_entry s h slot f at = elim (Bool-cases (ltb slot h.entries)) [
  | inl inside ↦ lt_of_ltb slot h.entries inside
  | inr outside ↦
      let empty = h.vacant slot (le_of_ltb slot h.entries outside) in
      let both : some f ≡ none = sym at ∙ empty in absurd (cc)
]

-- The first free entry is the one behind those in use.
free_entry :
    (s : Namenode) (h : Sound s) (slot : ℕ)
    → find_free max_file_count s.file_images 0 ≡ some slot
    → slot ≤ h.entries
free_entry s h slot e = elim (Bool-cases (ltb h.entries slot)) [
  | inl behind ↦
      let lt = lt_of_ltb h.entries slot behind in
      let in_use = find_free-before 1000 0 slot s.file_images e h.entries (omega arith) lt in
      let empty : is_some (s.file_images h.entries) ≡ false =
        rw (h.vacant h.entries (omega arith)) refl in
      absurd (cc)
  | inr inside ↦ le_of_ltb h.entries slot inside
]

assigned_image-IsPlaced :
    (s : Namenode) (request : Request) (f : FileImage) (blocks : ℕ → FileBlock)
    → IsPlaced s.dnlist f
    → Spread s.dnlist f.blocknum (blocks_for request.file_size) f.block_list blocks
    → IsPlaced s.dnlist (assigned_image request f blocks)
assigned_image-IsPlaced s request f blocks h p j lt = elim (Bool-cases (ltb j f.blocknum)) [
  | inl old ↦
      let q = lt_of_ltb j f.blocknum old in
      subst (λ (b : FileBlock). IsOn s.dnlist j b) (sym (p.below j q)) (h j q)
  | inr new ↦ let q = le_of_ltb j f.blocknum new in p.placed j q (omega arith)
]

pub requests_dispatcher-Sound :
    (s t : Namenode) (request : Request) (a : Answer)
    → requests_dispatcher s request ≡ answered a t
    → Sound s
    → Sound t
requests_dispatcher-Sound s t request a e h =
    requests_dispatcher-cases Sound s request h
      (λ slot f hit blocks ran.
        let (entry, named) = find_image-named 1000 0 slot s.file_images request.file_name f hit in
        Sound-with_image s slot (assigned_image request f blocks) h
          (omega (arith, used_entry s h slot f entry))
          (assigned_image-IsPlaced s request f blocks (h.placed slot f entry) (
            assign_blocks-Spread s.dnlist request.file_name (blocks_for request.file_size) s.stack
              f.blocknum 0 f.block_list blocks ran)))
      (λ slot free blocks ran.
        Sound-with_image s slot (assigned_image request (new_image request) blocks) h
          (free_entry s h slot free)
          (assigned_image-IsPlaced s request (new_image request) blocks
            (λ j lt. absurd (omega arith))
            (assign_blocks-Spread s.dnlist request.file_name (blocks_for request.file_size) s.stack
              0 0 (new_image request).block_list blocks ran)))
      (λ slot f hit blocks ran.
        let (entry, named) = find_image-named 1000 0 slot s.file_images request.file_name f hit in
        Sound-with_image s slot (extended_image f blocks) h
          (omega (arith, used_entry s h slot f entry))
          (λ j lt.
            let q : j < f.blocknum = omega arith in
            let p =
              extend_blocks-Spread s.dnlist request.file_name
                (blocks_for request.file_size - f.blocknum) f.blocknum
                (f.block_list f.blocknum).dn_id f.block_list blocks ran in
            subst (λ (b : FileBlock). IsOn s.dnlist j b) (sym (p.below j q))
              (h.placed slot f entry j q)))
      a t e
