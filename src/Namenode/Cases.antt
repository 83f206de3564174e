-- ===== src/Namenode/Cases.antt =====
-- What a request that ended has done to the namenode: nothing, or it has stored one file.
use ecse.Common.{
  ℕ, ◌+◌, ◌-◌, ◌≡◌, refl, ap, inl, inr, none, some, Outcome, done, undefined, diverged, exited,
  ◌>>=◌, ltb, leb, ◌==◌, Bool-cases, Option-cases, done-injective,
}
use mathlib.Core.Path.{subst}
use ecse.Common.Int.{pos}
use ecse.Namenode.{
  FileBlock, FileImage, Request, Namenode, Reply, Answer, file, status, silent, set_at, find_image,
  find_free, assign_blocks, assign_file, new_image, get_file_receivers, get_file_location,
  get_system_information, extend_blocks, extend_file, get_file_update_point, requests_dispatcher,
  max_file_count, blocks_for,
}

abbrev ended : {A : Type 0} → A → Namenode → Outcome (A × Namenode)
ended a t = done (a, t)

abbrev replied : Reply → Namenode → Outcome (Reply × Namenode)
replied r t = done (r, t)

abbrev pub answered : Answer → Namenode → Outcome (Answer × Namenode)
answered a t = done (a, t)

abbrev pub with_image : Namenode → ℕ → FileImage → Namenode
with_image s slot g = record s { file_images = set_at s.file_images slot (some g) }

-- The file with the blocks that were assigned, and with those that were added.
abbrev pub assigned_image : Request → FileImage → (ℕ → FileBlock) → FileImage
assigned_image request f blocks = record f {
  blocknum = blocks_for request.file_size;
  block_list = blocks;
}

abbrev pub extended_image : FileImage → (ℕ → FileBlock) → FileImage
extended_image f blocks = record f { blocknum = f.blocknum + 0; block_list = blocks }

-- The file of a request, and its slot.
abbrev pub FindsAt : Namenode → Request → ℕ → FileImage → Type 0
FindsAt s request slot f =
    find_image max_file_count s.file_images request.file_name 0 ≡ some (slot, f)

module _ (P : Namenode → Type 0) (s : Namenode) where
  unchanged : {A : Type 0} (a b : A) (t : Namenode) → P s → ended a s ≡ ended b t → P t
  unchanged {A} a b t same e = subst P (ap (λ (p : A × Namenode). p.1) (done-injective _ _ e)) same

  stored :
      (slot : ℕ) (g : (ℕ → FileBlock) → FileImage) (o : Outcome (ℕ → FileBlock)) (r : Reply)
      (t : Namenode)
      → ((blocks : ℕ → FileBlock) → o ≡ done blocks → P (with_image s slot (g blocks)))
      → (o >>= λ blocks. replied (pos 0, some (g blocks)) (with_image s slot (g blocks)))
        ≡ replied r t
      → P t
  stored slot g (done blocks) r t set e =
      let later : with_image s slot (g blocks) ≡ t =
        ap (λ (p : Reply × Namenode). p.1) (done-injective _ _ e) in
      subst P later (set blocks refl)
  stored slot g undefined r t set e = absurd (cc)
  stored slot g diverged r t set e = absurd (cc)
  stored slot g exited r t set e = absurd (cc)

  module _ (request : Request) where
    -- What an assignment of blocks to the file at a slot leads to.
    abbrev pub Assigns : ℕ → FileImage → Type 0
    Assigns slot f =
        (blocks : ℕ → FileBlock)
        → assign_blocks (blocks_for request.file_size) s.dnlist request.file_name s.stack f.blocknum
            0 f.block_list
          ≡ done blocks
        → P (with_image s slot (assigned_image request f blocks))

    abbrev pub Extends : ℕ → FileImage → Type 0
    Extends slot f =
        (blocks : ℕ → FileBlock)
        → extend_blocks (blocks_for request.file_size - f.blocknum) s.dnlist request.file_name
            f.blocknum (f.block_list f.blocknum).dn_id f.block_list
          ≡ done blocks
        → P (with_image s slot (extended_image f blocks))

    assigns :
        (slot : ℕ) (f : FileImage) (r : Reply) (t : Namenode)
        → Assigns slot f
        → assign_file s request slot f ≡ replied r t
        → P t
    unfolding assign_file
    assigns slot f r t set e =
        stored slot (assigned_image request f)
          (assign_blocks (blocks_for request.file_size) s.dnlist request.file_name s.stack
            f.blocknum 0 f.block_list)
          r t set e

    extends :
        (slot : ℕ) (f : FileImage) (r : Reply) (t : Namenode)
        → Extends slot f
        → extend_file s request slot f ≡ replied r t
        → P t
    unfolding extend_file
    extends slot f r t set e = elim (Bool-cases (leb 100 f.blocknum)) [
      | inl full ↦ let stops : undefined ≡ replied r t = rw full at e in absurd (cc)
      | inr fits ↦
          stored slot (extended_image f)
            (extend_blocks (blocks_for request.file_size - f.blocknum) s.dnlist request.file_name
              f.blocknum (f.block_list f.blocknum).dn_id f.block_list)
            r t set (rw fits at e)
    ]

    module _ (same : P s)
        (known : (slot : ℕ) (f : FileImage) → FindsAt s request slot f → Assigns slot f)
        (new : (slot : ℕ)
          → find_free max_file_count s.file_images 0 ≡ some slot
          → Assigns slot (new_image request))
        (more : (slot : ℕ) (f : FileImage) → FindsAt s request slot f → Extends slot f) where
      receives : (r : Reply) (t : Namenode) → get_file_receivers s request ≡ replied r t → P t
      unfolding get_file_receivers
      receives r t e =
          elim (Option-cases (find_image max_file_count s.file_images request.file_name 0)) [
            | inl miss ↦ elim (Option-cases (find_free max_file_count s.file_images 0)) [
              | inl full ↦
                  let none_sent : Reply = (pos 1, none) in
                  unchanged none_sent r t same (rw (miss, full, get_file_receivers) at e)
              | inr (slot, free) ↦
                  assigns slot (new_image request) r t (new slot free)
                    (rw (miss, free, get_file_receivers) at e)
            ]
            | inr ((slot, f), hit) ↦
                assigns slot f r t (known slot f hit) (rw (hit, get_file_receivers) at e)
          ]

      updates : (r : Reply) (t : Namenode) → get_file_update_point s request ≡ replied r t → P t
      unfolding get_file_update_point
      updates r t e =
          elim (Option-cases (find_image max_file_count s.file_images request.file_name 0)) [
            | inl miss ↦
                let none_sent : Reply = (pos 1, none) in
                unchanged none_sent r t same (rw (miss, get_file_update_point) at e)
            | inr ((slot, f), hit) ↦
                let found = rw (hit, get_file_update_point) at e in
                elim (Bool-cases (ltb f.blocknum (blocks_for request.file_size))) [
                  | inl wants ↦ extends slot f r t (more slot f hit) (rw wants at found)
                  | inr enough ↦
                      let sent : Reply = (pos 0, some f) in
                      unchanged sent r t same (rw enough at found)
                ]
          ]

      filed :
          (o : Outcome (Reply × Namenode)) (a : Answer) (t : Namenode)
          → ((r : Reply) (u : Namenode) → o ≡ replied r u → P u)
          → (o >>= λ (r, u). answered (file r) u) ≡ answered a t
          → P t
      filed (done (r, u)) a t ran e =
          subst P (ap (λ (p : Answer × Namenode). p.1) (done-injective _ _ e)) (ran r u refl)
      filed undefined a t ran e = absurd (cc)
      filed diverged a t ran e = absurd (cc)
      filed exited a t ran e = absurd (cc)

      -- What holds before a request, and where it stores a file, holds after the request.
      pub requests_dispatcher-cases :
          (a : Answer) (t : Namenode) → requests_dispatcher s request ≡ answered a t → P t
      unfolding requests_dispatcher
      requests_dispatcher-cases a t e = elim (Bool-cases (request.req_type == 0)) [
        | inl first ↦ unchanged (file (get_file_location s request)) a t same (rw first at e)
        | inr not_first ↦ elim (Bool-cases (request.req_type == 1)) [
          | inl second ↦
              filed (get_file_receivers s request) a t receives (rw (not_first, second) at e)
          | inr not_second ↦ elim (Bool-cases (request.req_type == 2)) [
            | inl third ↦
                unchanged (status (get_system_information s)) a t same
                  (rw (not_first, not_second, third) at e)
            | inr not_third ↦ elim (Bool-cases (request.req_type == 3)) [
              | inl fourth ↦
                  filed (get_file_update_point s request) a t updates
                    (rw (not_first, not_second, not_third, fourth) at e)
              | inr none_of_them ↦
                  unchanged silent a t same
                    (rw (not_first, not_second, not_third, none_of_them) at e)
            ]
          ]
        ]
      ]
