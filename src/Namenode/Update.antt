-- ===== src/Namenode/Update.antt =====
-- What `get_file_update_point` does for a file that has grown.
use ecse.Common.{
  ℕ, zero, suc, ◌+◌, ◌-◌, ◌%◌, ◌<◌, ◌≤◌, ◌≡◌, ◌≢◌, refl, ◌∙◌, Option, some, done, arith, eqb_of_eq,
  eqb_of_ne, ltb_of_lt, ltb_of_le, leb_of_lt,
}
use ecse.Common.Int.{pos}
use ecse.Common.Texts.{Text}
use ecse.Namenode.{
  Datanode, FileBlock, FileImage, Request, Namenode, set_at, block_on, find_node, blocks_for,
  extend_blocks, extend_file, get_file_update_point,
}
use ecse.Namenode.Nodes.{IsNext, find_node-IsNext, find_node-some}
use ecse.Namenode.Files.{IsFile, IsFile-found}

-- The `n` blocks from `lo` on are all on the datanode `dn` at index `d`; the others are as before.
pub record Extended (name : Text) (lo n d : ℕ) (dn : Datanode) (old new : ℕ → FileBlock)
    : Type 0 where
  pub within : (j : ℕ) → j < n → new (lo + j) ≡ block_on name (λ k. 0) (lo + j) d dn
  pub below : (k : ℕ) → k < lo → new k ≡ old k
  pub above : (k : ℕ) → lo + n ≤ k → new k ≡ old k

module _ (nodes : ℕ → Option Datanode) (name : Text) (d : ℕ) (dn : Datanode) where
  extend_step :
      (n index node : ℕ) (blocks : ℕ → FileBlock)
      → find_node 10 nodes (node % 10) ≡ done (d, dn)
      → index < 100
      → extend_blocks (suc n) nodes name index node blocks
        ≡ extend_blocks n nodes name
            (index + 1)
            d
            (set_at blocks index (block_on name (λ k. 0) index d dn))
  unfolding extend_blocks
  extend_step n index node blocks e lt = rw (e, leb_of_lt 100 index lt) refl

  extend_none :
      (index node : ℕ) (blocks : ℕ → FileBlock)
      → extend_blocks 0 nodes name index node blocks ≡ done blocks
  unfolding extend_blocks
  extend_none index node blocks = refl

  Extended-suc :
      (lo n : ℕ) (old new : ℕ → FileBlock)
      → Extended name (lo + 1) n d dn (set_at old lo (block_on name (λ k. 0) lo d dn)) new
      → Extended name lo (suc n) d dn old new
  Extended-suc lo n old new rest = record {
    within = within;
    below = λ k q. rest.below k (omega arith) ∙ set_there k (λ e. absurd (omega arith));
    above = λ k q. rest.above k (omega arith) ∙ set_there k (λ e. absurd (omega arith));
  }
    where
      b : FileBlock
      b = block_on name (λ k. 0) lo d dn

      set_there : (k : ℕ) → k ≢ lo → set_at old lo b k ≡ old k
      set_there k ne = rw (eqb_of_ne k lo ne) refl

      within : (j : ℕ) → j < suc n → new (lo + j) ≡ block_on name (λ k. 0) (lo + j) d dn
      within zero q =
          let here : lo + 0 ≡ lo = omega arith in
          rw here (rest.below lo (omega arith) ∙ rw (eqb_of_eq lo lo refl) refl)
      within (suc j) q =
          let there : lo + suc j ≡ lo + 1 + j = omega arith in
          rw there (rest.within j (omega arith))

  extend_blocks-Extended :
      (n lo node : ℕ) (old : ℕ → FileBlock)
      → find_node 10 nodes (node % 10) ≡ done (d, dn)
      → d < 10
      → nodes d ≡ some dn
      → lo + n ≤ 100
      → (new : ℕ → FileBlock) × (extend_blocks n nodes name lo node old ≡ done new)
        × Extended name lo n d dn old new
  extend_blocks-Extended zero lo node old e lt live room = (
    old,
    extend_none lo node old,
    record { within = λ j q. absurd (omega arith); below = λ k q. refl; above = λ k q. refl },
  )
  extend_blocks-Extended (suc n) lo node old e lt live room =
      let same : d % 10 ≡ d = omega arith in
      let again : find_node 10 nodes (d % 10) ≡ done (d, dn) =
        rw same (find_node-some 9 nodes d dn live) in
      let set = set_at old lo (block_on name (λ k. 0) lo d dn) in
      let (new, run, rest) = extend_blocks-Extended n (lo + 1) d set again lt live (omega arith) in
      (new, extend_step n lo node old e (omega arith) ∙ run, Extended-suc lo n old new rest)

-- What a request for more blocks than a known file has comes to: all its new blocks are on one
-- datanode, and its number of blocks stays as it was.
pub record Updated (s : Namenode) (request : Request) (slot : ℕ) (f g : FileImage) (t : Namenode)
    : Type 0 where
  pub node : ℕ
  pub datanode : Datanode
  pub next : IsNext s.dnlist ((f.block_list f.blocknum).dn_id % 10) node datanode
  pub extended :
      Extended request.file_name f.blocknum
        (blocks_for request.file_size - f.blocknum)
        node
        datanode
        f.block_list
        g.block_list
  pub uncounted : g.blocknum ≡ f.blocknum
  pub stored : t ≡ record s { file_images = set_at s.file_images slot (some g) }

module _ (s : Namenode) (request : Request) (slot : ℕ) (f : FileImage)
    (h : IsFile s.file_images request.file_name slot f) where
  -- With a datanode registered, a request for more blocks than a known file has, and at most 100,
  -- adds the missing blocks, all on one datanode, the next registered one from the id in the slot
  -- behind the last block on; the number of blocks stays as it was.
  pub get_file_update_point-Updated :
      (k : ℕ) (dk : Datanode)
      → k < 10
      → s.dnlist k ≡ some dk
      → f.blocknum < blocks_for request.file_size
      → blocks_for request.file_size ≤ 100
      → (g : FileImage) × (t : Namenode) × (get_file_update_point s request
          ≡ done ((pos 0, some g), t))
        × Updated s request slot f g t
  unfolding get_file_update_point extend_file
  get_file_update_point-Updated k dk small live more room =
      let need = blocks_for request.file_size - f.blocknum in
      let last = (f.block_list f.blocknum).dn_id in
      let (d, dn, e, next) = find_node-IsNext s.dnlist (last % 10) k dk (omega arith) small live in
      let at = next.at in
      let (blocks, run, extended) =
        extend_blocks-Extended s.dnlist request.file_name d dn need f.blocknum last f.block_list e
          (omega arith) next.filled (omega arith) in
      let g : FileImage = record f { blocknum = f.blocknum + 0; block_list = blocks } in
      (
        g,
        record s { file_images = set_at s.file_images slot (some g) },
        rw
            (
              IsFile-found s.file_images request.file_name slot f h,
              get_file_update_point,
              ltb_of_lt f.blocknum (blocks_for request.file_size) more,
              leb_of_lt 100 f.blocknum (omega arith),
              run,
            )
            refl,
        record {
          node = d;
          datanode = dn;
          next = next;
          extended = extended;
          uncounted = omega arith;
          stored = refl;
        },
      )

  -- A request for no more blocks than a known file has is answered with the file as it is, and
  -- changes nothing.
  pub get_file_update_point_enough :
      blocks_for request.file_size ≤ f.blocknum
      → get_file_update_point s request ≡ done ((pos 0, some f), s)
  unfolding get_file_update_point
  get_file_update_point_enough enough =
      rw
        (
          IsFile-found s.file_images request.file_name slot f h,
          get_file_update_point,
          ltb_of_le f.blocknum (blocks_for request.file_size) enough,
        )
        refl
