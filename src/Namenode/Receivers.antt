-- ===== src/Namenode/Receivers.antt =====
-- What `get_file_receivers` does to the table of files, and what `get_file_location` answers after.
use ecse.Common.{ℕ, ◌+◌, ◌<◌, ◌≤◌, ◌≡◌, refl, true, false, some, done, undefined, arith}
use ecse.Common.Int.{pos}
use ecse.Common.Texts.{text_eq, text_eq_refl}
use ecse.Namenode.{
  Datanode, FileImage, Request, Namenode, set_at, max_file_count, blocks_for, assign_file,
  new_image, get_file_receivers, get_file_location,
}
use ecse.Namenode.Assign.{Assigned, assign_blocks-Assigned, assign_blocks_overflow}
use ecse.Namenode.Files.{
  is_named, Without, IsFree, IsFile, IsFile-found, IsFree-found, IsFile-set, find_image_replaced,
  find_image_miss,
}

-- After a request is served from the image `f` at `slot`, the answer is an image `g` of that name,
-- with the requested number of blocks, placed round robin from the old number of blocks on. It is
-- stored at `slot`, a later request for its location finds it, and any other name is answered as
-- before.
pub record Received (s : Namenode) (request : Request) (slot : ℕ) (f g : FileImage) (t : Namenode)
    : Type 0 where
  pub named : g.filename ≡ f.filename
  pub counted : g.blocknum ≡ blocks_for request.file_size
  pub assigned :
      Assigned s.dnlist request.file_name s.stack 0 f.blocknum
        (blocks_for request.file_size)
        f.block_list
        g.block_list
  pub stored : t ≡ record s { file_images = set_at s.file_images slot (some g) }
  pub located : get_file_location t request ≡ (pos 0, some g)
  pub others :
      (other : Request)
      → text_eq f.filename other.file_name ≡ false
      → get_file_location t other ≡ get_file_location s other

module _ (s : Namenode) (request : Request) (k : ℕ) (dk : Datanode) (small : k < 10)
    (live : s.dnlist k ≡ some dk) where
  get_file_location_hit :
      (t : Namenode) (slot : ℕ) (g : FileImage)
      → IsFile t.file_images request.file_name slot g
      → get_file_location t request ≡ (pos 0, some g)
  unfolding get_file_location
  get_file_location_hit t slot g h =
      rw (IsFile-found t.file_images request.file_name slot g h, get_file_location) refl

  get_file_location_other :
      (slot : ℕ) (g : FileImage) (other : Request)
      → is_named (s.file_images slot) other.file_name ≡ false
      → text_eq g.filename other.file_name ≡ false
      → get_file_location (record s { file_images = set_at s.file_images slot (some g) }) other
        ≡ get_file_location s other
  unfolding get_file_location
  get_file_location_other slot g other was is =
      rw
        (
          find_image_replaced max_file_count 0 slot s.file_images g other.file_name was is,
          get_file_location,
        )
        refl

  assign_file-Received :
      (slot : ℕ) (f : FileImage)
      → slot < 1000
      → Without slot s.file_images request.file_name 0
      → text_eq f.filename request.file_name ≡ true
      → ((other : Request)
          → text_eq f.filename other.file_name ≡ false
          → is_named (s.file_images slot) other.file_name ≡ false)
      → f.blocknum + blocks_for request.file_size ≤ 100
      → (g : FileImage) × (t : Namenode) × (assign_file s request slot f
          ≡ done ((pos 0, some g), t))
        × Received s request slot f g t
  unfolding assign_file
  assign_file-Received slot f lt w same apart room =
      let count = blocks_for request.file_size in
      let (blocks, run, assigned) =
        assign_blocks-Assigned s.dnlist request.file_name s.stack count f.blocknum 0 f.block_list k
          dk small live room in
      let g : FileImage = record f { blocknum = count; block_list = blocks } in
      let t : Namenode = record s { file_images = set_at s.file_images slot (some g) } in
      (
        g,
        t,
        rw run refl,
        record {
          named = refl;
          counted = refl;
          assigned = assigned;
          stored = refl;
          located =
              get_file_location_hit t slot g
                (IsFile-set s.file_images request.file_name slot g lt w same);
          others = λ other e. get_file_location_other slot g other (apart other e) e;
        },
      )

  Without-fewer :
      (slot : ℕ)
      → slot < 1000
      → Without 1000 s.file_images request.file_name 0
      → Without slot s.file_images request.file_name 0
  unfolding Without
  Without-fewer slot lt w = λ l q. w l (omega arith)

  -- With a datanode registered, an entry of the table free, and a request of at most 100 blocks for a
  -- name that no file has, `get_file_receivers` returns 0 and enters the file: its blocks are placed
  -- round robin on registered datanodes, starting at the head of the list, its location is found
  -- after, and every other name is answered as before.
  pub get_file_receivers-Received_new :
      (slot : ℕ)
      → IsFree s.file_images slot
      → Without 1000 s.file_images request.file_name 0
      → blocks_for request.file_size ≤ 100
      → (g : FileImage) × (t : Namenode) × (get_file_receivers s request
          ≡ done ((pos 0, some g), t))
        × Received s request slot (new_image request) g t
  unfolding get_file_receivers
  get_file_receivers-Received_new slot free w room =
      rw
        (
          find_image_miss max_file_count 0 s.file_images request.file_name w,
          IsFree-found s.file_images slot free,
          get_file_receivers,
        )
        (assign_file-Received slot (new_image request) free.inside
          (Without-fewer slot free.inside w) (text_eq_refl request.file_name)
          (λ other e. rw free.empty refl) (omega arith))

  -- With a datanode registered, a request for a known file, whose old and requested blocks are at
  -- most 100 together, keeps the old blocks and places the requested number behind them, but states
  -- the requested number as the file's number of blocks.
  pub get_file_receivers-Received_known :
      (slot : ℕ) (f : FileImage)
      → IsFile s.file_images request.file_name slot f
      → f.blocknum + blocks_for request.file_size ≤ 100
      → (g : FileImage) × (t : Namenode) × (get_file_receivers s request
          ≡ done ((pos 0, some g), t))
        × Received s request slot f g t
  unfolding get_file_receivers
  get_file_receivers-Received_known slot f h room =
      rw (IsFile-found s.file_images request.file_name slot f h, get_file_receivers)
        (assign_file-Received slot f h.inside h.before h.named (λ other e. rw h.entry e) room)

  -- With a datanode registered, a request for a known file whose old and requested blocks are more
  -- than 100 together writes behind the block list.
  pub get_file_receivers_overflow :
      (slot : ℕ) (f : FileImage)
      → IsFile s.file_images request.file_name slot f
      → f.blocknum ≤ 100
      → 100 < f.blocknum + blocks_for request.file_size
      → get_file_receivers s request ≡ undefined
  unfolding get_file_receivers assign_file
  get_file_receivers_overflow slot f h le over =
      rw
        (
          IsFile-found s.file_images request.file_name slot f h,
          assign_blocks_overflow s.dnlist request.file_name s.stack (blocks_for request.file_size)
              f.blocknum 0 f.block_list k dk small live le over,
          get_file_receivers,
        )
        refl
