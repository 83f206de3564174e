-- ===== src/Datanode/Requests.antt =====
-- What a datanode does with a request for a block whose number has at most two digits.
use ecse.Common.{
  ℕ, ◌<◌, ◌≤◌, ◌≡◌, refl, true, false, none, some, done, undefined, ◌==◌, if◌then◌else◌, [],
}
use ecse.Common.Texts.{Text, text_eq}
use ecse.Namenode.{FileBlock}
use ecse.Datanode.{
  Content, BlockFiles, BlockServer, get_block_file_path, allocated_path, ext_read_block,
  ext_write_block, read_block, create_block, requests_dispatcher, strcpy_content,
}
use ecse.Datanode.Paths.{IsDecimal, allocated_path_fits}
use ecse.Datanode.Content.{EndsAt, strcpy_content-EndsAt, strcpy_content_overrun}

-- The files after one has been written.
abbrev pub written : BlockFiles → Text → Content → BlockFiles
written files path buf p = if text_eq p path then some buf else files p

-- The block that is sent back with a content.
abbrev pub answered : BlockServer → FileBlock → Content → FileBlock
answered server b content = record {
  owner_name = b.owner_name;
  dn_id = server.datanode_id;
  block_id = b.block_id;
  loc_ip = [];
  loc_port = 0;
  content = content;
}

module _ (decimal : ℕ → Text) (d : IsDecimal decimal) (server : BlockServer) (files : BlockFiles)
    (b : FileBlock) (lt : b.block_id < 100) where
  abbrev pub path : Text
  path = get_block_file_path decimal server.working_directory b.owner_name b.block_id

  allocated : allocated_path decimal server.working_directory b.owner_name b.block_id ≡ done path
  allocated = allocated_path_fits decimal d server.working_directory b.owner_name b.block_id lt

  create_block-written :
      server.can_write path ≡ true
      → create_block decimal server files b ≡ done (written files path b.content)
  unfolding create_block ext_write_block
  create_block-written opens = rw (allocated, ext_write_block, opens) refl

  pub requests_dispatcher_create :
      server.can_write path ≡ true
      → requests_dispatcher decimal server files (record { op_type = 1; block = b })
        ≡ done (none, written files path b.content)
  unfolding requests_dispatcher
  requests_dispatcher_create opens = rw (create_block-written opens, requests_dispatcher) refl

  -- Where the file of the block cannot be made, the datanode writes through a null pointer.
  pub requests_dispatcher_refused :
      server.can_write path ≡ false
      → requests_dispatcher decimal server files (record { op_type = 1; block = b }) ≡ undefined
  unfolding requests_dispatcher create_block ext_write_block
  requests_dispatcher_refused refused =
      rw (allocated, ext_write_block, refused, requests_dispatcher) refl

  module _ (buffer : Content) (stored : files path ≡ some buffer) where
    ext_read_block-stored :
        ext_read_block decimal files server.working_directory b.owner_name b.block_id ≡ done buffer
    unfolding ext_read_block
    ext_read_block-stored = rw (allocated, ext_read_block, stored) refl

    read_block-copied :
        (content : Content)
        → strcpy_content (λ k. 0) buffer ≡ done content
        → read_block decimal server files b ≡ done (answered server b content)
    unfolding read_block
    read_block-copied content e = rw (ext_read_block-stored, e, read_block) refl

    -- What is read back is the text up to the NUL.
    pub requests_dispatcher_read :
        (n : ℕ)
        → EndsAt buffer n
        → (content : Content) × (requests_dispatcher decimal server files
              (record { op_type = 0; block = b })
            ≡ done (some (answered server b content), files))
          × EndsAt content n
          × ((k : ℕ) → k ≤ n → content k ≡ buffer k)
    unfolding requests_dispatcher
    requests_dispatcher_read n h =
        let (content, e, end, same) = strcpy_content-EndsAt (λ k. 0) buffer n h in
        (content, rw (read_block-copied content e, requests_dispatcher) refl, end, same)

    -- A block without a NUL overruns the buffer it is copied to.
    pub requests_dispatcher_overrun :
        ((k : ℕ) → k < 1024 → (buffer k == 0) ≡ false)
        → requests_dispatcher decimal server files (record { op_type = 0; block = b }) ≡ undefined
    unfolding requests_dispatcher read_block
    requests_dispatcher_overrun w =
        rw (ext_read_block-stored, strcpy_content_overrun (λ k. 0) buffer w, requests_dispatcher)
          refl
