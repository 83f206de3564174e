-- ===== src/Datanode/Kept.antt =====
-- What a request to a datanode does to the block files: at most one of them is written.
use ecse.Common.{
  ℕ, ◌≡◌, sym, ap, ◌⊎◌, inl, inr, Option, none, some, Outcome, done, undefined, diverged, exited,
  ◌>>=◌, ltb, ◌+◌, ◌==◌, length, Bool-cases, done-injective,
}
use ecse.Common.Texts.{Text}
use ecse.Namenode.{FileBlock}
use ecse.Datanode.{
  BlockFiles, BlockServer, get_block_file_path, path_room, allocated_path, ext_write_block,
  read_block, create_block, requests_dispatcher,
}
use ecse.Datanode.Requests.{written}

abbrev pub sent_back : Option FileBlock → BlockFiles → Outcome (Option FileBlock × BlockFiles)
sent_back sent files = done (sent, files)

module _ (decimal : ℕ → Text) (server : BlockServer) (files : BlockFiles) (b : FileBlock) where
  abbrev path : Text
  path = get_block_file_path decimal server.working_directory b.owner_name b.block_id

  create_block-one :
      (later : BlockFiles)
      → create_block decimal server files b ≡ done later
      → later ≡ written files path b.content
  unfolding create_block ext_write_block allocated_path
  create_block-one later e =
      elim (Bool-cases
        (ltb (path_room server.working_directory b.owner_name b.block_id) (length path + 1))) [
          | inl over ↦ let stops : undefined ≡ done later = rw over at e in absurd (cc)
          | inr fits ↦ elim (Bool-cases (server.can_write path)) [
            | inl opens ↦
                sym (done-injective (written files path b.content) later (rw (fits, opens) at e))
            | inr refused ↦
                let stops : undefined ≡ done later = rw (fits, refused) at e in absurd (cc)
          ]
        ]

  same_files :
      (o : Outcome FileBlock) (sent : Option FileBlock) (later : BlockFiles)
      → (o >>= λ r. sent_back (some r) files) ≡ sent_back sent later
      → files ≡ later
  same_files (done r) sent later e =
      ap (λ (p : Option FileBlock × BlockFiles). p.1) (done-injective _ _ e)
  same_files undefined sent later e = absurd (cc)
  same_files diverged sent later e = absurd (cc)
  same_files exited sent later e = absurd (cc)

  new_files :
      (o : Outcome BlockFiles) (sent : Option FileBlock) (later : BlockFiles)
      → (o >>= λ made. sent_back none made) ≡ sent_back sent later
      → o ≡ done later
  new_files (done made) sent later e =
      ap (λ (p : Option FileBlock × BlockFiles). done p.1) (done-injective _ _ e)
  new_files undefined sent later e = absurd (cc)
  new_files diverged sent later e = absurd (cc)
  new_files exited sent later e = absurd (cc)

  -- A request that is answered leaves the files, or writes the one of its block.
  pub requests_dispatcher-one :
      (op_type : ℕ) (sent : Option FileBlock) (later : BlockFiles)
      → requests_dispatcher decimal server files (record { op_type = op_type; block = b })
        ≡ sent_back sent later
      → (later ≡ files) ⊎ (later ≡ written files path b.content)
  unfolding requests_dispatcher
  requests_dispatcher-one op_type sent later e = elim (Bool-cases (op_type == 0)) [
    | inl reads ↦
        inl (sym (same_files (read_block decimal server files b) sent later (rw reads at e)))
    | inr not_read ↦ elim (Bool-cases (op_type == 1)) [
      | inl writes ↦ inr (
          create_block-one later (
            new_files (create_block decimal server files b) sent later
              (rw (not_read, writes) at e)))
      | inr other ↦ inl (
          ap (λ (p : Option FileBlock × BlockFiles). p.1)
            (done-injective (sent, later) (none, files) (sym (rw (not_read, other) at e))))
    ]
  ]

  pub requests_dispatcher_read :
      (sent : Option FileBlock) (later : BlockFiles)
      → requests_dispatcher decimal server files (record { op_type = 0; block = b })
        ≡ sent_back sent later
      → later ≡ files
  unfolding requests_dispatcher
  requests_dispatcher_read sent later e =
      sym (same_files (read_block decimal server files b) sent later e)
