-- ===== src/Client/Modify.antt =====
-- What `modify_file` leaves on the datanodes.
use ecse.Common.{
  ℕ, zero, suc, ◌+◌, ◌-◌, ◌*◌, ◌/◌, ◌<◌, ◌≤◌, ◌≡◌, refl, ◌∙◌, false, some, done, arith, length,
  leb_of_lt,
}
use ecse.Common.Int.{pos}
use ecse.Common.Texts.{Text, text_eq, text_eq_refl}
use ecse.Namenode.{FileBlock, FileImage, Request, file, blocks_for, requests_dispatcher}
use ecse.Namenode.Files.{IsFile}
use ecse.Namenode.Update.{get_file_update_point_enough}
use ecse.Datanode.{BlockFiles}
use ecse.Datanode.Paths.{IsDecimal}
use ecse.Datanode.Requests.{written}
use ecse.Client.{
  HostFile, Cluster, fread_at, ask_namenode, receive_file, modify_blocks, modify_file,
}
use ecse.Client.Store.{IsReachable, IsWritable, place_of, send_block-written}

module _ (decimal : ℕ → Text) (d : IsDecimal decimal) (source : HostFile) (c : Cluster)
    (b : FileBlock) (r : IsReachable c.listening b) (opens : IsWritable decimal c.listening b) where
  abbrev at : Text
  at = place_of decimal c.listening b

  abbrev with_files : BlockFiles → Cluster
  with_files files = record c { files = files }

  modify_step :
      (n position : ℕ) (files : BlockFiles)
      → modify_blocks (suc n) decimal source position b (with_files files)
        ≡ modify_blocks n decimal source
            (position + 1024)
            b
            (with_files (written files at (fread_at source position b.content)))
  unfolding modify_blocks
  modify_step n position files =
      rw (send_block-written decimal d (with_files files) b r opens source position, modify_blocks)
        refl

  modify_none :
      (position : ℕ) (files : BlockFiles)
      → modify_blocks 0 decimal source position b (with_files files) ≡ done (with_files files)
  unfolding modify_blocks
  modify_none position files = refl

  -- All rounds write the same file, so the last one stands.
  modify_blocks-written :
      (n position : ℕ) (files : BlockFiles)
      → (later : BlockFiles) × (modify_blocks (suc n) decimal source position b (with_files files)
          ≡ done (with_files later))
        × (later at ≡ some (fread_at source (position + 1024 * n) b.content))
        × ((p : Text) → text_eq p at ≡ false → later p ≡ files p)
  modify_blocks-written zero position files =
      let here : position + 1024 * 0 ≡ position = omega arith in
      (
        written files at (fread_at source position b.content),
        modify_step 0 position files ∙ modify_none (position + 1024) _,
        rw (text_eq_refl at, here) refl,
        λ p e. rw e refl,
      )
  modify_blocks-written (suc n) position files =
      let there : position + 1024 * suc n ≡ position + 1024 + 1024 * n = omega arith in
      let (later, run, last, others) =
        modify_blocks-written n (position + 1024)
          (written files at (fread_at source position b.content)) in
      (
        later,
        modify_step (suc n) position files ∙ run,
        rw there last,
        λ p e. others p e ∙ rw e refl,
      )

module _ (decimal : ℕ → Text) (d : IsDecimal decimal) (source : HostFile) (c : Cluster)
    (name : Text) (short : length name < 256) (file_size slot : ℕ) (f : FileImage)
    (known : IsFile c.namenode.file_images name slot f) (enough : blocks_for file_size ≤ f.blocknum)
    (start_addr end_addr : ℕ) (le : start_addr ≤ end_addr) (inside : start_addr / 1024 < 100)
    (r : IsReachable c.listening (f.block_list (start_addr / 1024)))
    (opens : IsWritable decimal c.listening (f.block_list (start_addr / 1024))) where
  ask_update :
      ask_namenode c (record { file_name = name; file_size = file_size; req_type = 3 })
      ≡ done (file (pos 0, some f), c)
  unfolding ask_namenode requests_dispatcher
  ask_update =
      let request : Request = record { file_name = name; file_size = file_size; req_type = 3 } in
      rw
        (
          leb_of_lt 256 (length name) short,
          get_file_update_point_enough c.namenode request slot f known enough,
          requests_dispatcher,
        )
        refl

  -- Of a known file that has the blocks of the size given, and from a start address in a block that
  -- can be reached, on a datanode that can write the block's file, to an end address that is not
  -- before it, `modify_file` writes only the block of the start address: it holds the bytes of the
  -- client's file from as many whole blocks behind the start address as the two addresses are apart
  -- in blocks. No other file of a datanode changes, and the namenode stays as it is.
  pub modify_file-written :
      (later : BlockFiles) × (modify_file decimal c name (some source) file_size start_addr end_addr
        ≡ done (record c { files = later }))
      × (later (place_of decimal c.listening (f.block_list (start_addr / 1024)))
          ≡ some (
              fread_at source
                (start_addr + 1024 * (end_addr / 1024 - start_addr / 1024))
                (f.block_list (start_addr / 1024)).content))
      × ((p : Text)
          → text_eq p (place_of decimal c.listening (f.block_list (start_addr / 1024))) ≡ false
          → later p ≡ c.files p)
  unfolding modify_file receive_file
  modify_file-written =
      let n = end_addr / 1024 - start_addr / 1024 in
      let rounds : end_addr / 1024 + 1 - start_addr / 1024 ≡ suc n = omega arith in
      let (later, run, last, others) =
        modify_blocks-written decimal d source c (f.block_list (start_addr / 1024)) r opens n
          start_addr c.files in
      (
        later,
        rw (ask_update, leb_of_lt 100 (start_addr / 1024) inside, rounds, run, modify_file) refl,
        last,
        others,
      )
