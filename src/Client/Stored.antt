-- ===== src/Client/Stored.antt =====
-- A file on the machines, and what `pull_file` gets of it.
use ecse.Common.{
  ℕ, ◌+◌, ◌*◌, ◌/◌, ◌%◌, ◌<◌, ◌≤◌, ◌≡◌, refl, ◌∙◌, false, some, done, undefined, arith, ◌==◌,
  length, leb_of_lt, ltb_of_lt,
}
use ecse.Common.Int.{pos}
use ecse.Common.Texts.{Text}
use ecse.Namenode.{
  FileImage, Request, Namenode, Reply, file, blocks_for, get_file_location, get_file_receivers,
  requests_dispatcher,
}
use ecse.Datanode.{Content}
use ecse.Datanode.Paths.{IsDecimal}
use ecse.Datanode.Content.{EndsAt}
use ecse.Client.{
  HostFile, Cluster, fread_at, ask_namenode, receive_file, pull_blocks, pull_file, assemble,
}
use ecse.Client.Store.{IsReachable, place_of}
use ecse.Client.Pull.{pull_blocks-EndsAt, pull_blocks_overrun}

-- The namenode finds the file `g` by the name, and the datanodes hold its blocks: `source` with what
-- `stack` holds behind its end.
pub record IsStored (decimal : ℕ → Text) (source : HostFile) (name : Text) (stack : Content)
    (c : Cluster) (g : FileImage) : Type 0 where
  pub counted : g.blocknum ≡ blocks_for source.size
  pub located :
      (size kind : ℕ)
      → get_file_location c.namenode
          (record { file_name = name; file_size = size; req_type = kind })
        ≡ (pos 0, some g)
  pub reach : (j : ℕ) → j < blocks_for source.size → IsReachable c.listening (g.block_list j)
  pub owned : (j : ℕ) → j < blocks_for source.size → (g.block_list j).owner_name ≡ name
  pub stored :
      (j : ℕ)
      → j < blocks_for source.size
      → c.files (place_of decimal c.listening (g.block_list j))
        ≡ some (fread_at source (1024 * j) stack)

abbrev pub asks : Text → ℕ → ℕ → Request
asks name size kind = record { file_name = name; file_size = size; req_type = kind }

module _ (c : Cluster) (name : Text) (short : length name < 256) where
  pub ask_receivers :
      (size : ℕ) (g : FileImage) (t : Namenode)
      → get_file_receivers c.namenode (asks name size 1) ≡ done ((pos 0, some g), t)
      → ask_namenode c (asks name size 1) ≡ done (file (pos 0, some g), record c { namenode = t })
  unfolding ask_namenode requests_dispatcher
  ask_receivers size g t e = rw (leb_of_lt 256 (length name) short, e, requests_dispatcher) refl

  pub ask_location :
      (size : ℕ) (r : Reply)
      → get_file_location c.namenode (asks name size 0) ≡ r
      → ask_namenode c (asks name size 0) ≡ done (file r, c)
  unfolding ask_namenode requests_dispatcher
  ask_location size r e = rw (leb_of_lt 256 (length name) short, e, requests_dispatcher) refl

module _ (decimal : ℕ → Text) (d : IsDecimal decimal) (c' : Cluster) (name : Text)
    (short : length name < 256) (source : HostFile) (stack : Content) (g : FileImage)
    (held : IsStored decimal source name stack c' g) (room : blocks_for source.size ≤ 100) where
  pull_file_runs :
      (junk : ℕ) (contents : ℕ → Content)
      → pull_blocks (blocks_for source.size) decimal g.block_list 0 c' (λ k i. 0)
        ≡ done (contents, c')
      → pull_file decimal c' name junk ≡ done (assemble (blocks_for source.size) contents, c')
  unfolding pull_file receive_file
  pull_file_runs junk contents pulled =
      rw
        (
          ask_location c' name short junk (pos 0, some g) (held.located junk 0),
          held.counted,
          pulled,
          pull_file,
        )
        refl

  pull_file_stops :
      (junk : ℕ)
      → pull_blocks (blocks_for source.size) decimal g.block_list 0 c' (λ k i. 0) ≡ undefined
      → pull_file decimal c' name junk ≡ undefined
  unfolding pull_file receive_file
  pull_file_stops junk stops =
      rw
        (
          ask_location c' name short junk (pos 0, some g) (held.located junk 0),
          held.counted,
          stops,
          pull_file,
        )
        refl

  assemble_size : (n : ℕ) (contents : ℕ → Content) → (assemble n contents).size ≡ 1024 * n
  unfolding assemble
  assemble_size n contents = refl

  assemble_byte :
      (n : ℕ) (contents : ℕ → Content) (i : ℕ)
      → (assemble n contents).byte i ≡ contents (i / 1024) (i % 1024)
  unfolding assemble
  assemble_byte n contents i = refl

  fread_at_byte :
      (i : ℕ)
      → i < source.size
      → fread_at source (1024 * (i / 1024)) stack (i % 1024) ≡ source.byte i
  unfolding fread_at
  fread_at_byte i lt =
      let at : 1024 * (i / 1024) + i % 1024 ≡ i = omega arith in
      rw (at, ltb_of_lt i source.size lt) refl

  abbrev buffers : ℕ → Content
  buffers j = fread_at source (1024 * j) stack

  module _ (nul : ℕ → ℕ) where
    -- Every byte up to the first NUL of its block comes back.
    pub pull_file-IsStored :
        ((j : ℕ) → j < blocks_for source.size → EndsAt (fread_at source (1024 * j) stack) (nul j))
        → (junk : ℕ)
        → (copy : HostFile) × (pull_file decimal c' name junk ≡ done (copy, c'))
          × (copy.size ≡ 1024 * blocks_for source.size)
          × ((i : ℕ) → i < source.size → i % 1024 ≤ nul (i / 1024) → copy.byte i ≡ source.byte i)
    pull_file-IsStored ends junk =
        let total = blocks_for source.size in
        let (contents, pulled, same, others) =
          pull_blocks-EndsAt decimal d c' g.block_list total room held.reach buffers held.stored nul
            total 0 (λ k i. 0) (omega arith) (λ j q. ends j (omega arith)) in
        (
          assemble total contents,
          pull_file_runs junk contents pulled,
          assemble_size total contents,
          λ i lt le.
              let in_range : i / 1024 < total = omega arith in
              assemble_byte total contents i
              ∙ same (i / 1024) (i % 1024) (omega arith) (omega arith) le
              ∙ fread_at_byte i lt,
        )

    -- A block without a NUL, behind blocks that have one, overruns a buffer of its datanode.
    pub pull_file-IsStored_overrun :
        (m : ℕ)
        → m < blocks_for source.size
        → ((j : ℕ) → j < m → EndsAt (fread_at source (1024 * j) stack) (nul j))
        → ((i : ℕ) → i < 1024 → (fread_at source (1024 * m) stack i == 0) ≡ false)
        → (junk : ℕ) → pull_file decimal c' name junk ≡ undefined
    pull_file-IsStored_overrun m lt ends whole junk =
        let total = blocks_for source.size in
        let start : 0 + m ≡ m = omega arith in
        pull_file_stops junk (
          pull_blocks_overrun decimal d c' g.block_list total room held.reach buffers held.stored
            nul m total 0 (λ k i. 0) (omega arith) lt (λ j q. ends j (omega arith))
            (λ i q. rw start (whole i q)))
