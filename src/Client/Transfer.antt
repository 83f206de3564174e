-- ===== src/Client/Transfer.antt =====
-- `push_file` and `pull_file` together, with the namenode between them.
use ecse.Namenode.{set_at}
use ecse.Common.{
  suc, sym, ◌≢◌, ℕ, ◌+◌, ◌-◌, ◌*◌, ◌/◌, ◌%◌, ◌<◌, ◌≤◌, ◌≡◌, refl, ap, ◌∙◌, false, none, some, done,
  undefined, diverged, arith, ◌==◌, length,
}
use ecse.Common.Int.{pos}
use ecse.Common.Texts.{Text}
use ecse.Namenode.{
  Datanode, FileBlock, FileImage, Namenode, blocks_for, get_file_location, get_file_receivers,
}
use mathlib.Core.Path.{subst}
use ecse.Namenode.Assign.{Placed, origin}
use ecse.Namenode.Files.{Without, IsFree, find_image_miss}
use ecse.Namenode.Receivers.{get_file_receivers-Received_new}
use ecse.Datanode.{Content, BlockServer, get_block_file_path}
use ecse.Datanode.Paths.{IsDecimal}
use ecse.Datanode.Content.{EndsAt}
use ecse.Client.{HostFile, Cluster, fread_at, receive_file, push_blocks, push_file, pull_file}
use ecse.Client.Store.{IsConnected, IsReachable, Placed-IsReachable, place_of}
use ecse.Client.Push.{chunk, push_blocks-written, push_blocks_refused}
use ecse.Client.Stored.{
  IsStored, asks, ask_receivers, ask_location, pull_file-IsStored, pull_file-IsStored_overrun,
}
use ecse.Datanode.Paths.{IsFreeOf, text_eq_of_ne}
use ecse.Client.Store.{HasDirectories, CanWrite, CanWrite-IsWritable, place_of-ne_name, server_of}

module _ (c : Cluster) (name : Text) (short : length name < 256) where
  -- A file that the namenode does not know, with a name of fewer than 256 bytes, is pulled forever:
  -- the namenode sends nothing, and the client receives until a whole answer is there.
  pub pull_file_unknown :
      (decimal : ℕ → Text) (junk : ℕ)
      → Without 1000 c.namenode.file_images name 0
      → pull_file decimal c name junk ≡ diverged
  unfolding pull_file get_file_location receive_file
  pull_file_unknown decimal junk w =
      let miss = find_image_miss 1000 0 c.namenode.file_images name w in
      let located : get_file_location c.namenode (asks name junk 0) ≡ (pos 1, none) =
        rw (miss, get_file_location) refl in
      rw (ask_location c name short junk (pos 1, none) located, pull_file) refl

located_again :
    (s : Namenode) (name : Text) (a b k l : ℕ)
    → get_file_location s (asks name a k) ≡ get_file_location s (asks name b l)
unfolding get_file_location
located_again s name a b k l = refl

module _ (decimal : ℕ → Text) (d : IsDecimal decimal) (c : Cluster) (name : Text)
    (short : length name < 256) (source : HostFile) (k : ℕ) (dk : Datanode) (small : k < 10)
    (live : c.namenode.dnlist k ≡ some dk) (connected : IsConnected c) (slot : ℕ)
    (free : IsFree c.namenode.file_images slot) (new : Without 1000 c.namenode.file_images name 0)
    (room : blocks_for source.size ≤ 100) where
  -- No datanode that listens can make the file of block 0 of the name.
  abbrev pub NoneCanWrite : Type 0
  NoneCanWrite =
      (ip : Text) (port : ℕ) (server : BlockServer)
      → c.listening ip port ≡ some server
      → server.can_write (get_block_file_path decimal server.working_directory name 0) ≡ false

  push_file_runs :
      (g : FileImage) (t : Namenode) (c' : Cluster)
      → get_file_receivers c.namenode (asks name source.size 1) ≡ done ((pos 0, some g), t)
      → push_blocks g.blocknum decimal source g.block_list 0 (record c { namenode = t }) ≡ done c'
      → push_file decimal c name (some source) ≡ done c'
  unfolding push_file receive_file
  push_file_runs g t c' e run =
      rw (ask_receivers c name short source.size g t e, run, push_file) refl

  block_facts :
      (blocks : ℕ → FileBlock) (j from : ℕ)
      → j < 100
      → Placed c.namenode.dnlist name c.namenode.stack (0 + j) from (blocks (0 + j))
      → IsReachable c.listening (blocks j)
        × ((blocks j).block_id ≡ j)
        × ((blocks j).content ≡ c.namenode.stack)
        × ((blocks j).owner_name ≡ name)
  block_facts blocks j from lt p =
      let start : 0 + j ≡ j = omega arith in
      let q =
        subst (λ (i : ℕ). Placed c.namenode.dnlist name c.namenode.stack i from (blocks i)) start
          p in
      (
        Placed-IsReachable c name c.namenode.stack j from (blocks j) connected lt q,
        ap (λ (b : FileBlock). b.block_id) q.made,
        ap (λ (b : FileBlock). b.content) q.made,
        ap (λ (b : FileBlock). b.owner_name) q.made,
      )

  -- What else is stored stays stored, where the working directories end with a `/` and names have
  -- none.
  abbrev pub Keeps : Cluster → Type 0
  Keeps c' =
      (other : Text) (old : HostFile) (stack : Content) (f : FileImage)
      → HasDirectories c
      → IsFreeOf 47 name
      → IsFreeOf 47 other
      → name ≢ other
      → IsStored decimal old other stack c f
      → IsStored decimal old other stack c' f

  -- The namenode has the file as a new entry of its table, and nothing else of it changes.
  abbrev pub Grown : Cluster → FileImage → Type 0
  Grown c' g =
      (c'.namenode
        ≡ record c.namenode { file_images = set_at c.namenode.file_images slot (some g) })
      × (g.filename ≡ name)
      × (c'.listening ≡ c.listening)

  pub push_file-IsStored :
      CanWrite decimal c.listening name
      → (c' : Cluster) × (g : FileImage) × (push_file decimal c name (some source) ≡ done c')
        × IsStored decimal source name c.namenode.stack c' g
        × Keeps c'
        × Grown c' g
  unfolding chunk
  push_file-IsStored can =
      let request = asks name source.size 1 in
      let (g, t, e, received) =
        get_file_receivers-Received_new c.namenode request k dk small live slot free new room in
      let blocks = g.block_list in
      let facts = λ (j : ℕ) (q : j < blocks_for source.size).
        block_facts blocks j (origin 0 0 blocks j) (omega arith) (received.assigned.placed j q) in
      let reach = λ (j : ℕ) (q : j < blocks_for source.size). (facts j q).0 in
      let number = λ (j : ℕ) (q : j < blocks_for source.size). (facts j q).1 in
      let opens = λ (j : ℕ) (q : j < blocks_for source.size).
        CanWrite-IsWritable decimal c.listening name (blocks j) can (facts j q).0 (facts j q).3 in
      let (later, run, stored, before, others) =
        push_blocks-written decimal d source (record c { namenode = t }) blocks
          (blocks_for source.size) room reach opens number (blocks_for source.size) 0 c.files
          (omega arith) in
      (
        record c { namenode = t; files = later },
        g,
        push_file_runs g t _ e (rw received.counted run),
        record {
          counted = received.counted;
          located = λ size kind. located_again t name size source.size kind 1 ∙ received.located;
          reach = reach;
          owned = λ j q. (facts j q).3;
          stored = λ j q.
              stored j (omega arith) (omega arith)
              ∙ ap (λ (buf : Content). some (fread_at source (1024 * j) buf)) (facts j q).2;
        },
        λ other old stack f directories plain plain' differ held. record {
          counted = held.counted;
          located = λ size kind.
              received.others (asks other size kind) (text_eq_of_ne name other differ)
              ∙ held.located size kind;
          reach = held.reach;
          owned = held.owned;
          stored = λ j q.
              others (place_of decimal c.listening (f.block_list j)) (λ i r.
                place_of-ne_name decimal d c directories other name (f.block_list j) (blocks i)
                  (held.reach j q) (reach i r) (held.owned j q) (facts i r).3 plain' plain
                  (text_eq_of_ne other name (λ e. differ (sym e))))
              ∙ held.stored j q;
        },
        (received.stored, received.named, refl),
      )

  -- Where a datanode is registered, every listed datanode listens, those that listen can make the
  -- block files of the name, the table of files has a free entry, no file has the name, which has
  -- fewer than 256 bytes, and the file has at most 100 blocks, each with a NUL in what is sent of it,
  -- `push_file` ends, and `pull_file` of the name gives a file of whole blocks in which every byte of
  -- the file up to the first NUL of its block comes back.
  pub push_file-pull_file :
      (nul : ℕ → ℕ)
      → CanWrite decimal c.listening name
      → ((j : ℕ)
          → j < blocks_for source.size
          → EndsAt (fread_at source (1024 * j) c.namenode.stack) (nul j))
      → (c' : Cluster) × (push_file decimal c name (some source) ≡ done c')
        × ((junk : ℕ)
            → (copy : HostFile) × (pull_file decimal c' name junk ≡ done (copy, c'))
              × (copy.size ≡ 1024 * blocks_for source.size)
              × ((i : ℕ)
                  → i < source.size
                  → i % 1024 ≤ nul (i / 1024)
                  → copy.byte i ≡ source.byte i))
  push_file-pull_file nul can ends =
      let (c', g, run, held, keeps, grown) = push_file-IsStored can in
      (
        c',
        run,
        pull_file-IsStored decimal d c' name short source c.namenode.stack g held room nul ends,
      )

  -- Where a datanode is registered, every listed datanode listens, those that listen can make the
  -- block files of the name, the table of files has a free entry, no file has the name, which has
  -- fewer than 256 bytes, and the file has at most 100 blocks, of which some block has no NUL in what
  -- is sent of it and each block before has one, `push_file` ends, and `pull_file` of the name
  -- overruns a buffer of the datanode.
  pub push_file-pull_file_overrun :
      (nul : ℕ → ℕ) (m : ℕ)
      → CanWrite decimal c.listening name
      → m < blocks_for source.size
      → ((j : ℕ) → j < m → EndsAt (fread_at source (1024 * j) c.namenode.stack) (nul j))
      → ((i : ℕ) → i < 1024 → (fread_at source (1024 * m) c.namenode.stack i == 0) ≡ false)
      → (c' : Cluster) × (push_file decimal c name (some source) ≡ done c')
        × ((junk : ℕ) → pull_file decimal c' name junk ≡ undefined)
  push_file-pull_file_overrun nul m can lt ends whole =
      let (c', g, run, held, keeps, grown) = push_file-IsStored can in
      (
        c',
        run,
        pull_file-IsStored_overrun decimal d c' name short source c.namenode.stack g held room nul m
            lt ends whole,
      )

  push_file_stops :
      (g : FileImage) (t : Namenode)
      → get_file_receivers c.namenode (asks name source.size 1) ≡ done ((pos 0, some g), t)
      → push_blocks g.blocknum decimal source g.block_list 0 (record c { namenode = t }) ≡ undefined
      → push_file decimal c name (some source) ≡ undefined
  unfolding push_file receive_file
  push_file_stops g t e stops =
      rw (ask_receivers c name short source.size g t e, stops, push_file) refl

  refused_place :
      (b : FileBlock)
      → IsReachable c.listening b
      → b.block_id ≡ 0
      → b.owner_name ≡ name
      → NoneCanWrite
      → (server_of c.listening b).can_write (place_of decimal c.listening b) ≡ false
  unfolding place_of server_of
  refused_place b r number owner none_can =
      rw (number, owner) (none_can b.loc_ip b.loc_port (server_of c.listening b) r.listens)

  -- Where a datanode is registered, every listed datanode listens, none of those that listen can make
  -- the file of block 0 of the name, the table of files has a free entry, no file has the name, which
  -- has fewer than 256 bytes, and the file has from 1 to 100 blocks: `push_file` makes a datanode
  -- call `fwrite` with a null pointer.
  pub push_file_refused :
      0 < blocks_for source.size → NoneCanWrite → push_file decimal c name (some source) ≡ undefined
  push_file_refused some_blocks none_can =
      let request = asks name source.size 1 in
      let (g, t, e, received) =
        get_file_receivers-Received_new c.namenode request k dk small live slot free new room in
      let blocks = g.block_list in
      let (reach, number, content, owner) =
        block_facts blocks 0 (origin 0 0 blocks 0) (omega arith)
          (received.assigned.placed 0 some_blocks) in
      let last : suc (blocks_for source.size - 1) ≡ blocks_for source.size = omega arith in
      let stops =
        push_blocks_refused decimal d source (record c { namenode = t }) blocks
          (blocks_for source.size - 1) reach
          (refused_place (blocks 0) reach number owner none_can) in
      push_file_stops g t e (rw received.counted (rw last at stops))
