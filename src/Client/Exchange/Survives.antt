-- ===== src/Client/Exchange/Survives.antt =====
-- A file that is stored survives all messages that do not write to it.
use ecse.Common.{
  ℕ, ◌*◌, ◌/◌, ◌%◌, ◌<◌, ◌≤◌, ◌≡◌, refl, sym, ◌∙◌, some, done, length, done-injective,
}
use mathlib.Core.Path.{subst}
use ecse.Common.Texts.{Text}
use ecse.Namenode.{get_file_location, blocks_for, Datanode, FileImage}
use ecse.Namenode.Kept.{Finds, requests_dispatcher-Finds, requests_dispatcher_lookup}
use ecse.Datanode.{Content}
use ecse.Datanode.Paths.{IsDecimal, IsFreeOf, text_eq_of_ne}
use ecse.Client.{Cluster}
use ecse.Client.Store.{IsConnected, HasDirectories, CanWrite}
use ecse.Client.{HostFile, fread_at, push_file, pull_file}
use ecse.Namenode.Files.{Without, IsFree}
use ecse.Datanode.Content.{EndsAt}
use ecse.Client.Stored.{IsStored, pull_file-IsStored}
use ecse.Client.Transfer.{push_file-IsStored}
use ecse.Client.Exchange.{
  Exchange, beats, looks, asks, reads, sends, Exchanges, quiet, later, Untouched,
}
use ecse.Client.Exchange.Asked.{heartbeat-Untouched, ask_namenode-Untouched}
use ecse.Client.Exchange.Sent.{read-Untouched, send-Untouched}

located_same :
    (name : Text) (c c' : Cluster) (size kind : ℕ)
    → Finds name c.namenode c'.namenode
    → get_file_location c'.namenode (record { file_name = name; file_size = size; req_type = kind })
      ≡ get_file_location c.namenode
          (record { file_name = name; file_size = size; req_type = kind })
unfolding get_file_location
located_same name c c' size kind f = rw (f, get_file_location) refl

module _ (decimal : ℕ → Text) (d : IsDecimal decimal) (name : Text) (plain : IsFreeOf 47 name) where
  Exchange-Untouched :
      {c c' : Cluster} → HasDirectories c → Exchange decimal name c c' → Untouched decimal name c c'
  Exchange-Untouched {c} {c'} dirs (beats id port e) =
      heartbeat-Untouched decimal name c id port c' e
  Exchange-Untouched {c} {c'} dirs (looks request a kind e) =
      ask_namenode-Untouched decimal name c request a c'
        (λ b t ran.
          let same = requests_dispatcher_lookup c.namenode request b t kind ran in rw same refl)
        e
  Exchange-Untouched {c} {c'} dirs (asks request a ne e) =
      ask_namenode-Untouched decimal name c request a c'
        (λ b t ran.
          requests_dispatcher-Finds c.namenode request name
            (text_eq_of_ne request.file_name name ne) b t ran)
        e
  Exchange-Untouched {c} {c'} dirs (reads b sent e) = read-Untouched decimal name c b sent c' e
  Exchange-Untouched {c} {c'} dirs (sends op_type b sent ne free e) =
      send-Untouched decimal name c d dirs plain op_type b sent c' ne free e

  HasDirectories-Untouched :
      {c c' : Cluster} → HasDirectories c → Untouched decimal name c c' → HasDirectories c'
  HasDirectories-Untouched dirs u = record {
    ends = λ ip port server e. dirs.ends ip port server (rw u.listening at e);
  }

  module _ (source : HostFile) (stack : Content) (g : FileImage) where
    IsStored-Untouched :
        {c c' : Cluster}
        → Untouched decimal name c c'
        → IsStored decimal source name stack c g
        → IsStored decimal source name stack c' g
    IsStored-Untouched {c} {c'} u h = record {
      counted = h.counted;
      located = λ size kind. located_same name c c' size kind u.finds ∙ h.located size kind;
      reach = λ j q. rw u.listening (h.reach j q);
      owned = h.owned;
      stored = λ j q.
          rw u.listening (u.blocks (g.block_list j) (h.reach j q) (h.owned j q) ∙ h.stored j q);
    }

    pub Exchanges-IsStored :
        {c c' : Cluster}
        → HasDirectories c
        → IsStored decimal source name stack c g
        → Exchanges decimal name c c'
        → IsStored decimal source name stack c' g × HasDirectories c'
    Exchanges-IsStored dirs h quiet = (h, dirs)
    Exchanges-IsStored dirs h (later es e) =
        let (held, there) = Exchanges-IsStored dirs h es in
        let u = Exchange-Untouched there e in
        (IsStored-Untouched u held, HasDirectories-Untouched there u)

  -- Where a datanode is registered, every listed datanode listens, the working directories of those
  -- that listen end with a `/`, they can make the block files of the name, the table of files has a
  -- free entry, no file has the name, which has fewer than 256 bytes and no `/`, and the file has at
  -- most 100 blocks, each with a NUL in what is sent of it: after `push_file`, and after any number
  -- of messages of other clients and of datanodes in any order, none of which writes to the file,
  -- `pull_file` of the name gives a file of whole blocks in which every byte of the file up to the
  -- first NUL of its block comes back.
  pub pull_file-Exchanges :
      (c c' c'' : Cluster) (source : HostFile) (k : ℕ) (dk : Datanode) (slot : ℕ) (nul : ℕ → ℕ)
      → length name < 256
      → k < 10
      → c.namenode.dnlist k ≡ some dk
      → IsConnected c
      → HasDirectories c
      → CanWrite decimal c.listening name
      → IsFree c.namenode.file_images slot
      → Without 1000 c.namenode.file_images name 0
      → blocks_for source.size ≤ 100
      → ((j : ℕ)
          → j < blocks_for source.size
          → EndsAt (fread_at source (1024 * j) c.namenode.stack) (nul j))
      → push_file decimal c name (some source) ≡ done c'
      → Exchanges decimal name c' c''
      → (junk : ℕ)
      → (copy : HostFile) × (pull_file decimal c'' name junk ≡ done (copy, c''))
        × (copy.size ≡ 1024 * blocks_for source.size)
        × ((i : ℕ) → i < source.size → i % 1024 ≤ nul (i / 1024) → copy.byte i ≡ source.byte i)
  pull_file-Exchanges c c' c'' source k dk slot nul short small live connected dirs can free new
        room ends pushed es =
      let (c1, g, run, held, keeps, made) =
        push_file-IsStored decimal d c name short source k dk small live connected slot free new
          room can in
      let same : c1 ≡ c' = done-injective c1 c' (sym run ∙ pushed) in
      let listening : c'.listening ≡ c.listening = rw (← same) made.2 in
      let there : HasDirectories c' = record {
        ends = λ ip port server e. dirs.ends ip port server (rw listening at e);
      } in
      let stored =
        Exchanges-IsStored source c.namenode.stack g there
          (subst (λ (x : Cluster). IsStored decimal source name c.namenode.stack x g) same held)
          es in
      pull_file-IsStored decimal d c'' name short source c.namenode.stack g stored.0 room nul ends
