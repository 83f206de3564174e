-- ===== src/Client/Store.antt =====
-- Blocks on the datanodes: what one exchange with the datanode of a block comes to, and that every
-- datanode the namenode lists can be reached.
use ecse.Common.{
  ℕ, suc, ◌+◌, ◌<◌, ◌≤◌, ◌≡◌, ◌≢◌, refl, sym, ap, ◌∙◌, inl, inr, true, false, Option, none, some,
  [], ◌∷◌, ◌++◌, done, undefined, ◌==◌, Bool-cases, eq_of_eqb, ne_of_eqb,
}
use ecse.Common.Int.{pos}
use ecse.Common.Texts.{Text, text_eq}
use ecse.Namenode.{Namenode, Datanode, FileBlock}
use ecse.Namenode.Nodes.{IsCounted, Registered, register_datanode-Registered}
use ecse.Namenode.Assign.{Placed}
use ecse.Datanode.{Content, BlockServer, get_block_file_path}
use ecse.Datanode.Paths.{IsDecimal, IsFreeOf, path-ne, path-ne_name}
use ecse.Datanode.Content.{EndsAt, strcpy_content-EndsAt}
use ecse.Datanode.Requests.{
  written, requests_dispatcher_create, requests_dispatcher_read, requests_dispatcher_overrun,
  requests_dispatcher_refused,
}
use ecse.Client.{
  HostFile, Cluster, fread_at, ask_datanode, receive_block, send_block, pull_block, heartbeat,
  localhost,
}

-- The datanode that listens where the block is placed; without one, any.
unfoldable pub server_of : (Text → ℕ → Option BlockServer) → FileBlock → BlockServer
server_of listening b = elim (listening b.loc_ip b.loc_port) [
  | none ↦ record { datanode_id = 0; working_directory = []; can_write = λ p. false }
  | some server ↦ server
]

-- A datanode listens where the block is placed.
pub record IsReachable (listening : Text → ℕ → Option BlockServer) (b : FileBlock) : Type 0 where
  pub listens : listening b.loc_ip b.loc_port ≡ some (server_of listening b)
  pub small : b.block_id < 100

-- The path of the block's file.
unfoldable pub place_of : (ℕ → Text) → (Text → ℕ → Option BlockServer) → FileBlock → Text
place_of decimal listening b =
    get_block_file_path decimal (server_of listening b).working_directory b.owner_name b.block_id

-- The datanode can make the block's file, or write it again.
abbrev pub IsWritable : (ℕ → Text) → (Text → ℕ → Option BlockServer) → FileBlock → Type 0
IsWritable decimal listening b =
    (server_of listening b).can_write (place_of decimal listening b) ≡ true

-- Every datanode that listens can make the files of all blocks of the name, which has 100 at most.
abbrev pub CanWrite : (ℕ → Text) → (Text → ℕ → Option BlockServer) → Text → Type 0
CanWrite decimal listening name =
    (ip : Text) (port j : ℕ) (server : BlockServer)
    → listening ip port ≡ some server
    → j < 100
    → server.can_write (get_block_file_path decimal server.working_directory name j) ≡ true

pub CanWrite-IsWritable :
    (decimal : ℕ → Text) (listening : Text → ℕ → Option BlockServer) (name : Text) (b : FileBlock)
    → CanWrite decimal listening name
    → IsReachable listening b
    → b.owner_name ≡ name
    → IsWritable decimal listening b
unfolding place_of server_of
CanWrite-IsWritable decimal listening name b can r owner =
    rw owner (can b.loc_ip b.loc_port b.block_id (server_of listening b) r.listens r.small)

-- Blocks with different numbers have different places.
pub place_of-ne :
    (decimal : ℕ → Text) (d : IsDecimal decimal) (listening : Text → ℕ → Option BlockServer)
    (a b : FileBlock)
    → a.block_id ≢ b.block_id
    → text_eq (place_of decimal listening a) (place_of decimal listening b) ≡ false
unfolding place_of
place_of-ne decimal d listening a b ne =
    path-ne decimal d (server_of listening a).working_directory
      (server_of listening b).working_directory a.owner_name b.owner_name a.block_id b.block_id ne

module _ (decimal : ℕ → Text) (d : IsDecimal decimal) (c : Cluster) (b : FileBlock)
    (r : IsReachable c.listening b) where
  abbrev server : BlockServer
  server = server_of c.listening b

  abbrev place : Text
  place = place_of decimal c.listening b

  -- A block that is sent is written to its file.
  pub send_block-written :
      IsWritable decimal c.listening b
      → (source : HostFile) (position : ℕ)
      → send_block decimal c source position b
        ≡ done (record c { files = written c.files place (fread_at source position b.content) })
  unfolding send_block ask_datanode place_of
  send_block-written opens source position =
      let filled : FileBlock = record b { content = fread_at source position b.content } in
      rw
        (
          r.listens,
          requests_dispatcher_create decimal d server c.files filled r.small opens,
          ask_datanode,
        )
        refl

  -- Where its file cannot be made, the datanode fails.
  pub send_block_refused :
      (source : HostFile) (position : ℕ)
      → server.can_write place ≡ false
      → send_block decimal c source position b ≡ undefined
  unfolding send_block ask_datanode place_of
  send_block_refused source position refused =
      let filled : FileBlock = record b { content = fread_at source position b.content } in
      rw
        (
          r.listens,
          requests_dispatcher_refused decimal d server c.files filled r.small refused,
          ask_datanode,
        )
        refl

  module _ (buffer : Content) (stored : c.files place ≡ some buffer) where
    -- A block that is pulled is the text up to the NUL of what its file holds.
    pub pull_block-EndsAt :
        (n : ℕ)
        → EndsAt buffer n
        → (content : Content) × (pull_block decimal c b ≡ done (content, c))
          × ((k : ℕ) → k ≤ n → content k ≡ buffer k)
    unfolding pull_block ask_datanode receive_block place_of
    pull_block-EndsAt n h =
        let (sent, e, end, same) =
          requests_dispatcher_read decimal d server c.files b r.small buffer stored n h in
        let (content, copied, end', same') = strcpy_content-EndsAt b.content sent n end in
        (content, rw (r.listens, e, copied, ask_datanode) refl, λ k q. same' k q ∙ same k q)

    -- A file without a NUL overruns the buffer of the datanode.
    pub pull_block_overrun :
        ((k : ℕ) → k < 1024 → (buffer k == 0) ≡ false) → pull_block decimal c b ≡ undefined
    unfolding pull_block ask_datanode place_of
    pull_block_overrun w =
        let e = requests_dispatcher_overrun decimal d server c.files b r.small buffer stored w in
        rw (r.listens, e, ask_datanode) refl

-- Every datanode that the namenode lists listens.
pub record IsConnected (c : Cluster) : Type 0 where
  pub serves :
      (k : ℕ) (dn : Datanode)
      → c.namenode.dnlist k ≡ some dn
      → (server : BlockServer) × (c.listening dn.ip dn.port ≡ some server)

server_of-listening :
    (listening : Text → ℕ → Option BlockServer) (b : FileBlock) (server : BlockServer)
    → listening b.loc_ip b.loc_port ≡ some server
    → server_of listening b ≡ server
unfolding server_of
server_of-listening listening b server e = rw (e, server_of) refl

pub Placed-IsReachable :
    (c : Cluster) (name : Text) (junk : ℕ → ℕ) (j from : ℕ) (b : FileBlock)
    → IsConnected c
    → j < 100
    → Placed c.namenode.dnlist name junk j from b
    → IsReachable c.listening b
Placed-IsReachable c name junk j from b h lt p =
    let (server, listens) = h.serves p.node p.datanode p.next.filled in
    let found : c.listening b.loc_ip b.loc_port ≡ some server = rw p.made listens in
    record {
      listens = found ∙ ap (λ s. some s) (sym (server_of-listening c.listening b server found));
      small = rw p.made lt;
    }

-- What the namenode knows after a heartbeat, with every listed datanode reachable.
pub heartbeat-Registered :
    (c : Cluster) (i port : ℕ) (server : BlockServer)
    → IsCounted c.namenode
    → IsConnected c
    → i < 9
    → c.listening localhost port ≡ some server
    → (s : Namenode) × (heartbeat c (pos (suc i)) port ≡ done (record c { namenode = s }))
      × Registered c.namenode i port localhost s
      × IsConnected (record c { namenode = s })
unfolding heartbeat
heartbeat-Registered c i port server counted h lt listens =
    let (s, e, registered) = register_datanode-Registered c.namenode i port localhost counted lt in
    (
      s,
      rw (e, heartbeat) refl,
      registered,
      record {
        serves = λ k dn at. elim (Bool-cases (k == i)) [
          | inl same ↦
              let q : k ≡ i = eq_of_eqb k i same in
              let known = sym at ∙ rw q registered.entry in listener k dn (some-eq known)
          | inr differ ↦ h.serves k dn (sym (registered.others k (ne_of_eqb k i differ)) ∙ at)
        ];
      },
    )
  where
    entry : Datanode
    entry = record { dn_id = i + 1; ip = localhost; port = port }

    some-eq : {x y : Datanode} → some x ≡ some y → x ≡ y
    some-eq e = cc

    listener :
        (k : ℕ) (dn : Datanode)
        → dn ≡ entry
        → (server : BlockServer) × (c.listening dn.ip dn.port ≡ some server)
    listener k dn q = (server, rw q listens)

-- The working directory of every datanode that listens ends with a `/`.
pub record HasDirectories (c : Cluster) : Type 0 where
  pub ends :
      (ip : Text) (port : ℕ) (server : BlockServer)
      → c.listening ip port ≡ some server
      → (x : Text) × (server.working_directory ≡ x ++ 47 ∷ [])

-- Blocks of files with different names have different places.
pub place_of-ne_name :
    (decimal : ℕ → Text) (d : IsDecimal decimal) (c : Cluster)
    → HasDirectories c
    → (name name' : Text) (a b : FileBlock) → IsReachable c.listening a
    → IsReachable c.listening b
    → a.owner_name ≡ name
    → b.owner_name ≡ name'
    → IsFreeOf 47 name
    → IsFreeOf 47 name'
    → text_eq name name' ≡ false
    → text_eq (place_of decimal c.listening a) (place_of decimal c.listening b) ≡ false
unfolding place_of
place_of-ne_name decimal d c dirs name name' a b ra rb owner owner' plain plain' ne =
    let (x, e) = dirs.ends a.loc_ip a.loc_port (server_of c.listening a) ra.listens in
    let (x', e') = dirs.ends b.loc_ip b.loc_port (server_of c.listening b) rb.listens in
    rw (e, e', owner, owner')
      (path-ne_name decimal d x x' name name' a.block_id b.block_id plain plain' ne)
