-- ===== src/Client.antt =====
-- The client of PA3/client/dfs_client.c, and the machines it talks to: one namenode, and the
-- datanodes that listen.
pub mod Store
pub mod Push
pub mod Pull
pub mod Stored
pub mod Transfer
pub mod Uploads
pub mod Modify
pub mod Exchange
mod Sample
mod Tests
use ecse.Common.{
  ℕ, zero, suc, ◌+◌, ◌-◌, ◌*◌, ◌/◌, ◌%◌, [], ◌∷◌, Option, none, some, Outcome, done, undefined,
  diverged, exited, ◌>>=◌, leb, ltb, ◌==◌, if◌then◌else◌, length,
}
use ecse.Common.Texts.{Text}
use ecse.Common.Int.{ℤ, pos, negsuc}
use ecse.Namenode.{
  FileBlock, FileImage, Request, Namenode, Answer, file, status, silent, dfs_block_size,
  max_file_blk_count, register_datanode,
}
use ecse.Namenode
use ecse.Datanode.{Content, BlockFiles, BlockServer, DataRequest, strcpy_content}
use ecse.Datanode

-- A file of the client's own directory.
pub record HostFile : Type 0 where
  pub size : ℕ
  pub byte : ℕ → ℕ

-- The machines. `listening` gives the datanode that accepts at an address and a port.
pub record Cluster : Type 0 where
  pub namenode : Namenode
  pub listening : Text → ℕ → Option BlockServer
  pub files : BlockFiles

-- The bytes of a request's file name, with its NUL.
abbrev pub file_name_room : ℕ
file_name_room = 256

-- `fread` of one block at a position: at the end of the file the rest of the buffer stays.
unfoldable pub fread_at : HostFile → ℕ → Content → Content
fread_at source position old k =
    if ltb (position + k) source.size then source.byte (position + k) else old k

-- A request to the namenode and the answer. A name that does not fit overruns the request.
unfoldable pub ask_namenode : Cluster → Request → Outcome (Answer × Cluster)
ask_namenode c request =
    if leb file_name_room (length request.file_name)
    then undefined
    else (Namenode.requests_dispatcher c.namenode request >>= λ (answer, namenode).
        done (answer, record c { namenode = namenode }))

-- `receive_data` of a file: where less is sent than a file, its loop never ends.
unfoldable pub receive_file : Answer → Outcome FileImage
receive_file (file (code, some f)) = done f
receive_file (file (code, none)) = diverged
receive_file (status n) = diverged
receive_file silent = diverged

unfoldable pub receive_status : Answer → Outcome ℕ
receive_status (file r) = diverged
receive_status (status n) = done n
receive_status silent = diverged

unfoldable pub receive_block : Option FileBlock → Outcome FileBlock
receive_block none = diverged
receive_block (some b) = done b

-- `create_client_tcp_socket` ends the process where nothing listens.
unfoldable pub ask_datanode :
    (ℕ → Text) → Cluster → ℕ → FileBlock → Outcome (Option FileBlock × Cluster)
ask_datanode decimal c op_type b = elim (c.listening b.loc_ip b.loc_port) [
  | none ↦ exited
  | some server ↦
      Datanode.requests_dispatcher decimal server c.files (record { op_type = op_type; block = b })
      >>= λ (sent, files). done (sent, record c { files = files })
]

-- One round of a loop that sends blocks: the block is filled from the file and sent.
unfoldable pub send_block : (ℕ → Text) → Cluster → HostFile → ℕ → FileBlock → Outcome Cluster
send_block decimal c source position b =
    ask_datanode decimal c 1 (record b { content = fread_at source position b.content })
    >>= λ (sent, c'). done c'

-- The loop of `push_file`, with the rounds left first. The list has 100 entries.
unfoldable pub push_blocks :
    ℕ → (ℕ → Text) → HostFile → (ℕ → FileBlock) → ℕ → Cluster → Outcome Cluster
push_blocks zero decimal source block_list count c = done c
push_blocks (suc n) decimal source block_list count c =
    send_block decimal c source (dfs_block_size * count) (block_list count) >>= λ c'.
    let rest = push_blocks n decimal source block_list (count + 1) c' in
    if leb max_file_blk_count count then undefined else rest

-- The client's file is missing or found; a missing one fails an assertion.
unfoldable pub push_file : (ℕ → Text) → Cluster → Text → Option HostFile → Outcome Cluster
push_file decimal c local_path found = elim found [
  | none ↦ exited
  | some source ↦
      ask_namenode c (record { file_name = local_path; file_size = source.size; req_type = 1 })
      >>= λ (answer, c'). receive_file answer >>= λ file_info.
          push_blocks file_info.blocknum decimal source file_info.block_list 0 c'
]

-- One round of `pull_file`: a block is asked for, and its content is copied as a text.
unfoldable pub pull_block : (ℕ → Text) → Cluster → FileBlock → Outcome (Content × Cluster)
pull_block decimal c b = ask_datanode decimal c 0 b >>= λ (sent, c').
    receive_block sent >>= λ returned_block.
    strcpy_content b.content returned_block.content >>= λ content. done (content, c')

-- The loop of `pull_file`, with the rounds left first; it fills the block list.
unfoldable pub pull_blocks :
    ℕ
    → (ℕ → Text)
    → (ℕ → FileBlock)
    → ℕ
    → Cluster
    → (ℕ → Content)
    → Outcome ((ℕ → Content) × Cluster)
pull_blocks zero decimal block_list count c contents = done (contents, c)
pull_blocks (suc n) decimal block_list count c contents =
    pull_block decimal c (block_list count) >>= λ (content, c').
    let later : ℕ → Content = Namenode.set_at contents count content in
    let rest = pull_blocks n decimal block_list (count + 1) c' later in
    if leb max_file_blk_count count then undefined else rest

-- The file that `pull_file` writes: whole blocks.
unfoldable pub assemble : ℕ → (ℕ → Content) → HostFile
assemble num_blocks contents = record {
  size = dfs_block_size * num_blocks;
  byte = λ i. contents (i / dfs_block_size) (i % dfs_block_size);
}

-- The file size of the request is not set; nothing reads it.
unfoldable pub pull_file : (ℕ → Text) → Cluster → Text → ℕ → Outcome (HostFile × Cluster)
pull_file decimal c filename junk =
    ask_namenode c (record { file_name = filename; file_size = junk; req_type = 0 })
    >>= λ (answer, c'). receive_file answer >>= λ file_info.
        pull_blocks file_info.blocknum decimal file_info.block_list 0 c' (λ k i. 0)
        >>= λ (contents, c''). done (assemble file_info.blocknum contents, c'')

-- The loop of `modify_file`, with the rounds left first: the file is read on, the block stays.
unfoldable pub modify_blocks : ℕ → (ℕ → Text) → HostFile → ℕ → FileBlock → Cluster → Outcome Cluster
modify_blocks zero decimal source position b c = done c
modify_blocks (suc n) decimal source position b c = send_block decimal c source position b >>= λ c'.
    modify_blocks n decimal source (position + dfs_block_size) b c'

-- The addresses are not negative; an end before the start gives no rounds.
unfoldable pub modify_file :
    (ℕ → Text) → Cluster → Text → Option HostFile → ℕ → ℕ → ℕ → Outcome Cluster
modify_file decimal c filename found file_size start_addr end_addr = elim found [
  | none ↦ exited
  | some source ↦
      let start_block_index = start_addr / dfs_block_size in
      let blocks_to_modify = end_addr / dfs_block_size + 1 - start_block_index in
      ask_namenode c (record { file_name = filename; file_size = file_size; req_type = 3 })
      >>= λ (answer, c'). receive_file answer >>= λ file_info.
          if leb max_file_blk_count start_block_index
          then (if blocks_to_modify == 0 then done c' else undefined)
          else modify_blocks blocks_to_modify decimal source start_addr
              (file_info.block_list start_block_index) c'
]

unfoldable pub get_system_info : Cluster → Text → ℕ → Outcome (ℕ × Cluster)
get_system_info c name junk =
    ask_namenode c (record { file_name = name; file_size = junk; req_type = 2 }) >>= λ (answer, c').
    receive_status answer >>= λ n. done (n, c')

-- One message of a datanode to the namenode. `htons` and `ntohs` cancel out; all connect from
-- 127.0.0.1.
abbrev pub localhost : Text
localhost = 49 ∷ 50 ∷ 55 ∷ 46 ∷ 48 ∷ 46 ∷ 48 ∷ 46 ∷ 49 ∷ []

unfoldable pub heartbeat : Cluster → ℤ → ℕ → Outcome Cluster
heartbeat c id port = register_datanode c.namenode id port localhost >>= λ namenode.
    done (record c { namenode = namenode })
