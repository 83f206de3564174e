-- ===== src/Datanode.antt =====
-- The datanode of PA3/datanode/dfs_datanode.c over the block files of PA3/datanode/ext.c.
pub mod Paths
pub mod Content
pub mod Requests
pub mod Decimal
pub mod Kept
use ecse.Common.{
  ℕ, zero, suc, ◌+◌, ◌/◌, List, [], ◌∷◌, ◌++◌, Bool, Option, none, some, Outcome, done, undefined,
  ◌>>=◌, leb, ltb, ◌==◌, if◌then◌else◌, length,
}
use ecse.Common.Texts.{Text, text_eq}
use ecse.Namenode.{FileBlock}

-- The bytes of a buffer of one block, which has 1024.
abbrev pub Content : Type 0
Content = ℕ → ℕ

-- The block files of the host by their paths. All processes bind and connect to 127.0.0.1, so there
-- is one host.
abbrev pub BlockFiles : Type 0
BlockFiles = Text → Option Content

-- A datanode that runs: `datanode_id` and `working_directory`. `can_write` says of a path whether
-- `fopen(path, "wb")` gives it a file there: the directory may be missing, or the name too long.
pub record BlockServer : Type 0 where
  pub datanode_id : ℕ
  pub working_directory : Text
  pub can_write : Text → Bool

-- `dfs_cli_dn_req_t`
pub record DataRequest : Type 0 where
  pub op_type : ℕ
  pub block : FileBlock

-- `"%s%s_blk_%d"`, where `decimal` is what `sprintf` prints for `%d`.
unfoldable pub get_block_file_path : (ℕ → Text) → Text → Text → ℕ → Text
get_block_file_path decimal wd filename block_id =
    (wd ++ filename ++ (95 ∷ 98 ∷ 108 ∷ 107 ∷ [])) ++ 95 ∷ decimal block_id

-- How many bytes are allocated for the path.
unfoldable pub path_room : Text → Text → ℕ → ℕ
path_room wd filename block_id =
    length wd + length filename + (if block_id / 10 == 0 then 1 else 2) + 7

-- The path in the bytes allocated for it, with its NUL.
unfoldable pub allocated_path : (ℕ → Text) → Text → Text → ℕ → Outcome Text
allocated_path decimal wd filename block_id =
    let path = get_block_file_path decimal wd filename block_id in
    if ltb (path_room wd filename block_id) (length path + 1) then undefined else done path

-- Without a file `fopen` gives a null pointer, and `fread` is called with it.
unfoldable pub ext_read_block : (ℕ → Text) → BlockFiles → Text → Text → ℕ → Outcome Content
ext_read_block decimal files wd filename block_id =
    allocated_path decimal wd filename block_id >>= λ path. elim (files path) [
      | none ↦ undefined
      | some buf ↦ done buf
    ]

-- The file is made or cut to nothing, and the whole block is written. Where `fopen` gives a null
-- pointer, `fwrite` is called with it.
unfoldable pub ext_write_block :
    (ℕ → Text) → (Text → Bool) → BlockFiles → Text → Text → ℕ → Content → Outcome BlockFiles
ext_write_block decimal can_write files wd filename block_id buf =
    allocated_path decimal wd filename block_id >>= λ path.
    if can_write path then done (λ p. if text_eq p path then some buf else files p) else undefined

-- The first NUL of the `n` bytes from `k` on.
unfoldable pub first_nul : ℕ → ℕ → Content → Option ℕ
first_nul zero k buf = none
first_nul (suc n) k buf = let rest = first_nul n (k + 1) buf in if buf k == 0 then some k else rest

-- `strcpy` from one buffer of a block to another: without a NUL it leaves both.
unfoldable pub strcpy_content : Content → Content → Outcome Content
strcpy_content to from = elim (first_nul 1024 0 from) [
  | none ↦ undefined
  | some n ↦ done (λ k. if leb k n then from k else to k)
]

unfoldable pub read_block : (ℕ → Text) → BlockServer → BlockFiles → FileBlock → Outcome FileBlock
read_block decimal server files block =
    ext_read_block decimal files server.working_directory block.owner_name block.block_id
    >>= λ buffer. strcpy_content (λ k. 0) buffer >>= λ content. done (record {
      owner_name = block.owner_name;
      dn_id = server.datanode_id;
      block_id = block.block_id;
      loc_ip = [];
      loc_port = 0;
      content = content;
    })

unfoldable pub create_block : (ℕ → Text) → BlockServer → BlockFiles → FileBlock → Outcome BlockFiles
create_block decimal server files block =
    ext_write_block decimal server.can_write files server.working_directory block.owner_name
      block.block_id block.content

-- What is sent back, if anything, and the files after it.
unfoldable pub requests_dispatcher :
    (ℕ → Text) → BlockServer → BlockFiles → DataRequest → Outcome (Option FileBlock × BlockFiles)
requests_dispatcher decimal server files request =
    let read = read_block decimal server files request.block >>= λ b. done (some b, files) in
    let create = create_block decimal server files request.block >>= λ later. done (none, later) in
    if request.op_type == 0
    then read
    else if request.op_type == 1
    then create
    else done (none, files)
