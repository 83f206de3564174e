-- ===== src/Namenode.antt =====
-- The namenode of PA3/namenode/dfs_namenode.c, over the structs of PA3/include/common/dfs_common.h:
-- which datanodes are alive, and which datanode holds which block of which file.
pub mod Nodes
pub mod Assign
pub mod Files
pub mod Receivers
pub mod Update
pub mod Cases
pub mod Kept
pub mod Spread
pub mod Service
mod Tests
use ecse.Common.{
  ℕ, zero, suc, ◌+◌, ◌-◌, ◌/◌, ◌%◌, Bool, true, false, ◌&&◌, List, [], ◌∷◌, Option, none, some,
  Outcome, done, undefined, diverged, ◌>>=◌, leb, ltb, ◌==◌, if◌then◌else◌,
}
use ecse.Common.Texts.{Text, text_eq}
use ecse.Common.Int.{ℤ, pos, negsuc}

abbrev pub max_datanode_num : ℕ
max_datanode_num = 10

abbrev pub max_file_count : ℕ
max_file_count = 1000

abbrev pub max_file_blk_count : ℕ
max_file_blk_count = 100

abbrev pub dfs_block_size : ℕ
dfs_block_size = 1024

-- `dfs_datanode_t`; nothing reads `live_marks`.
pub record Datanode : Type 0 where
  pub dn_id : ℕ
  pub ip : Text
  pub port : ℕ

-- `dfs_cm_block_t`
pub record FileBlock : Type 0 where
  pub owner_name : Text
  pub dn_id : ℕ
  pub block_id : ℕ
  pub loc_ip : Text
  pub loc_port : ℕ
  pub content : ℕ → ℕ

abbrev pub zero_file_block : FileBlock
zero_file_block = record {
  owner_name = [];
  dn_id = 0;
  block_id = 0;
  loc_ip = [];
  loc_port = 0;
  content = λ k. 0;
}

-- `dfs_cm_file_t`; the block list has 100 entries.
pub record FileImage : Type 0 where
  pub filename : Text
  pub block_list : ℕ → FileBlock
  pub file_size : ℕ
  pub blocknum : ℕ

-- `dfs_cm_client_req_t`: the size is that of a file, so it is not negative.
pub record Request : Type 0 where
  pub file_name : Text
  pub file_size : ℕ
  pub req_type : ℕ

-- The global variables of the namenode. `stack` is what the content of a local block holds.
pub record Namenode : Type 0 where
  pub dnlist : ℕ → Option Datanode
  pub file_images : ℕ → Option FileImage
  pub dncnt : ℕ
  pub safe_mode : ℕ
  pub stack : ℕ → ℕ

abbrev pub is_some {ℓ} : {A : Type ℓ} → Option A → Bool
is_some none = false
is_some (some a) = true

abbrev pub set_at {ℓ} : {A : Type ℓ} → (ℕ → A) → ℕ → A → ℕ → A
set_at f i v k = if k == i then v else f k

-- The branch of `register_datanode` for an id below the bound, by its index in the list. A new entry
-- is counted; the port comes converted by `ntohs`, the address by `inet_ntoa`.
unfoldable pub enter_node : Namenode → ℕ → ℕ → Text → Namenode
enter_node s i port ip = record s {
  dnlist = set_at s.dnlist i (some (record { dn_id = i + 1; ip = ip; port = port }));
  dncnt = if is_some (s.dnlist i) then s.dncnt else s.dncnt + 1;
  safe_mode = 0;
}

-- One connection of `register_datanode`. An id of 0 or less passes the test and indexes the list out
-- of its bounds.
unfoldable pub register_datanode : Namenode → ℤ → ℕ → Text → Outcome Namenode
register_datanode s (pos zero) port ip = undefined
register_datanode s (pos (suc i)) port ip =
    if ltb (suc i) max_datanode_num then done (enter_node s i port ip) else done s
register_datanode s (negsuc n) port ip = undefined

-- The first file with the name, with the indices left first.
unfoldable pub find_image : ℕ → (ℕ → Option FileImage) → Text → ℕ → Option (ℕ × FileImage)
find_image zero images name i = none
find_image (suc n) images name i =
    let rest = find_image n images name (i + 1) in
    elim (images i) [ none ↦ rest | some f ↦ if text_eq f.filename name then some (i, f) else rest ]

unfoldable pub find_free : ℕ → (ℕ → Option FileImage) → ℕ → Option ℕ
find_free zero images i = none
find_free (suc n) images i =
    let rest = find_free n images (i + 1) in if is_some (images i) then rest else some i

-- `while(dnlist[i] == NULL) i = (i + 1) % MAX_DATANODE_NUM`. After ten rounds every entry has been
-- tried and the loop never ends.
unfoldable pub find_node : ℕ → (ℕ → Option Datanode) → ℕ → Outcome (ℕ × Datanode)
find_node zero nodes i = diverged
find_node (suc n) nodes i =
    let rest = find_node n nodes ((i + 1) % max_datanode_num) in
    elim (nodes i) [ none ↦ rest | some d ↦ done (i, d) ]

-- The block that is entered for the node at index `i`.
abbrev pub block_on : Text → (ℕ → ℕ) → ℕ → ℕ → Datanode → FileBlock
block_on name junk index i d = record {
  owner_name = name;
  dn_id = i + 1;
  block_id = index;
  loc_ip = d.ip;
  loc_port = d.port;
  content = junk;
}

-- The loop of `get_file_receivers` that assigns blocks, with the rounds left first. The list has 100
-- entries.
unfoldable pub assign_blocks :
    ℕ → (ℕ → Option Datanode) → Text → (ℕ → ℕ) → ℕ → ℕ → (ℕ → FileBlock) → Outcome (ℕ → FileBlock)
assign_blocks zero nodes name junk index next blocks = done blocks
assign_blocks (suc n) nodes name junk index next blocks =
    find_node max_datanode_num nodes (next % max_datanode_num) >>= λ (i, d).
    let set = set_at blocks index (block_on name junk index i d) in
    if leb max_file_blk_count index
    then undefined
    else assign_blocks n nodes name junk (index + 1) (i + 1) set

abbrev pub blocks_for : ℕ → ℕ
blocks_for size = (size + (dfs_block_size - 1)) / dfs_block_size

-- A reply: the return code, and the file that is sent, if one is.
abbrev pub Reply : Type 0
Reply = ℤ × Option FileImage

-- `get_file_receivers` once the entry of the file is found or made.
unfoldable pub assign_file : Namenode → Request → ℕ → FileImage → Outcome (Reply × Namenode)
assign_file s request slot f =
    let count = blocks_for request.file_size in
    assign_blocks count s.dnlist request.file_name s.stack f.blocknum 0 f.block_list >>= λ blocks.
    let g = record f { blocknum = count; block_list = blocks } in
    done ((pos 0, some g), record s { file_images = set_at s.file_images slot (some g) })

abbrev pub new_image : Request → FileImage
new_image request = record {
  filename = request.file_name;
  block_list = λ k. zero_file_block;
  file_size = request.file_size;
  blocknum = 0;
}

unfoldable pub get_file_receivers : Namenode → Request → Outcome (Reply × Namenode)
get_file_receivers s request = elim (find_image max_file_count s.file_images request.file_name 0) [
  | some (slot, f) ↦ assign_file s request slot f
  | none ↦ elim (find_free max_file_count s.file_images 0) [
    | none ↦ done ((pos 1, none), s)
    | some slot ↦ assign_file s request slot (new_image request)
  ]
]

unfoldable pub get_file_location : Namenode → Request → Reply
get_file_location s request = elim (find_image max_file_count s.file_images request.file_name 0) [
  | none ↦ (pos 1, none)
  | some (slot, f) ↦ (pos 0, some f)
]

-- `get_system_information` sends the number of datanodes.
unfoldable pub get_system_information : Namenode → ℕ
get_system_information s = s.dncnt

-- The loop of `get_file_update_point`: the index of the datanode is not moved on.
unfoldable pub extend_blocks :
    ℕ → (ℕ → Option Datanode) → Text → ℕ → ℕ → (ℕ → FileBlock) → Outcome (ℕ → FileBlock)
extend_blocks zero nodes name index node blocks = done blocks
extend_blocks (suc n) nodes name index node blocks =
    find_node max_datanode_num nodes (node % max_datanode_num) >>= λ (i, d).
    let set = set_at blocks index (block_on name (λ k. 0) index i d) in
    if leb max_file_blk_count index then undefined else extend_blocks n nodes name (index + 1) i set

-- The number of blocks is raised by `blocks_to_allocate`, which the loop has counted down to 0.
unfoldable pub extend_file : Namenode → Request → ℕ → FileImage → Outcome (Reply × Namenode)
extend_file s request slot f =
    let need = blocks_for request.file_size - f.blocknum in
    let node = (f.block_list f.blocknum).dn_id in
    if leb max_file_blk_count f.blocknum
    then undefined
    else (extend_blocks need s.dnlist request.file_name f.blocknum node f.block_list >>= λ blocks.
        let g = record f { blocknum = f.blocknum + 0; block_list = blocks } in
        done ((pos 0, some g), record s { file_images = set_at s.file_images slot (some g) }))

unfoldable pub get_file_update_point : Namenode → Request → Outcome (Reply × Namenode)
get_file_update_point s request =
    elim (find_image max_file_count s.file_images request.file_name 0) [
      | none ↦ done ((pos 1, none), s)
      | some (slot, f) ↦
          if ltb f.blocknum (blocks_for request.file_size)
          then extend_file s request slot f
          else done ((pos 0, some f), s)
    ]

-- What a request is answered by: a file, the number of datanodes, or nothing.
pub data Answer : Type 0 where
  file : Reply → Answer
  status : ℕ → Answer
  silent : Answer

unfoldable pub requests_dispatcher : Namenode → Request → Outcome (Answer × Namenode)
requests_dispatcher s request =
    let receivers = get_file_receivers s request >>= λ (r, t). done (file r, t) in
    let update = get_file_update_point s request >>= λ (r, t). done (file r, t) in
    if request.req_type == 0
    then done (file (get_file_location s request), s)
    else if request.req_type == 1
    then receivers
    else if request.req_type == 2
    then done (status (get_system_information s), s)
    else if request.req_type == 3
    then update
    else done (silent, s)
