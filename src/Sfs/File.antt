-- ===== src/Sfs/File.antt =====
-- `sfs_open`, `sfs_close`, `sfs_remove` and `sfs_ls` of PA3/a2/fs.c.
pub mod Listing
pub mod Opening
pub mod Missing
pub mod Steps
pub mod Created
pub mod Creating
pub mod Again
pub mod Removing
pub mod Undone
mod Tests
use ecse.Common.{
  ℕ, zero, suc, ◌+◌, Bool, true, false, Option, none, some, Outcome, done, undefined, diverged,
  ◌>>=◌, leb, ltb, ◌==◌, if◌then◌else◌, length,
}
use ecse.Common.Int.{ℤ, pos, negsuc}
use ecse.Storage.{Block, Blkid, Storage, set_word, zero_block, sfs_read_block, sfs_write_block}
use ecse.Sfs.Layout.{
  Name, first_dir, next_dir, inodes, inodes_at, content, first_frame, next_frame, file_name_at,
  strcpy, strcmp_eq, sfs_db_ninodes, sfs_frame_count, sfs_max_opened_files,
}
use ecse.Sfs.State.{Fd, Fs, read_fresh, write_to, set_fd}
use ecse.Sfs.Freemap.{sfs_alloc_block, sfs_free_block}
use ecse.Sfs.Directory.{sfs_find_dir}

-- The first descriptor that is not in use, if there is one; the rounds left come first.
unfoldable pub free_fd : ℕ → (ℕ → Fd) → ℕ → Option ℕ
free_fd zero table k = none
free_fd (suc n) table k =
    let rest = free_fd n table (k + 1) in if (table k).valid == 0 then some k else rest

-- What the search of a directory's slots ends with: the block and the content of the inode with the
-- name, or the first free slot and what the local `inode` holds.
pub data Lookup : Type 0 where
  hit : Blkid → Block → Lookup
  miss : Option ℕ → Block → Lookup

-- `if(free_inode == -1) free_inode = count;`
abbrev pub keep_first : Option ℕ → ℕ → Option ℕ
keep_first none count = some count
keep_first (some k) count = some k

-- `while(count < SFS_DB_NINODES)` of `sfs_open`, with the rounds left first.
unfoldable pub find_file : ℕ → Storage → Block → Name → ℕ → Option ℕ → Block → Lookup
find_file zero d dir name count free inode = miss free inode
find_file (suc n) d dir name count free inode =
    let bid = inodes dir count in
    let node = sfs_read_block d inode bid in
    let skip = find_file n d dir name (count + 1) (keep_first free count) inode in
    let next = find_file n d dir name (count + 1) free node in
    if bid == 0 then skip else if strcmp_eq name node file_name_at then hit bid node else next

-- The bytes of an inode from `file_name` on: a longer string leaves the struct.
abbrev pub file_room : ℕ
file_room = 504

-- The branch of `sfs_open` that creates the file: `inode` is what the local variable held, `slot`
-- the free slot of the directory. `inodes[-1]` is out of bounds.
unfoldable pub create_file :
    Fs → Block → Blkid → Option ℕ → Block → Name → Outcome (Fs × Blkid × Block)
create_file s dir dir_bid none inode name = sfs_alloc_block s >>= λ x. undefined
create_file s dir dir_bid (some slot) inode name = sfs_alloc_block s >>= λ (node_bid, s1).
    let s2 = write_to s1 (set_word dir (inodes_at + slot) node_bid) dir_bid in
    if ltb (length name) file_room
    then (sfs_alloc_block s2 >>= λ (frame_bid, s3).
        let node = set_word (set_word (strcpy inode file_name_at name) 1 frame_bid) 0 0 in
        let s4 = write_to s3 node node_bid in
        let frame = read_fresh s4 frame_bid in
        sfs_alloc_block s4 >>= λ (content_bid, s5).
        done (write_to s5 (set_word frame 1 content_bid) frame_bid, node_bid, node))
    else undefined

-- `fdtable[fd_num] = fd`, where `fd` has become valid with the cursor at the start.
abbrev pub opened : Fs → ℕ → Blkid → Blkid → Block → ℤ × Fs
opened s k dir_bid node_bid node = (
  pos k,
  set_fd s k (record { inode = node; inode_bid = node_bid; dir_bid = dir_bid; cur = 0; valid = 1 }),
)

unfoldable pub open_found : Fs → ℕ → Block → Blkid → Name → Lookup → Outcome (ℤ × Fs)
open_found s k dir dir_bid name (hit bid node) = done (opened s k dir_bid bid node)
open_found s k dir dir_bid name (miss free inode) =
    create_file s dir dir_bid free inode name >>= λ (s1, bid, node).
    done (opened s1 k dir_bid bid node)

-- Where the directory is not found its block number is 0, and the super block is taken for it.
unfoldable pub open_at : ℕ → Fs → ℕ → Name → Name → Outcome (ℤ × Fs)
open_at rounds s k dirname name = sfs_find_dir rounds s dirname >>= λ dir_bid.
    let dir = read_fresh s dir_bid in
    open_found s k dir dir_bid name (find_file sfs_db_ninodes s.disk dir name 0 none s.stack)

unfoldable pub sfs_open : ℕ → Fs → Name → Name → Outcome (ℤ × Fs)
sfs_open rounds s dirname name = elim (free_fd sfs_max_opened_files s.fdtable 0) [
  | none ↦ done (negsuc 0, s)
  | some k ↦ open_at rounds s k dirname name
]

-- A descriptor from 32 on is out of the table's bounds.
unfoldable pub sfs_close : Fs → ℕ → Outcome (ℤ × Fs)
sfs_close s fd =
    if leb sfs_max_opened_files fd
    then undefined
    else done (pos 0, set_fd s fd (record (s.fdtable fd) { valid = 0 }))

-- The first slot that holds the inode is cleared.
unfoldable pub clear_slot : ℕ → ℕ → Block → Blkid → Block
clear_slot zero count dir bid = dir
clear_slot (suc n) count dir bid =
    let rest = clear_slot n (count + 1) dir bid in
    if inodes dir count == bid then set_word dir (inodes_at + count) 0 else rest

-- `for(i = 0; i < SFS_FRAME_COUNT; i++)` of `sfs_remove`.
unfoldable pub free_contents : ℕ → ℕ → Block → Fs → Outcome Fs
free_contents zero i frame s = done s
free_contents (suc n) i frame s =
    (if content frame i == 0 then done s else sfs_free_block s (content frame i)) >>= λ s1.
    free_contents n (i + 1) frame s1

-- `while(next_frame != 0)` of `sfs_remove`, with the rounds left first.
unfoldable pub free_frames : ℕ → Block → Blkid → Fs → Outcome Fs
free_frames zero buf bid s = diverged
free_frames (suc n) buf bid s =
    let frame = sfs_read_block s.disk buf bid in
    let rest = free_contents sfs_frame_count 0 frame s >>= λ s1.
    sfs_free_block s1 bid >>= λ s2. free_frames n frame (next_frame frame) s2 in
    if bid == 0 then done s else rest

-- `dir.inodes[inode_bid] = 0` indexes the slots by a block number, which is out of bounds from 97 on.
-- The descriptor that is reset at the end is a local copy.
unfoldable pub sfs_remove : ℕ → Fs → ℕ → Outcome (ℤ × Fs)
sfs_remove rounds s fd_num =
    let fd = s.fdtable fd_num in
    let dir = clear_slot sfs_db_ninodes 0 (read_fresh s fd.dir_bid) fd.inode_bid in
    if leb sfs_max_opened_files fd_num
    then undefined
    else if leb sfs_db_ninodes fd.inode_bid
    then undefined
    else (let s1 = write_to s (set_word dir (inodes_at + fd.inode_bid) 0) fd.dir_bid in
        let node = sfs_read_block s1.disk (read_fresh s fd.dir_bid) fd.inode_bid in
        free_frames rounds s1.stack (first_frame node) s1 >>= λ s2.
        sfs_free_block s2 fd.inode_bid >>= λ s3. done (pos 0, s3))

-- The slots of a directory: how many hold a file, and what `block_ptr` holds after their inodes are
-- read.
unfoldable pub count_files : ℕ → ℕ → Storage → Block → Block → ℕ → ℕ × Block
count_files zero count d dir buf num = (num, buf)
count_files (suc n) count d dir buf num =
    let free = inodes dir count == 0 in
    count_files n (count + 1) d dir (if free then buf else sfs_read_block d buf (inodes dir count))
      (if free then num else num + 1)

-- `while(next_dir != 0)` of `sfs_ls`, with the rounds left first.
unfoldable pub ls_from : ℕ → Storage → Block → Blkid → ℕ → Outcome ℕ
ls_from zero d buf bid num = diverged
ls_from (suc n) d buf bid num =
    let dir = sfs_read_block d buf bid in
    let seen = count_files sfs_db_ninodes 0 d dir dir num in
    let rest = ls_from n d seen.1 (next_dir dir) seen.0 in if bid == 0 then done num else rest

unfoldable pub sfs_ls : ℕ → Fs → Outcome (ℕ × Fs)
sfs_ls rounds s =
    let s1 = record s { sb = sfs_read_block s.disk s.sb 0 } in
    ls_from rounds s1.disk s1.stack (first_dir s1.sb) 0 >>= λ num. done (num, s1)
