-- ===== src/Bridge.antt =====
-- The datanode's blocks as files of the file system of PA3/a2: PA3/datanode/exta2.c.
pub mod Paths
mod Tests
use ecse.Common.{ℕ, ◌+◌, [], ◌∷◌, ◌++◌, Outcome, done, undefined, ◌>>=◌, ltb, if◌then◌else◌, length}
use ecse.Common.Int.{ℤ, pos, negsuc}
use ecse.Common.Texts.{Text}
use ecse.Namenode.{dfs_block_size}
use ecse.Sfs.State.{Fs}
use ecse.Sfs.Directory.{sfs_mkdir}
use ecse.Sfs.File.{sfs_open, sfs_close}
use ecse.Sfs.Format.{sfs_mkfs, sfs_print_info}
use ecse.Sfs.Content.{sfs_write}
use ecse.Sfs.Reading.{sfs_read}

abbrev pub root_dir : Text
root_dir = 47 ∷ []

-- `"%s_blk_%d"`, where `decimal` is what `sprintf` prints for `%d`.
unfoldable pub get_block_file_path : (ℕ → Text) → Text → ℕ → Text
get_block_file_path decimal filename block_id =
    (filename ++ (95 ∷ 98 ∷ 108 ∷ 107 ∷ [])) ++ 95 ∷ decimal block_id

-- The path in the bytes allocated for it, with its NUL.
unfoldable pub allocated_path : (ℕ → Text) → Text → ℕ → Outcome Text
allocated_path decimal filename block_id =
    let path = get_block_file_path decimal filename block_id in
    if ltb (length filename + 7) (length path + 1) then undefined else done path

-- The descriptor as an index of the table: -1 is out of its bounds.
unfoldable pub descriptor : ℤ → Outcome ℕ
descriptor (pos fd) = done fd
descriptor (negsuc n) = undefined

unfoldable pub ext_read_block : ℕ → (ℕ → Text) → Fs → Text → ℕ → (ℕ → ℕ) → Outcome ((ℕ → ℕ) × Fs)
ext_read_block rounds decimal s filename block_id buf =
    allocated_path decimal filename block_id >>= λ blk_path.
    sfs_open rounds s root_dir blk_path >>= λ (r, s1). descriptor r >>= λ fd.
    sfs_read rounds s1 fd buf dfs_block_size >>= λ (n, out, s2).
    sfs_close s2 fd >>= λ (closed, s3). done (out, s3)

-- The directory is made where there is none; what `sfs_mkdir` returns is not looked at.
unfoldable pub ext_write_block : ℕ → (ℕ → Text) → Fs → Text → ℕ → (ℕ → ℕ) → Outcome Fs
ext_write_block rounds decimal s filename block_id buf =
    allocated_path decimal filename block_id >>= λ blk_path.
    sfs_mkdir rounds s root_dir >>= λ (dirbid, s1).
    sfs_open rounds s1 root_dir blk_path >>= λ (r, s2). descriptor r >>= λ fd.
    sfs_write rounds s2 fd buf dfs_block_size >>= λ (a, s3).
    let (super, s4) = sfs_print_info s3 in sfs_close s4 fd >>= λ (closed, s5). done s5

-- The image is made or cut to nothing, and formatted.
unfoldable pub ext_init_local_fs : Fs → Fs
ext_init_local_fs s = let (r, t) = sfs_mkfs (record s { disk = record s.disk { length = 0 } }) in t
