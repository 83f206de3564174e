-- ===== src/Sfs/Cursor.antt =====
-- `sfs_seek` and `sfs_eof` of PA3/a2/fs.c.
pub mod Seek
use ecse.Common.{
  ℕ, ◌+◌, ◌-◌, ◌%◌, ◌^◌, Outcome, done, undefined, ◌>>=◌, leb, ltb, ◌==◌, if◌then◌else◌,
}
use ecse.Common.Int.{ℤ, pos, negsuc}
use ecse.Sfs.Layout.{file_size, sfs_max_opened_files}
use ecse.Sfs.State.{Fs, Fd, read_fresh, set_fd}

-- An `int` converted to `u32`, and back.
abbrev pub to_u32 : ℤ → ℕ
to_u32 (pos n) = n % 2 ^ 32
to_u32 (negsuc n) = 2 ^ 32 - 1 - n % 2 ^ 32

abbrev pub to_int : ℕ → ℤ
to_int w = if ltb w (2 ^ 31) then pos w else negsuc (2 ^ 32 - 1 - w)

abbrev pub set_cur : Fs → ℕ → ℕ → Fs
set_cur s fd cur = set_fd s fd (record (s.fdtable fd) { cur = cur })

-- `if(new_cur < 0) … else …`
abbrev pub store_cur : Fs → ℕ → ℤ → Fs
store_cur s fd (pos n) = set_cur s fd n
store_cur s fd (negsuc n) = set_cur s fd 0

-- The base of the move: 0 for `SFS_SEEK_SET`, 1 for `SFS_SEEK_CUR`, 2 for `SFS_SEEK_END`. For any
-- other `loc` the function reads a variable that was never set.
unfoldable pub new_cur : Fs → ℕ → ℤ → ℕ → Outcome ℤ
new_cur s fd relative loc =
    if loc == 0
    then done relative
    else if loc == 1
    then done (to_int (((s.fdtable fd).cur + to_u32 relative) % 2 ^ 32))
    else if loc == 2
    then (let node = read_fresh s (s.fdtable fd).inode_bid in
        done (to_int ((file_size node + to_u32 relative) % 2 ^ 32)))
    else undefined

unfoldable pub sfs_seek : Fs → ℕ → ℤ → ℕ → Outcome (ℤ × Fs)
sfs_seek s fd relative loc =
    if leb sfs_max_opened_files fd
    then undefined
    else (new_cur s fd relative loc >>= λ c. done (pos 0, store_cur s fd c))

unfoldable pub sfs_eof : Fs → ℕ → Outcome ℕ
sfs_eof s fd =
    let node = read_fresh s (s.fdtable fd).inode_bid in
    if leb sfs_max_opened_files fd
    then undefined
    else done (if ltb (file_size node) (s.fdtable fd).cur then 1 else 0)
