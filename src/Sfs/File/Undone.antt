-- ===== src/Sfs/File/Undone.antt =====
-- `sfs_open` of a new name and `sfs_remove` of the file that it makes.
use ecse.Common.{ℕ, ◌≡◌, List}
use ecse.Storage.{Blkid}
use ecse.Sfs.Layout.{Name}
use ecse.Sfs.State.{Fs, set_fd}
use ecse.Sfs.Freemap.Map.{used}
use ecse.Sfs.Freemap.Alloc.{disk_map}
use ecse.Sfs.File.Missing.{IsVacant}
use ecse.Sfs.File.Created.{Created}
use ecse.Sfs.File.Opening.{new_fd}
use ecse.Sfs.File.Removing.{IsData}

module _ {s u : Fs} {ids : List Blkid} {x : Blkid} {name : Name} {i : ℕ} {n1 n2 n3 : Blkid}
    (data_x : IsData s x) (taken : used (disk_map s) x ≡ 1) (vacant : IsVacant s x name i)
    (c : Created s ids x name i n1 n2 n3 u) (k : ℕ) where
  abbrev t : Fs
  t = set_fd u k (new_fd (u.disk.block n1) n1 x)
