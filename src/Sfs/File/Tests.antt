-- ===== src/Sfs/File/Tests.antt =====
-- `sfs_open` at a concrete image with one directory and one file, of that file and of a new one.
use ecse.Common.{
  ℕ, zero, suc, ◌+◌, ◌/◌, ◌%◌, ◌<◌, ◌≤◌, ◌≡◌, refl, inl, inr, ◌∷◌, [], done, arith, ltb, ◌==◌,
  if◌then◌else◌, eqb_of_ne,
}
use ecse.Common.Int.{pos}
use ecse.Common.Bits.{bit, bit-zero}
use ecse.Storage.{Block, Blkid, Storage, zero_block, set_word}
use ecse.Sfs.Layout.{inodes, byte, byte_of, strcmp_eq}
use ecse.Sfs.State.{Fs, set_fd}
use ecse.Sfs.Freemap.Map.{used, used-le}
use ecse.Sfs.Freemap.Space.{used_count}
use ecse.Sfs.Freemap.Alloc.{disk_map}
use ecse.Sfs.Cursor.{sfs_seek}
use ecse.Sfs.Content.{sfs_write}
use ecse.Sfs.Directory.Chain.{search}
use ecse.Sfs.Directory.Tree.{HasDirs}
use ecse.Sfs.File.{sfs_open, sfs_close}
use ecse.Sfs.File.Opening.{HasFile, IsFreeFd, IsOpened, new_fd, sfs_open-IsOpened}
use ecse.Sfs.File.Missing.{IsOther, IsVacant}
use ecse.Sfs.File.Created.{Created}
use ecse.Sfs.File.Creating.{sfs_open-Created}
use ecse.Sfs.File.Again.{sfs_open-sfs_close}
use ecse.Sfs.Reading.{sfs_read}
use ecse.Sfs.Reading.Texts.{IsTextOf}
use ecse.Sfs.Reading.Fresh.{sfs_read-sfs_open}

abbrev super_block : Block
super_block = set_word (set_word (set_word zero_block 1 1024) 2 1) 3 2

-- Block 2 is the directory `d`, block 3 the inode of the file `f` in it; the blocks 0 to 4 are taken.
abbrev image : Storage
image = record {
  length = 5;
  block = λ k.
      if k == 0
      then super_block
      else if k == 1
      then set_word zero_block 0 31
      else if k == 2
      then set_word (set_word zero_block 1 100) 31 3
      else if k == 3
      then set_word (set_word zero_block 1 4) 2 102
      else zero_block;
}

abbrev one_file : Fs
one_file = record {
  sb = super_block;
  freemap = zero_block;
  fdtable = λ k. record { inode = zero_block; inode_bid = 0; dir_bid = 0; cur = 0; valid = 0 };
  disk = image;
  stack = zero_block;
}

one_file-HasDirs : HasDirs one_file (2 ∷ [])
unfolding used bit
one_file-HasDirs = record {
  mounted = record {
    one_map = refl;
    long = omega arith;
    words = λ i. ground arith;
    super_used = refl;
    map_used = refl;
  };
  synced = refl;
  chain = (refl, omega arith, omega arith, omega arith, tt, refl);
  taken = (refl, tt);
}

found_d : search image (100 ∷ []) (2 ∷ []) ≡ 2
unfolding strcmp_eq byte byte_of
found_d = refl

has_f : HasFile image (image.block 2) (102 ∷ []) 0
unfolding strcmp_eq byte byte_of
has_f = record {
  slot = omega arith;
  taken = λ e. omega arith;
  small = omega arith;
  inside = omega arith;
  named = refl;
  before = λ l q. absurd (omega arith);
}

sfs_open-IsOpened_example :
    (t : Fs) × (sfs_open 2 one_file (100 ∷ []) (102 ∷ []) ≡ done (pos 0, t))
    × IsOpened one_file t 0
        (search image (100 ∷ []) (2 ∷ []))
        (inodes (image.block (search image (100 ∷ []) (2 ∷ []))) 0)
sfs_open-IsOpened_example =
    sfs_open-IsOpened 2 one_file (2 ∷ []) (100 ∷ []) (102 ∷ []) 0 0 one_file-HasDirs (omega arith)
      (rw found_d (λ e. omega arith)) (rw found_d has_f)
      (record { inside = omega arith; unused = refl; before = λ l q. absurd (omega arith) })

few_used :
    (m : Block)
    → ((j : Blkid) → 31 < j → used m j ≡ 0)
    → (n : ℕ) → used_count m n ≤ (if ltb n 32 then n else 32)
unfolding used_count
few_used m high zero = ground arith
few_used m high (suc n) = ground (arith, high n, used-le m n, few_used m high n)

high_free : (j : Blkid) → 31 < j → used (disk_map one_file) j ≡ 0
unfolding used
high_free j lt = rw (eqb_of_ne (j / 32) 0 (λ e. omega arith)) (bit-zero (j % 32))

room : used_count (disk_map one_file) 4096 + 3 ≤ 4096
room = omega (arith, few_used (disk_map one_file) high_free 4096)

one_file-IsOther : (l : ℕ) → l < 97 → IsOther one_file 2 (103 ∷ []) l
unfolding strcmp_eq byte byte_of used bit
one_file-IsOther zero lt =
    inr (omega arith, omega arith, omega arith, λ e. absurd (omega (arith, e)), refl, refl)
one_file-IsOther (suc l) lt = inl (ground arith)

vacant : IsVacant one_file (search image (100 ∷ []) (2 ∷ [])) (103 ∷ []) 1
vacant = rw found_d (record {
  slot = omega arith;
  empty = refl;
  before = λ l q. ground (arith, q);
  others = one_file-IsOther;
})

first_free : IsFreeFd one_file.fdtable 0
first_free = record { inside = omega arith; unused = refl; before = λ l q. absurd (omega arith) }

sfs_open-Created_example :
    (n1 : Blkid) × (n2 : Blkid) × (n3 : Blkid) × (u : Fs) × (sfs_open 2 one_file
        (100 ∷ [])
        (103 ∷ [])
      ≡ done (pos 0, set_fd u 0 (new_fd (u.disk.block n1) n1 (search image (100 ∷ []) (2 ∷ [])))))
    × Created one_file (2 ∷ []) (search image (100 ∷ []) (2 ∷ [])) (103 ∷ []) 1 n1 n2 n3 u
sfs_open-Created_example =
    sfs_open-Created 2 one_file (2 ∷ []) (100 ∷ []) (103 ∷ []) 1 0 one_file-HasDirs (omega arith)
      (rw found_d (λ e. omega arith)) vacant first_free (omega arith) (omega arith) room

sfs_open-sfs_close_example :
    (t : Fs) × (v : Fs) × (w : Fs) × (sfs_open 2 one_file (100 ∷ []) (103 ∷ []) ≡ done (pos 0, t))
    × (sfs_close t 0 ≡ done (pos 0, v))
    × (sfs_open 2 v (100 ∷ []) (103 ∷ []) ≡ done (pos 0, w))
    × (w.disk ≡ t.disk)
    × (w.fdtable ≡ t.fdtable)
sfs_open-sfs_close_example =
    sfs_open-sfs_close 2 one_file (2 ∷ []) (100 ∷ []) (103 ∷ []) 1 0 one_file-HasDirs (omega arith)
      (omega arith) (rw found_d (λ e. omega arith)) vacant first_free (omega arith) (omega arith)
      room

-- The letter `x` over and over.
abbrev xs : ℕ → ℕ
xs k = 120

xs-IsTextOf : IsTextOf xs 0 100
xs-IsTextOf = record { bytes = λ l q. omega arith; nonzero = λ l q. refl }

sfs_read-sfs_open_example :
    (t : Fs) × (u : Fs) × (v : Fs) × (w : Fs) × (got : ℕ → ℕ) × (sfs_open 2 one_file
        (100 ∷ [])
        (103 ∷ [])
      ≡ done (pos 0, t))
    × (sfs_write 1 t 0 xs 100 ≡ done (100, u))
    × (sfs_seek u 0 (pos 0) 0 ≡ done (pos 0, v))
    × (sfs_read 1 v 0 (λ k. 0) 100 ≡ done (100, got, w))
    × ((l : ℕ) → l < 100 → got l ≡ xs l)
sfs_read-sfs_open_example =
    sfs_read-sfs_open 2 0 one_file (2 ∷ []) (100 ∷ []) (103 ∷ []) 1 0 xs (λ k. 0) 100
      one_file-HasDirs (omega arith) (rw found_d (λ e. omega arith)) vacant first_free (omega arith)
      (omega arith) room xs-IsTextOf (omega arith) (omega arith)
