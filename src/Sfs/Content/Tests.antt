-- ===== src/Sfs/Content/Tests.antt =====
-- The theorems on the content of files at a concrete file of 1000 bytes in two blocks.
use ecse.Common.{
  ℕ, zero, suc, ◌+◌, ◌≤◌, ◌≡◌, ◌≢◌, refl, done, ◌<◌, undefined, arith, ◌==◌, if◌then◌else◌,
}
use ecse.Storage.{Storage, zero_block, set_word, sfs_read_block, slot}
use ecse.Sfs.Layout.{content}
use ecse.Sfs.State.{Fs}
use ecse.Sfs.Content.{sfs_write}
use ecse.Sfs.Content.Slice.{frame_bid_of}
use ecse.Sfs.Cursor.{sfs_seek}
use ecse.Sfs.Reading.{sfs_read}
use ecse.Sfs.Reading.Back.{IsApart, sfs_read-sfs_write}
use ecse.Sfs.Reading.Texts.{IsTextOf}
use ecse.Common.Int.{pos}
use ecse.Sfs.Content.Write.{HasBytes, sfs_write_crossing}

-- Block 2 is the inode, block 3 its frame, with the content in the blocks 4 and 5.
abbrev image : Storage
image = record {
  length = 6;
  block = λ k.
      if k == 2
      then set_word (set_word zero_block 0 1000) 1 3
      else if k == 3
      then set_word (set_word zero_block 1 4) 2 5
      else zero_block;
}

-- Every descriptor is one of that file, with the cursor at the given position.
abbrev at_cur : ℕ → Fs
at_cur cur = record {
  sb = zero_block;
  freemap = zero_block;
  fdtable = λ k. record { inode = zero_block; inode_bid = 2; dir_bid = 6; cur = cur; valid = 1 };
  disk = image;
  stack = zero_block;
}

frame_three : (cur : ℕ) → frame_bid_of (at_cur cur) 1 ≡ 3
unfolding sfs_read_block slot
frame_three cur = refl

two_full :
    (cur j : ℕ) → j ≤ 1 → content ((at_cur cur).disk.block (frame_bid_of (at_cur cur) 1)) j ≢ 0
two_full cur zero le = rw (frame_three cur) (λ e. omega arith)
two_full cur (suc zero) le = rw (frame_three cur) (λ e. omega arith)
two_full cur (suc (suc j)) le = absurd (omega arith)

bytes_of : (cur size : ℕ) → cur + size ≤ 1000 → HasBytes (at_cur cur) 1 size
unfolding sfs_read_block slot
bytes_of cur size le = record {
  valid = omega arith;
  small = omega arith;
  inside = omega arith;
  one_frame = omega arith;
  within = le;
  full = λ j lo hi. two_full cur j (omega arith);
}

-- The letter `x` over and over.
abbrev xs : ℕ → ℕ
xs k = 120

sfs_write_crossing_example : sfs_write 1 (at_cur 500) 1 xs 100 ≡ undefined
sfs_write_crossing_example =
    sfs_write_crossing 0 (at_cur 500) 1 xs 100 (bytes_of 500 100 (omega arith)) (omega arith)

at_cur-IsApart : IsApart (at_cur 600) 1
unfolding sfs_read_block slot
at_cur-IsApart = record {
  small = omega arith;
  inside = omega arith;
  not_frame = λ e. absurd (omega (arith, e));
  not_inode = λ e. absurd (omega (arith, e));
  inode_small = omega arith;
  inode_inside = omega arith;
}

xs-IsTextOf : IsTextOf xs 0 10
xs-IsTextOf = record { bytes = λ l q. omega arith; nonzero = λ l q. refl }

sfs_read-sfs_write_example :
    (t : Fs) × (u : Fs) × (v : Fs) × (got : ℕ → ℕ) × (sfs_write 1 (at_cur 600) 1 xs 10
      ≡ done (10, t))
    × (sfs_seek t 1 (pos 600) 0 ≡ done (pos 0, u))
    × (sfs_read 1 u 1 (λ k. 0) 10 ≡ done (10, got, v))
    × ((l : ℕ) → l < 10 → got l ≡ xs l)
sfs_read-sfs_write_example =
    sfs_read-sfs_write 0 (at_cur 600) 1 xs (λ k. 0) 10 (bytes_of 600 10 (omega arith))
      at_cur-IsApart xs-IsTextOf (omega arith) (omega arith)
