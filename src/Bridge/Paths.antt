-- ===== src/Bridge/Paths.antt =====
-- Which blocks of a file have a path that fits the bytes allocated for it.
use ecse.Common.{
  ℕ, ◌+◌, ◌<◌, ◌≤◌, ◌≡◌, refl, [], ◌∷◌, ◌++◌, undefined, arith, length, length-append, ltb_of_lt,
}
use ecse.Common.Texts.{Text}
use ecse.Sfs.State.{Fs}
use ecse.Datanode.Paths.{IsDecimal}
use ecse.Bridge.{get_block_file_path, allocated_path, ext_read_block, ext_write_block}

module _ (decimal : ℕ → Text) (d : IsDecimal decimal) (filename : Text) (i : ℕ) where
  length_path :
      length (get_block_file_path decimal filename i) ≡ length filename + 5 + length (decimal i)
  unfolding get_block_file_path
  length_path =
      let marked : Text = 95 ∷ 98 ∷ 108 ∷ 107 ∷ [] in
      let whole = length-append (filename ++ marked) (95 ∷ decimal i) in
      let start = length-append filename marked in omega (arith, whole, start)

  allocated_path_overrun : 10 ≤ i → i < 100 → allocated_path decimal filename i ≡ undefined
  unfolding allocated_path
  allocated_path_overrun le lt =
      let two = d.two_digits i le lt in
      let all = length_path in
      rw
        (
          ltb_of_lt (length filename + 7) (length (get_block_file_path decimal filename i) + 1)
              (omega (arith, two, all)),
          allocated_path,
        )
        refl

  -- From block 10 to block 99 of a file, reading and writing overrun the bytes allocated for the
  -- path, in any file system, where numbers are printed in decimal digits.
  pub ext_blocks_overrun :
      (rounds : ℕ) (s : Fs) (buf : ℕ → ℕ)
      → 10 ≤ i
      → i < 100
      → (ext_read_block rounds decimal s filename i buf ≡ undefined)
        × (ext_write_block rounds decimal s filename i buf ≡ undefined)
  unfolding ext_read_block ext_write_block
  ext_blocks_overrun rounds s buf le lt =
      let e = allocated_path_overrun le lt in
      (rw (e, ext_read_block) refl, rw (e, ext_write_block) refl)
