-- ===== src/Sfs/Table/Tests.antt =====
-- The list of names and the file system side by side, on a few commands.
use ecse.Common.{◌≡◌, refl, [], ◌∷◌, List, done, arith, All}
use ecse.Common.Int.{pos, negsuc}
use ecse.Common.Texts.{text_eq}
use ecse.Storage.{zero_block}
use ecse.Sfs.State.{Fs}
use ecse.Sfs.Format.{sfs_mkfs, sfs_print_info}
use ecse.Sfs.Table.{
  Command, mkdir, rmdir, lsdir, IsCommand, answers, answer, holds, without, perform_all,
}
use ecse.Sfs.Table.Refines.{Stores, perform_all-answers_mkfs}

abbrev blank : Fs
blank = record {
  sb = zero_block;
  freemap = zero_block;
  fdtable = λ k. record { inode = zero_block; inode_bid = 0; dir_bid = 0; cur = 0; valid = 0 };
  disk = record { length = 0; block = λ k. zero_block };
  stack = zero_block;
}

abbrev commands : List Command
commands =
    mkdir (97 ∷ [])
    ∷ mkdir (98 ∷ [])
    ∷ mkdir (97 ∷ [])
    ∷ lsdir
    ∷ rmdir (97 ∷ [])
    ∷ rmdir (97 ∷ [])
    ∷ lsdir
    ∷ []

commands-All : All IsCommand commands
commands-All = omega arith

answers_of_commands :
    (answers [] commands).0 ≡ pos 0 ∷ pos 0 ∷ negsuc 0 ∷ pos 2 ∷ pos 0 ∷ negsuc 0 ∷ pos 1 ∷ []
unfolding answers answer holds without text_eq
answers_of_commands = refl

perform_all-answers_mkfs_example :
    (u : Fs) × (perform_all 4095 (sfs_print_info (sfs_mkfs blank).1).1 commands
      ≡ done ((answers [] commands).0, u))
    × Stores u (answers [] commands).1
perform_all-answers_mkfs_example =
    perform_all-answers_mkfs blank commands commands-All (omega arith)
