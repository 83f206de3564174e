-- ===== src/Sfs/Table.antt =====
-- What a user of the directories of PA3/a2/fs.c relies on: a list of names, and what each call
-- answers. Below it, the calls of the file system as a list of commands.
pub mod Names
pub mod Refines
mod Tests
use ecse.Common.{
  ℕ, zero, suc, ◌+◌, ◌<◌, Bool, true, false, List, [], ◌∷◌, ◌++◌, Outcome, done, ◌>>=◌,
  if◌then◌else◌, length,
}
use ecse.Common.Int.{ℤ, pos, negsuc}
use ecse.Common.Texts.{Text, text_eq, IsText}
use ecse.Sfs.State.{Fs}
use ecse.Sfs.Directory.{sfs_mkdir, sfs_rmdir, sfs_lsdir}

pub data Command : Type 0 where
  mkdir : Text → Command
  rmdir : Text → Command
  lsdir : Command

-- A name that fits the struct of a directory, with its NUL.
abbrev pub IsName : Text → Type 0
IsName name = IsText name × (length name < 120)

abbrev pub IsCommand : Command → Type 0
IsCommand (mkdir name) = IsName name
IsCommand (rmdir name) = IsName name
IsCommand lsdir = Unit

unfoldable pub holds : Text → List Text → Bool
holds name [] = false
holds name (n ∷ ns) = if text_eq name n then true else holds name ns

-- The list without the first such name.
unfoldable pub without : Text → List Text → List Text
without name [] = []
without name (n ∷ ns) = if text_eq name n then ns else n ∷ without name ns

-- The answer of a command, and the names after it.
unfoldable pub answer : List Text → Command → ℤ × List Text
answer names (mkdir name) =
    if holds name names then (negsuc 0, names) else (pos 0, names ++ name ∷ [])
answer names (rmdir name) =
    if holds name names then (pos 0, without name names) else (negsuc 0, names)
answer names lsdir = (pos (length names), names)

unfoldable pub answers : List Text → List Command → List ℤ × List Text
answers names [] = ([], names)
answers names (c ∷ cs) =
    let (r, later) = answer names c in let (rs, last) = answers later cs in (r ∷ rs, last)

-- A command on the file system.
unfoldable pub perform : ℕ → Fs → Command → Outcome (ℤ × Fs)
perform rounds s (mkdir name) = sfs_mkdir rounds s name
perform rounds s (rmdir name) = sfs_rmdir rounds s name
perform rounds s lsdir = sfs_lsdir rounds s >>= λ (num, t). done (pos num, t)

unfoldable pub perform_all : ℕ → Fs → List Command → Outcome (List ℤ × Fs)
perform_all rounds s [] = done ([], s)
perform_all rounds s (c ∷ cs) =
    perform rounds s c >>= λ (r, t). perform_all rounds t cs >>= λ (rs, u). done (r ∷ rs, u)
