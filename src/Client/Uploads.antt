-- ===== src/Client/Uploads.antt =====
-- Files that are pushed one after the other: what is asked of them, and what is promised.
pub mod Ready
pub mod Served
use ecse.Datanode.Content.{EndsAt}
use ecse.Client.{fread_at, pull_file}
use ecse.Client.Stored.{pull_file-IsStored}
use ecse.Common.Int.{pos}
use ecse.Namenode.Nodes.{IsCounted}
use ecse.Client.{heartbeat, localhost}
use ecse.Datanode.{BlockServer}
use ecse.Client.Store.{heartbeat-Registered}
use ecse.Common.{
  suc, ◌*◌, ◌/◌, ◌%◌, ℕ, ◌+◌, ◌<◌, ◌≤◌, ◌≡◌, ◌≢◌, refl, sym, ap, ◌∙◌, true, false, List, [], ◌∷◌,
  Option, none, some, Outcome, done, ◌>>=◌, arith, All, length, ◌==◌, Bool-cases, inl, inr,
  ne_of_eqb, eqb_of_ne,
}
use mathlib.Core.Path.{subst}
use ecse.Common.Texts.{Text, text_eq}
use ecse.Namenode.{Datanode, FileImage, Namenode, blocks_for, set_at, is_some}
use ecse.Namenode.Files.{Without, IsFree}
use ecse.Datanode.{Content}
use ecse.Datanode.Paths.{IsDecimal, IsFreeOf, text_eq_of_ne}
use ecse.Client.{HostFile, Cluster, push_file}
use ecse.Client.Store.{IsConnected, HasDirectories, CanWrite}
use ecse.Client.Stored.{IsStored}
use ecse.Client.Transfer.{push_file-IsStored}

pub record Upload : Type 0 where
  pub path : Text
  pub source : HostFile

unfoldable pub push_all : (ℕ → Text) → Cluster → List Upload → Outcome Cluster
push_all decimal c [] = done c
push_all decimal c (u ∷ us) =
    push_file decimal c u.path (some u.source) >>= λ c'. push_all decimal c' us

-- A datanode is registered, those that are registered listen, their working directories end with a
-- `/`, and of the table of files the first entries are in use and no others.
pub record IsReady (c : Cluster) (slot : ℕ) : Type 0 where
  pub node : ℕ
  pub datanode : Datanode
  pub small : node < 10
  pub live : c.namenode.dnlist node ≡ some datanode
  pub connected : IsConnected c
  pub directories : HasDirectories c
  pub filled : (l : ℕ) → l < slot → is_some (c.namenode.file_images l) ≡ true
  pub vacant : (l : ℕ) → slot ≤ l → c.namenode.file_images l ≡ none

-- A file of at most 100 blocks with a name of fewer than 256 bytes and no `/`, that no file has;
-- every datanode that listens can make its block files.
pub record IsUpload (decimal : ℕ → Text) (c : Cluster) (u : Upload) : Type 0 where
  pub plain : IsFreeOf 47 u.path
  pub short : length u.path < 256
  pub few : blocks_for u.source.size ≤ 100
  pub new : Without 1000 c.namenode.file_images u.path 0
  pub writable : CanWrite decimal c.listening u.path

-- The names are different from each other.
abbrev pub IsApartFrom : Text → List Upload → Type 0
IsApartFrom name us = All (λ (u : Upload). u.path ≢ name) us

abbrev pub HasNames : List Upload → Type 0
HasNames [] = Unit
HasNames (u ∷ us) = IsApartFrom u.path us × HasNames us

-- Every block of the file has its first NUL, in what is sent of it, at a given place.
abbrev pub HasNuls : Content → (Upload → ℕ → ℕ) → Upload → Type 0
HasNuls stack nul u =
    (j : ℕ) → j < blocks_for u.source.size → EndsAt (fread_at u.source (1024 * j) stack) (nul u j)

-- `pull_file` of the name gives a file of whole blocks with every byte of the file up to the first
-- NUL of its block, and changes nothing.
pub record IsPulled (decimal : ℕ → Text) (c : Cluster) (nul : Upload → ℕ → ℕ) (u : Upload)
    : Type 0 where
  pub pulled :
      (junk : ℕ)
      → (copy : HostFile) × (pull_file decimal c u.path junk ≡ done (copy, c))
        × (copy.size ≡ 1024 * blocks_for u.source.size)
        × ((i : ℕ)
            → i < u.source.size
            → i % 1024 ≤ nul u (i / 1024)
            → copy.byte i ≡ u.source.byte i)

-- The machines hold the file, with what `stack` holds behind its end.
abbrev pub Holds : (ℕ → Text) → Content → Cluster → Upload → Type 0
Holds decimal stack c u = (g : FileImage) × IsStored decimal u.source u.path stack c g
