-- ===== src/Client/Uploads/Served.antt =====
-- That every file of a list is pushed, and then pulled.
use ecse.Client.Stored.{pull_file-IsStored}
use ecse.Common.Int.{pos}
use ecse.Namenode.Nodes.{IsCounted}
use ecse.Client.{heartbeat, localhost}
use ecse.Datanode.{BlockServer}
use ecse.Client.Store.{heartbeat-Registered}
use ecse.Common.{
  suc, ℕ, ◌+◌, ◌<◌, ◌≤◌, ◌≡◌, refl, ap, ◌∙◌, List, [], ◌∷◌, none, some, done, arith, All, length,
}
use mathlib.Core.Path.{subst}
use ecse.Common.Texts.{Text}
use ecse.Namenode.{FileImage, Namenode}
use ecse.Namenode.Files.{IsFree}
use ecse.Datanode.{Content}
use ecse.Datanode.Paths.{IsDecimal, IsFreeOf}
use ecse.Client.{HostFile, Cluster, push_file}
use ecse.Client.Store.{IsConnected, HasDirectories}
use ecse.Client.Stored.{IsStored}
use ecse.Client.Transfer.{push_file-IsStored}
use ecse.Client.Uploads.{
  Upload, push_all, IsReady, IsUpload, IsApartFrom, HasNames, HasNuls, IsPulled, Holds,
}
use ecse.Client.Uploads.Ready.{IsReady-suc, uploads-suc, uploads_same}

push_all_none : (decimal : ℕ → Text) (c : Cluster) → push_all decimal c [] ≡ done c
unfolding push_all
push_all_none decimal c = refl

push_all_more :
    (decimal : ℕ → Text) (c c' : Cluster) (u : Upload) (us : List Upload)
    → push_file decimal c u.path (some u.source) ≡ done c'
    → push_all decimal c (u ∷ us) ≡ push_all decimal c' us
unfolding push_all
push_all_more decimal c c' u us e = rw (e, push_all) refl

module _ (decimal : ℕ → Text) (d : IsDecimal decimal) where
  -- Files that stay stored while others are pushed.
  abbrev Keeping : Cluster → Cluster → List Upload → Type 0
  Keeping c c' us =
      (other : Text) (old : HostFile) (stack : Content) (f : FileImage)
      → IsFreeOf 47 other
      → IsApartFrom other us
      → IsStored decimal old other stack c f
      → IsStored decimal old other stack c' f

  push_all-Holds :
      (us : List Upload) (c : Cluster) (slot : ℕ) (stack : Content)
      → c.namenode.stack ≡ stack
      → IsReady c slot
      → All (IsUpload decimal c) us
      → HasNames us
      → slot + length us ≤ 1000
      → (c' : Cluster) × (push_all decimal c us ≡ done c')
        × All (Holds decimal stack c') us
        × Keeping c c' us
  push_all-Holds [] c slot stack same r h names room =
      (c, push_all_none decimal c, _, λ other old st f plain apart held. held)
  push_all-Holds (u ∷ us) c slot stack same r h names room =
      let first = h.0 in
      let free : IsFree c.namenode.file_images slot = record {
        inside = omega arith;
        empty = r.vacant slot (omega arith);
        before = r.filled;
      } in
      let (c1, g, run, held, keeps, grown) =
        push_file-IsStored decimal d c u.path first.short u.source r.node r.datanode r.small r.live
          r.connected slot free first.new first.few first.writable in
      let same1 : c1.namenode.stack ≡ stack = ap (λ (s : Namenode). s.stack) grown.0 ∙ same in
      let r1 = IsReady-suc c c1 slot g r grown.0 grown.2 in
      let h1 = uploads-suc decimal c c1 slot g u.path grown.0 grown.1 grown.2 us names.0 h.1 in
      let (c', rest, holds, keeping) =
        push_all-Holds us c1 (slot + 1) stack same1 r1 h1 names.1 (omega arith) in
      let mine = subst (λ (st : Content). IsStored decimal u.source u.path st c1 g) same held in
      (
        c',
        push_all_more decimal c c1 u us run ∙ rest,
        ((g, keeping u.path u.source stack g first.plain names.0 mine), holds),
        λ other old st f plain apart was.
            keeping other old st f plain apart.1
              (keeps other old st f r.directories first.plain plain apart.0 was),
      )

  Holds-IsPulled :
      (us : List Upload) (c c' : Cluster) (stack : Content) (nul : Upload → ℕ → ℕ)
      → All (IsUpload decimal c) us
      → All (HasNuls stack nul) us
      → All (Holds decimal stack c') us
      → All (IsPulled decimal c' nul) us
  Holds-IsPulled [] c c' stack nul h ends holds = _
  Holds-IsPulled (u ∷ us) c c' stack nul h ends holds =
      let first = h.0 in
      let (g, held) = holds.0 in
      (
        record {
          pulled =
              pull_file-IsStored decimal d c' u.path first.short u.source stack g held first.few
                (nul u) ends.0;
        },
        Holds-IsPulled us c c' stack nul h.1 ends.1 holds.1,
      )

  -- Where a datanode is registered, those that are registered listen, all that listen have a working
  -- directory that ends with a `/`, and exactly the first entries of the table of files are in use:
  -- files with different new names of fewer than 256 bytes and no `/`, of at most 100 blocks that
  -- each have a NUL in what is sent of them and whose block files the datanodes that listen can make,
  -- and no more than the table takes, are pushed one after the other, and then each of them is
  -- pulled, with its bytes up to the first NUL of each block.
  pub push_all-IsPulled :
      (us : List Upload) (c : Cluster) (slot : ℕ) (nul : Upload → ℕ → ℕ)
      → IsReady c slot
      → All (IsUpload decimal c) us
      → HasNames us
      → All (HasNuls c.namenode.stack nul) us
      → slot + length us ≤ 1000
      → (c' : Cluster) × (push_all decimal c us ≡ done c') × All (IsPulled decimal c' nul) us
  push_all-IsPulled us c slot nul r h names ends room =
      let (c', run, holds, keeping) =
        push_all-Holds us c slot c.namenode.stack refl r h names room in
      (c', run, Holds-IsPulled us c c' c.namenode.stack nul h ends holds)

  -- Where the namenode's counter agrees with its list, it knows no file, those that are registered
  -- listen and all that listen have a working directory that ends with a `/`: after one heartbeat of
  -- a datanode with an id from 1 to 9 that listens on its port, at most 1000 files with different
  -- names of fewer than 256 bytes and no `/`, of at most 100 blocks that each have a NUL in what is
  -- sent of them and whose block files the datanodes that listen can make, are pushed one after the
  -- other, and then each of them is pulled, with its bytes up to the first NUL of each block.
  pub heartbeat-push_all :
      (us : List Upload) (c : Cluster) (i port : ℕ) (server : BlockServer)
      → (nul : Upload → ℕ → ℕ) → IsCounted c.namenode
      → IsConnected c
      → HasDirectories c
      → ((l : ℕ) → c.namenode.file_images l ≡ none)
      → i < 9
      → c.listening localhost port ≡ some server
      → All (IsUpload decimal c) us
      → HasNames us
      → All (HasNuls c.namenode.stack nul) us
      → length us ≤ 1000
      → (t : Cluster) × (c' : Cluster) × (heartbeat c (pos (suc i)) port ≡ done t)
        × (push_all decimal t us ≡ done c')
        × All (IsPulled decimal c' nul) us
  heartbeat-push_all us c i port server nul counted connected dirs empty lt listens h names ends
        room =
      let (s, e, registered, still) =
        heartbeat-Registered c i port server counted connected lt listens in
      let t : Cluster = record c { namenode = s } in
      let ready : IsReady t 0 = record {
        node = i;
        datanode = record { dn_id = i + 1; ip = localhost; port = port };
        small = omega arith;
        live = registered.entry;
        connected = still;
        directories = record { ends = dirs.ends };
        filled = λ l q. absurd (omega arith);
        vacant = λ l q. rw registered.files (empty l);
      } in
      let (c', run, pulled) =
        push_all-IsPulled us t 0 nul ready (uploads_same decimal c t registered.files refl us h)
          names (rw registered.junk ends) (omega arith) in
      (t, c', e, run, pulled)
