-- ===== src/Client/Sample.antt =====
-- A cluster of one datanode, with the files that the tests push.
use ecse.Client.Store.{HasDirectories, CanWrite}
use ecse.Datanode.Decimal.{decimal}
use ecse.Common.{◌++◌}
use ecse.Common.{
  ◌++◌, ℕ, zero, suc, ◌*◌, ◌<◌, ◌≡◌, refl, sym, ◌∙◌, inl, inr, [], ◌∷◌, Option, none, some, Bool,
  true, false, arith, ◌==◌, if◌then◌else◌, Bool-cases,
}
use ecse.Common.Texts.{Text}
use ecse.Namenode.{Datanode, set_at, blocks_for}
use ecse.Namenode.Files.{Without, IsFree}
use ecse.Datanode.{BlockServer, get_block_file_path}
use ecse.Datanode.Content.{EndsAt}
use ecse.Client.{HostFile, Cluster, fread_at, localhost}
use ecse.Client.Store.{IsConnected}

abbrev pub node : Datanode
node = record { dn_id = 2; ip = localhost; port = 50070 }

-- On the host of the tests the directory `/s` does not exist, and no other is missing.
unfoldable pub outside : Text → Bool
outside [] = true
outside (x ∷ []) = true
outside (x ∷ y ∷ []) = true
outside (x ∷ y ∷ z ∷ rest) = if y == 115 then (if z == 47 then false else true) else true

abbrev pub server : BlockServer
server = record { datanode_id = 2; working_directory = 47 ∷ []; can_write = outside }

-- Datanode 2 is registered and no file is known.
abbrev pub cluster : Cluster
cluster = record {
  namenode = record {
    dnlist = set_at (λ k. none) 1 (some node);
    file_images = λ k. none;
    dncnt = 1;
    safe_mode = 0;
    stack = λ k. 0;
  };
  listening = λ ip port. if port == 50070 then some server else none;
  files = λ p. none;
}

abbrev pub name : Text
name = 97 ∷ []

abbrev pub name_b : Text
name_b = 98 ∷ []

pub cluster-IsConnected : IsConnected cluster
cluster-IsConnected = record {
  serves = λ k dn e. elim (Bool-cases (k == 1)) [
    | inl same ↦ (server, listed dn (sym (rw same refl) ∙ e))
    | inr differ ↦ unlisted dn (sym (rw differ refl) ∙ e)
  ];
}
  where
    listed : (dn : Datanode) → some node ≡ some dn → cluster.listening dn.ip dn.port ≡ some server
    listed dn e = let same : node ≡ dn = cc in rw (← same) refl

    unlisted :
        (dn : Datanode)
        → ◌≡◌ {A = Option Datanode} none (some dn)
        → (s : BlockServer) × (cluster.listening dn.ip dn.port ≡ some s)
    unlisted dn e = absurd (cc)

cluster_server :
    (ip : Text) (port : ℕ) (s : BlockServer) → cluster.listening ip port ≡ some s → server ≡ s
cluster_server ip port s e = elim (Bool-cases (port == 50070)) [
  | inl same ↦ let known : some server ≡ some s = sym (rw same refl) ∙ e in cc
  | inr differ ↦
      let nobody : ◌≡◌ {A = Option BlockServer} none (some s) = sym (rw differ refl) ∙ e in
      absurd (cc)
]

writes_a : (j : ℕ) → server.can_write (get_block_file_path decimal (47 ∷ []) name j) ≡ true
unfolding outside get_block_file_path
writes_a j = refl

writes_b : (j : ℕ) → server.can_write (get_block_file_path decimal (47 ∷ []) name_b j) ≡ true
unfolding outside get_block_file_path
writes_b j = refl

pub cluster-CanWrite : CanWrite decimal cluster.listening name
cluster-CanWrite = λ ip port j s e lt. rw (← cluster_server ip port s e) (writes_a j)

pub cluster-CanWrite_b : CanWrite decimal cluster.listening name_b
cluster-CanWrite_b = λ ip port j s e lt. rw (← cluster_server ip port s e) (writes_b j)

-- A name in the directory that is missing.
abbrev pub inside_s : Text
inside_s = 115 ∷ 47 ∷ 120 ∷ []

refuses_s : server.can_write (get_block_file_path decimal (47 ∷ []) inside_s 0) ≡ false
unfolding outside get_block_file_path
refuses_s = refl

pub cluster-NoneCanWrite :
    (ip : Text) (port : ℕ) (s : BlockServer)
    → cluster.listening ip port ≡ some s
    → s.can_write (get_block_file_path decimal s.working_directory inside_s 0) ≡ false
cluster-NoneCanWrite ip port s e = rw (← cluster_server ip port s e) refuses_s

pub cluster-IsFree : IsFree cluster.namenode.file_images 0
cluster-IsFree = record { inside = omega arith; empty = refl; before = λ l q. absurd (omega arith) }

pub cluster-Without : (n : Text) → Without 1000 cluster.namenode.file_images n 0
unfolding Without
cluster-Without n = λ l q. refl

-- 1500 bytes with a NUL at 999.
abbrev pub with_nul : HostFile
with_nul = record { size = 1500; byte = λ i. if i == 999 then 0 else 65 }

abbrev pub nul : ℕ → ℕ
nul j = if j == 0 then 999 else 476

pub with_nul-EndsAt :
    (j : ℕ)
    → j < blocks_for with_nul.size
    → EndsAt (fread_at with_nul (1024 * j) cluster.namenode.stack) (nul j)
unfolding fread_at
with_nul-EndsAt zero lt = record { inside = omega arith; nul = refl; before = λ k q. ground arith }
with_nul-EndsAt (suc zero) lt = record {
  inside = omega arith;
  nul = refl;
  before = λ k q. ground arith;
}
with_nul-EndsAt (suc (suc j)) lt = absurd (omega arith)

pub cluster-HasDirectories : HasDirectories cluster
cluster-HasDirectories = record {
  ends = λ ip port s e. elim (Bool-cases (port == 50070)) [
    | inl same ↦ ([], directory s (sym (rw same refl) ∙ e))
    | inr differ ↦ ([], nobody s (sym (rw differ refl) ∙ e))
  ];
}
  where
    directory : (s : BlockServer) → some server ≡ some s → s.working_directory ≡ [] ++ 47 ∷ []
    directory s e = let same : server ≡ s = cc in rw (← same) refl

    nobody :
        (s : BlockServer)
        → ◌≡◌ {A = Option BlockServer} none (some s)
        → s.working_directory ≡ [] ++ 47 ∷ []
    nobody s e = absurd (cc)
