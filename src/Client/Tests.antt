-- ===== src/Client/Tests.antt =====
-- The theorems on the client at a cluster of one datanode.
use ecse.Client.Uploads.Served.{heartbeat-push_all, push_all-IsPulled}
use ecse.Client.Uploads.{Upload, IsReady, IsUpload, IsPulled, push_all}
use ecse.Common.{List, All, ◌≢◌}
use ecse.Common.{
  ◌≢◌, ℕ, zero, suc, ◌+◌, ◌-◌, ◌*◌, ◌/◌, ◌<◌, ◌≡◌, refl, sym, false, [], ◌∷◌, Option, none, some,
  done, undefined, arith, ◌==◌, if◌then◌else◌,
}
use ecse.Common.Int.{pos}
use ecse.Common.Texts.{Text, text_eq, text_eq_refl}
use ecse.Namenode.{Datanode, FileBlock, FileImage, set_at, blocks_for}
use ecse.Namenode.Nodes.{IsCounted, live_count}
use ecse.Namenode.Files.{Without, IsFile}
use ecse.Datanode.{BlockFiles}
use ecse.Datanode.Content.{EndsAt}
use ecse.Datanode.Decimal.{decimal, decimal-IsDecimal}
use ecse.Client.{
  HostFile, Cluster, fread_at, push_file, pull_file, modify_file, heartbeat, localhost,
}
use ecse.Client.Store.{IsReachable, IsWritable, CanWrite-IsWritable, place_of, server_of}
use ecse.Client.Transfer.{push_file-pull_file_overrun, push_file_refused}
use ecse.Client.Modify.{modify_file-written}
use ecse.Client.Sample.{
  node, server, cluster, name, cluster-IsConnected, cluster-IsFree, cluster-Without, with_nul, nul,
  with_nul-EndsAt, cluster-HasDirectories, name_b, cluster-CanWrite, cluster-CanWrite_b, inside_s,
  cluster-NoneCanWrite,
}

-- 1500 bytes and no NUL.
abbrev without_nul : HostFile
without_nul = record { size = 1500; byte = λ i. 65 }

without_nul-whole :
    (i : ℕ) → i < 1024 → (fread_at without_nul (1024 * 0) cluster.namenode.stack i == 0) ≡ false
unfolding fread_at
without_nul-whole i lt = ground arith

push_file-pull_file_overrun_example :
    (c' : Cluster) × (push_file decimal cluster name (some without_nul) ≡ done c')
    × ((junk : ℕ) → pull_file decimal c' name junk ≡ undefined)
push_file-pull_file_overrun_example =
    push_file-pull_file_overrun decimal decimal-IsDecimal cluster name (omega arith) without_nul 1
      node (omega arith) refl cluster-IsConnected 0 cluster-IsFree (cluster-Without name)
      (omega arith) nul 0 cluster-CanWrite (omega arith) (λ j q. absurd (omega arith))
      without_nul-whole

push_file_refused_example : push_file decimal cluster inside_s (some without_nul) ≡ undefined
push_file_refused_example =
    push_file_refused decimal decimal-IsDecimal cluster inside_s (omega arith) without_nul 1 node
      (omega arith) refl cluster-IsConnected 0 cluster-IsFree (cluster-Without inside_s)
      (omega arith) (omega arith) cluster-NoneCanWrite

cluster-IsCounted : IsCounted cluster.namenode
unfolding live_count
cluster-IsCounted = record { agrees = refl }

-- The block that a file of four blocks has at each number.
abbrev block_at : ℕ → FileBlock
block_at j = record {
  owner_name = name;
  dn_id = 2;
  block_id = j;
  loc_ip = localhost;
  loc_port = 50070;
  content = λ k. 0;
}

abbrev image : FileImage
image = record { filename = name; block_list = block_at; file_size = 4096; blocknum = 4 }

abbrev knowing : Cluster
knowing = record cluster {
  namenode = record cluster.namenode { file_images = set_at (λ k. none) 0 (some image) };
}

knowing-IsFile : IsFile knowing.namenode.file_images name 0 image
unfolding Without
knowing-IsFile = record {
  inside = omega arith;
  entry = refl;
  named = text_eq_refl name;
  before = λ l q. absurd (omega arith);
}

block_at-IsReachable : IsReachable knowing.listening (block_at 1)
unfolding server_of
block_at-IsReachable = record { listens = refl; small = omega arith }

block_at-IsWritable : IsWritable decimal knowing.listening (block_at 1)
block_at-IsWritable =
    CanWrite-IsWritable decimal knowing.listening name (block_at 1) cluster-CanWrite
      block_at-IsReachable refl

modify_file-written_example :
    (later : BlockFiles) × (modify_file decimal knowing name (some without_nul) 1500 1100 3000
      ≡ done (record knowing { files = later }))
    × (later (place_of decimal knowing.listening (block_at 1))
        ≡ some (fread_at without_nul (1100 + 1024 * (3000 / 1024 - 1100 / 1024)) (λ k. 0)))
    × ((p : Text)
        → text_eq p (place_of decimal knowing.listening (block_at 1)) ≡ false
        → later p ≡ none)
modify_file-written_example =
    modify_file-written decimal decimal-IsDecimal without_nul knowing name (omega arith) 1500 0
      image knowing-IsFile (omega arith) 1100 3000 (omega arith) (omega arith) block_at-IsReachable
      block_at-IsWritable

-- A file `b` of ten bytes.
abbrev ten_bytes : HostFile
ten_bytes = record { size = 10; byte = λ i. 66 }

ten_bytes-EndsAt : (j : ℕ) → j < blocks_for 10 → EndsAt (fread_at ten_bytes (1024 * j) (λ k. 0)) 10
unfolding fread_at
ten_bytes-EndsAt zero lt = record { inside = omega arith; nul = refl; before = λ k q. ground arith }
ten_bytes-EndsAt (suc j) lt = absurd (omega arith)

names_differ : ◌≢◌ {A = Text} name name_b
names_differ e = let same : ◌≡◌ {A = ℕ} 97 98 = cc in omega (arith, same)

abbrev uploads : List Upload
uploads =
    record { path = name; source = with_nul } ∷ record { path = name_b; source = ten_bytes } ∷ []

cluster-IsReady : IsReady cluster 0
cluster-IsReady = record {
  node = 1;
  datanode = node;
  small = omega arith;
  live = refl;
  connected = cluster-IsConnected;
  directories = cluster-HasDirectories;
  filled = λ l q. absurd (omega arith);
  vacant = λ l q. refl;
}

uploads-IsUpload : All (IsUpload decimal cluster) uploads
unfolding Without
uploads-IsUpload = (
  record {
    plain = (refl, _);
    short = omega arith;
    few = omega arith;
    new = λ l q. refl;
    writable = cluster-CanWrite;
  },
  (
    record {
      plain = (refl, _);
      short = omega arith;
      few = omega arith;
      new = λ l q. refl;
      writable = cluster-CanWrite_b;
    },
    _,
  ),
)

-- The first file has a NUL at 999, and behind the end of each there are zeros.
abbrev nul_of : Upload → ℕ → ℕ
nul_of u j = if u.source.size == 10 then 10 else nul j

push_all-IsPulled_example :
    (c' : Cluster) × (push_all decimal cluster uploads ≡ done c')
    × All (IsPulled decimal c' nul_of) uploads
push_all-IsPulled_example =
    push_all-IsPulled decimal decimal-IsDecimal uploads cluster 0 nul_of cluster-IsReady
      uploads-IsUpload ((λ e. names_differ (sym e), _), (_, _))
      (with_nul-EndsAt, (ten_bytes-EndsAt, _)) (omega arith)

-- The namenode as its `main` leaves it, and a datanode that listens.
abbrev started : Cluster
started = record cluster {
  namenode = record cluster.namenode { dnlist = λ k. none; dncnt = 0; safe_mode = 1 };
}

started-IsCounted : IsCounted started.namenode
unfolding live_count
started-IsCounted = record { agrees = refl }

nothing : {A : Type 0} (d : Datanode) → ◌≡◌ {A = Option Datanode} none (some d) → A
nothing d e = absurd (cc)

started-IsUpload : All (IsUpload decimal started) uploads
unfolding Without
started-IsUpload = (
  record {
    plain = (refl, _);
    short = omega arith;
    few = omega arith;
    new = λ l q. refl;
    writable = cluster-CanWrite;
  },
  (
    record {
      plain = (refl, _);
      short = omega arith;
      few = omega arith;
      new = λ l q. refl;
      writable = cluster-CanWrite_b;
    },
    _,
  ),
)

heartbeat-push_all_example :
    (t : Cluster) × (c' : Cluster) × (heartbeat started (pos 2) 50070 ≡ done t)
    × (push_all decimal t uploads ≡ done c')
    × All (IsPulled decimal c' nul_of) uploads
heartbeat-push_all_example =
    heartbeat-push_all decimal decimal-IsDecimal uploads started 1 50070 server nul_of
      started-IsCounted (record { serves = λ k dn e. nothing dn e })
      (record { ends = cluster-HasDirectories.ends }) (λ l. refl) (omega arith) refl
      started-IsUpload ((λ e. names_differ (sym e), _), (_, _))
      (with_nul-EndsAt, (ten_bytes-EndsAt, _)) (omega arith)
