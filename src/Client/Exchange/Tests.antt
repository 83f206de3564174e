-- ===== src/Client/Exchange/Tests.antt =====
-- A file that is pushed, a heartbeat, and a request for the number of datanodes.
use ecse.Common.{◌≢◌}
use ecse.Common.{◌≢◌, ℕ, ◌*◌, ◌/◌, ◌%◌, ◌<◌, ◌≤◌, ◌≡◌, refl, [], ◌∷◌, some, done, arith}
use ecse.Common.Int.{pos}
use ecse.Namenode.{blocks_for}
use ecse.Datanode.Decimal.{decimal, decimal-IsDecimal}
use ecse.Client.{HostFile, Cluster, push_file, pull_file, heartbeat, localhost}
use ecse.Client.Transfer.{push_file-pull_file}
use ecse.Client.Sample.{
  node, cluster, name, cluster-IsConnected, cluster-IsFree, cluster-Without, with_nul, nul,
  with_nul-EndsAt, cluster-HasDirectories, cluster-CanWrite,
}
use ecse.Namenode.{
  Request, status, enter_node, register_datanode, requests_dispatcher, get_system_information,
}
use ecse.Client.{ask_namenode}
use ecse.Datanode.Paths.{IsFreeOf}
use ecse.Client.Exchange.{beats, asks, Exchanges, quiet, later}
use ecse.Client.Exchange.Survives.{pull_file-Exchanges}

-- `name` is on the machines.
abbrev pushed :
    (c' : Cluster) × (push_file decimal cluster name (some with_nul) ≡ done c')
    × ((junk : ℕ)
        → (copy : HostFile) × (pull_file decimal c' name junk ≡ done (copy, c'))
          × (copy.size ≡ 1024 * blocks_for with_nul.size)
          × ((i : ℕ)
              → i < with_nul.size
              → i % 1024 ≤ nul (i / 1024)
              → copy.byte i ≡ with_nul.byte i))
pushed =
    push_file-pull_file decimal decimal-IsDecimal cluster name (omega arith) with_nul 1 node
      (omega arith) refl cluster-IsConnected 0 cluster-IsFree (cluster-Without name) (omega arith)
      nul cluster-CanWrite with_nul-EndsAt

abbrev beaten : Cluster → Cluster
beaten c = record c { namenode = enter_node c.namenode 2 50070 localhost }

abbrev asking : Request
asking = record { file_name = 98 ∷ []; file_size = 0; req_type = 2 }

beats_once : (c : Cluster) → heartbeat c (pos 3) 50070 ≡ done (beaten c)
unfolding heartbeat register_datanode
beats_once c = refl

asks_once :
    (c : Cluster) → ask_namenode c asking ≡ done (status (get_system_information c.namenode), c)
unfolding ask_namenode requests_dispatcher
asks_once c = refl

other_name : (98 ∷ []) ≢ name
other_name e = let same : ◌≡◌ {A = ℕ} 98 97 = cc in omega (arith, same)

two_messages : Exchanges decimal name pushed.0 (beaten pushed.0)
two_messages = later (later quiet (beats (pos 3) 50070 (beats_once pushed.0))) (
    asks asking (status (get_system_information (beaten pushed.0).namenode)) other_name
      (asks_once (beaten pushed.0)))

name-IsFreeOf : IsFreeOf 47 name
name-IsFreeOf = (refl, _)

pull_file-Exchanges_example :
    (copy : HostFile) × (pull_file decimal (beaten pushed.0) name 0 ≡ done (copy, beaten pushed.0))
    × (copy.size ≡ 1024 * blocks_for with_nul.size)
    × ((i : ℕ) → i < with_nul.size → i % 1024 ≤ nul (i / 1024) → copy.byte i ≡ with_nul.byte i)
pull_file-Exchanges_example =
    pull_file-Exchanges decimal decimal-IsDecimal name name-IsFreeOf cluster pushed.0
      (beaten pushed.0) with_nul 1 node 0 nul (omega arith) (omega arith) refl cluster-IsConnected
      cluster-HasDirectories cluster-CanWrite cluster-IsFree (cluster-Without name) (omega arith)
      with_nul-EndsAt pushed.1 two_messages 0
