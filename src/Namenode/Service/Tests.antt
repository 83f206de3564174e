-- ===== src/Namenode/Service/Tests.antt =====
-- The namenode's process after datanode 2 has registered and safe mode has ended.
use ecse.Common.{ℕ, ◌≡◌, ◌≢◌, refl, [], ◌∷◌, true, some, none, done, arith}
use ecse.Common.Int.{pos}
use ecse.Common.Texts.{Text}
use ecse.Namenode.{
  FileImage, Namenode, file, blocks_for, enter_node, register_datanode, get_file_location,
  requests_dispatcher,
}
use ecse.Namenode.Files.{Without}
use ecse.Namenode.Service.{Server, started, registers, wakes, Reached, starts, later}
use ecse.Namenode.Service.Sound.{IsPlaced}
use ecse.Namenode.Service.Running.{IsSound, Reached-IsSound, Reached-receives}

abbrev stack : ℕ → ℕ
stack k = 0

abbrev ip : Text
ip = 49 ∷ 50 ∷ 55 ∷ []

abbrev registered : Server
registered = record (started stack) { namenode = enter_node (started stack).namenode 1 50070 ip }

abbrev running : Server
running = record registered { serving = true }

registers_two :
    register_datanode (started stack).namenode (pos 2) 50070 ip ≡ done registered.namenode
unfolding register_datanode
registers_two = refl

awake : registered.namenode.safe_mode ≢ 1
unfolding enter_node
awake e = omega (arith, e)

running-Reached : Reached stack running
running-Reached = later (later starts (registers (pos 2) 50070 ip registers_two)) (wakes awake)

Reached-IsSound_example : IsSound running
Reached-IsSound_example = Reached-IsSound running-Reached

no_file : running.namenode.file_images 0 ≡ none
unfolding enter_node started
no_file = refl

no_name : Without 1000 running.namenode.file_images (97 ∷ []) 0
unfolding Without enter_node started
no_name = λ l q. refl

Reached-receives_example :
    (g : FileImage) × (t : Namenode) × (requests_dispatcher running.namenode
        (record { file_name = 97 ∷ []; file_size = 1500; req_type = 1 })
      ≡ done (file (pos 0, some g), t))
    × (g.blocknum ≡ blocks_for 1500)
    × IsPlaced t.dnlist g
    × (get_file_location t (record { file_name = 97 ∷ []; file_size = 1500; req_type = 1 })
        ≡ (pos 0, some g))
Reached-receives_example =
    Reached-receives stack running (97 ∷ []) 1500 0 running-Reached refl (omega arith) no_file
      no_name (omega arith)
