-- ===== src/Namenode/Tests.antt =====
-- The theorems on the namenode at concrete states: no datanode registered, and two of them.
use ecse.Common.{ℕ, ◌+◌, ◌≡◌, refl, [], ◌∷◌, Option, none, some, done, arith, eqb_of_ne}
use ecse.Common.Int.{pos}
use ecse.Common.Texts.{Text, text_eq_refl}
use ecse.Namenode.{
  Datanode, FileImage, Request, Namenode, zero_file_block, set_at, new_image, get_file_receivers,
  get_file_update_point,
}
use ecse.Namenode.Nodes.{live_count, IsCounted}
use ecse.Namenode.Files.{Without, IsFree, IsFile}
use ecse.Namenode.Receivers.{
  Received, get_file_receivers-Received_new, get_file_receivers-Received_known,
}
use ecse.Namenode.Update.{Updated, get_file_update_point-Updated}

-- The namenode as its `main` leaves it; safe mode is on.
abbrev started : Namenode
started = record {
  dnlist = λ k. none;
  file_images = λ k. none;
  dncnt = 0;
  safe_mode = 1;
  stack = λ k. 0;
}

abbrev localhost : Text
localhost = 49 ∷ 50 ∷ 55 ∷ []

started-IsCounted : IsCounted started
unfolding live_count
started-IsCounted = record { agrees = refl }

abbrev node_of : ℕ → Datanode
node_of id = record { dn_id = id; ip = localhost; port = 50070 }

-- Datanodes 2 and 6 are registered.
abbrev two_nodes : ℕ → Option Datanode
two_nodes = set_at (set_at (λ k. none) 1 (some (node_of 2))) 5 (some (node_of 6))

abbrev running : Namenode
running = record {
  dnlist = two_nodes;
  file_images = λ k. none;
  dncnt = 2;
  safe_mode = 0;
  stack = λ k. 0;
}

-- A file `a` of 3000 bytes.
abbrev three_blocks : Request
three_blocks = record { file_name = 97 ∷ []; file_size = 3000; req_type = 1 }

running-IsFree : IsFree running.file_images 0
running-IsFree = record { inside = omega arith; empty = refl; before = λ l q. absurd (omega arith) }

running-Without : Without 1000 running.file_images three_blocks.file_name 0
unfolding Without
running-Without = λ l q. refl

get_file_receivers-Received_new_example :
    (g : FileImage) × (t : Namenode) × (get_file_receivers running three_blocks
      ≡ done ((pos 0, some g), t))
    × Received running three_blocks 0 (new_image three_blocks) g t
get_file_receivers-Received_new_example =
    get_file_receivers-Received_new running three_blocks 5 (node_of 6) (omega arith) refl 0
      running-IsFree running-Without (omega arith)

-- A file `a` of the given number of blocks stands at entry 4 of the table.
abbrev image_of : ℕ → FileImage
image_of n = record {
  filename = 97 ∷ [];
  block_list = λ k. zero_file_block;
  file_size = 0;
  blocknum = n;
}

abbrev holding : ℕ → Namenode
holding n = record running { file_images = set_at (λ k. none) 4 (some (image_of n)) }

holding-IsFile : (n : ℕ) → IsFile (holding n).file_images three_blocks.file_name 4 (image_of n)
unfolding Without
holding-IsFile n = record {
  inside = omega arith;
  entry = refl;
  named = text_eq_refl three_blocks.file_name;
  before = λ l q. rw (eqb_of_ne (0 + l) 4 (λ e. absurd (omega arith))) refl;
}

get_file_receivers-Received_known_example :
    (g : FileImage) × (t : Namenode) × (get_file_receivers (holding 2) three_blocks
      ≡ done ((pos 0, some g), t))
    × Received (holding 2) three_blocks 4 (image_of 2) g t
get_file_receivers-Received_known_example =
    get_file_receivers-Received_known (holding 2) three_blocks 5 (node_of 6) (omega arith) refl 4
      (image_of 2) (holding-IsFile 2) (omega arith)

get_file_update_point-Updated_example :
    (g : FileImage) × (t : Namenode) × (get_file_update_point (holding 1) three_blocks
      ≡ done ((pos 0, some g), t))
    × Updated (holding 1) three_blocks 4 (image_of 1) g t
get_file_update_point-Updated_example =
    get_file_update_point-Updated (holding 1) three_blocks 4 (image_of 1) (holding-IsFile 1) 5
      (node_of 6) (omega arith) refl (omega arith) (omega arith)
