-- ===== src/Namenode/Service.antt =====
-- The process of PA3/namenode/dfs_namenode.c: `start`, the thread that takes heartbeats, and the loop
-- that answers clients, which begins once safe mode has ended.
pub mod Sound
pub mod Running
mod Tests
use ecse.Common.{ℕ, ◌≡◌, ◌≢◌, Bool, true, false, none, done}
use ecse.Common.Int.{ℤ}
use ecse.Common.Texts.{Text}
use ecse.Namenode.{Request, Namenode, Answer, register_datanode, requests_dispatcher}

-- The namenode's variables, and whether `mainLoop` has left its first loop.
pub record Server : Type 0 where
  pub namenode : Namenode
  pub serving : Bool

-- The lists are emptied; `dncnt` and `safeMode` have their first values.
unfoldable pub started : (ℕ → ℕ) → Server
started stack = record {
  namenode = record {
    dnlist = λ i. none;
    file_images = λ i. none;
    dncnt = 0;
    safe_mode = 1;
    stack = stack;
  };
  serving = false;
}

-- One round of either thread: a heartbeat is taken, `mainLoop` finds that safe mode has ended, or a
-- request is answered. A round is taken as one step.
pub data Round (s : Server) : Server → Type 0 where
  registers :
      (id : ℤ) (port : ℕ) (ip : Text) {t : Namenode}
      → register_datanode s.namenode id port ip ≡ done t
      → Round s (record s { namenode = t })
  wakes : s.namenode.safe_mode ≢ 1 → Round s (record s { serving = true })
  answers :
      (request : Request) (a : Answer) {t : Namenode}
      → s.serving ≡ true
      → requests_dispatcher s.namenode request ≡ done (a, t)
      → Round s (record s { namenode = t })

-- What the process comes to.
pub data Reached (stack : ℕ → ℕ) : Server → Type 0 where
  starts : Reached stack (started stack)
  later : {s t : Server} → Reached stack s → Round s t → Reached stack t
