-- ===== src/Client/Exchange.antt =====
-- Several clients and datanodes at once: their messages in any order, as one relation on the
-- machines.
pub mod Asked
pub mod Sent
pub mod Survives
mod Tests
use ecse.Common.{ℕ, ◌≡◌, ◌≢◌, Option, done}
use ecse.Common.Int.{ℤ}
use ecse.Common.Texts.{Text}
use ecse.Namenode.{FileBlock, Request, Answer}
use ecse.Namenode.Kept.{Finds}
use ecse.Datanode.Paths.{IsFreeOf}
use ecse.Client.{Cluster, ask_namenode, ask_datanode, heartbeat}
use ecse.Client.Store.{IsReachable, place_of}

-- One message that is answered, and that does not write to the file `name`: a heartbeat, a lookup at
-- the namenode of any name, a request of another name, a block that is read, or any request of a
-- block of another file.
pub data Exchange (decimal : ℕ → Text) (name : Text) (c : Cluster) : Cluster → Type 0 where
  beats :
      (id : ℤ) (port : ℕ) {c' : Cluster}
      → heartbeat c id port ≡ done c'
      → Exchange decimal name c c'
  looks :
      (request : Request) (answer : Answer) {c' : Cluster}
      → request.req_type ≡ 0
      → ask_namenode c request ≡ done (answer, c')
      → Exchange decimal name c c'
  asks :
      (request : Request) (answer : Answer) {c' : Cluster}
      → request.file_name ≢ name
      → ask_namenode c request ≡ done (answer, c')
      → Exchange decimal name c c'
  reads :
      (b : FileBlock) (sent : Option FileBlock) {c' : Cluster}
      → ask_datanode decimal c 0 b ≡ done (sent, c')
      → Exchange decimal name c c'
  sends :
      (op_type : ℕ) (b : FileBlock) (sent : Option FileBlock) {c' : Cluster}
      → b.owner_name ≢ name
      → IsFreeOf 47 b.owner_name
      → ask_datanode decimal c op_type b ≡ done (sent, c')
      → Exchange decimal name c c'

-- Any number of such messages, in any order.
pub data Exchanges (decimal : ℕ → Text) (name : Text) (c : Cluster) : Cluster → Type 0 where
  quiet : Exchanges decimal name c c
  later :
      {c' c'' : Cluster}
      → Exchanges decimal name c c'
      → Exchange decimal name c' c''
      → Exchanges decimal name c c''

-- The file of the name is found as before, the same datanodes listen, and its blocks are untouched.
pub record Untouched (decimal : ℕ → Text) (name : Text) (c c' : Cluster) : Type 0 where
  pub finds : Finds name c.namenode c'.namenode
  pub listening : c'.listening ≡ c.listening
  pub blocks :
      (a : FileBlock)
      → IsReachable c.listening a
      → a.owner_name ≡ name
      → c'.files (place_of decimal c.listening a) ≡ c.files (place_of decimal c.listening a)
