-- ===== src/Client/Exchange/Sent.antt =====
-- Requests to a datanode leave the blocks of other files.
use ecse.Common.{
  ℕ, ◌≡◌, ◌≢◌, refl, sym, ap, ◌⊎◌, inl, inr, false, Option, some, Outcome, done, undefined,
  diverged, exited, ◌>>=◌, Option-cases, done-injective,
}
use mathlib.Core.Path.{subst}
use ecse.Common.Texts.{Text, text_eq}
use ecse.Namenode.{FileBlock}
use ecse.Datanode.{BlockFiles, BlockServer, get_block_file_path}
use ecse.Datanode
use ecse.Datanode.Paths.{IsDecimal, IsFreeOf, text_eq_of_ne, path-ne_name}
use ecse.Datanode.Kept.{sent_back, requests_dispatcher-one, requests_dispatcher_read}
use ecse.Datanode.Requests.{written}
use ecse.Client.{Cluster, ask_datanode}
use ecse.Client.Store.{IsReachable, HasDirectories, place_of, server_of}
use ecse.Client.Exchange.{Untouched}

-- The block was sent to a datanode that listens.
abbrev pub passed : Option FileBlock → Cluster → Outcome (Option FileBlock × Cluster)
passed sent c' = done (sent, c')

module _ (decimal : ℕ → Text) (name : Text) (c : Cluster) where
  stored_files :
      (o : Outcome (Option FileBlock × BlockFiles)) (sent : Option FileBlock) (c' : Cluster)
      → (o >>= λ (r, files). passed r (record c { files = files })) ≡ passed sent c'
      → (r : Option FileBlock) × (files : BlockFiles) × (o ≡ sent_back r files)
        × (record c { files = files } ≡ c')
  stored_files (done (r, files)) sent c' e =
      (r, files, refl, ap (λ (p : Option FileBlock × Cluster). p.1) (done-injective _ _ e))
  stored_files undefined sent c' e = absurd (cc)
  stored_files diverged sent c' e = absurd (cc)
  stored_files exited sent c' e = absurd (cc)

  -- A datanode listens where the block is sent, and answers.
  reached :
      (op_type : ℕ) (b : FileBlock) (sent : Option FileBlock) (c' : Cluster)
      → ask_datanode decimal c op_type b ≡ passed sent c'
      → (server : BlockServer) × (r : Option FileBlock) × (files : BlockFiles) × (c.listening
            b.loc_ip b.loc_port
          ≡ some server)
        × (Datanode.requests_dispatcher decimal server c.files
              (record { op_type = op_type; block = b })
            ≡ sent_back r files)
        × (record c { files = files } ≡ c')
  unfolding ask_datanode
  reached op_type b sent c' e = elim (Option-cases (c.listening b.loc_ip b.loc_port)) [
    | inl nobody ↦
        let stops : exited ≡ passed sent c' = rw (nobody, ask_datanode) at e in absurd (cc)
    | inr (server, listens) ↦
        let (r, files, ran, same) =
          stored_files
            (Datanode.requests_dispatcher decimal server c.files
              (record { op_type = op_type; block = b }))
            sent c' (rw (listens, ask_datanode) at e) in
        (server, r, files, listens, ran, same)
  ]

  Untouched-files :
      (files : BlockFiles)
      → ((a : FileBlock)
          → IsReachable c.listening a
          → a.owner_name ≡ name
          → files (place_of decimal c.listening a) ≡ c.files (place_of decimal c.listening a))
      → Untouched decimal name c (record c { files = files })
  Untouched-files files same = record { finds = refl; listening = refl; blocks = same }

  pub read-Untouched :
      (b : FileBlock) (sent : Option FileBlock) (c' : Cluster)
      → ask_datanode decimal c 0 b ≡ passed sent c'
      → Untouched decimal name c c'
  read-Untouched b sent c' e =
      let (server, r, files, listens, ran, same) = reached 0 b sent c' e in
      let kept : files ≡ c.files = requests_dispatcher_read decimal server c.files b r files ran in
      subst (λ (x : Cluster). Untouched decimal name c x) same
        (Untouched-files files (λ a reach owner. rw kept refl))

  module _ (d : IsDecimal decimal) (dirs : HasDirectories c) (plain : IsFreeOf 47 name) where
    -- The file of a block of another name is not that of a block of the file.
    other_place :
        (a b : FileBlock) (server : BlockServer)
        → IsReachable c.listening a
        → a.owner_name ≡ name
        → c.listening b.loc_ip b.loc_port ≡ some server
        → b.owner_name ≢ name
        → IsFreeOf 47 b.owner_name
        → text_eq
            (place_of decimal c.listening a)
            (get_block_file_path decimal server.working_directory b.owner_name b.block_id)
          ≡ false
    unfolding place_of
    other_place a b server reach owner listens ne free =
        let (x, e) = dirs.ends a.loc_ip a.loc_port (server_of c.listening a) reach.listens in
        let (x', e') = dirs.ends b.loc_ip b.loc_port server listens in
        rw (e, e', owner)
          (path-ne_name decimal d x x' name b.owner_name a.block_id b.block_id plain free
            (text_eq_of_ne name b.owner_name (λ q. ne (sym q))))

    untouched_place :
        (a b : FileBlock) (server : BlockServer) (files : BlockFiles)
        → IsReachable c.listening a
        → a.owner_name ≡ name
        → c.listening b.loc_ip b.loc_port ≡ some server
        → b.owner_name ≢ name
        → IsFreeOf 47 b.owner_name
        → (files ≡ c.files)
          ⊎ (files
              ≡ written c.files
                  (get_block_file_path decimal server.working_directory b.owner_name b.block_id)
                  b.content)
        → files (place_of decimal c.listening a) ≡ c.files (place_of decimal c.listening a)
    untouched_place a b server files reach owner listens ne free (inl unchanged) = rw unchanged refl
    untouched_place a b server files reach owner listens ne free (inr wrote) =
        rw (wrote, other_place a b server reach owner listens ne free) refl

    pub send-Untouched :
        (op_type : ℕ) (b : FileBlock) (sent : Option FileBlock) (c' : Cluster)
        → b.owner_name ≢ name
        → IsFreeOf 47 b.owner_name
        → ask_datanode decimal c op_type b ≡ passed sent c'
        → Untouched decimal name c c'
    send-Untouched op_type b sent c' ne free e =
        let (server, r, files, listens, ran, same) = reached op_type b sent c' e in
        let one = requests_dispatcher-one decimal server c.files b op_type r files ran in
        subst (λ (x : Cluster). Untouched decimal name c x) same
          (Untouched-files files
            (λ a reach owner. untouched_place a b server files reach owner listens ne free one))
