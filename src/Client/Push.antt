-- ===== src/Client/Push.antt =====
-- What `push_file` leaves on the datanodes.
use ecse.Common.{
  ℕ, zero, suc, ◌+◌, ◌*◌, ◌<◌, ◌≤◌, ◌≡◌, ◌≢◌, refl, sym, ◌∙◌, inl, inr, false, some, done,
  undefined, arith, Bool-cases, ◌==◌, eq_of_eqb, ne_of_eqb, leb_of_lt,
}
use ecse.Common.Texts.{Text, text_eq, text_eq_refl}
use ecse.Namenode.{FileBlock}
use ecse.Datanode.{Content, BlockFiles}
use ecse.Datanode.Paths.{IsDecimal}
use ecse.Datanode.Requests.{written}
use ecse.Client.{HostFile, Cluster, fread_at, push_blocks}
use ecse.Client.Store.{
  IsReachable, IsWritable, place_of, place_of-ne, send_block-written, send_block_refused, server_of,
}

-- What a block of the list is filled with.
unfoldable pub chunk : HostFile → (ℕ → FileBlock) → ℕ → Content
chunk source block_list j = fread_at source (1024 * j) (block_list j).content

-- Where the file of the first block cannot be made, its datanode fails.
pub push_blocks_refused :
    (decimal : ℕ → Text) (d : IsDecimal decimal) (source : HostFile) (c : Cluster)
    (block_list : ℕ → FileBlock) (n : ℕ)
    → IsReachable c.listening (block_list 0)
    → (server_of c.listening (block_list 0)).can_write (place_of decimal c.listening (block_list 0))
      ≡ false
    → push_blocks (suc n) decimal source block_list 0 c ≡ undefined
unfolding push_blocks
push_blocks_refused decimal d source c block_list n r refused =
    rw (send_block_refused decimal d c (block_list 0) r source (1024 * 0) refused, push_blocks) refl

module _ (decimal : ℕ → Text) (d : IsDecimal decimal) (source : HostFile) (c : Cluster)
    (block_list : ℕ → FileBlock) (total : ℕ) (room : total ≤ 100)
    (reach : (j : ℕ) → j < total → IsReachable c.listening (block_list j))
    (opens : (j : ℕ) → j < total → IsWritable decimal c.listening (block_list j))
    (number : (j : ℕ) → j < total → (block_list j).block_id ≡ j) where
  abbrev at : ℕ → Text
  at j = place_of decimal c.listening (block_list j)

  abbrev with_files : BlockFiles → Cluster
  with_files files = record c { files = files }

  at-ne : (i j : ℕ) → i < total → j < total → i ≢ j → text_eq (at i) (at j) ≡ false
  at-ne i j p q ne =
      place_of-ne decimal d c.listening (block_list i) (block_list j)
        (λ e. ne (sym (number i p) ∙ e ∙ number j q))

  push_step :
      (n lo : ℕ) (files : BlockFiles)
      → lo < total
      → push_blocks (suc n) decimal source block_list lo (with_files files)
        ≡ push_blocks n decimal source block_list
            (lo + 1)
            (with_files (written files (at lo) (chunk source block_list lo)))
  unfolding push_blocks chunk
  push_step n lo files lt =
      rw
        (
          send_block-written decimal d (with_files files) (block_list lo) (reach lo lt)
              (opens lo lt) source (1024 * lo),
          push_blocks,
          leb_of_lt 100 lo (omega arith),
        )
        refl

  push_none :
      (lo : ℕ) (files : BlockFiles)
      → push_blocks 0 decimal source block_list lo (with_files files) ≡ done (with_files files)
  unfolding push_blocks
  push_none lo files = refl

  -- The blocks from `lo` on, `n` of them, are written to their files; the files of the blocks before,
  -- and files at other paths, are as they were.
  pub push_blocks-written :
      (n lo : ℕ) (files : BlockFiles)
      → lo + n ≤ total
      → (later : BlockFiles) × (push_blocks n decimal source block_list lo (with_files files)
          ≡ done (with_files later))
        × ((j : ℕ) → lo ≤ j → j < lo + n → later (at j) ≡ some (chunk source block_list j))
        × ((j : ℕ) → j < lo → later (at j) ≡ files (at j))
        × ((p : Text) → ((j : ℕ) → j < total → text_eq p (at j) ≡ false) → later p ≡ files p)
  push_blocks-written zero lo files le =
      (files, push_none lo files, λ j p q. absurd (omega arith), λ j p. refl, λ p ne. refl)
  push_blocks-written (suc n) lo files le =
      let files' = written files (at lo) (chunk source block_list lo) in
      let (later, run, new, old, others) = push_blocks-written n (lo + 1) files' (omega arith) in
      (
        later,
        push_step n lo files (omega arith) ∙ run,
        λ j p q. elim (Bool-cases (j == lo)) [
          | inl same ↦
              let e : j ≡ lo = eq_of_eqb j lo same in
              rw e (old lo (omega arith) ∙ rw (text_eq_refl (at lo)) refl)
          | inr differ ↦ let ne = ne_of_eqb j lo differ in new j (omega arith) (omega arith)
        ],
        λ j p.
            old j (omega arith)
            ∙ rw (at-ne j lo (omega arith) (omega arith) (λ e. absurd (omega arith))) refl,
        λ p ne. others p ne ∙ rw (ne lo (omega arith)) refl,
      )
