-- ===== src/Namenode/Assign.antt =====
-- The round robin of `get_file_receivers`: which datanode each block is assigned to.
use ecse.Common.{
  ℕ, zero, suc, ◌+◌, ◌%◌, ◌<◌, ◌≤◌, ◌≡◌, ◌≢◌, ◌⊎◌, inl, inr, refl, ap, ◌∙◌, Option, some, done,
  undefined, arith, eqb_of_ne, leb_of_lt, eqb_of_eq,
}
use ecse.Common.Texts.{Text}
use ecse.Namenode.{Datanode, FileBlock, set_at, block_on, find_node, assign_blocks}
use ecse.Namenode.Nodes.{IsNext, find_node-IsNext}

-- Block `index` is on the first datanode registered from index `from` on, round the list.
pub record Placed (nodes : ℕ → Option Datanode) (name : Text) (junk : ℕ → ℕ) (index from : ℕ)
    (b : FileBlock) : Type 0 where
  pub node : ℕ
  pub datanode : Datanode
  pub next : IsNext nodes (from % 10) node datanode
  pub made : b ≡ block_on name junk index node datanode

-- Where the search for the node of the `j`-th new block starts: after the node of the block before.
-- The index after a node is its id.
unfoldable pub origin : ℕ → ℕ → (ℕ → FileBlock) → ℕ → ℕ
origin next lo blocks zero = next
origin next lo blocks (suc j) = (blocks (lo + j)).dn_id

-- The blocks from `lo` on, `n` of them, are placed one after the other, and the others are as before.
pub record Assigned (nodes : ℕ → Option Datanode) (name : Text) (junk : ℕ → ℕ) (next lo n : ℕ)
    (old new : ℕ → FileBlock) : Type 0 where
  pub placed :
      (j : ℕ) → j < n → Placed nodes name junk (lo + j) (origin next lo new j) (new (lo + j))
  pub below : (k : ℕ) → k < lo → new k ≡ old k
  pub above : (k : ℕ) → lo + n ≤ k → new k ≡ old k

module _ (nodes : ℕ → Option Datanode) (name : Text) (junk : ℕ → ℕ) where
  assign_step :
      (n index next : ℕ) (blocks : ℕ → FileBlock) (d : ℕ) (dn : Datanode)
      → find_node 10 nodes (next % 10) ≡ done (d, dn)
      → index < 100
      → assign_blocks (suc n) nodes name junk index next blocks
        ≡ assign_blocks n nodes name junk
            (index + 1)
            (d + 1)
            (set_at blocks index (block_on name junk index d dn))
  unfolding assign_blocks
  assign_step n index next blocks d dn e lt = rw (e, leb_of_lt 100 index lt) refl

  assign_full :
      (n next : ℕ) (blocks : ℕ → FileBlock) (d : ℕ) (dn : Datanode)
      → find_node 10 nodes (next % 10) ≡ done (d, dn)
      → assign_blocks (suc n) nodes name junk 100 next blocks ≡ undefined
  unfolding assign_blocks
  assign_full n next blocks d dn e = rw e refl

  assign_none :
      (index next : ℕ) (blocks : ℕ → FileBlock)
      → assign_blocks 0 nodes name junk index next blocks ≡ done blocks
  unfolding assign_blocks
  assign_none index next blocks = refl

  set_here : (blocks : ℕ → FileBlock) (i : ℕ) (b : FileBlock) → set_at blocks i b i ≡ b
  set_here blocks i b = rw (eqb_of_eq i i refl) refl

  set_there :
      (blocks : ℕ → FileBlock) (i k : ℕ) (b : FileBlock) → k ≢ i → set_at blocks i b k ≡ blocks k
  set_there blocks i k b ne = rw (eqb_of_ne k i ne) refl

  origin_shift :
      (next lo d : ℕ) (new : ℕ → FileBlock) (j : ℕ)
      → (new lo).dn_id ≡ d + 1
      → origin next lo new (suc j) ≡ origin (d + 1) (lo + 1) new j
  unfolding origin
  origin_shift next lo d new zero e =
      let here : lo + 0 ≡ lo = omega arith in ap (λ k. (new k).dn_id) here ∙ e
  origin_shift next lo d new (suc j) e =
      let there : lo + suc j ≡ lo + 1 + j = omega arith in ap (λ k. (new k).dn_id) there

  Placed-suc :
      (next lo n d : ℕ) (dn : Datanode) (new : ℕ → FileBlock)
      → IsNext nodes (next % 10) d dn
      → new lo ≡ block_on name junk lo d dn
      → ((j : ℕ)
          → j < n
          → Placed nodes name junk (lo + 1 + j) (origin (d + 1) (lo + 1) new j) (new (lo + 1 + j)))
      → (j : ℕ) → j < suc n
      → Placed nodes name junk (lo + j) (origin next lo new j) (new (lo + j))
  unfolding origin
  Placed-suc next lo n d dn new first e rest zero q =
      let here : lo + 0 ≡ lo = omega arith in
      rw here (record { node = d; datanode = dn; next = first; made = e })
  Placed-suc next lo n d dn new first e rest (suc j) q =
      let there : lo + suc j ≡ lo + 1 + j = omega arith in
      let shift = origin_shift next lo d new j (ap (λ (b : FileBlock). b.dn_id) e) in
      rw (shift, there) (rest j (omega arith))

  Assigned-suc :
      (next lo n d : ℕ) (dn : Datanode) (old new : ℕ → FileBlock)
      → IsNext nodes (next % 10) d dn
      → Assigned nodes name junk (d + 1) (lo + 1) n (set_at old lo (block_on name junk lo d dn)) new
      → Assigned nodes name junk next lo (suc n) old new
  Assigned-suc next lo n d dn old new first rest = record {
    placed =
        Placed-suc next lo n d dn new first
          (rest.below lo (omega arith) ∙ set_here old lo (block_on name junk lo d dn)) rest.placed;
    below = λ k q. rest.below k (omega arith) ∙ set_there old lo k _ (λ e. absurd (omega arith));
    above = λ k q. rest.above k (omega arith) ∙ set_there old lo k _ (λ e. absurd (omega arith));
  }

  -- With some datanode registered and room in the list for all blocks, the loop ends and every block
  -- is placed on a registered datanode, round robin; the other entries stay.
  pub assign_blocks-Assigned :
      (n lo next : ℕ) (old : ℕ → FileBlock) (k : ℕ) (dk : Datanode)
      → k < 10
      → nodes k ≡ some dk
      → lo + n ≤ 100
      → (new : ℕ → FileBlock) × (assign_blocks n nodes name junk lo next old ≡ done new)
        × Assigned nodes name junk next lo n old new
  assign_blocks-Assigned zero lo next old k dk small live room = (
    old,
    assign_none lo next old,
    record { placed = λ j q. absurd (omega arith); below = λ k q. refl; above = λ k q. refl },
  )
  assign_blocks-Assigned (suc n) lo next old k dk small live room =
      let (d, dn, e, first) = find_node-IsNext nodes (next % 10) k dk (omega arith) small live in
      let set = set_at old lo (block_on name junk lo d dn) in
      let (new, run, rest) =
        assign_blocks-Assigned n (lo + 1) (d + 1) set k dk small live (omega arith) in
      (
        new,
        assign_step n lo next old d dn e (omega arith) ∙ run,
        Assigned-suc next lo n d dn old new first rest,
      )

  -- With some datanode registered and more blocks than the list has entries, the loop writes behind
  -- the list.
  pub assign_blocks_overflow :
      (n lo next : ℕ) (old : ℕ → FileBlock) (k : ℕ) (dk : Datanode)
      → k < 10
      → nodes k ≡ some dk
      → lo ≤ 100
      → 100 < lo + n
      → assign_blocks n nodes name junk lo next old ≡ undefined
  assign_blocks_overflow zero lo next old k dk small live le over = absurd (omega arith)
  assign_blocks_overflow (suc n) lo next old k dk small live le over =
      let (d, dn, e, first) = find_node-IsNext nodes (next % 10) k dk (omega arith) small live in
      elim (full_cases lo le) [
        | inl lt ↦
            assign_step n lo next old d dn e lt
            ∙ assign_blocks_overflow n (lo + 1) (d + 1) _ k dk small live (omega arith)
                (omega arith)
        | inr full ↦ rw full (assign_full n next old d dn e)
      ]
    where
      full_cases : (a : ℕ) → a ≤ 100 → (a < 100) ⊎ (a ≡ 100)
      full_cases a h = omega arith
