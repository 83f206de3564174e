-- ===== src/Namenode/Spread.antt =====
-- Every block that the namenode has entered is on a datanode of its list.
use ecse.Common.{
  ℕ, zero, suc, ◌+◌, ◌%◌, ◌<◌, ◌≤◌, ◌≡◌, refl, ap, ◌∙◌, inl, inr, Option, some, Outcome, done,
  undefined, diverged, exited, ◌>>=◌, arith, leb, ◌==◌, if◌then◌else◌, Bool-cases, eq_of_eqb,
  eqb_of_ne, ne_of_eqb, eqb_of_eq, done-injective,
}
use mathlib.Core.Path.{subst}
use ecse.Common.Texts.{Text}
use ecse.Namenode.{Datanode, FileBlock, set_at, block_on, find_node, assign_blocks, extend_blocks}
use ecse.Namenode.Nodes.{Found, find_node-Found}

-- The block has number `j` and names a datanode of the list.
pub record IsOn (nodes : ℕ → Option Datanode) (j : ℕ) (b : FileBlock) : Type 0 where
  pub node : ℕ
  pub datanode : Datanode
  pub small : node < 10
  pub listed : nodes node ≡ some datanode
  pub named : b.dn_id ≡ node + 1
  pub numbered : b.block_id ≡ j

find_node-listed :
    (nodes : ℕ → Option Datanode) (i d : ℕ) (dn : Datanode)
    → i < 10
    → find_node 10 nodes i ≡ done (d, dn)
    → (d < 10) × (nodes d ≡ some dn)
find_node-listed nodes i d dn lt e =
    let found : Found nodes 10 i (done (d, dn)) =
      subst (λ (r : Outcome (ℕ × Datanode)). Found nodes 10 i r) e
        (find_node-Found 10 nodes i lt) in
    let (m, few, at, filled, skipped) = found in (omega arith, filled)

-- From `lo` on, `n` blocks are on datanodes, and those before are as they were.
pub record Spread (nodes : ℕ → Option Datanode) (lo n : ℕ) (old new : ℕ → FileBlock) : Type 0 where
  pub placed : (j : ℕ) → lo ≤ j → j < lo + n → IsOn nodes j (new j)
  pub below : (j : ℕ) → j < lo → new j ≡ old j

Spread-none :
    (nodes : ℕ → Option Datanode) (lo : ℕ) (old : ℕ → FileBlock) → Spread nodes lo 0 old old
Spread-none nodes lo old = record { placed = λ j le lt. absurd (omega arith); below = λ j lt. refl }

-- A block that is set, and the ones behind it.
Spread-suc :
    (nodes : ℕ → Option Datanode) (name : Text) (junk : ℕ → ℕ) (lo n d : ℕ) (dn : Datanode)
    (old new : ℕ → FileBlock)
    → d < 10
    → nodes d ≡ some dn
    → Spread nodes (lo + 1) n (set_at old lo (block_on name junk lo d dn)) new
    → Spread nodes lo (suc n) old new
Spread-suc nodes name junk lo n d dn old new lt listed h =
    let set : new lo ≡ block_on name junk lo d dn =
      h.below lo (omega arith) ∙ rw (eqb_of_eq lo lo refl) refl in
    record {
      placed = λ j le less. elim (Bool-cases (j == lo)) [
        | inl same ↦
            let e : j ≡ lo = eq_of_eqb j lo same in
            record {
              node = d;
              datanode = dn;
              small = lt;
              listed = listed;
              named = rw e (ap (λ (b : FileBlock). b.dn_id) set);
              numbered = rw e (ap (λ (b : FileBlock). b.block_id) set);
            }
        | inr other ↦ let ne = ne_of_eqb j lo other in h.placed j (omega arith) (omega arith)
      ];
      below =
          λ j less. h.below j (omega arith) ∙ rw (eqb_of_ne j lo (λ e. absurd (omega arith))) refl;
    }

-- A round that ended found a datanode, and the rest of the loop ended.
round_done :
    (lo : ℕ) (o : Outcome (ℕ × Datanode)) (rest : ℕ → Datanode → Outcome (ℕ → FileBlock))
    (new : ℕ → FileBlock)
    → (o >>= λ (i, d). if leb 100 lo then undefined else rest i d) ≡ done new
    → (i : ℕ) × (d : Datanode) × (o ≡ done (i, d)) × (rest i d ≡ done new)
round_done lo (done (i, d)) rest new e = elim (Bool-cases (leb 100 lo)) [
  | inl full ↦ let stops : undefined ≡ done new = rw full at e in absurd (cc)
  | inr fits ↦ (i, d, refl, rw fits at e)
]
round_done lo undefined rest new e = absurd (cc)
round_done lo diverged rest new e = absurd (cc)
round_done lo exited rest new e = absurd (cc)

module _ (nodes : ℕ → Option Datanode) (name : Text) where
  pub assign_blocks-Spread :
      (n : ℕ) (junk : ℕ → ℕ) (lo next : ℕ) (old new : ℕ → FileBlock)
      → assign_blocks n nodes name junk lo next old ≡ done new
      → Spread nodes lo n old new
  unfolding assign_blocks
  assign_blocks-Spread zero junk lo next old new e =
      subst (λ (b : ℕ → FileBlock). Spread nodes lo 0 old b) (done-injective old new e)
        (Spread-none nodes lo old)
  assign_blocks-Spread (suc n) junk lo next old new e =
      let (d, dn, found, run) =
        round_done lo (find_node 10 nodes (next % 10))
          (λ i d.
            assign_blocks n nodes name junk (lo + 1) (i + 1)
              (set_at old lo (block_on name junk lo i d)))
          new e in
      let (small, listed) = find_node-listed nodes (next % 10) d dn (omega arith) found in
      Spread-suc nodes name junk lo n d dn old new small listed (
        assign_blocks-Spread n junk (lo + 1) (d + 1) (set_at old lo (block_on name junk lo d dn))
          new run)

  pub extend_blocks-Spread :
      (n lo node : ℕ) (old new : ℕ → FileBlock)
      → extend_blocks n nodes name lo node old ≡ done new
      → Spread nodes lo n old new
  unfolding extend_blocks
  extend_blocks-Spread zero lo node old new e =
      subst (λ (b : ℕ → FileBlock). Spread nodes lo 0 old b) (done-injective old new e)
        (Spread-none nodes lo old)
  extend_blocks-Spread (suc n) lo node old new e =
      let (d, dn, found, run) =
        round_done lo (find_node 10 nodes (node % 10))
          (λ i d.
            extend_blocks n nodes name (lo + 1) i (set_at old lo (block_on name (λ k. 0) lo i d)))
          new e in
      let (small, listed) = find_node-listed nodes (node % 10) d dn (omega arith) found in
      Spread-suc nodes name (λ k. 0) lo n d dn old new small listed
        (extend_blocks-Spread n (lo + 1) d (set_at old lo (block_on name (λ k. 0) lo d dn)) new run)
