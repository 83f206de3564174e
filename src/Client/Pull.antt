-- ===== src/Client/Pull.antt =====
-- What `pull_file` brings back from the datanodes.
use ecse.Common.{
  ℕ, zero, suc, ◌+◌, ◌<◌, ◌≤◌, ◌≡◌, refl, ap, ◌∙◌, inl, inr, false, some, done, undefined, arith,
  Bool-cases, ◌==◌, eq_of_eqb, ne_of_eqb, leb_of_lt, eqb_of_eq, eqb_of_ne,
}
use ecse.Common.Texts.{Text}
use ecse.Namenode.{FileBlock, set_at}
use ecse.Datanode.{Content}
use ecse.Datanode.Paths.{IsDecimal}
use ecse.Datanode.Content.{EndsAt}
use ecse.Client.{Cluster, pull_block, pull_blocks}
use ecse.Client.Store.{IsReachable, place_of, pull_block-EndsAt, pull_block_overrun}

module _ (decimal : ℕ → Text) (d : IsDecimal decimal) (c : Cluster) (block_list : ℕ → FileBlock)
    (total : ℕ) (room : total ≤ 100)
    (reach : (j : ℕ) → j < total → IsReachable c.listening (block_list j)) (buffers : ℕ → Content)
    (stored : (j : ℕ)
      → j < total
      → c.files (place_of decimal c.listening (block_list j)) ≡ some (buffers j)) where
  pull_none :
      (lo : ℕ) (contents : ℕ → Content)
      → pull_blocks 0 decimal block_list lo c contents ≡ done (contents, c)
  unfolding pull_blocks
  pull_none lo contents = refl

  pull_step :
      (n lo : ℕ) (contents : ℕ → Content) (content : Content)
      → lo < total
      → pull_block decimal c (block_list lo) ≡ done (content, c)
      → pull_blocks (suc n) decimal block_list lo c contents
        ≡ pull_blocks n decimal block_list (lo + 1) c (set_at contents lo content)
  unfolding pull_blocks
  pull_step n lo contents content lt e = rw (e, pull_blocks, leb_of_lt 100 lo (omega arith)) refl

  module _ (nul : ℕ → ℕ) where
    -- The blocks from `lo` on, `n` of them, hold the texts of their files; the others stay.
    pub pull_blocks-EndsAt :
        (n lo : ℕ) (contents : ℕ → Content)
        → lo + n ≤ total
        → ((j : ℕ) → j < lo + n → EndsAt (buffers j) (nul j))
        → (later : ℕ → Content) × (pull_blocks n decimal block_list lo c contents ≡ done (later, c))
          × ((j k : ℕ) → lo ≤ j → j < lo + n → k ≤ nul j → later j k ≡ buffers j k)
          × ((j : ℕ) → j < lo → later j ≡ contents j)
    pull_blocks-EndsAt zero lo contents le ends =
        (contents, pull_none lo contents, λ j k p q. absurd (omega arith), λ j p. refl)
    pull_blocks-EndsAt (suc n) lo contents le ends =
        let (content, e, same) =
          pull_block-EndsAt decimal d c (block_list lo) (reach lo (omega arith)) (buffers lo)
            (stored lo (omega arith)) (nul lo) (ends lo (omega arith)) in
        let (later, run, new, old) =
          pull_blocks-EndsAt n (lo + 1) (set_at contents lo content) (omega arith)
            (λ j q. ends j (omega arith)) in
        let here : later lo ≡ content = old lo (omega arith) ∙ rw (eqb_of_eq lo lo refl) refl in
        (
          later,
          pull_step n lo contents content (omega arith) e ∙ run,
          λ j k p q le. elim (Bool-cases (j == lo)) [
            | inl at ↦
                let is : j ≡ lo = eq_of_eqb j lo at in
                let small : k ≤ nul lo = rw (← is) le in
                rw is (ap (λ (f : Content). f k) here ∙ same k small)
            | inr differ ↦ let ne = ne_of_eqb j lo differ in new j k (omega arith) (omega arith) le
          ],
          λ j p. old j (omega arith) ∙ rw (eqb_of_ne j lo (λ e. absurd (omega arith))) refl,
        )

    -- If a block has no NUL and the ones before it have one, the datanode overruns its buffer.
    pub pull_blocks_overrun :
        (m n lo : ℕ) (contents : ℕ → Content)
        → lo + n ≤ total
        → m < n
        → ((j : ℕ) → j < lo + m → EndsAt (buffers j) (nul j))
        → ((k : ℕ) → k < 1024 → (buffers (lo + m) k == 0) ≡ false)
        → pull_blocks n decimal block_list lo c contents ≡ undefined
    unfolding pull_blocks
    pull_blocks_overrun m zero lo contents le lt ends w = absurd (omega arith)
    pull_blocks_overrun zero (suc n) lo contents le lt ends w =
        let here : lo + 0 ≡ lo = omega arith in
        let e =
          pull_block_overrun decimal d c (block_list lo) (reach lo (omega arith)) (buffers lo)
            (stored lo (omega arith)) (rw (← here) w) in
        rw (e, pull_blocks) refl
    pull_blocks_overrun (suc m) (suc n) lo contents le lt ends w =
        let there : lo + suc m ≡ lo + 1 + m = omega arith in
        let (content, e, same) =
          pull_block-EndsAt decimal d c (block_list lo) (reach lo (omega arith)) (buffers lo)
            (stored lo (omega arith)) (nul lo) (ends lo (omega arith)) in
        pull_step n lo contents content (omega arith) e
        ∙ pull_blocks_overrun m n (lo + 1) (set_at contents lo content) (omega arith) (omega arith)
            (λ j q. ends j (omega arith)) (rw (← there) w)
