-- ===== src/Sockets/Receiving.antt =====
-- When `receive_data` ends, and what the buffer holds then.
use ecse.Common.{
  ℕ, zero, suc, ◌+◌, ◌<◌, ◌≤◌, ◌≡◌, refl, ◌∙◌, inl, inr, done, diverged, arith, ltb_of_lt,
  ltb_of_le,
}
use ecse.Common.Int.{ℤ, pos, negsuc}
use ecse.Sockets.{copied, receive_loop, receive_data}
use ecse.Sockets.Moved.{
  moved, order_cases, ℤ-cases, moved_pos, moved_negsuc, copied_below, copied_above,
}

module _ (results : ℕ → ℤ) (incoming : ℕ → ℕ) (size : ℕ) where
  receive_enough :
      (n call got : ℕ) (buffer : ℕ → ℕ)
      → size ≤ got
      → receive_loop n results incoming size call got buffer ≡ done buffer
  unfolding receive_loop
  receive_enough zero call got buffer le = rw (ltb_of_le got size le) refl
  receive_enough (suc n) call got buffer le = rw (ltb_of_le got size le) refl

  receive_pos :
      (n call got r : ℕ) (buffer : ℕ → ℕ)
      → got < size
      → results call ≡ pos r
      → got + r ≤ size
      → receive_loop (suc n) results incoming size call got buffer
        ≡ receive_loop n results incoming size (call + 1) (got + r) (copied got r incoming buffer)
  unfolding receive_loop
  receive_pos n call got r buffer lt e le =
      rw (e, receive_loop, ltb_of_lt got size lt, ltb_of_le size (got + r) le) refl

  receive_negsuc :
      (n call got r : ℕ) (buffer : ℕ → ℕ)
      → got < size
      → results call ≡ negsuc r
      → receive_loop (suc n) results incoming size call got buffer
        ≡ receive_loop n results incoming size (call + 1) got buffer
  unfolding receive_loop
  receive_negsuc n call got r buffer lt e = rw (e, receive_loop, ltb_of_lt got size lt) refl

  module _ (bounded : (k : ℕ) → moved results k ≤ size) where
    receive_loop-moved :
        (n call : ℕ) (buffer : ℕ → ℕ)
        → moved results (call + n) ≡ size
        → ((p : ℕ) → p < moved results call → buffer p ≡ incoming p)
        → (later : ℕ → ℕ) × (receive_loop n results incoming size call (moved results call) buffer
            ≡ done later)
          × ((p : ℕ) → p < size → later p ≡ incoming p)
          × ((p : ℕ) → size ≤ p → later p ≡ buffer p)
    receive_loop-moved zero call buffer e same =
        let here : call + 0 ≡ call = omega arith in
        let full : moved results call ≡ size = rw (← here) e in
        (
          buffer,
          receive_enough 0 call (moved results call) buffer (omega arith),
          λ p lt. same p (omega arith),
          λ p le. refl,
        )
    receive_loop-moved (suc n) call buffer e same =
        let there : call + suc n ≡ call + 1 + n = omega arith in
        let e' : moved results (call + 1 + n) ≡ size = rw (← there) e in
        elim (order_cases (moved results call) size) [
          | inr le ↦ (
            buffer,
            receive_enough (suc n) call (moved results call) buffer le,
            λ p lt. same p (omega arith),
            λ p q. refl,
          )
          | inl lt ↦ elim (ℤ-cases (results call)) [
            | inr (r, failed) ↦
                let still = moved_negsuc results call r failed in
                let (later, run, new, old) =
                  receive_loop-moved n (call + 1) buffer e' (λ p q. same p (omega arith)) in
                (
                  later,
                  receive_negsuc n call (moved results call) r buffer lt failed ∙ rw (← still) run,
                  new,
                  old,
                )
            | inl (r, got) ↦
                let sum = moved_pos results call r got in
                let small : moved results call + r ≤ size = rw (← sum) (bounded (call + 1)) in
                let buffer' = copied (moved results call) r incoming buffer in
                let (later, run, new, old) = receive_loop-moved n (call + 1) buffer' e' (λ p q.
                  copied_below (moved results call) r incoming buffer same p (omega arith)) in
                (
                  later,
                  receive_pos n call (moved results call) r buffer lt got small ∙ rw (← sum) run,
                  new,
                  λ p q.
                      old p q ∙ copied_above (moved results call) r incoming buffer p (omega arith),
                )
          ]
        ]

    -- Where the calls of `recv` move no more than the buffer takes, and the first `n` of them as many
    -- bytes as it takes, `receive_data` ends within `n` calls, failing ones included: the buffer
    -- holds the bytes in the order they came in, and behind it nothing changes.
    pub receive_data-moved :
        (k n : ℕ) (buffer : ℕ → ℕ)
        → moved results n ≡ size
        → (later : ℕ → ℕ) × (receive_data n results (pos k) incoming size buffer ≡ done later)
          × ((p : ℕ) → p < size → later p ≡ incoming p)
          × ((p : ℕ) → size ≤ p → later p ≡ buffer p)
    unfolding receive_data moved
    receive_data-moved k n buffer e =
        let start : 0 + n ≡ n = omega arith in
        receive_loop-moved n 0 buffer (rw start e) (λ p q. absurd (omega arith))

  receive_short :
      (call got : ℕ) (buffer : ℕ → ℕ)
      → got < size
      → receive_loop 0 results incoming size call got buffer ≡ diverged
  unfolding receive_loop
  receive_short call got buffer lt = rw (ltb_of_lt got size lt) refl

  module _ (short : (k : ℕ) → moved results k < size) where
    receive_loop_short :
        (n call : ℕ) (buffer : ℕ → ℕ)
        → receive_loop n results incoming size call (moved results call) buffer ≡ diverged
    receive_loop_short zero call buffer =
        receive_short call (moved results call) buffer (short call)
    receive_loop_short (suc n) call buffer = elim (ℤ-cases (results call)) [
      | inr (r, failed) ↦
          let still = moved_negsuc results call r failed in
          receive_negsuc n call (moved results call) r buffer (short call) failed
          ∙ rw (← still) (receive_loop_short n (call + 1) buffer)
      | inl (r, got) ↦
          let sum = moved_pos results call r got in
          let after = short (call + 1) in
          let small : moved results call + r ≤ size = omega arith in
          receive_pos n call (moved results call) r buffer (short call) got small
          ∙ rw (← sum) (receive_loop_short n (call + 1) _)
    ]

    -- Where the calls of `recv` never move as many bytes as the buffer takes, as when the other end
    -- has closed the connection or every call fails, `receive_data` never ends: no number of calls is
    -- enough.
    pub receive_data_short :
        (k n : ℕ) (buffer : ℕ → ℕ) → receive_data n results (pos k) incoming size buffer ≡ diverged
    unfolding receive_data moved
    receive_data_short k n buffer = receive_loop_short n 0 buffer
