-- ===== src/Sockets/Sending.antt =====
-- When `send_data` ends, and what has been sent then.
use ecse.Common.{
  ℕ, zero, suc, ◌+◌, ◌-◌, ◌*◌, ◌<◌, ◌≤◌, ◌≡◌, refl, sym, ap, ◌∙◌, inl, inr, Outcome, done, arith,
  ltb_of_lt, ltb_of_le,
}
use ecse.Common.Int.{ℤ, pos, negsuc}
use mathlib.Core.Path.{subst}
use ecse.Sockets.{copied, send_loop, send_data, receive_data}
use ecse.Sockets.Moved.{
  bytes_of, moved, order_cases, ℤ-cases, moved_pos, moved_negsuc, copied_below,
}
use ecse.Sockets.Receiving.{receive_data-moved}

module _ (memory : ℕ → ℕ) (size : ℕ) where
  -- The call ends, and what was sent is the memory from the start of the buffer on, the whole buffer
  -- and less than as much again behind it.
  pub record IsSent (o : Outcome ((ℕ → ℕ) × ℕ)) : Type 0 where
    pub sent : ℕ → ℕ
    pub total : ℕ
    pub ends : o ≡ done (sent, total)
    pub whole : size ≤ total
    pub few : total ≤ 2 * size - 1
    pub same : (p : ℕ) → p < total → sent p ≡ memory p

module _ (results : ℕ → ℤ) (memory : ℕ → ℕ) (size : ℕ) where
  send_enough :
      (n call sent : ℕ) (wire : ℕ → ℕ)
      → size ≤ sent
      → send_loop n results memory size call sent wire ≡ done (wire, sent)
  unfolding send_loop
  send_enough zero call sent wire le = rw (ltb_of_le sent size le) refl
  send_enough (suc n) call sent wire le = rw (ltb_of_le sent size le) refl

  send_pos :
      (n call sent r : ℕ) (wire : ℕ → ℕ)
      → sent < size
      → results call ≡ pos r
      → send_loop (suc n) results memory size call sent wire
        ≡ send_loop n results memory size (call + 1) (sent + r) (copied sent r memory wire)
  unfolding send_loop
  send_pos n call sent r wire lt e = rw (e, send_loop, ltb_of_lt sent size lt) refl

  send_negsuc :
      (n call sent r : ℕ) (wire : ℕ → ℕ)
      → sent < size
      → results call ≡ negsuc r
      → send_loop (suc n) results memory size call sent wire
        ≡ send_loop n results memory size (call + 1) sent wire
  unfolding send_loop
  send_negsuc n call sent r wire lt e = rw (e, send_loop, ltb_of_lt sent size lt) refl

  module _ (bounded : (k : ℕ) → bytes_of (results k) ≤ size) where
    bounded_pos : (call r : ℕ) → results call ≡ pos r → r ≤ size
    unfolding bytes_of
    bounded_pos call r e = subst (λ (z : ℤ). bytes_of z ≤ size) e (bounded call)

    send_loop-moved :
        (n call : ℕ) (wire : ℕ → ℕ)
        → size ≤ moved results (call + n)
        → moved results call ≤ 2 * size - 1
        → ((p : ℕ) → p < moved results call → wire p ≡ memory p)
        → IsSent memory size (send_loop n results memory size call (moved results call) wire)
    send_loop-moved zero call wire e few same =
        let here : call + 0 ≡ call = omega arith in
        let full : size ≤ moved results call = rw (← here) e in
        record {
          sent = wire;
          total = moved results call;
          ends = send_enough 0 call (moved results call) wire full;
          whole = full;
          few = few;
          same = same;
        }
    send_loop-moved (suc n) call wire e few same =
        let there : call + suc n ≡ call + 1 + n = omega arith in
        let e' : size ≤ moved results (call + 1 + n) = rw (← there) e in
        elim (order_cases (moved results call) size) [
          | inr le ↦ record {
            sent = wire;
            total = moved results call;
            ends = send_enough (suc n) call (moved results call) wire le;
            whole = le;
            few = few;
            same = same;
          }
          | inl lt ↦ elim (ℤ-cases (results call)) [
            | inr (r, failed) ↦
                let still = moved_negsuc results call r failed in
                let rest =
                  send_loop-moved n (call + 1) wire e' (omega arith)
                    (λ p q. same p (omega arith)) in
                subst (λ (o : Outcome ((ℕ → ℕ) × ℕ)). IsSent memory size o)
                  (sym (
                    send_negsuc n call (moved results call) r wire lt failed
                    ∙ ap (λ g. send_loop n results memory size (call + 1) g wire) (sym still)))
                  rest
            | inl (r, got) ↦
                let sum = moved_pos results call r got in
                let small = bounded_pos call r got in
                let rest =
                  send_loop-moved n (call + 1) (copied (moved results call) r memory wire) e'
                    (omega arith)
                    (λ p q. copied_below (moved results call) r memory wire same p (omega arith)) in
                subst (λ (o : Outcome ((ℕ → ℕ) × ℕ)). IsSent memory size o)
                  (sym (
                    send_pos n call (moved results call) r wire lt got
                    ∙ ap
                        (λ g.
                          send_loop n results memory size (call + 1) g
                            (copied (moved results call) r memory wire))
                        (sym sum)))
                  rest
          ]
        ]

    -- Where no call of `send` takes more bytes than it was given and the first `n` calls take at
    -- least `size` together, `send_data` ends within `n` calls, failing ones included: what was sent
    -- is the memory from the start of the buffer on, all of the buffer and less than as much again
    -- behind it.
    pub send_data-moved :
        (k n : ℕ) (wire : ℕ → ℕ)
        → size ≤ moved results n
        → IsSent memory size (send_data n results (pos k) memory size wire)
    unfolding send_data moved
    send_data-moved k n wire le =
        let start : 0 + n ≡ n = omega arith in
        send_loop-moved n 0 wire (rw start le) (omega arith) (λ p q. absurd (omega arith))

-- What `receive_data` gets of what `send_data` has sent: where the calls of `send` and `recv` take
-- and bring at least one message each within `n` and `m` calls, and no call takes more than it was
-- given or brings more than the message, the buffer holds the message.
pub receive_data-send_data :
    (sends receives : ℕ → ℤ) (memory buffer : ℕ → ℕ) (size k n m : ℕ)
    → ((l : ℕ) → bytes_of (sends l) ≤ size)
    → size ≤ moved sends n
    → ((l : ℕ) → moved receives l ≤ size)
    → moved receives m ≡ size
    → (sent : ℕ → ℕ) × (total : ℕ) × (later : ℕ → ℕ) × (send_data n sends
          (pos k)
          memory
          size
          (λ p. 0)
        ≡ done (sent, total))
      × (receive_data m receives (pos k) sent size buffer ≡ done later)
      × ((p : ℕ) → p < size → later p ≡ memory p)
receive_data-send_data sends receives memory buffer size k n m bounded enough fits whole =
    let s = send_data-moved sends memory size bounded k n (λ p. 0) enough in
    let sent = s.sent in
    let same = s.same in
    let all = s.whole in
    let (later, run, new, old) = receive_data-moved receives sent size fits k m buffer whole in
    (sent, s.total, later, s.ends, run, λ p lt. new p lt ∙ same p (omega arith))
