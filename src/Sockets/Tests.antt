-- ===== src/Sockets/Tests.antt =====
-- The theorems on the sockets at concrete calls.
use ecse.Common.{ℕ, zero, suc, ◌+◌, ◌<◌, ◌≤◌, ◌≡◌, refl, inl, false, ◌>>=◌, done, diverged, arith}
use ecse.Common.Int.{ℤ, pos, negsuc}
use ecse.Sockets.{send_data, receive_data}
use ecse.Sockets.Connecting.{is_invalid, is_negative, create_client_tcp_socket, connect_to_nn}
use ecse.Sockets.Unnoticed.{sockets_taken, connect_to_nn-send_data}
use ecse.Sockets.Moved.{bytes_of, moved}
use ecse.Sockets.Receiving.{receive_data_short}
use ecse.Sockets.Sending.{receive_data-send_data}

-- The first call fails, and each other one takes two bytes.
abbrev sends : ℕ → ℤ
sends zero = negsuc 0
sends (suc l) = pos 2

sends_bounded : (l : ℕ) → bytes_of (sends l) ≤ 3
unfolding bytes_of
sends_bounded zero = omega arith
sends_bounded (suc l) = omega arith

sends_enough : 3 ≤ moved sends 3
unfolding moved bytes_of
sends_enough = omega arith

-- One byte comes, then two, then the other end closes.
abbrev receives : ℕ → ℤ
receives zero = pos 1
receives (suc zero) = pos 2
receives (suc (suc l)) = pos 0

receives_later : (l : ℕ) → moved receives (suc (suc l)) ≡ 3
unfolding moved bytes_of
receives_later zero = refl
receives_later (suc l) = omega (arith, receives_later l)

receives_fit : (l : ℕ) → moved receives l ≤ 3
unfolding moved bytes_of
receives_fit zero = omega arith
receives_fit (suc zero) = omega arith
receives_fit (suc (suc l)) = let e = receives_later l in omega arith

abbrev message : ℕ → ℕ
message p = 65 + p

receive_data-send_data_example :
    (sent : ℕ → ℕ) × (total : ℕ) × (later : ℕ → ℕ) × (send_data 3 sends (pos 4) message 3 (λ p. 0)
      ≡ done (sent, total))
    × (receive_data 2 receives (pos 4) sent 3 (λ p. 0) ≡ done later)
    × ((p : ℕ) → p < 3 → later p ≡ message p)
receive_data-send_data_example =
    receive_data-send_data sends receives message (λ p. 0) 3 4 3 2 sends_bounded sends_enough
      receives_fit (receives_later 0)

receives_short : (l : ℕ) → moved receives l < 5
receives_short l = let e = receives_fit l in omega arith

receive_data_short_example : receive_data 100 receives (pos 4) message 5 (λ p. 0) ≡ diverged
receive_data_short_example = receive_data_short receives message 5 receives_short 4 100 (λ p. 0)

no_socket : connect_to_nn (negsuc 0) (negsuc 0) (pos 50030) ≡ done (pos 1)
unfolding connect_to_nn create_client_tcp_socket
no_socket = refl

sockets_taken_example : (is_invalid (pos 1) ≡ false) × (is_negative (pos 1) ≡ false)
sockets_taken_example = sockets_taken (negsuc 0) (negsuc 0) (pos 50030) (pos 1) _ (inl no_socket)

connect_to_nn-send_data_example :
    (connect_to_nn (negsuc 0) (pos 0) (pos 50030) >>= λ s.
    send_data 100 (λ k. negsuc 0) s (λ k. 7) 264 (λ k. 0))
    ≡ diverged
connect_to_nn-send_data_example =
    connect_to_nn-send_data 100 (λ k. negsuc 0) (pos 0) 50030 264 (λ k. 7) (λ k. 0) (λ k. refl)
      (omega arith) (omega arith) (omega arith)
