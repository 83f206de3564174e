-- ===== src/Sockets/Unnoticed.antt =====
-- A `socket` that fails is never noticed: its callers go on with descriptor 1.
use ecse.Common.{
  ℕ, zero, suc, ◌+◌, ◌<◌, ◌≡◌, ◌⊎◌, refl, inl, inr, true, false, Outcome, done, undefined, diverged,
  exited, ◌>>=◌, arith, leb, if◌then◌else◌, Bool-cases, ltb_of_lt, done-injective,
}
use mathlib.Core.Path.{subst}
use ecse.Common.Int.{ℤ, pos, negsuc}
use ecse.Sockets.{copied, send_loop, send_data}
use ecse.Sockets.Connecting.{
  is_invalid, is_negative, in_range, create_client_tcp_socket, create_server_tcp_socket,
  connect_to_nn, IsOpened,
}

-- The test of every caller.
abbrev IsTaken : ℤ → Type 0
IsTaken s = (is_invalid s ≡ false) × (is_negative s ≡ false)

done-IsTaken : (n : ℕ) (s : ℤ) → done (pos n) ≡ done s → IsTaken s
done-IsTaken n s e = subst IsTaken (done-injective (pos n) s e) (refl, refl)

-- A socket that was made is used, and 1 is where none was.
socket_or_one :
    (a s : ℤ) → IsOpened a → (if is_invalid a then done (pos 1) else done a) ≡ done s → IsTaken s
socket_or_one (pos n) s o q = done-IsTaken n s q
socket_or_one (negsuc zero) s o q = done-IsTaken 1 s q
socket_or_one (negsuc (suc n)) s o q = absurd o

create_server_tcp_socket-IsTaken :
    (opened port s : ℤ)
    → IsOpened opened
    → create_server_tcp_socket opened port ≡ done s
    → IsTaken s
unfolding create_server_tcp_socket
create_server_tcp_socket-IsTaken opened port s o e = elim (Bool-cases (in_range 0 port)) [
  | inr outside ↦ let stops : exited ≡ done s = rw outside at e in absurd (cc)
  | inl inside ↦ socket_or_one opened s o (rw inside at e)
]

create_client_tcp_socket-IsTaken :
    (opened connected port s : ℤ)
    → IsOpened opened
    → create_client_tcp_socket opened connected port ≡ done s
    → IsTaken s
unfolding create_client_tcp_socket
create_client_tcp_socket-IsTaken opened connected port s o e = elim (Bool-cases (in_range 0 port)) [
  | inr outside ↦ let stops : exited ≡ done s = rw outside at e in absurd (cc)
  | inl inside ↦ elim (Bool-cases (is_negative connected)) [
    | inl refused ↦ refused_or_one opened o (rw (inside, refused) at e)
    | inr accepted ↦ socket_or_one opened s o (rw (inside, accepted) at e)
  ]
]
  where
    refused_or_one :
        (a : ℤ) → IsOpened a → (if is_invalid a then done (pos 1) else exited) ≡ done s → IsTaken s
    refused_or_one (pos n) o q = absurd (cc)
    refused_or_one (negsuc zero) o q = done-IsTaken 1 s q
    refused_or_one (negsuc (suc n)) o q = absurd o

connect_to_nn-IsTaken :
    (opened connected port s : ℤ)
    → IsOpened opened
    → connect_to_nn opened connected port ≡ done s
    → IsTaken s
unfolding connect_to_nn
connect_to_nn-IsTaken opened connected port s o e = elim (Bool-cases (in_range 1 port)) [
  | inr outside ↦ let stops : exited ≡ done s = rw outside at e in absurd (cc)
  | inl inside ↦ checked (create_client_tcp_socket opened connected port) refl (rw inside at e)
]
  where
    checked :
        (r : Outcome ℤ)
        → create_client_tcp_socket opened connected port ≡ r
        → (r >>= λ c. if is_negative c then undefined else done c) ≡ done s
        → IsTaken s
    checked (done c) made q =
        let (valid, positive) = create_client_tcp_socket-IsTaken opened connected port c o made in
        let same : c ≡ s = done-injective c s (rw positive at q) in
        subst IsTaken same (valid, positive)
    checked undefined made q = absurd (cc)
    checked diverged made q = absurd (cc)
    checked exited made q = absurd (cc)

-- Where `socket` returns a descriptor or -1, whatever `connect` returns and whatever the port is:
-- what `connect_to_nn`, `create_client_tcp_socket` or `create_server_tcp_socket` returns is never
-- taken for a failure by a caller's test for -1 or for a negative number.
pub sockets_taken :
    (opened connected port s : ℤ)
    → IsOpened opened
    → (connect_to_nn opened connected port ≡ done s)
      ⊎ ((create_client_tcp_socket opened connected port ≡ done s)
          ⊎ (create_server_tcp_socket opened port ≡ done s))
    → (is_invalid s ≡ false) × (is_negative s ≡ false)
sockets_taken opened connected port s o (inl namenode) =
    connect_to_nn-IsTaken opened connected port s o namenode
sockets_taken opened connected port s o (inr (inl client)) =
    create_client_tcp_socket-IsTaken opened connected port s o client
sockets_taken opened connected port s o (inr (inr server)) =
    create_server_tcp_socket-IsTaken opened port s o server

send_loop_failing :
    (fuel : ℕ) (results : ℕ → ℤ) (memory : ℕ → ℕ) (size call : ℕ) (wire : ℕ → ℕ)
    → ((k : ℕ) → is_negative (results k) ≡ true)
    → 0 < size
    → send_loop fuel results memory size call 0 wire ≡ diverged
unfolding send_loop
send_loop_failing zero results memory size call wire failing lt = rw (ltb_of_lt 0 size lt) refl
send_loop_failing (suc n) results memory size call wire failing lt =
    let rest = send_loop_failing n results memory size (call + 1) wire failing lt in
    rw (ltb_of_lt 0 size lt) (failed (results call) (failing call) rest)
  where
    failed :
        (r : ℤ)
        → is_negative r ≡ true
        → send_loop n results memory size (call + 1) 0 wire ≡ diverged
        → (elim r as (λ z. Outcome ((ℕ → ℕ) × ℕ)) [
          | pos num_bytes ↦
              send_loop n results memory size
                (call + 1)
                (0 + num_bytes)
                (copied 0 num_bytes memory wire)
          | negsuc e ↦ send_loop n results memory size (call + 1) 0 wire
        ])
          ≡ diverged
    failed (pos num_bytes) q rest = absurd (cc)
    failed (negsuc e) q rest = rest

-- Where `socket` fails and the calls of `send` on descriptor 1, which is no socket, all fail, a
-- client that connects to the namenode, at a port from 1 to 65535, sends its request for ever.
pub connect_to_nn-send_data :
    (fuel : ℕ) (results : ℕ → ℤ) (connected : ℤ) (port size : ℕ) (memory wire : ℕ → ℕ)
    → ((k : ℕ) → is_negative (results k) ≡ true)
    → 0 < port
    → port < 65536
    → 0 < size
    → (connect_to_nn (negsuc 0) connected (pos port) >>= λ s.
        send_data fuel results s memory size wire)
      ≡ diverged
unfolding connect_to_nn create_client_tcp_socket send_data
connect_to_nn-send_data fuel results connected port size memory wire failing low high lt =
    let one : leb 1 port ≡ true = ground arith in
    let some_port : leb 0 port ≡ true = ground arith in
    rw (one, some_port, ltb_of_lt port 65536 high)
      (send_loop_failing fuel results memory size 0 wire failing lt)
