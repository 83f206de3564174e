-- ===== src/Sockets.antt =====
-- `send_data` and `receive_data` of PA3/common/dfs_common.c over the results of `send` and `recv`.
pub mod Moved
pub mod Receiving
pub mod Sending
pub mod Connecting
pub mod Unnoticed
mod Tests
use ecse.Common.{
  ℕ, zero, suc, ◌+◌, Bool, ◌&&◌, Outcome, done, undefined, diverged, leb, ltb, if◌then◌else◌,
}
use ecse.Common.Int.{ℤ, pos, negsuc}

-- The bytes from `lo` on, `n` of them, are those of `new`.
abbrev pub copied : ℕ → ℕ → (ℕ → ℕ) → (ℕ → ℕ) → ℕ → ℕ
copied lo n new old p = if leb lo p && ltb p (lo + n) then new p else old p

-- The loop of `send_data`, with the rounds left first: `results` has what each call of `send`
-- returns, from number `call` on, `memory` the bytes from the start of the buffer on, and `wire` what
-- was sent. Each call asks for `size` bytes, so the last may send what is behind the buffer. The
-- value is what was sent and how many bytes.
unfoldable pub send_loop : ℕ → (ℕ → ℤ) → (ℕ → ℕ) → ℕ → ℕ → ℕ → (ℕ → ℕ) → Outcome ((ℕ → ℕ) × ℕ)
send_loop zero results memory size call bytes_sent wire =
    if ltb bytes_sent size then diverged else done (wire, bytes_sent)
send_loop (suc n) results memory size call bytes_sent wire =
    let next : Outcome ((ℕ → ℕ) × ℕ) = elim (results call) [
      | pos num_bytes ↦
          send_loop n results memory size (call + 1) (bytes_sent + num_bytes)
            (copied bytes_sent num_bytes memory wire)
      | negsuc e ↦ send_loop n results memory size (call + 1) bytes_sent wire
    ] in
    if ltb bytes_sent size then next else done (wire, bytes_sent)

-- Nothing is sent on the invalid socket, which is -1.
unfoldable pub send_data : ℕ → (ℕ → ℤ) → ℤ → (ℕ → ℕ) → ℕ → (ℕ → ℕ) → Outcome ((ℕ → ℕ) × ℕ)
send_data fuel results (negsuc zero) memory size wire = done (wire, 0)
send_data fuel results (negsuc (suc k)) memory size wire =
    send_loop fuel results memory size 0 0 wire
send_data fuel results (pos k) memory size wire = send_loop fuel results memory size 0 0 wire

-- The loop of `receive_data`: `incoming` has the bytes that arrive. Each call allows for `size`
-- bytes, so the last may write behind the buffer.
unfoldable pub receive_loop : ℕ → (ℕ → ℤ) → (ℕ → ℕ) → ℕ → ℕ → ℕ → (ℕ → ℕ) → Outcome (ℕ → ℕ)
receive_loop zero results incoming size call bytes_received buffer =
    if ltb bytes_received size then diverged else done buffer
receive_loop (suc n) results incoming size call bytes_received buffer =
    let next : Outcome (ℕ → ℕ) = elim (results call) [
      | pos num_bytes ↦
          let rest =
            receive_loop n results incoming size (call + 1) (bytes_received + num_bytes)
              (copied bytes_received num_bytes incoming buffer) in
          if ltb size (bytes_received + num_bytes) then undefined else rest
      | negsuc e ↦ receive_loop n results incoming size (call + 1) bytes_received buffer
    ] in
    if ltb bytes_received size then next else done buffer

unfoldable pub receive_data : ℕ → (ℕ → ℤ) → ℤ → (ℕ → ℕ) → ℕ → (ℕ → ℕ) → Outcome (ℕ → ℕ)
receive_data fuel results (negsuc zero) incoming size buffer = done buffer
receive_data fuel results (negsuc (suc k)) incoming size buffer =
    receive_loop fuel results incoming size 0 0 buffer
receive_data fuel results (pos k) incoming size buffer =
    receive_loop fuel results incoming size 0 0 buffer
