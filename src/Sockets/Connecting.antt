-- ===== src/Sockets/Connecting.antt =====
-- `create_tcp_socket`, `create_client_tcp_socket` and `create_server_tcp_socket` of
-- PA3/common/dfs_common.c and `connect_to_nn` of PA3/client/dfs_client.c, over what `socket` and
-- `connect` return.
use ecse.Common.{
  ℕ, zero, suc, Bool, true, false, ◌&&◌, Outcome, done, undefined, exited, ◌>>=◌, leb, ltb,
  if◌then◌else◌,
}
use ecse.Common.Int.{ℤ, pos, negsuc}

-- `socket == INVALID_SOCKET`, which is -1.
abbrev pub is_invalid : ℤ → Bool
is_invalid (pos n) = false
is_invalid (negsuc zero) = true
is_invalid (negsuc (suc n)) = false

abbrev pub is_negative : ℤ → Bool
is_negative (pos n) = false
is_negative (negsuc n) = true

-- The port lies from `lo` to 65535.
abbrev pub in_range : ℕ → ℤ → Bool
in_range lo (pos port) = leb lo port && ltb port 65536
in_range lo (negsuc n) = false

-- `opened` is what `socket` returns.
abbrev pub create_tcp_socket : ℤ → ℤ
create_tcp_socket opened = opened

-- `connected` is what `connect` returns: a failure ends the process. Without a socket 1 is returned.
unfoldable pub create_client_tcp_socket : ℤ → ℤ → ℤ → Outcome ℤ
create_client_tcp_socket opened connected port =
    if in_range 0 port
    then (if is_invalid (create_tcp_socket opened)
        then done (pos 1)
        else if is_negative connected
        then exited
        else done (create_tcp_socket opened))
    else exited

-- What `bind` and `listen` return changes nothing.
unfoldable pub create_server_tcp_socket : ℤ → ℤ → Outcome ℤ
create_server_tcp_socket opened port =
    if in_range 0 port
    then (if is_invalid (create_tcp_socket opened)
        then done (pos 1)
        else done (create_tcp_socket opened))
    else exited

-- `error` is called with a text where it takes a number.
unfoldable pub connect_to_nn : ℤ → ℤ → ℤ → Outcome ℤ
connect_to_nn opened connected port =
    if in_range 1 port
    then (create_client_tcp_socket opened connected port >>= λ client_socket.
        if is_negative client_socket then undefined else done client_socket)
    else exited

-- `socket` returns a descriptor or -1.
abbrev pub IsOpened : ℤ → Type 0
IsOpened (pos n) = Unit
IsOpened (negsuc zero) = Unit
IsOpened (negsuc (suc n)) = ⊥
