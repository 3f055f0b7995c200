-- ===== src/Transport/Sockets.antt =====
-- sockets_wrapper.c: a TCP connection is made, and shut down.
use core_mqtt_agent_demos.Prelude.{
  ℕ, zero, suc, ◌+◌, not, none, some, List, [], ◌∷◌, ◌++◌, ◌==◌, if◌then◌else◌,
}
use core_mqtt_agent_demos.Prelude.Int.{ℤ, pos, negsuc, is_zero, is_negative}
use core_mqtt_agent_demos.Transport.Network.{
  Socket, is_invalid, to_socket, SocketCall, socket_created, socket_connected, receive_timeout_set,
  send_timeout_set, socket_shut_down, socket_drained, socket_closed, Network,
}

-- `FREERTOS_SOCKETS_WRAPPER_NETWORK_ERROR`
abbrev pub network_error : ℤ
network_error = negsuc 0

-- `FREERTOS_SOCKETS_WRAPPER_SHUTDOWN_LOOPS`
abbrev pub shutdown_loops : ℕ
shutdown_loops = 3

-- The socket is created, and the name of the host resolved: the status, and the calls.
unfoldable pub create_socket : Network → ℤ × List SocketCall
create_socket net = elim net.handed_out [
  | none ↦ (network_error, [])
  | some n ↦ ((if net.address == 0 then network_error else pos 0), socket_created n ∷ [])
]

-- The socket is connected, if there is no error yet.
unfoldable pub connect_socket : Network → Socket → ℤ → ℤ × List SocketCall
connect_socket net s status =
    if is_zero status then (net.connect_status, socket_connected s ∷ []) else (status, [])

-- `ms_to_ticks` is `pdMS_TO_TICKS` of FreeRTOS.
module _ (ms_to_ticks : ℕ → ℕ) where
  -- `Sockets_Connect`, with the times to wait for receiving and sending and what `*pTcpSocket` holds
  -- before: the status, what it holds then, and the calls.
  unfoldable pub sockets_connect : Network → ℕ → ℕ → Socket → ℤ × Socket × List SocketCall
  sockets_connect net receive_timeout_ms send_timeout_ms old =
      let s = to_socket net.handed_out in
      let (created, creating) = create_socket net in
      let (status, connecting) = connect_socket net s created in
      let timeouts =
        if is_zero status
        then receive_timeout_set s (ms_to_ticks receive_timeout_ms)
          ∷ (send_timeout_set s (ms_to_ticks send_timeout_ms) ∷ [])
        else [] in
      let clean_up =
        if not (is_zero status)
        then (if not (is_invalid s) then socket_closed s ∷ [] else [])
        else [] in
      (
        status,
        (if is_zero status then s else old),
        creating ++ (connecting ++ (timeouts ++ clean_up)),
      )

-- The loop of `Sockets_Disconnect` from its n-th round on, where at most `left` rounds follow that
-- one. `received` gives the results of `FreeRTOS_recv`.
unfoldable pub drain : (ℕ → ℤ) → Socket → ℕ → ℕ → List SocketCall
drain received s n zero = socket_drained s ∷ []
drain received s n (suc left) =
    let rest = drain received s (n + 1) left in
    socket_drained s ∷ (if not (is_negative (received n)) then rest else [])

-- `Sockets_Disconnect`
unfoldable pub sockets_disconnect : (ℕ → ℤ) → Socket → List SocketCall
sockets_disconnect received s =
    if not (is_invalid s)
    then socket_shut_down s ∷ (drain received s 0 2 ++ (socket_closed s ∷ []))
    else []
