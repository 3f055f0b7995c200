-- ===== src/Transport/Plaintext.antt =====
-- using_plaintext.c: the transport without TLS.
use core_mqtt_agent_demos.Prelude.{
  ℕ, Bool, true, false, not, ◌||◌, Option, none, some, List, [], ltb, if◌then◌else◌,
}
use core_mqtt_agent_demos.Prelude.Int.{ℤ, pos, is_zero, is_positive, int_eq}
use core_mqtt_agent_demos.Transport.Network.{Socket, is_invalid, SocketCall, Network}
use core_mqtt_agent_demos.Transport.Sockets.{sockets_connect, sockets_disconnect}

-- What is returned of `PlaintextTransportStatus_t`.
pub data PlaintextStatus : Type 0 where
  success invalid_parameter connect_failure : PlaintextStatus

-- `Plaintext_FreeRTOS_Connect`. The context holds its socket alone, and is `none` for `NULL`;
-- `has_host` is false for a name that is `NULL`.
unfoldable pub plaintext_connect :
    (ℕ → ℕ)
    → Network
    → Bool
    → ℕ
    → ℕ
    → Option Socket
    → PlaintextStatus × Option Socket × List SocketCall
plaintext_connect ms_to_ticks net has_host receive_timeout_ms send_timeout_ms none =
    (invalid_parameter, none, [])
plaintext_connect ms_to_ticks net has_host receive_timeout_ms send_timeout_ms (some old) =
    let (status, s, calls) =
      sockets_connect ms_to_ticks net receive_timeout_ms send_timeout_ms old in
    if not has_host
    then (invalid_parameter, some old, [])
    else ((if not (is_zero status) then connect_failure else success), some s, calls)

-- `Plaintext_FreeRTOS_Disconnect`; the context is constant.
unfoldable pub plaintext_disconnect : (ℕ → ℤ) → Option Socket → PlaintextStatus × List SocketCall
plaintext_disconnect received none = (invalid_parameter, [])
plaintext_disconnect received (some s) =
    if is_invalid s then (invalid_parameter, []) else (success, sockets_disconnect received s)

-- `Plaintext_FreeRTOS_recv`, where `available` is the result of `FreeRTOS_recvcount` and `recv` that
-- of `FreeRTOS_recv` for a number of bytes. The second part is whether that was called.
unfoldable pub plaintext_recv : ℤ → (ℕ → ℤ) → ℕ → ℤ × Bool
plaintext_recv available recv bytes_to_recv =
    if ltb 1 bytes_to_recv || is_positive available
    then (recv bytes_to_recv, true)
    else (pos 0, false)

-- `Plaintext_FreeRTOS_send`, where `no_space` is `-pdFREERTOS_ERRNO_ENOSPC` and `send` gives the
-- result of `FreeRTOS_send`.
unfoldable pub plaintext_send : ℤ → (ℕ → ℤ) → ℕ → ℤ
plaintext_send no_space send bytes_to_send =
    if int_eq (send bytes_to_send) no_space then pos 0 else send bytes_to_send
