-- ===== src/Transport/Network.antt =====
-- What the transports call of FreeRTOS+TCP, and the trace of such calls.
use core_mqtt_agent_demos.Prelude.{ℕ, Bool, true, false, Option}
use core_mqtt_agent_demos.Prelude.Int.{ℤ}

-- A `Socket_t`: `FREERTOS_INVALID_SOCKET`, `NULL`, as in a context that nothing has set, or a socket
-- that FreeRTOS+TCP has handed out.
pub data Socket : Type 0 where
  invalid_socket null_socket : Socket
  socket : ℕ → Socket

abbrev pub is_invalid : Socket → Bool
is_invalid invalid_socket = true
is_invalid null_socket = false
is_invalid (socket n) = false

-- `FreeRTOS_socket` with its result, `none` for `FREERTOS_INVALID_SOCKET`.
abbrev pub to_socket : Option ℕ → Socket
to_socket Option.none = invalid_socket
to_socket (Option.some n) = socket n

-- The calls on sockets, in their order. Each names the socket that it is given.
pub data SocketCall : Type 0 where
  -- `FreeRTOS_socket`, with the socket that it handed out
  socket_created : ℕ → SocketCall
  -- `FreeRTOS_connect`
  socket_connected : Socket → SocketCall
  -- `FreeRTOS_setsockopt` with `FREERTOS_SO_RCVTIMEO` and `FREERTOS_SO_SNDTIMEO`, in ticks
  receive_timeout_set send_timeout_set : Socket → ℕ → SocketCall
  -- `FreeRTOS_shutdown`, `FreeRTOS_recv` while it takes effect, and `FreeRTOS_closesocket`
  socket_shut_down socket_drained socket_closed : Socket → SocketCall

-- What FreeRTOS+TCP and the network answer while one connection is made: the socket of
-- `FreeRTOS_socket`, `none` if there is none; the address of `FreeRTOS_gethostbyname`, 0 if there is
-- none; and the status of `FreeRTOS_connect`.
pub record Network : Type 0 where
  pub handed_out : Option ℕ
  pub address : ℕ
  pub connect_status : ℤ
