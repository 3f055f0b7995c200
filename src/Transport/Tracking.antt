-- ===== src/Transport/Tracking.antt =====
-- Which socket a context holds, by the calls.
use core_mqtt_agent_demos.Prelude.{ℕ, ◌≡◌, refl, List, [], ◌∷◌, ◌++◌, ◌==◌, if◌then◌else◌}
use core_mqtt_agent_demos.Transport.Network.{
  Socket, invalid_socket, null_socket, socket, SocketCall, socket_created, socket_connected,
  receive_timeout_set, send_timeout_set, socket_shut_down, socket_drained, socket_closed,
}

-- No socket, one that is open, or an error: a second socket was created while one was open, or a
-- socket was used or closed that was not open.
pub data Held : Type 0 where
  nothing misused : Held
  holding : ℕ → Held

-- A use of a socket.
unfoldable pub use_socket : Held → Socket → Held
use_socket (holding n) (socket m) = if m == n then holding n else misused
use_socket nothing s = misused
use_socket misused s = misused
use_socket (holding n) invalid_socket = misused
use_socket (holding n) null_socket = misused

-- `FreeRTOS_closesocket` does nothing on `NULL` and `FREERTOS_INVALID_SOCKET`.
unfoldable pub close_socket : Held → Socket → Held
close_socket h invalid_socket = h
close_socket h null_socket = h
close_socket nothing (socket m) = misused
close_socket misused (socket m) = misused
close_socket (holding n) (socket m) = if m == n then nothing else misused

unfoldable pub hold : Held → SocketCall → Held
hold nothing (socket_created n) = holding n
hold misused (socket_created n) = misused
hold (holding m) (socket_created n) = misused
hold h (socket_connected s) = use_socket h s
hold h (receive_timeout_set s ticks) = use_socket h s
hold h (send_timeout_set s ticks) = use_socket h s
hold h (socket_shut_down s) = use_socket h s
hold h (socket_drained s) = use_socket h s
hold h (socket_closed s) = close_socket h s

-- What is held after a trace.
unfoldable pub hold_all : Held → List SocketCall → Held
hold_all h [] = h
hold_all h (c ∷ calls) = hold_all (hold h c) calls

pub hold_all-append :
    (h : Held) (xs ys : List SocketCall) → hold_all h (xs ++ ys) ≡ hold_all (hold_all h xs) ys
unfolding hold_all
hold_all-append h [] ys = refl
hold_all-append h (c ∷ xs) ys = hold_all-append (hold h c) xs ys
