-- ===== src/Transport/Opening.antt =====
-- A connection leaves one socket open if it is made, and none if it fails.
use core_mqtt_agent_demos.Prelude.{
  ℕ, ◌≡◌, refl, true, false, Option, none, some, List, ◌==◌, arith, Bool-cases, inl, inr,
}
use core_mqtt_agent_demos.Prelude.Int.{ℤ, is_zero}
use core_mqtt_agent_demos.Transport.Network.{Socket, socket, SocketCall, Network}
use core_mqtt_agent_demos.Transport.Sockets.{create_socket, connect_socket, sockets_connect}
use core_mqtt_agent_demos.Transport.Tracking.{
  Held, nothing, holding, use_socket, close_socket, hold, hold_all,
}

-- A context that held no socket, after an attempt to connect: it points to the one socket that is
-- open, or the attempt failed, the pointer is as before, and no socket is open.
pub data Opened (old : Socket) (net : Network) (status : ℤ) (s : Socket) (h : Held) : Type 0 where
  opened :
      (n : ℕ)
      → is_zero status ≡ true
      → net.handed_out ≡ some n
      → s ≡ socket n
      → h ≡ holding n
      → Opened old net status s h
  failed : is_zero status ≡ false → s ≡ old → h ≡ nothing → Opened old net status s h

pub use_socket_held : (n : ℕ) → use_socket (holding n) (socket n) ≡ holding n
unfolding use_socket
use_socket_held n = ground arith

pub close_socket_held : (n : ℕ) → close_socket (holding n) (socket n) ≡ nothing
unfolding close_socket
close_socket_held n = ground arith

-- `Sockets_Connect` leaves one socket open, which is stored, if it returns 0, and none on each of
-- its error paths: no socket, no address, and no connection.
pub sockets_connect-Opened :
    (ms_to_ticks : ℕ → ℕ) (net : Network) (receive_timeout_ms send_timeout_ms : ℕ) (old : Socket)
    → let (status, s, calls) =
        sockets_connect ms_to_ticks net receive_timeout_ms send_timeout_ms old in
      Opened old net status s (hold_all nothing calls)
unfolding sockets_connect create_socket connect_socket hold_all hold
sockets_connect-Opened ms_to_ticks net receive_timeout_ms send_timeout_ms old =
    by_answers net.handed_out net.address net.connect_status
  where
    outcome : Network → ℤ × Socket × List SocketCall
    outcome net' = sockets_connect ms_to_ticks net' receive_timeout_ms send_timeout_ms old

    by_answers :
        (handed : Option ℕ) (address : ℕ) (status : ℤ)
        → let net' : Network = record {
          handed_out = handed;
          address = address;
          connect_status = status;
        } in
          Opened old net' (outcome net').0 (outcome net').1 (hold_all nothing (outcome net').2)
    by_answers none address status = failed refl refl refl
    by_answers (some n) address status = elim (Bool-cases (address == 0)) [
      | inl unresolved ↦
          failed (rw unresolved refl) (rw unresolved refl) (rw unresolved (close_socket_held n))
      | inr resolved ↦ elim (Bool-cases (is_zero status)) [
        | inl connected ↦
            opened n (rw (resolved, connected) refl) refl (rw (resolved, connected) refl)
              (simp (resolved, connected, use_socket_held) refl)
        | inr refused ↦
            failed (rw (resolved, refused) refl) (rw (resolved, refused) refl)
              (simp (resolved, refused, use_socket_held) (close_socket_held n))
      ]
    ]
