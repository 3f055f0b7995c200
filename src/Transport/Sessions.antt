-- ===== src/Transport/Sessions.antt =====
-- A client that connects and disconnects a plaintext transport again and again.
use core_mqtt_agent_demos.Prelude.{
  ◌∙◌, ℕ, zero, suc, ◌+◌, ◌≡◌, ◌≤◌, refl, ap, Bool, true, false, Option, none, some, List, [], ◌∷◌,
  ◌++◌, arith, Bool-cases, inl, inr, length, length-append,
}
use core_mqtt_agent_demos.Prelude.Int.{ℤ, is_negative}
use core_mqtt_agent_demos.Transport.Network.{
  Socket, null_socket, socket, SocketCall, socket_closed, Network,
}
use core_mqtt_agent_demos.Transport.Sockets.{
  shutdown_loops, sockets_connect, drain, sockets_disconnect,
}
use core_mqtt_agent_demos.Transport.Tracking.{nothing, holding, hold, hold_all, hold_all-append}
use core_mqtt_agent_demos.Transport.Plaintext.{
  PlaintextStatus, success, invalid_parameter, connect_failure, plaintext_connect,
  plaintext_disconnect,
}
use core_mqtt_agent_demos.Transport.Opening.{
  Opened, opened, failed, use_socket_held, close_socket_held, sockets_connect-Opened,
}

hold_all-drain :
    (received : ℕ → ℤ) (n m left : ℕ)
    → hold_all (holding n) (drain received (socket n) m left) ≡ holding n
unfolding hold_all hold drain
hold_all-drain received n m zero = use_socket_held n
hold_all-drain received n m (suc left) = elim (Bool-cases (is_negative (received m))) [
  | inl ended ↦ rw ended (use_socket_held n)
  | inr goes_on ↦ rw (goes_on, use_socket_held n) (hold_all-drain received n (m + 1) left)
]

length-drain :
    (received : ℕ → ℤ) (s : Socket) (m left : ℕ) → length (drain received s m left) ≤ suc left
unfolding drain
length-drain received s m zero = omega arith
length-drain received s m (suc left) = ground (arith, length-drain received s (m + 1) left)

-- `Sockets_Disconnect` on an open socket closes it, whatever `FreeRTOS_recv` returns, and calls that
-- at most `FREERTOS_SOCKETS_WRAPPER_SHUTDOWN_LOOPS` times: with the shutdown and the close before and
-- behind them, that many calls and two.
pub sockets_disconnect-nothing :
    (received : ℕ → ℤ) (n : ℕ)
    → (hold_all (holding n) (sockets_disconnect received (socket n)) ≡ nothing)
      × (length (sockets_disconnect received (socket n)) ≤ shutdown_loops + 2)
unfolding sockets_disconnect hold_all hold
sockets_disconnect-nothing received n = (
  ap (λ h. hold_all h (draining ++ closing)) (use_socket_held n)
      ∙ hold_all-append (holding n) draining closing
      ∙ ap (λ h. hold_all h closing) (hold_all-drain received n 0 2)
      ∙ close_socket_held n,
  rw (length-append (drain received (socket n) 0 2) (socket_closed (socket n) ∷ []))
      (omega (arith, length-drain received (socket n) 0 2)),
)
  where
    draining : List SocketCall
    draining = drain received (socket n) 0 2

    closing : List SocketCall
    closing = socket_closed (socket n) ∷ []

-- A client with its context, whether its last connection was made and not shut down since, and the
-- calls so far.
pub record Client : Type 0 where
  pub context : Socket
  pub connected : Bool
  pub calls : List SocketCall

abbrev is_success : PlaintextStatus → Bool
is_success success = true
is_success invalid_parameter = false
is_success connect_failure = false

abbrev held_context : Socket → Option Socket → Socket
held_context old none = old
held_context old (some s) = s

module _ (ms_to_ticks : ℕ → ℕ) where
  unfoldable pub connects : Network → ℕ → ℕ → Client → Client
  connects net receive_timeout_ms send_timeout_ms c =
      let (status, context', calls') =
        plaintext_connect ms_to_ticks net true receive_timeout_ms send_timeout_ms
          (some c.context) in
      record {
        context = held_context c.context context';
        connected = is_success status;
        calls = c.calls ++ calls';
      }

  unfoldable pub disconnects : (ℕ → ℤ) → Client → Client
  disconnects received c = record c {
    connected = false;
    calls = c.calls ++ (plaintext_disconnect received (some c.context)).1;
  }

  -- A client connects only while it has no connection, and disconnects only while it has one.
  pub data Move (c d : Client) : Type 0 where
    connect :
        (net : Network) (receive_timeout_ms send_timeout_ms : ℕ)
        → c.connected ≡ false
        → d ≡ connects net receive_timeout_ms send_timeout_ms c
        → Move c d
    disconnect : (received : ℕ → ℤ) → c.connected ≡ true → d ≡ disconnects received c → Move c d

  pub data Reach (c : Client) : Client → Type 0 where
    here : Reach c c
    next : {d e : Client} → Reach c d → Move d e → Reach c e

-- While it is connected its context points to the one open socket; otherwise no socket is open.
pub data IsClean (c : Client) : Type 0 where
  up :
      (n : ℕ)
      → c.connected ≡ true
      → c.context ≡ socket n
      → hold_all nothing c.calls ≡ holding n
      → IsClean c
  down : c.connected ≡ false → hold_all nothing c.calls ≡ nothing → IsClean c

-- A client that has done nothing yet.
abbrev pub fresh : Client
fresh = record { context = null_socket; connected = false; calls = [] }

module _ (ms_to_ticks : ℕ → ℕ) where
  connects-IsClean :
      (net : Network) (receive_timeout_ms send_timeout_ms : ℕ) (c : Client)
      → hold_all nothing c.calls ≡ nothing
      → IsClean (connects ms_to_ticks net receive_timeout_ms send_timeout_ms c)
  unfolding connects plaintext_connect
  connects-IsClean net receive_timeout_ms send_timeout_ms c clean =
      by_outcome
        (sockets_connect-Opened ms_to_ticks net receive_timeout_ms send_timeout_ms c.context)
    where
      outcome : ℤ × Socket × List SocketCall
      outcome = sockets_connect ms_to_ticks net receive_timeout_ms send_timeout_ms c.context

      held : hold_all nothing (c.calls ++ outcome.2) ≡ hold_all nothing outcome.2
      held = hold_all-append nothing c.calls outcome.2 ∙ ap (λ h. hold_all h outcome.2) clean

      by_outcome :
          Opened c.context net outcome.0 outcome.1 (hold_all nothing outcome.2)
          → IsClean (connects ms_to_ticks net receive_timeout_ms send_timeout_ms c)
      by_outcome (opened n ok handed pointed open_socket) =
          up n (rw ok refl) pointed (held ∙ open_socket)
      by_outcome (failed error kept closed_all) = down (rw error refl) (held ∙ closed_all)

  disconnects-IsClean :
      (received : ℕ → ℤ) (c : Client) (n : ℕ)
      → c.context ≡ socket n
      → hold_all nothing c.calls ≡ holding n
      → IsClean (disconnects ms_to_ticks received c)
  unfolding disconnects plaintext_disconnect
  disconnects-IsClean received c n pointed held = down refl (
      hold_all-append nothing c.calls ((plaintext_disconnect received (some c.context)).1)
      ∙ rw (held, pointed) (sockets_disconnect-nothing received n).0)

  Move-IsClean : {c d : Client} → Move ms_to_ticks c d → IsClean c → IsClean d
  Move-IsClean (connect net r s e f) (up n ok pointed held) = absurd cc
  Move-IsClean (connect net r s e f) (down off held) = rw f (connects-IsClean net r s _ held)
  Move-IsClean (disconnect received e f) (up n ok pointed held) =
      rw f (disconnects-IsClean received _ n pointed held)
  Move-IsClean (disconnect received e f) (down off held) = absurd cc

  -- However often a client connects and disconnects, in turn as it must, and whatever the network
  -- answers: it never has two sockets open, never uses or closes one that is not open, and has one
  -- open exactly while it is connected, the one that its context points to.
  pub Reach-IsClean : {c : Client} → Reach ms_to_ticks fresh c → IsClean c
  unfolding hold_all
  Reach-IsClean here = down refl refl
  Reach-IsClean (next r m) = Move-IsClean m (Reach-IsClean r)
