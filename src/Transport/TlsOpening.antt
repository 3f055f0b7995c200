-- ===== src/Transport/TlsOpening.antt =====
-- A TLS connection leaves its socket open if it is made, and closes it if it fails.
use core_mqtt_agent_demos.Prelude.{
  ◌∙◌, ℕ, ◌≡◌, refl, ap, Bool, true, false, not, ◌||◌, ◌⊎◌, Option, none, some, List, [], ◌∷◌, ◌++◌,
  if◌then◌else◌, arith, Bool-cases, inl, inr,
}
use core_mqtt_agent_demos.Prelude.Int.{ℤ, is_zero}
use core_mqtt_agent_demos.Transport.Network.{
  Socket, invalid_socket, null_socket, socket, is_invalid, SocketCall, socket_closed,
}
use core_mqtt_agent_demos.Transport.Sockets.{sockets_connect}
use core_mqtt_agent_demos.Transport.Tracking.{
  Held, nothing, holding, close_socket, hold, hold_all, hold_all-append,
}
use core_mqtt_agent_demos.Transport.Opening.{
  Opened, opened, failed, close_socket_held, sockets_connect-Opened,
}
use core_mqtt_agent_demos.Transport.TlsCalls
use core_mqtt_agent_demos.Transport.TlsCalls.{
  TlsStatus, is_success, Credentials, TlsCall, on_socket, TlsPeer, TlsBuild,
}
use core_mqtt_agent_demos.Transport.Tls.{
  tls_setup, tls_handshake, init_mbedtls, if_success, if_success_then, tcp_connect, clean_up,
  tls_connect,
}
use core_mqtt_agent_demos.Transport.TlsSockets.{
  sockets_of, sockets_of-append, sockets_of-map, Quiet-tls_setup, Quiet-init_mbedtls,
  sockets_of-if_success, is_success-if_success,
}
use core_mqtt_agent_demos.Transport.TlsStages.{
  QuietResult-tls_handshake, Follows, Follows-if_success_then,
}

-- The socket behind a result: it is open and the context points to it, or there was an error and no
-- socket is open.
abbrev pub TlsOpened : Option (TlsStatus × Socket × List TlsCall) → Type 0
TlsOpened none = Unit
TlsOpened (some (status, s, calls)) =
    ((n : ℕ) × (is_success status ≡ true)
      × (s ≡ socket n)
      × (hold_all nothing (sockets_of calls) ≡ holding n))
    ⊎ ((is_success status ≡ false) × (hold_all nothing (sockets_of calls) ≡ nothing))

-- `tcpSocket` does not hold the handle of an earlier socket.
abbrev pub has_no_handle : Socket → Bool
has_no_handle invalid_socket = true
has_no_handle null_socket = true
has_no_handle (socket n) = false

-- What is closed on failure.
unfoldable pub closing : Socket → List TlsCall
closing s =
    TlsCalls.ssl_context_free
    ∷ (if not (is_invalid s) then on_socket (socket_closed s) ∷ [] else [])

pub hold_all-closing :
    (s : Socket) (h : Held) → hold_all h (sockets_of (closing s)) ≡ close_socket h s
unfolding closing hold_all hold sockets_of close_socket
hold_all-closing invalid_socket h = ground arith
hold_all-closing null_socket h = ground arith
hold_all-closing (socket n) h = ground arith

module _ (ms_to_ticks : ℕ → ℕ) (build : TlsBuild) where
  clean_up_success :
      (s : Socket) (r : TlsStatus × List TlsCall)
      → is_success r.0 ≡ true
      → clean_up ms_to_ticks build s r ≡ r
  unfolding clean_up
  clean_up_success s (status, calls) h = rw h refl

  pub clean_up_error :
      (s : Socket) (r : TlsStatus × List TlsCall)
      → is_success r.0 ≡ false
      → clean_up ms_to_ticks build s r ≡ (r.0, r.1 ++ closing s)
  unfolding clean_up closing
  clean_up_error s (status, calls) h = rw h refl

  -- The result of the stages, cleaned up.
  cleaned : Socket → Option (TlsStatus × List TlsCall) → Option (TlsStatus × Socket × List TlsCall)
  cleaned s none = none
  cleaned s (some r) =
      some ((clean_up ms_to_ticks build s r).0, s, (clean_up ms_to_ticks build s r).1)

  cleaned_error :
      (s : Socket) (r : TlsStatus × List TlsCall) (h : Held)
      → is_success r.0 ≡ false
      → hold_all nothing (sockets_of r.1) ≡ h
      → close_socket h s ≡ nothing
      → TlsOpened (cleaned s (some r))
  unfolding cleaned
  cleaned_error s r h error held closed = rw (clean_up_error s r error) (
      inr (
        error,
        ap (hold_all nothing) (sockets_of-append r.1 (closing s))
            ∙ hold_all-append nothing (sockets_of r.1) (sockets_of (closing s))
            ∙ ap (λ k. hold_all k (sockets_of (closing s))) held
            ∙ hold_all-closing s h
            ∙ closed,
      ))

  cleaned_open :
      (n : ℕ) (r : TlsStatus × List TlsCall)
      → hold_all nothing (sockets_of r.1) ≡ holding n
      → TlsOpened (cleaned (socket n) (some r))
  unfolding cleaned
  cleaned_open n r held = elim (Bool-cases (is_success r.0)) [
    | inl ok ↦ rw (clean_up_success (socket n) r ok) (inl (n, ok, refl, held))
    | inr error ↦ cleaned_error (socket n) r (holding n) error held (close_socket_held n)
  ]

  -- Behind the stage of `Sockets_Connect`.
  cleaned-TlsOpened :
      (s : Socket) (before : TlsStatus × List TlsCall) (out : Option (TlsStatus × List TlsCall))
      → Follows before out
      → ((n : ℕ) × (s ≡ socket n) × (hold_all nothing (sockets_of before.1) ≡ holding n))
        ⊎ ((is_success before.0 ≡ false)
            × (hold_all nothing (sockets_of before.1) ≡ nothing)
            × (close_socket nothing s ≡ nothing))
      → TlsOpened (cleaned s out)
  unfolding cleaned
  cleaned-TlsOpened s before none f c = tt
  cleaned-TlsOpened s before (some r) f (inl (n, at, held)) =
      rw at (cleaned_open n r (ap (hold_all nothing) f.0 ∙ held))
  cleaned-TlsOpened s before (some r) f (inr (error, held, closed)) =
      cleaned_error s r nothing (ap is_success (f.1 error) ∙ error)
        (ap (hold_all nothing) f.0 ∙ held) closed

  close_no_handle : (s : Socket) → has_no_handle s ≡ true → close_socket nothing s ≡ nothing
  unfolding close_socket
  close_no_handle invalid_socket h = refl
  close_no_handle null_socket h = refl
  close_no_handle (socket n) h = cc

  refused_opening :
      (old : Socket)
      → has_no_handle old ≡ true
      → TlsOpened (cleaned old (some (TlsCalls.invalid_parameter, [])))
  unfolding sockets_of hold_all
  refused_opening old h =
      cleaned_error old (TlsCalls.invalid_parameter, []) nothing refl refl (close_no_handle old h)

  module _ (peer : TlsPeer) (credentials : Credentials) (receive_timeout_ms send_timeout_ms : ℕ)
      (old : Socket) where
    -- The stages before the handshake.
    unfoldable pub prepared : TlsStatus × List TlsCall
    prepared =
        if_success
          (if_success (tcp_connect ms_to_ticks build peer receive_timeout_ms send_timeout_ms old).0
            (init_mbedtls peer))
          (tls_setup build peer credentials)

    unfoldable pub connecting : ℤ × Socket × List SocketCall
    connecting = sockets_connect ms_to_ticks peer.network receive_timeout_ms send_timeout_ms old

    pub sockets_of-prepared : sockets_of prepared.1 ≡ connecting.2
    unfolding prepared connecting tcp_connect
    sockets_of-prepared =
        sockets_of-if_success _ (tls_setup build peer credentials)
          (Quiet-tls_setup build peer credentials)
        ∙ sockets_of-if_success _ (init_mbedtls peer) (Quiet-init_mbedtls peer)
        ∙ sockets_of-map connecting.2

    pub is_success-prepared : is_zero connecting.0 ≡ false → is_success prepared.0 ≡ false
    unfolding prepared connecting tcp_connect
    is_success-prepared h =
        let tcp = (tcp_connect ms_to_ticks build peer receive_timeout_ms send_timeout_ms old).0 in
        let refused : is_success tcp.0 ≡ false = rw h refl in
        let started = is_success-if_success tcp (init_mbedtls peer) refused in
        ap is_success (
          is_success-if_success (if_success tcp (init_mbedtls peer))
            (tls_setup build peer credentials) (ap is_success started ∙ refused)
          ∙ started)
        ∙ refused

    prepared-cases :
        has_no_handle old ≡ true
        → ((n : ℕ) × (connecting.1 ≡ socket n)
            × (hold_all nothing (sockets_of prepared.1) ≡ holding n))
          ⊎ ((is_success prepared.0 ≡ false)
              × (hold_all nothing (sockets_of prepared.1) ≡ nothing)
              × (close_socket nothing connecting.1 ≡ nothing))
    unfolding connecting
    prepared-cases h =
        by_outcome
          (sockets_connect-Opened ms_to_ticks peer.network receive_timeout_ms send_timeout_ms old)
      where
        by_outcome :
            Opened old peer.network connecting.0 connecting.1 (hold_all nothing connecting.2)
            → ((n : ℕ) × (connecting.1 ≡ socket n)
                × (hold_all nothing (sockets_of prepared.1) ≡ holding n))
              ⊎ ((is_success prepared.0 ≡ false)
                  × (hold_all nothing (sockets_of prepared.1) ≡ nothing)
                  × (close_socket nothing connecting.1 ≡ nothing))
        by_outcome (opened n ok handed at held) =
            inl (n, at, ap (hold_all nothing) sockets_of-prepared ∙ held)
        by_outcome (failed error kept held) = inr (
          is_success-prepared error,
          ap (hold_all nothing) sockets_of-prepared ∙ held,
          ap (close_socket nothing) kept ∙ close_no_handle old h,
        )

  -- `TLS_FreeRTOS_Connect` on a context whose `tcpSocket` holds no handle of an earlier socket: if it
  -- succeeds, one socket is open and the context points to it; on each error path, from a bad
  -- parameter to a failed handshake, no socket is left open, and none is closed that is not open.
  pub tls_connect-TlsOpened :
      (peer : TlsPeer) (fuel : ℕ) (has_host : Bool) (credentials : Option Credentials)
      (receive_timeout_ms send_timeout_ms : ℕ) (old : Socket)
      → has_no_handle old ≡ true
      → TlsOpened (
          tls_connect ms_to_ticks build peer fuel has_host credentials receive_timeout_ms
            send_timeout_ms old)
  unfolding tls_connect cleaned prepared connecting tcp_connect
  tls_connect-TlsOpened peer fuel has_host none receive_timeout_ms send_timeout_ms old h =
      refused_opening old h
  tls_connect-TlsOpened peer fuel has_host (some credentials) receive_timeout_ms send_timeout_ms old
        h =
      by_test (not has_host || not credentials.has_root_ca)
    where
      s : Socket
      s = (connecting peer credentials receive_timeout_ms send_timeout_ms old).1

      before : TlsStatus × List TlsCall
      before = prepared peer credentials receive_timeout_ms send_timeout_ms old

      by_result :
          (out : Option (TlsStatus × List TlsCall))
          → Follows before out
          → TlsOpened (elim out [
            | none ↦ none
            | some result ↦ some (
              (clean_up ms_to_ticks build s result).0,
              s,
              (clean_up ms_to_ticks build s result).1,
            )
          ])
      by_result none f = tt
      by_result (some r) f =
          cleaned-TlsOpened s before (some r) f
            (prepared-cases peer credentials receive_timeout_ms send_timeout_ms old h)

      by_test :
          (refused : Bool)
          → TlsOpened (
              if refused
              then some (
                (clean_up ms_to_ticks build old (TlsCalls.invalid_parameter, [])).0,
                old,
                (clean_up ms_to_ticks build old (TlsCalls.invalid_parameter, [])).1,
              )
              else elim (if_success_then before (tls_handshake build peer fuel s)) [
                | none ↦ none
                | some result ↦ some (
                  (clean_up ms_to_ticks build s result).0,
                  s,
                  (clean_up ms_to_ticks build s result).1,
                )
              ])
      by_test true = refused_opening old h
      by_test false = by_result (if_success_then before (tls_handshake build peer fuel s)) (
          Follows-if_success_then before (tls_handshake build peer fuel s)
            (QuietResult-tls_handshake build peer fuel s))
