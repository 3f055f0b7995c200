-- ===== src/Transport/TlsStale.antt =====
-- `TLS_FreeRTOS_Connect` on a context that was connected before.
use core_mqtt_agent_demos.Prelude.{
  ◌∙◌, ℕ, ◌≡◌, refl, ap, Bool, true, false, not, ◌||◌, Option, none, some, List, [], ◌∷◌, ◌++◌, map,
  if◌then◌else◌,
}
use core_mqtt_agent_demos.Prelude.Int.{ℤ, is_zero}
use core_mqtt_agent_demos.Transport.Network.{Socket, socket, SocketCall}
use core_mqtt_agent_demos.Transport.Sockets.{sockets_connect, sockets_disconnect}
use core_mqtt_agent_demos.Transport.Tracking.{
  Held, nothing, misused, holding, close_socket, hold_all, hold_all-append,
}
use core_mqtt_agent_demos.Transport.Opening.{Opened, opened, failed, sockets_connect-Opened}
use core_mqtt_agent_demos.Transport.Sessions.{sockets_disconnect-nothing}
use core_mqtt_agent_demos.Transport.TlsCalls
use core_mqtt_agent_demos.Transport.TlsCalls.{
  TlsStatus, is_success, Credentials, TlsCall, on_socket, TlsPeer, TlsBuild,
}
use core_mqtt_agent_demos.Transport.Tls.{
  tls_handshake, if_success_then, tcp_connect, clean_up, tls_connect, tls_disconnect,
}
use core_mqtt_agent_demos.Transport.TlsSockets.{
  sockets_of, sockets_of-append, sockets_of-map, sockets_of-append-Quiet,
}
use core_mqtt_agent_demos.Transport.TlsOpening.{
  prepared, connecting, sockets_of-prepared, is_success-prepared, closing, hold_all-closing,
  clean_up_error,
}

-- `TLS_FreeRTOS_Disconnect` closes the socket of the context.
tls_disconnect-nothing :
    (ms_to_ticks : ℕ → ℕ) (build : TlsBuild) (received : ℕ → ℤ) (n : ℕ)
    → hold_all
        (holding n)
        (sockets_of (tls_disconnect ms_to_ticks build received (some (socket n))))
      ≡ nothing
unfolding tls_disconnect sockets_of
tls_disconnect-nothing ms_to_ticks build received n =
    ap (hold_all (holding n)) (
      sockets_of-append-Quiet (map on_socket (sockets_disconnect received (socket n)))
        (TlsCalls.ssl_context_free ∷ (TlsCalls.threading_free_alt ∷ [])) refl
      ∙ sockets_of-map (sockets_disconnect received (socket n)))
    ∙ (sockets_disconnect-nothing received n).0

module _ (ms_to_ticks : ℕ → ℕ) (build : TlsBuild) where
  if_success_then_error :
      (before : TlsStatus × List TlsCall) (next : Option (TlsStatus × List TlsCall))
      → is_success before.0 ≡ false
      → if_success_then before next ≡ some before
  unfolding if_success_then
  if_success_then_error (status, calls) next h = rw h refl

  connecting_error :
      (peer : TlsPeer) (credentials : Credentials) (receive_timeout_ms send_timeout_ms : ℕ)
      (old : Socket)
      → is_zero (sockets_connect ms_to_ticks peer.network receive_timeout_ms send_timeout_ms old).0
        ≡ false
      → ((sockets_connect ms_to_ticks peer.network receive_timeout_ms send_timeout_ms old).1 ≡ old)
        × (hold_all nothing
              (sockets_connect ms_to_ticks peer.network receive_timeout_ms send_timeout_ms old).2
            ≡ nothing)
  connecting_error peer credentials receive_timeout_ms send_timeout_ms old h =
      by_outcome _ _ _ h
        (sockets_connect-Opened ms_to_ticks peer.network receive_timeout_ms send_timeout_ms old)
    where
      by_outcome :
          (status : ℤ) (s : Socket) (held : Held)
          → is_zero status ≡ false
          → Opened old peer.network status s held
          → (s ≡ old) × (held ≡ nothing)
      by_outcome status s held h (opened n ok handed at open_socket) = absurd cc
      by_outcome status s held h (failed error kept none_open) = (kept, none_open)

  -- A TLS connection on socket `n` is shut down, and the next attempt of `TLS_FreeRTOS_Connect` on the
  -- same context, with a name and a root certificate, does not get a TCP connection: then it closes
  -- socket `n` again, which is closed already.
  pub tls_connect-misused :
      (peer : TlsPeer) (fuel : ℕ) (credentials : Credentials)
      (receive_timeout_ms send_timeout_ms n : ℕ) (received : ℕ → ℤ)
      → credentials.has_root_ca ≡ true
      → is_zero
          (sockets_connect ms_to_ticks peer.network receive_timeout_ms send_timeout_ms (socket n)).0
        ≡ false
      → (status : TlsStatus) × (calls : List TlsCall) × (tls_connect ms_to_ticks build peer fuel
            true
            (some credentials)
            receive_timeout_ms
            send_timeout_ms
            (socket n)
          ≡ some (status, socket n, calls))
        × (is_success status ≡ false)
        × (hold_all (holding n) (
              sockets_of (tls_disconnect ms_to_ticks build received (some (socket n)))
              ++ sockets_of calls)
            ≡ misused)
  unfolding tls_connect prepared connecting tcp_connect close_socket
  tls_connect-misused peer fuel credentials receive_timeout_ms send_timeout_ms n received root
        refused =
      (
        before.0,
        before.1 ++ closing (socket n),
        by_test credentials.has_root_ca root _ ∙ cleaned,
        error,
        hold_all-append (holding n) closing_calls (sockets_of (before.1 ++ closing (socket n)))
            ∙ ap (λ h. hold_all h (sockets_of (before.1 ++ closing (socket n))))
                (tls_disconnect-nothing ms_to_ticks build received n)
            ∙ ap (hold_all nothing) (sockets_of-append before.1 (closing (socket n)))
            ∙ hold_all-append nothing (sockets_of before.1) (sockets_of (closing (socket n)))
            ∙ ap (λ h. hold_all h (sockets_of (closing (socket n))))
                (ap (hold_all nothing) (
                    sockets_of-prepared ms_to_ticks build peer credentials receive_timeout_ms
                      send_timeout_ms (socket n))
                  ∙ kept.1)
            ∙ hold_all-closing (socket n) nothing,
      )
    where
      before : TlsStatus × List TlsCall
      before =
          prepared ms_to_ticks build peer credentials receive_timeout_ms send_timeout_ms (socket n)

      closing_calls : List SocketCall
      closing_calls = sockets_of (tls_disconnect ms_to_ticks build received (some (socket n)))

      error : is_success before.0 ≡ false
      error =
          is_success-prepared ms_to_ticks build peer credentials receive_timeout_ms send_timeout_ms
            (socket n) refused

      kept :
          ((sockets_connect ms_to_ticks peer.network receive_timeout_ms send_timeout_ms
              (socket n)).1
            ≡ socket n)
          × (hold_all nothing
                (sockets_connect ms_to_ticks peer.network receive_timeout_ms send_timeout_ms
                  (socket n)).2
              ≡ nothing)
      kept = connecting_error peer credentials receive_timeout_ms send_timeout_ms (socket n) refused

      s : Socket
      s = (tcp_connect ms_to_ticks build peer receive_timeout_ms send_timeout_ms (socket n)).1

      by_test :
          (has_root : Bool)
          → has_root ≡ true
          → (refused_result : Option (TlsStatus × Socket × List TlsCall))
          → (if◌then◌else◌ {A = Option (TlsStatus × Socket × List TlsCall)}
              (not true || not has_root)
              refused_result
              (elim (if_success_then before (tls_handshake build peer fuel s)) [
                | none ↦ none
                | some result ↦ some (
                  (clean_up ms_to_ticks build s result).0,
                  s,
                  (clean_up ms_to_ticks build s result).1,
                )
              ]))
            ≡ some (
              (clean_up ms_to_ticks build s before).0,
              s,
              (clean_up ms_to_ticks build s before).1,
            )
      by_test true h refused_result = rw (if_success_then_error before _ error) refl
      by_test false h refused_result = absurd cc

      result : TlsStatus × List TlsCall → Option (TlsStatus × Socket × List TlsCall)
      result r = some (r.0, s, r.1)

      moved : Socket → Option (TlsStatus × Socket × List TlsCall)
      moved t = some (before.0, t, before.1 ++ closing t)

      cleaned :
          ◌≡◌ {A = Option (TlsStatus × Socket × List TlsCall)}
            (some
              ((clean_up ms_to_ticks build s before).0, s, (clean_up ms_to_ticks build s before).1))
            (some (before.0, socket n, before.1 ++ closing (socket n)))
      cleaned =
          ap result (clean_up_error ms_to_ticks build s before error) ∙ ap (λ t. moved t) kept.0
