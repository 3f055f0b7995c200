-- ===== src/Transport/Tls.antt =====
-- using_mbedtls.c: a TLS connection is set up, used, and taken down.
use core_mqtt_agent_demos.Prelude.{
  ℕ, zero, suc, ◌+◌, Bool, not, ◌&&◌, ◌||◌, Option, none, some, List, [], ◌∷◌, ◌++◌, map,
  if◌then◌else◌,
}
use core_mqtt_agent_demos.Prelude.Int.{ℤ, pos, is_zero, int_eq}
use core_mqtt_agent_demos.Transport.Network.{Socket, is_invalid, socket_closed}
use core_mqtt_agent_demos.Transport.Sockets.{sockets_connect, sockets_disconnect}
use core_mqtt_agent_demos.Transport.TlsCalls.{
  TlsStatus, success, invalid_parameter, insufficient_memory, invalid_credentials, handshake_failed,
  internal_error, connect_failure, is_success, Credentials, TlsCall, on_socket, threading_set_alt,
  entropy_init, ctr_drbg_init, entropy_add_source, ctr_drbg_seed, ssl_context_init,
  ssl_context_free, ssl_config_defaults, ssl_conf_authmode_required, ssl_conf_rng,
  ssl_conf_cert_profile, parse_root_ca, ssl_conf_ca_chain, parse_client_cert, parse_private_key,
  ssl_conf_own_cert, ssl_conf_alpn_protocols, ssl_set_hostname, ssl_conf_max_frag_len, ssl_setup,
  ssl_set_bio, ssl_handshake, ssl_close_notify, threading_free_alt, TlsPeer, TlsBuild,
}

-- `setRootCa`
unfoldable pub set_root_ca : TlsPeer → ℤ × List TlsCall
set_root_ca peer = (
  peer.root_ca_status,
  parse_root_ca ∷ (if not (is_zero peer.root_ca_status) then [] else ssl_conf_ca_chain ∷ []),
)

-- `setClientCertificate`, `setPrivateKey` and `mbedtls_ssl_conf_own_cert`, each behind its test that
-- there is no error yet.
unfoldable pub if_no_error : ℤ → ℤ → TlsCall → ℤ × List TlsCall
if_no_error error status call = if is_zero error then (status, call ∷ []) else (error, [])

-- `setCredentials`
unfoldable pub set_credentials : TlsPeer → Credentials → ℤ × List TlsCall
set_credentials peer credentials =
    let (root_error, rooting) = set_root_ca peer in
    let (cert_error, certifying) =
      if_no_error root_error peer.client_cert_status parse_client_cert in
    let (key_error, keying) = if_no_error cert_error peer.private_key_status parse_private_key in
    let (own_error, owning) = if_no_error key_error peer.own_cert_status ssl_conf_own_cert in
    let started = ssl_conf_authmode_required ∷ (ssl_conf_rng ∷ (ssl_conf_cert_profile ∷ rooting)) in
    if credentials.has_client_cert && credentials.has_private_key
    then (own_error, started ++ (certifying ++ (keying ++ owning)))
    else (root_error, started)

-- `setOptionalConfigurations`, whose errors are only logged.
unfoldable pub set_optional_configurations : TlsBuild → Credentials → List TlsCall
set_optional_configurations build credentials =
    (if credentials.has_alpn_protos then ssl_conf_alpn_protocols ∷ [] else [])
    ++ ((if not credentials.disable_sni then ssl_set_hostname ∷ [] else [])
        ++ (if build.max_fragment_length then ssl_conf_max_frag_len ∷ [] else []))

-- `tlsSetup`
unfoldable pub tls_setup : TlsBuild → TlsPeer → Credentials → TlsStatus × List TlsCall
tls_setup build peer credentials =
    let (error, setting) = set_credentials peer credentials in
    let started = ssl_context_init ∷ (ssl_config_defaults ∷ []) in
    if not (is_zero peer.defaults_status)
    then (insufficient_memory, started)
    else (if not (is_zero error)
        then (invalid_credentials, started ++ setting)
        else (success, started ++ (setting ++ set_optional_configurations build credentials)))

-- The `do` loop of `tlsHandshake` from the n-th call on, with fuel; `none` if that runs out.
unfoldable pub handshake_from : TlsBuild → TlsPeer → ℕ → ℕ → Option (ℤ × List TlsCall)
handshake_from build peer zero n = none
handshake_from build peer (suc fuel) n =
    let error = peer.handshake_status n in
    let rest = handshake_from build peer fuel (n + 1) in
    if int_eq error build.want_read || int_eq error build.want_write
    then elim rest [ none ↦ none | some (error', calls) ↦ some (error', ssl_handshake ∷ calls) ]
    else some (error, ssl_handshake ∷ [])

-- `tlsHandshake`
unfoldable pub tls_handshake : TlsBuild → TlsPeer → ℕ → Socket → Option (TlsStatus × List TlsCall)
tls_handshake build peer fuel s =
    if not (is_zero peer.setup_status)
    then some (internal_error, ssl_setup ∷ [])
    else elim (handshake_from build peer fuel 0) [
      | none ↦ none
      | some (error, calls) ↦ some (
        (if not (is_zero error) then handshake_failed else success),
        ssl_setup ∷ (ssl_set_bio s ∷ calls),
      )
    ]

-- `initMbedtls`
unfoldable pub init_mbedtls : TlsPeer → TlsStatus × List TlsCall
init_mbedtls peer =
    let started =
      threading_set_alt ∷ (entropy_init ∷ (ctr_drbg_init ∷ (entropy_add_source ∷ []))) in
    if not (is_zero peer.entropy_source_status) then (internal_error, started) else (
      (if not (is_zero peer.seed_status) then internal_error else success),
      started ++ (ctr_drbg_seed ∷ []),
    )

-- A stage behind `if( returnStatus == TLS_TRANSPORT_SUCCESS )`.
unfoldable pub if_success :
    TlsStatus × List TlsCall → TlsStatus × List TlsCall → TlsStatus × List TlsCall
if_success (status, calls) (status', calls') =
    if is_success status then (status', calls ++ calls') else (status, calls)

-- The same before the handshake, which may not end.
unfoldable pub if_success_then :
    TlsStatus × List TlsCall → Option (TlsStatus × List TlsCall) → Option (TlsStatus × List TlsCall)
if_success_then (status, calls) next =
    if is_success status
    then elim next [ none ↦ none | some (status', calls') ↦ some (status', calls ++ calls') ]
    else some (status, calls)

module _ (ms_to_ticks : ℕ → ℕ) (build : TlsBuild) where
  -- The call of `Sockets_Connect`, and what `tcpSocket` holds behind it.
  unfoldable pub tcp_connect : TlsPeer → ℕ → ℕ → Socket → (TlsStatus × List TlsCall) × Socket
  tcp_connect peer receive_timeout_ms send_timeout_ms old =
      let (status, s, calls) =
        sockets_connect ms_to_ticks peer.network receive_timeout_ms send_timeout_ms old in
      (((if not (is_zero status) then connect_failure else success), map on_socket calls), s)

  -- "Clean up on failure": the context is freed, and its socket closed.
  unfoldable pub clean_up : Socket → TlsStatus × List TlsCall → TlsStatus × List TlsCall
  clean_up s (status, calls) = (
    status,
    (if not (is_success status)
        then calls
          ++ (ssl_context_free
              ∷ (if not (is_invalid s) then on_socket (socket_closed s) ∷ [] else []))
        else calls),
  )

  -- `TLS_FreeRTOS_Connect` on a context that is not `NULL`, with what its `tcpSocket` holds before,
  -- and then the status, what that holds behind it, and the calls; `none` if the fuel of the
  -- handshake runs out. `has_host` is false for a name that is `NULL`, and the credentials are
  -- `none` for `NULL`.
  unfoldable pub tls_connect :
      TlsPeer
      → ℕ
      → Bool
      → Option Credentials
      → ℕ
      → ℕ
      → Socket
      → Option (TlsStatus × Socket × List TlsCall)
  tls_connect peer fuel has_host none receive_timeout_ms send_timeout_ms old =
      let (status, calls) = clean_up old (invalid_parameter, []) in some (status, old, calls)
  tls_connect peer fuel has_host (some credentials) receive_timeout_ms send_timeout_ms old =
      let (tcp, s) = tcp_connect peer receive_timeout_ms send_timeout_ms old in
      let prepared =
        if_success (if_success tcp (init_mbedtls peer)) (tls_setup build peer credentials) in
      let (refused, closing) = clean_up old (invalid_parameter, []) in
      if not has_host || not credentials.has_root_ca
      then some (refused, old, closing)
      else elim (if_success_then prepared (tls_handshake build peer fuel s)) [
        | none ↦ none
        | some result ↦ let (status, calls) = clean_up s result in some (status, s, calls)
      ]

  -- `TLS_FreeRTOS_Disconnect`, on the `tcpSocket` of the context, `none` for a context that is
  -- `NULL`. The status of `mbedtls_ssl_close_notify` only decides what is logged.
  unfoldable pub tls_disconnect : (ℕ → ℤ) → Option Socket → List TlsCall
  tls_disconnect received none = threading_free_alt ∷ []
  tls_disconnect received (some s) =
      ssl_close_notify
      ∷ (map on_socket (sockets_disconnect received s)
          ++ (ssl_context_free ∷ (threading_free_alt ∷ [])))

-- `TLS_FreeRTOS_recv` and `TLS_FreeRTOS_send`, for the result of `mbedtls_ssl_read` or
-- `mbedtls_ssl_write`.
unfoldable pub tls_transfer : TlsBuild → ℤ → ℤ
tls_transfer build status =
    if int_eq status build.ssl_timeout
      || (int_eq status build.want_read || int_eq status build.want_write)
    then pos 0
    else status
