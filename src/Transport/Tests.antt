-- ===== src/Transport/Tests.antt =====
-- Runs of the transports, and their theorems at such inputs.
use core_mqtt_agent_demos.Prelude.{
  ℕ, zero, suc, ◌+◌, ◌≡◌, ◌≤◌, ◌<◌, refl, true, false, some, List, [], ◌∷◌, ◌++◌, ◌==◌,
  if◌then◌else◌, length, arith,
}
use core_mqtt_agent_demos.Prelude.Int.{ℤ, pos, negsuc}
use core_mqtt_agent_demos.Transport.Network.{
  Socket, null_socket, socket, socket_created, socket_connected, socket_shut_down, socket_drained,
  socket_closed, Network,
}
use core_mqtt_agent_demos.Transport.Sockets.{
  shutdown_loops, create_socket, connect_socket, sockets_connect, drain, sockets_disconnect,
}
use core_mqtt_agent_demos.Transport.Tracking.{nothing, misused, holding, hold_all}
use core_mqtt_agent_demos.Transport.Opening.{Opened, sockets_connect-Opened}
use core_mqtt_agent_demos.Transport.Plaintext.{plaintext_connect, plaintext_recv}
use core_mqtt_agent_demos.Transport.Sessions.{
  sockets_disconnect-nothing, connects, disconnects, connect, disconnect, Reach, here, next,
  IsClean, fresh, Reach-IsClean,
}
use core_mqtt_agent_demos.Transport.TlsCalls
use core_mqtt_agent_demos.Transport.TlsCalls.{
  TlsStatus, is_success, Credentials, TlsCall, TlsPeer, TlsBuild,
}
use core_mqtt_agent_demos.Transport.Tls.{handshake_from, tls_connect, tls_disconnect, tls_transfer}
use core_mqtt_agent_demos.Transport.TlsSockets.{sockets_of}
use core_mqtt_agent_demos.Transport.TlsOpening.{TlsOpened, tls_connect-TlsOpened}
use core_mqtt_agent_demos.Transport.TlsStale.{tls_connect-misused}
use core_mqtt_agent_demos.Transport.TlsErrors.{first_failure, is_wanted}
use core_mqtt_agent_demos.Transport.TlsStatus.{tls_stages, tls_connect-first_failure}
use core_mqtt_agent_demos.Transport.TlsSafety.{VerifiedRun, tls_connect-VerifiedRun}

-- A tick of 10 ms.
abbrev ticks : ℕ → ℕ
ticks zero = 0
ticks (suc n) = 1 + n

-- The broker answers at socket 7, or the connection is refused.
abbrev answering : Network
answering = record { handed_out = some 7; address = 99; connect_status = pos 0 }

abbrev refusing : Network
refusing = record answering { connect_status = negsuc 15 }

abbrev received : ℕ → ℤ
received zero = pos 0
received (suc n) = negsuc 127

connect_refused : sockets_connect ticks refusing 5 5 null_socket ≡ (
  negsuc 15,
  null_socket,
  socket_created 7 ∷ (socket_connected (socket 7) ∷ (socket_closed (socket 7) ∷ [])),
)
unfolding sockets_connect create_socket connect_socket
connect_refused = refl

-- A single byte is not waited for.
no_byte : plaintext_recv (pos 0) (λ n. pos n) 1 ≡ (pos 0, false)
unfolding plaintext_recv
no_byte = refl

disconnect_run :
    sockets_disconnect received (socket 7)
    ≡ socket_shut_down (socket 7)
      ∷ (socket_drained (socket 7) ∷ (socket_drained (socket 7) ∷ (socket_closed (socket 7) ∷ [])))
unfolding sockets_disconnect drain
disconnect_run = refl

sockets_connect-Opened_example :
    let (status, s, calls) = sockets_connect ticks refusing 5 5 null_socket in
    Opened null_socket refusing status s (hold_all nothing calls)
sockets_connect-Opened_example = sockets_connect-Opened ticks refusing 5 5 null_socket

sockets_disconnect-nothing_example :
    (hold_all (holding 7) (sockets_disconnect received (socket 7)) ≡ nothing)
    × (length (sockets_disconnect received (socket 7)) ≤ shutdown_loops + 2)
sockets_disconnect-nothing_example = sockets_disconnect-nothing received 7

-- A refused attempt, a connection, and its end.
abbrev rounds :
    Reach ticks fresh (
      disconnects ticks received (connects ticks answering 5 5 (connects ticks refusing 5 5 fresh)))
unfolding connects plaintext_connect sockets_connect create_socket connect_socket
rounds =
    next (next (next here (connect refusing 5 5 refl refl)) (connect answering 5 5 refl refl))
      (disconnect received refl refl)

Reach-IsClean_example :
    IsClean (
      disconnects ticks received (connects ticks answering 5 5 (connects ticks refusing 5 5 fresh)))
Reach-IsClean_example = Reach-IsClean ticks rounds

abbrev build : TlsBuild
build = record {
  ssl_timeout = negsuc 26623;
  want_read = negsuc 26879;
  want_write = negsuc 26751;
  max_fragment_length = true;
}

-- The handshake asks for another call once, and then succeeds.
abbrev peer : TlsPeer
peer = record {
  network = answering;
  entropy_source_status = pos 0;
  seed_status = pos 0;
  defaults_status = pos 0;
  root_ca_status = pos 0;
  client_cert_status = pos 0;
  private_key_status = pos 0;
  own_cert_status = pos 0;
  setup_status = pos 0;
  handshake_status = λ n. if n == 0 then negsuc 26879 else pos 0;
}

abbrev credentials : Credentials
credentials = record {
  has_root_ca = true;
  has_client_cert = true;
  has_private_key = true;
  has_alpn_protos = false;
  disable_sni = false;
}

-- `MBEDTLS_ERR_SSL_TIMEOUT` is no error for the caller.
transfer_timeout : tls_transfer build (negsuc 26623) ≡ pos 0
unfolding tls_transfer
transfer_timeout = refl

handshake_twice :
    handshake_from build peer 2 0
    ≡ some (pos 0, TlsCalls.ssl_handshake ∷ (TlsCalls.ssl_handshake ∷ []))
unfolding handshake_from
handshake_twice = refl

tls_connect-TlsOpened_example :
    TlsOpened (tls_connect ticks build peer 5 true (some credentials) 5 5 null_socket)
tls_connect-TlsOpened_example =
    tls_connect-TlsOpened ticks build peer 5 true (some credentials) 5 5 null_socket refl

tls_connect-misused_example :
    (status : TlsStatus) × (calls : List TlsCall) × (tls_connect ticks build
        (record peer { network = refusing })
        5
        true
        (some credentials)
        5
        5
        (socket 7)
      ≡ some (status, socket 7, calls))
    × (is_success status ≡ false)
    × (hold_all
          (holding 7)
          (sockets_of (tls_disconnect ticks build received (some (socket 7))) ++ sockets_of calls)
        ≡ misused)
unfolding sockets_connect create_socket connect_socket
tls_connect-misused_example =
    tls_connect-misused ticks build (record peer { network = refusing }) 5 credentials 5 5 7
      received refl refl

wanted_before : (j : ℕ) → j < 1 → is_wanted build peer j ≡ true
unfolding is_wanted
wanted_before zero h = refl
wanted_before (suc j) h = absurd (omega arith)

tls_connect-first_failure_example :
    (s : Socket) × (calls : List TlsCall) × (tls_connect ticks build peer 5 true
        (some credentials)
        5
        5
        null_socket
      ≡ some (
        first_failure (
            tls_stages peer true credentials
              (sockets_connect ticks peer.network 5 5 null_socket).0
              (pos 0)),
        s,
        calls,
      ))
unfolding is_wanted
tls_connect-first_failure_example =
    tls_connect-first_failure ticks build peer credentials 5 5 null_socket 5 1 true (omega arith)
      wanted_before refl

tls_connect-VerifiedRun_example :
    VerifiedRun (tls_connect ticks build peer 5 true (some credentials) 5 5 null_socket)
tls_connect-VerifiedRun_example =
    tls_connect-VerifiedRun ticks build peer 5 true (some credentials) 5 5 null_socket
