-- ===== src/Transport/TlsCalls.antt =====
-- What using_mbedtls.c calls of mbedTLS, and the credentials that it is given.
use core_mqtt_agent_demos.Prelude.{ℕ, Bool}
use core_mqtt_agent_demos.Prelude.Int.{ℤ}
use core_mqtt_agent_demos.Transport.Network.{Network, Socket, SocketCall}

-- `TlsTransportStatus_t`
pub data TlsStatus : Type 0 where
  success invalid_parameter insufficient_memory invalid_credentials handshake_failed : TlsStatus
  internal_error connect_failure : TlsStatus

abbrev pub is_success : TlsStatus → Bool
is_success success = Bool.true
is_success invalid_parameter = Bool.false
is_success insufficient_memory = Bool.false
is_success invalid_credentials = Bool.false
is_success handshake_failed = Bool.false
is_success internal_error = Bool.false
is_success connect_failure = Bool.false

-- Which pointers of `NetworkCredentials_t` are set, and its `disableSni`.
pub record Credentials : Type 0 where
  pub has_root_ca : Bool
  pub has_client_cert : Bool
  pub has_private_key : Bool
  pub has_alpn_protos : Bool
  pub disable_sni : Bool

-- The calls of mbedTLS, each after its function; those on sockets are among them.
pub data TlsCall : Type 0 where
  on_socket : SocketCall → TlsCall
  -- `initMbedtls`
  threading_set_alt entropy_init ctr_drbg_init entropy_add_source ctr_drbg_seed : TlsCall
  -- `sslContextInit` and `sslContextFree`, each for all members
  ssl_context_init ssl_context_free : TlsCall
  -- `tlsSetup` and what it calls
  ssl_config_defaults ssl_conf_authmode_required ssl_conf_rng ssl_conf_cert_profile : TlsCall
  parse_root_ca ssl_conf_ca_chain parse_client_cert parse_private_key ssl_conf_own_cert : TlsCall
  ssl_conf_alpn_protocols ssl_set_hostname ssl_conf_max_frag_len : TlsCall
  -- `tlsHandshake`
  ssl_setup : TlsCall
  ssl_set_bio : Socket → TlsCall
  ssl_handshake : TlsCall
  -- `TLS_FreeRTOS_Disconnect`
  ssl_close_notify threading_free_alt : TlsCall

-- What mbedTLS and the network answer while one connection is made: the results of the calls of
-- that name, and the result of the n-th call of `mbedtls_ssl_handshake`.
pub record TlsPeer : Type 0 where
  pub network : Network
  pub entropy_source_status : ℤ
  pub seed_status : ℤ
  pub defaults_status : ℤ
  pub root_ca_status : ℤ
  pub client_cert_status : ℤ
  pub private_key_status : ℤ
  pub own_cert_status : ℤ
  pub setup_status : ℤ
  pub handshake_status : ℕ → ℤ

-- Error codes of mbedTLS (ssl.h): `MBEDTLS_ERR_SSL_TIMEOUT`, `MBEDTLS_ERR_SSL_WANT_READ` and
-- `MBEDTLS_ERR_SSL_WANT_WRITE`; and whether `MBEDTLS_SSL_MAX_FRAGMENT_LENGTH` is defined.
pub record TlsBuild : Type 0 where
  pub ssl_timeout : ℤ
  pub want_read : ℤ
  pub want_write : ℤ
  pub max_fragment_length : Bool
