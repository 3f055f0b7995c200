-- ===== src/Transport/TlsSockets.antt =====
-- The socket of a TLS connection on each path of `TLS_FreeRTOS_Connect`.
use core_mqtt_agent_demos.Prelude.{
  ◌∙◌, ◌≡◌, refl, ap, Bool, true, false, not, ◌&&◌, List, [], ◌∷◌, ◌++◌, map, append-nil,
  if◌then◌else◌, arith, Bool-cases, inl, inr,
}
use core_mqtt_agent_demos.Prelude.Int.{ℤ, is_zero}
use core_mqtt_agent_demos.Transport.Network.{SocketCall}
use core_mqtt_agent_demos.Transport.TlsCalls
use core_mqtt_agent_demos.Transport.TlsCalls.{
  TlsStatus, is_success, Credentials, TlsCall, on_socket, TlsPeer, TlsBuild,
}
use core_mqtt_agent_demos.Transport.Tls.{
  set_root_ca, if_no_error, set_credentials, set_optional_configurations, tls_setup, init_mbedtls,
  if_success,
}

-- The calls on sockets among the others.
unfoldable pub sockets_of : List TlsCall → List SocketCall
sockets_of [] = []
sockets_of (on_socket c ∷ calls) = c ∷ sockets_of calls
sockets_of (_ ∷ calls) = sockets_of calls

pub sockets_of-append :
    (xs ys : List TlsCall) → sockets_of (xs ++ ys) ≡ sockets_of xs ++ sockets_of ys
unfolding sockets_of
sockets_of-append [] ys = refl
sockets_of-append (on_socket c ∷ xs) ys = ap (λ l. c ∷ l) (sockets_of-append xs ys)
sockets_of-append (_ ∷ xs) ys = sockets_of-append xs ys

pub sockets_of-map : (calls : List SocketCall) → sockets_of (map on_socket calls) ≡ calls
unfolding sockets_of
sockets_of-map [] = refl
sockets_of-map (c ∷ calls) = ap (λ l. c ∷ l) (sockets_of-map calls)

-- Calls among which there is none on a socket.
abbrev pub Quiet : List TlsCall → Type 0
Quiet calls = sockets_of calls ≡ []

pub sockets_of-append-Quiet :
    (xs ys : List TlsCall) → Quiet ys → sockets_of (xs ++ ys) ≡ sockets_of xs
sockets_of-append-Quiet xs ys q =
    sockets_of-append xs ys ∙ ap (λ l. sockets_of xs ++ l) q ∙ append-nil _

pub Quiet-append : (xs ys : List TlsCall) → Quiet xs → Quiet ys → Quiet (xs ++ ys)
Quiet-append xs ys p q = sockets_of-append-Quiet xs ys q ∙ p

Quiet-if :
    {A : Type 0} (b : Bool) (p q : A × List TlsCall)
    → Quiet p.1
    → Quiet q.1
    → Quiet (if b then p else q).1
Quiet-if true p q h k = h
Quiet-if false p q h k = k

Quiet-if_no_error :
    (error status : ℤ) (call : TlsCall)
    → Quiet (call ∷ [])
    → Quiet (if_no_error error status call).1
unfolding if_no_error sockets_of
Quiet-if_no_error error status call q =
    Quiet-if (is_zero error) (status, call ∷ []) (error, []) q refl

Quiet-set_credentials :
    (peer : TlsPeer) (credentials : Credentials) → Quiet (set_credentials peer credentials).1
unfolding set_credentials set_root_ca sockets_of
Quiet-set_credentials peer credentials =
    Quiet-if (credentials.has_client_cert && credentials.has_private_key)
      ((own.0, started ++ (cert.1 ++ (key.1 ++ own.1)))) (peer.root_ca_status, started)
      (Quiet-append started (cert.1 ++ (key.1 ++ own.1)) root (
        Quiet-append cert.1 (key.1 ++ own.1)
          (Quiet-if_no_error peer.root_ca_status peer.client_cert_status TlsCalls.parse_client_cert
            refl)
          (Quiet-append key.1 own.1
            (Quiet-if_no_error cert.0 peer.private_key_status TlsCalls.parse_private_key refl)
            (Quiet-if_no_error key.0 peer.own_cert_status TlsCalls.ssl_conf_own_cert refl))))
      root
  where
    cert : ℤ × List TlsCall
    cert = if_no_error peer.root_ca_status peer.client_cert_status TlsCalls.parse_client_cert

    key : ℤ × List TlsCall
    key = if_no_error cert.0 peer.private_key_status TlsCalls.parse_private_key

    own : ℤ × List TlsCall
    own = if_no_error key.0 peer.own_cert_status TlsCalls.ssl_conf_own_cert

    started : List TlsCall
    started =
        TlsCalls.ssl_conf_authmode_required
        ∷ (TlsCalls.ssl_conf_rng ∷ (TlsCalls.ssl_conf_cert_profile ∷ (set_root_ca peer).1))

    root : Quiet started
    root = ground arith

Quiet-set_optional_configurations :
    (build : TlsBuild) (credentials : Credentials)
    → Quiet (set_optional_configurations build credentials)
unfolding set_optional_configurations sockets_of
Quiet-set_optional_configurations build credentials = ground arith

pub Quiet-tls_setup :
    (build : TlsBuild) (peer : TlsPeer) (credentials : Credentials)
    → Quiet (tls_setup build peer credentials).1
unfolding tls_setup sockets_of
Quiet-tls_setup build peer credentials =
    Quiet-if (not (is_zero peer.defaults_status)) (TlsCalls.insufficient_memory, started) _ refl
      (Quiet-if (not (is_zero (set_credentials peer credentials).0))
        (TlsCalls.invalid_credentials, started ++ setting)
        (TlsCalls.success, started ++ (setting ++ optional))
        (Quiet-append started setting refl quiet)
        (Quiet-append started (setting ++ optional) refl (
          Quiet-append setting optional quiet
            (Quiet-set_optional_configurations build credentials))))
  where
    started : List TlsCall
    started = TlsCalls.ssl_context_init ∷ (TlsCalls.ssl_config_defaults ∷ [])

    setting : List TlsCall
    setting = (set_credentials peer credentials).1

    optional : List TlsCall
    optional = set_optional_configurations build credentials

    quiet : Quiet setting
    quiet = Quiet-set_credentials peer credentials

pub Quiet-init_mbedtls : (peer : TlsPeer) → Quiet (init_mbedtls peer).1
unfolding init_mbedtls sockets_of
Quiet-init_mbedtls peer = ground arith

-- What a stage with no call on a socket adds.
pub sockets_of-if_success :
    (first next : TlsStatus × List TlsCall)
    → Quiet next.1
    → sockets_of (if_success first next).1 ≡ sockets_of first.1
unfolding if_success
sockets_of-if_success (status, calls) next q = elim (Bool-cases (is_success status)) [
  | inl ok ↦ rw ok (sockets_of-append-Quiet calls next.1 q)
  | inr error ↦ rw error refl
]

pub is_success-if_success :
    (first next : TlsStatus × List TlsCall)
    → is_success first.0 ≡ false
    → (if_success first next).0 ≡ first.0
unfolding if_success
is_success-if_success (status, calls) next h = rw h refl
