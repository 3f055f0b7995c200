-- ===== src/Transport/TlsErrors.antt =====
-- Which status `TLS_FreeRTOS_Connect` returns, and that its handshake ends.
use core_mqtt_agent_demos.Prelude.{
  ◌∙◌, ℕ, zero, suc, ◌+◌, ◌≡◌, ◌≤◌, ◌<◌, refl, sym, ap, Bool, true, false, not, ◌&&◌, ◌||◌, some,
  List, [], ◌∷◌, if◌then◌else◌, arith, Bool-cases, inl, inr,
}
use core_mqtt_agent_demos.Prelude.Int.{ℤ, is_zero, int_eq}
use core_mqtt_agent_demos.Transport.TlsCalls
use core_mqtt_agent_demos.Transport.TlsCalls.{
  TlsStatus, is_success, Credentials, TlsCall, TlsPeer, TlsBuild,
}
use core_mqtt_agent_demos.Transport.Tls.{
  set_root_ca, if_no_error, set_credentials, tls_setup, handshake_from, init_mbedtls,
}

-- The stages in their order, each with whether it succeeds and the status that it has if not.
abbrev pub Stages : Type 0
Stages = List (Bool × TlsStatus)

unfoldable pub first_failure : Stages → TlsStatus
first_failure [] = TlsCalls.success
first_failure ((succeeds, status) ∷ stages) =
    let rest = first_failure stages in if succeeds then rest else status

-- The stages of the set-up.
unfoldable pub setup_stages : TlsPeer → Credentials → Stages
setup_stages peer credentials =
    let own = credentials.has_client_cert && credentials.has_private_key in
    (is_zero peer.defaults_status, TlsCalls.insufficient_memory)
    ∷ ((is_zero peer.root_ca_status, TlsCalls.invalid_credentials)
        ∷ ((not own || is_zero peer.client_cert_status, TlsCalls.invalid_credentials)
            ∷ ((not own || is_zero peer.private_key_status, TlsCalls.invalid_credentials)
                ∷ ((not own || is_zero peer.own_cert_status, TlsCalls.invalid_credentials) ∷ []))))

pub is_zero-if_no_error :
    (error status : ℤ) (call : TlsCall)
    → is_zero (if_no_error error status call).0 ≡ (is_zero error && is_zero status)
unfolding if_no_error
is_zero-if_no_error error status call = elim (Bool-cases (is_zero error)) [
  | inl ok ↦ rw ok refl
  | inr bad ↦ rw bad bad
]

with_own : (own root cert key conf : Bool) → Bool
with_own true root cert key conf = ((root && cert) && key) && conf
with_own false root cert key conf = root

with_own_lem :
    (own root cert key conf : Bool)
    → with_own own root cert key conf
      ≡ (root && ((not own || cert) && ((not own || key) && (not own || conf))))
unfolding with_own
with_own_lem true root cert key conf = ground arith
with_own_lem false root cert key conf = ground arith

is_zero-set_credentials :
    (peer : TlsPeer) (credentials : Credentials)
    → let own = credentials.has_client_cert && credentials.has_private_key in
      is_zero (set_credentials peer credentials).0 ≡ (
        is_zero peer.root_ca_status
        && ((not own || is_zero peer.client_cert_status)
            && ((not own || is_zero peer.private_key_status)
                && (not own || is_zero peer.own_cert_status))))
unfolding set_credentials set_root_ca with_own
is_zero-set_credentials peer credentials =
    by_test (credentials.has_client_cert && credentials.has_private_key) _ _
    ∙ with_own_lem (credentials.has_client_cert && credentials.has_private_key)
        (is_zero peer.root_ca_status) (is_zero peer.client_cert_status)
        (is_zero peer.private_key_status) (is_zero peer.own_cert_status)
  where
    cert : ℤ × List TlsCall
    cert = if_no_error peer.root_ca_status peer.client_cert_status TlsCalls.parse_client_cert

    key : ℤ × List TlsCall
    key = if_no_error cert.0 peer.private_key_status TlsCalls.parse_private_key

    own : ℤ × List TlsCall
    own = if_no_error key.0 peer.own_cert_status TlsCalls.ssl_conf_own_cert

    by_test :
        (b : Bool) (calls calls' : List TlsCall)
        → is_zero
            (if◌then◌else◌ {A = ℤ × List TlsCall} b (own.0, calls) (peer.root_ca_status, calls')).0
          ≡ with_own b
              (is_zero peer.root_ca_status)
              (is_zero peer.client_cert_status)
              (is_zero peer.private_key_status)
              (is_zero peer.own_cert_status)
    by_test true calls calls' =
        is_zero-if_no_error key.0 peer.own_cert_status TlsCalls.ssl_conf_own_cert
        ∙ rw
            (
              is_zero-if_no_error cert.0 peer.private_key_status TlsCalls.parse_private_key,
              is_zero-if_no_error peer.root_ca_status peer.client_cert_status
                  TlsCalls.parse_client_cert,
            )
            refl
    by_test false calls calls' = refl

setup_status :
    (d r c k o : Bool)
    → (if not d
        then TlsCalls.insufficient_memory
        else if not (r && (c && (k && o)))
        then TlsCalls.invalid_credentials
        else TlsCalls.success)
      ≡ first_failure (
          (d, TlsCalls.insufficient_memory)
          ∷ ((r, TlsCalls.invalid_credentials)
              ∷ ((c, TlsCalls.invalid_credentials)
                  ∷ ((k, TlsCalls.invalid_credentials)
                      ∷ ((o, TlsCalls.invalid_credentials) ∷ [])))))
unfolding first_failure
setup_status d r c k o = ground arith

status_of_if :
    (b : Bool) (p q : TlsStatus × List TlsCall) → (if b then p else q).0 ≡ (if b then p.0 else q.0)
status_of_if true p q = refl
status_of_if false p q = refl

pub first_failure-tls_setup :
    (build : TlsBuild) (peer : TlsPeer) (credentials : Credentials)
    → (tls_setup build peer credentials).0 ≡ first_failure (setup_stages peer credentials)
unfolding tls_setup setup_stages
first_failure-tls_setup build peer credentials =
    status_of_if (not (is_zero peer.defaults_status)) _ _
    ∙ rw
        (
          status_of_if (not (is_zero (set_credentials peer credentials).0)),
          is_zero-set_credentials peer credentials,
        )
        (setup_status (is_zero peer.defaults_status) _ _ _ _)

pub first_failure-init_mbedtls :
    (peer : TlsPeer)
    → (init_mbedtls peer).0
      ≡ first_failure (
          (is_zero peer.entropy_source_status, TlsCalls.internal_error)
          ∷ ((is_zero peer.seed_status, TlsCalls.internal_error) ∷ []))
unfolding init_mbedtls first_failure
first_failure-init_mbedtls peer = ground arith

-- The handshake is to be called again.
unfoldable pub is_wanted : TlsBuild → TlsPeer → ℕ → Bool
is_wanted build peer n =
    int_eq (peer.handshake_status n) build.want_read
    || int_eq (peer.handshake_status n) build.want_write

pub handshake_from-settled :
    (build : TlsBuild) (peer : TlsPeer) (fuel n m : ℕ)
    → m < fuel
    → ((j : ℕ) → n ≤ j → j < n + m → is_wanted build peer j ≡ true)
    → is_wanted build peer (n + m) ≡ false
    → (calls : List TlsCall) × (handshake_from build peer fuel n
        ≡ some (peer.handshake_status (n + m), calls))
unfolding handshake_from is_wanted
handshake_from-settled build peer zero n m f w s = absurd (omega arith)
handshake_from-settled build peer (suc fuel) n zero f w s =
    let e : n + 0 ≡ n = omega arith in
    let stop : is_wanted build peer n ≡ false = ap (is_wanted build peer) (sym e) ∙ s in
    (ssl_end, rw (e, stop) refl)
  where
    ssl_end : List TlsCall
    ssl_end = TlsCalls.ssl_handshake ∷ []
handshake_from-settled build peer (suc fuel) n (suc m) f w s =
    let e : n + suc m ≡ n + 1 + m = omega arith in
    let (calls, run) =
      handshake_from-settled build peer fuel (n + 1) m (omega arith)
        (λ j p q. w j (omega arith) (omega arith)) (ap (is_wanted build peer) (sym e) ∙ s) in
    let again : is_wanted build peer n ≡ true = w n (omega arith) (omega arith) in
    (TlsCalls.ssl_handshake ∷ calls, rw (again, run, e) refl)
