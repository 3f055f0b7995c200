-- ===== src/Transport/TlsSafety.antt =====
-- No TLS handshake without the verification of the server, on any path of `TLS_FreeRTOS_Connect`.
use core_mqtt_agent_demos.Prelude.{
  ◌∙◌, ℕ, zero, suc, ◌+◌, ◌≡◌, refl, ap, Bool, true, false, not, ◌||◌, Option, none, some, List, [],
  ◌∷◌, ◌++◌, if◌then◌else◌, Bool-cases, inl, inr,
}
use core_mqtt_agent_demos.Prelude.Int.{ℤ, is_zero, int_eq}
use core_mqtt_agent_demos.Transport.Network.{Socket, is_invalid, socket_closed}
use core_mqtt_agent_demos.Transport.Sockets.{sockets_connect}
use core_mqtt_agent_demos.Transport.TlsCalls
use core_mqtt_agent_demos.Transport.TlsCalls.{
  TlsStatus, is_success, Credentials, TlsCall, on_socket, TlsPeer, TlsBuild,
}
use core_mqtt_agent_demos.Transport.Tls.{
  set_credentials, set_optional_configurations, tls_setup, handshake_from, tls_handshake,
  init_mbedtls, if_success, if_success_then, tcp_connect, clean_up, tls_connect,
}
use core_mqtt_agent_demos.Transport.TlsVerified.{
  Trust, trust, trust_all, trust_all-append, Plain, Plain-append, Plain-map, Plain-init_mbedtls,
  trusting, Sets, Sets-append, Sets-set_credentials,
}

Plain-cond : (b : Bool) (xs : List TlsCall) → Plain xs → Plain (if b then xs else [])
unfolding trust_all
Plain-cond true xs p t = p t
Plain-cond false xs p t = refl

Plain-set_optional_configurations :
    (build : TlsBuild) (credentials : Credentials)
    → Plain (set_optional_configurations build credentials)
unfolding set_optional_configurations trust_all trust
Plain-set_optional_configurations build credentials =
    Plain-append alpn (name ++ fragment)
      (Plain-cond credentials.has_alpn_protos (TlsCalls.ssl_conf_alpn_protocols ∷ []) (λ t. refl))
      (Plain-append name fragment
        (Plain-cond (not credentials.disable_sni) (TlsCalls.ssl_set_hostname ∷ []) (λ t. refl))
        (Plain-cond build.max_fragment_length (TlsCalls.ssl_conf_max_frag_len ∷ []) (λ t. refl)))
  where
    alpn : List TlsCall
    alpn = if credentials.has_alpn_protos then TlsCalls.ssl_conf_alpn_protocols ∷ [] else []

    name : List TlsCall
    name = if not credentials.disable_sni then TlsCalls.ssl_set_hostname ∷ [] else []

    fragment : List TlsCall
    fragment = if build.max_fragment_length then TlsCalls.ssl_conf_max_frag_len ∷ [] else []

Sets-tls_setup :
    (build : TlsBuild) (peer : TlsPeer) (credentials : Credentials)
    → Sets (is_success (tls_setup build peer credentials).0) (tls_setup build peer credentials).1
unfolding tls_setup trust_all trust
Sets-tls_setup build peer credentials =
    by_tests (is_zero peer.defaults_status) (is_zero (set_credentials peer credentials).0)
      (set_credentials peer credentials).1 (Sets-set_credentials peer credentials)
  where
    started : List TlsCall
    started = TlsCalls.ssl_context_init ∷ (TlsCalls.ssl_config_defaults ∷ [])

    optional : List TlsCall
    optional = set_optional_configurations build credentials

    outcome : Bool → Bool → List TlsCall → TlsStatus × List TlsCall
    outcome defaults ok setting =
        if not defaults
        then (TlsCalls.insufficient_memory, started)
        else (if not ok
            then (TlsCalls.invalid_credentials, started ++ setting)
            else (TlsCalls.success, started ++ (setting ++ optional)))

    by_tests :
        (defaults ok : Bool) (setting : List TlsCall)
        → Sets ok setting
        → Sets (is_success (outcome defaults ok setting).0) (outcome defaults ok setting).1
    by_tests false ok setting s t = (refl, λ h. cc)
    by_tests true false setting s t =
        ((s (record t { required = false; chained = false })).0, λ h. cc)
    by_tests true true setting s t =
        Sets-append true setting optional s (Plain-set_optional_configurations build credentials)
          (record t { required = false; chained = false })

Plain-if_success :
    (first next : TlsStatus × List TlsCall)
    → Plain first.1
    → Plain next.1
    → Plain (if_success first next).1
unfolding if_success
Plain-if_success (status, calls) next p q = elim (Bool-cases (is_success status)) [
  | inl ok ↦ rw ok (Plain-append calls next.1 p q)
  | inr error ↦ rw error p
]

Sets-if_success :
    (first next : TlsStatus × List TlsCall)
    → Plain first.1
    → Sets (is_success next.0) next.1
    → Sets (is_success (if_success first next).0) (if_success first next).1
unfolding if_success
Sets-if_success (status, calls) next p s t = by_test (is_success status) refl
  where
    outcome : Bool → TlsStatus × List TlsCall
    outcome b = if b then (next.0, calls ++ next.1) else (status, calls)

    by_test :
        (b : Bool)
        → is_success status ≡ b
        → ((trust_all t (outcome b).1).verified ≡ t.verified)
          × (is_success (outcome b).0 ≡ true → trust_all t (outcome b).1 ≡ trusting t)
    by_test true e =
        let k = trust_all-append t calls next.1 ∙ ap (λ u. trust_all u next.1) (p t) in
        (ap (λ (u : Trust). u.verified) k ∙ (s t).0, λ h. k ∙ (s t).1 h)
    by_test false e = (ap (λ (u : Trust). u.verified) (p t), λ h. cc)

-- Nothing is set yet, and there was no handshake.
abbrev pub untrusted : Trust
untrusted = record { required = false; chained = false; verified = true }

abbrev Keeps : {A : Type 0} → Option (A × List TlsCall) → Type 0
Keeps none = Unit
Keeps (some (a, calls)) = trust_all (trusting untrusted) calls ≡ trusting untrusted

Keeps-handshake_from :
    (build : TlsBuild) (peer : TlsPeer) (fuel n : ℕ) → Keeps (handshake_from build peer fuel n)
unfolding handshake_from trust_all trust
Keeps-handshake_from build peer zero n = tt
Keeps-handshake_from build peer (suc fuel) n =
    by_test
      (int_eq (peer.handshake_status n) build.want_read
        || int_eq (peer.handshake_status n) build.want_write)
      (handshake_from build peer fuel (n + 1)) (Keeps-handshake_from build peer fuel (n + 1))
  where
    by_test :
        (again : Bool) (rest : Option (ℤ × List TlsCall))
        → Keeps rest
        → Keeps (
            if again
            then elim rest [
              | none ↦ none
              | some (error', calls) ↦ some (error', TlsCalls.ssl_handshake ∷ calls)
            ]
            else some (peer.handshake_status n, TlsCalls.ssl_handshake ∷ []))
    by_test true none k = tt
    by_test true (some (error', calls)) k = k
    by_test false rest k = refl

Keeps-tls_handshake :
    (build : TlsBuild) (peer : TlsPeer) (fuel : ℕ) (s : Socket)
    → Keeps (tls_handshake build peer fuel s)
unfolding tls_handshake trust_all trust
Keeps-tls_handshake build peer fuel s =
    by_test (not (is_zero peer.setup_status)) (handshake_from build peer fuel 0)
      (Keeps-handshake_from build peer fuel 0)
  where
    by_test :
        (refused : Bool) (result : Option (ℤ × List TlsCall))
        → Keeps result
        → Keeps (
            if refused
            then some (TlsCalls.internal_error, TlsCalls.ssl_setup ∷ [])
            else elim result [
              | none ↦ none
              | some (error, calls) ↦ some (
                (if not (is_zero error) then TlsCalls.handshake_failed else TlsCalls.success),
                TlsCalls.ssl_setup ∷ (TlsCalls.ssl_set_bio s ∷ calls),
              )
            ])
    by_test true result k = refl
    by_test false none k = tt
    by_test false (some (error, calls)) k = k

-- There was no handshake without verification.
abbrev Verified : List TlsCall → Type 0
Verified calls = (trust_all untrusted calls).verified ≡ true

abbrev VerifiedResult : Option (TlsStatus × List TlsCall) → Type 0
VerifiedResult none = Unit
VerifiedResult (some (status, calls)) = Verified calls

Verified-append : (xs ys : List TlsCall) → Verified xs → Plain ys → Verified (xs ++ ys)
Verified-append xs ys v p =
    ap (λ (u : Trust). u.verified) (trust_all-append untrusted xs ys ∙ p (trust_all untrusted xs))
    ∙ v

VerifiedResult-if_success_then :
    (before : TlsStatus × List TlsCall) (next : Option (TlsStatus × List TlsCall))
    → Sets (is_success before.0) before.1
    → Keeps next
    → VerifiedResult (if_success_then before next)
unfolding if_success_then
VerifiedResult-if_success_then (status, calls) next s k = by_test (is_success status) refl next k
  where
    by_test :
        (b : Bool)
        → is_success status ≡ b
        → (next : Option (TlsStatus × List TlsCall)) → Keeps next
        → VerifiedResult (
            if b
            then elim next [
              | none ↦ none
              | some (status', calls') ↦ some (status', calls ++ calls')
            ]
            else some (status, calls))
    by_test true e none k = tt
    by_test true e (some (status', calls')) k =
        ap (λ (u : Trust). u.verified)
          (trust_all-append untrusted calls calls'
            ∙ ap (λ u. trust_all u calls') ((s untrusted).1 e)
            ∙ k)
    by_test false e next k = (s untrusted).0

-- The calls behind a result, if there is one.
abbrev pub VerifiedRun : Option (TlsStatus × Socket × List TlsCall) → Type 0
VerifiedRun none = Unit
VerifiedRun (some (status, s, calls)) = (trust_all untrusted calls).verified ≡ true

module _ (ms_to_ticks : ℕ → ℕ) (build : TlsBuild) where
  Verified-clean_up :
      (s : Socket) (r : TlsStatus × List TlsCall)
      → Verified r.1
      → Verified (clean_up ms_to_ticks build s r).1
  unfolding clean_up trust_all trust
  Verified-clean_up s (status, calls) v = elim (Bool-cases (is_success status)) [
    | inl ok ↦ rw ok v
    | inr error ↦ rw error (
        Verified-append calls (TlsCalls.ssl_context_free ∷ closing) v (
          Plain-append (TlsCalls.ssl_context_free ∷ []) closing (λ t. refl)
            (Plain-cond (not (is_invalid s)) (on_socket (socket_closed s) ∷ []) (λ t. refl))))
  ]
    where
      closing : List TlsCall
      closing = if not (is_invalid s) then on_socket (socket_closed s) ∷ [] else []

  -- On every path of `TLS_FreeRTOS_Connect`, each call of `mbedtls_ssl_handshake` is made with
  -- `MBEDTLS_SSL_VERIFY_REQUIRED` and with a chain of root certificates, both set since the context
  -- was initialised.
  pub tls_connect-VerifiedRun :
      (peer : TlsPeer) (fuel : ℕ) (has_host : Bool) (credentials : Option Credentials)
      (receive_timeout_ms send_timeout_ms : ℕ) (old : Socket)
      → VerifiedRun (
          tls_connect ms_to_ticks build peer fuel has_host credentials receive_timeout_ms
            send_timeout_ms old)
  unfolding tls_connect tcp_connect trust_all
  tls_connect-VerifiedRun peer fuel has_host none receive_timeout_ms send_timeout_ms old =
      Verified-clean_up old (TlsCalls.invalid_parameter, []) refl
  tls_connect-VerifiedRun peer fuel has_host (some credentials) receive_timeout_ms send_timeout_ms
        old =
      by_test (not has_host || not credentials.has_root_ca)
        (if_success_then before (tls_handshake build peer fuel tcp.1))
        (VerifiedResult-if_success_then before (tls_handshake build peer fuel tcp.1)
          (Sets-if_success (if_success tcp.0 (init_mbedtls peer)) (tls_setup build peer credentials)
            (Plain-if_success tcp.0 (init_mbedtls peer)
              (Plain-map
                (sockets_connect ms_to_ticks peer.network receive_timeout_ms send_timeout_ms old).2)
              (Plain-init_mbedtls peer))
            (Sets-tls_setup build peer credentials))
          (Keeps-tls_handshake build peer fuel tcp.1))
    where
      tcp : (TlsStatus × List TlsCall) × Socket
      tcp = tcp_connect ms_to_ticks build peer receive_timeout_ms send_timeout_ms old

      before : TlsStatus × List TlsCall
      before = if_success (if_success tcp.0 (init_mbedtls peer)) (tls_setup build peer credentials)

      by_test :
          (refused : Bool) (out : Option (TlsStatus × List TlsCall))
          → VerifiedResult out
          → VerifiedRun (
              if refused
              then some (
                (clean_up ms_to_ticks build old (TlsCalls.invalid_parameter, [])).0,
                old,
                (clean_up ms_to_ticks build old (TlsCalls.invalid_parameter, [])).1,
              )
              else elim out [
                | none ↦ none
                | some result ↦ some (
                  (clean_up ms_to_ticks build tcp.1 result).0,
                  tcp.1,
                  (clean_up ms_to_ticks build tcp.1 result).1,
                )
              ])
      by_test true out v = Verified-clean_up old (TlsCalls.invalid_parameter, []) refl
      by_test false none v = tt
      by_test false (some r) v = Verified-clean_up tcp.1 r v
