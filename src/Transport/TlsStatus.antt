-- ===== src/Transport/TlsStatus.antt =====
-- The status of `TLS_FreeRTOS_Connect` is that of the first stage that fails.
use core_mqtt_agent_demos.Prelude.{
  ◌∙◌, ℕ, ◌+◌, ◌≡◌, ◌<◌, refl, sym, ap, Bool, true, false, not, ◌&&◌, ◌||◌, Option, none, some,
  List, [], ◌∷◌, ◌++◌, if◌then◌else◌, arith, Bool-cases, inl, inr,
}
use core_mqtt_agent_demos.Prelude.Int.{ℤ, is_zero}
use core_mqtt_agent_demos.Transport.Network.{Socket}
use core_mqtt_agent_demos.Transport.Sockets.{sockets_connect}
use core_mqtt_agent_demos.Transport.TlsCalls
use core_mqtt_agent_demos.Transport.TlsCalls.{
  TlsStatus, is_success, Credentials, TlsCall, TlsPeer, TlsBuild,
}
use core_mqtt_agent_demos.Transport.Tls.{
  tls_setup, tls_handshake, init_mbedtls, if_success, if_success_then, tcp_connect, clean_up,
  tls_connect,
}
use core_mqtt_agent_demos.Transport.TlsErrors.{
  Stages, first_failure, setup_stages, first_failure-tls_setup, first_failure-init_mbedtls,
  is_wanted, handshake_from-settled,
}

-- Each stage fails with an error.
abbrev AllErrors : Stages → Type 0
AllErrors [] = Unit
AllErrors ((succeeds, status) ∷ stages) = (is_success status ≡ false) × AllErrors stages

-- A status, or the one of what follows a success.
abbrev and_then : TlsStatus → TlsStatus → TlsStatus
and_then first next = if is_success first then next else first

first_failure-append :
    (xs ys : Stages)
    → AllErrors xs
    → first_failure (xs ++ ys) ≡ and_then (first_failure xs) (first_failure ys)
unfolding first_failure
first_failure-append [] ys e = refl
first_failure-append ((true, status) ∷ xs) ys e = first_failure-append xs ys e.1
first_failure-append ((false, status) ∷ xs) ys e = rw (e.0) refl

if_success-and_then :
    (first next : TlsStatus × List TlsCall) → (if_success first next).0 ≡ and_then first.0 next.0
unfolding if_success
if_success-and_then (status, calls) next = elim (Bool-cases (is_success status)) [
  | inl ok ↦ rw ok refl
  | inr error ↦ rw error refl
]

if_success_then-and_then :
    (first next : TlsStatus × List TlsCall)
    → (calls : List TlsCall) × (if_success_then first (some next)
        ≡ some (and_then first.0 next.0, calls))
unfolding if_success_then
if_success_then-and_then (status, calls) next = elim (Bool-cases (is_success status)) [
  | inl ok ↦ (calls ++ next.1, rw ok refl)
  | inr error ↦ (calls, rw error refl)
]

assemble :
    (b : Bool) (xs ys : Stages)
    → AllErrors xs
    → and_then
        (and_then (if not b then TlsCalls.connect_failure else TlsCalls.success) (first_failure xs))
        (first_failure ys)
      ≡ first_failure (((b, TlsCalls.connect_failure) ∷ []) ++ (xs ++ ys))
unfolding first_failure
assemble true xs ys e = sym (first_failure-append xs ys e)
assemble false xs ys e = refl

-- The stages before that of the handshake.
before_stages : TlsPeer → Credentials → ℤ → Stages
before_stages peer credentials tcp_status =
    ((is_zero tcp_status, TlsCalls.connect_failure) ∷ [])
    ++ (((is_zero peer.entropy_source_status, TlsCalls.internal_error)
          ∷ ((is_zero peer.seed_status, TlsCalls.internal_error) ∷ []))
        ++ setup_stages peer credentials)

AllErrors-before_stages :
    (peer : TlsPeer) (credentials : Credentials) (tcp_status : ℤ)
    → AllErrors (before_stages peer credentials tcp_status)
unfolding before_stages setup_stages
AllErrors-before_stages peer credentials tcp_status =
    (refl, (refl, (refl, (refl, (refl, (refl, (refl, (refl, tt))))))))

abbrev triple : TlsStatus → Socket → List TlsCall → Option (TlsStatus × Socket × List TlsCall)
triple status s calls = some (status, s, calls)

-- All of them, for the status of `Sockets_Connect` and the last of the handshake.
pub tls_stages : TlsPeer → Bool → Credentials → ℤ → ℤ → Stages
unfolding before_stages
tls_stages peer has_host credentials tcp_status handshake =
    ((has_host && credentials.has_root_ca, TlsCalls.invalid_parameter) ∷ [])
    ++ (before_stages peer credentials tcp_status
        ++ ((is_zero peer.setup_status, TlsCalls.internal_error)
            ∷ ((is_zero handshake, TlsCalls.handshake_failed) ∷ [])))

module _ (ms_to_ticks : ℕ → ℕ) (build : TlsBuild) (peer : TlsPeer) where
  handshake_status :
      (fuel m : ℕ) (s : Socket)
      → m < fuel
      → ((j : ℕ) → j < m → is_wanted build peer j ≡ true)
      → is_wanted build peer m ≡ false
      → (calls : List TlsCall) × (tls_handshake build peer fuel s
          ≡ some (
            first_failure (
                (is_zero peer.setup_status, TlsCalls.internal_error)
                ∷ ((is_zero (peer.handshake_status m), TlsCalls.handshake_failed) ∷ [])),
            calls,
          ))
  unfolding tls_handshake first_failure
  handshake_status fuel m s f w stop =
      let e : 0 + m ≡ m = omega arith in
      let (calls, run) =
        handshake_from-settled build peer fuel 0 m f (λ j p q. w j (omega arith))
          (ap (is_wanted build peer) e ∙ stop) in
      elim (Bool-cases (is_zero peer.setup_status)) [
        | inl ok ↦ (
          TlsCalls.ssl_setup ∷ (TlsCalls.ssl_set_bio s ∷ calls),
          rw (ok, run, e) (ap some (by_last (is_zero (peer.handshake_status m)) _)),
        )
        | inr error ↦ (TlsCalls.ssl_setup ∷ [], rw error refl)
      ]
    where
      by_last :
          (b : Bool) (calls : List TlsCall)
          → ◌≡◌ {A = TlsStatus × List TlsCall}
              ((if not b then TlsCalls.handshake_failed else TlsCalls.success), calls)
              ((if b then TlsCalls.success else TlsCalls.handshake_failed), calls)
      by_last true calls = refl
      by_last false calls = refl

  module _ (credentials : Credentials) (receive_timeout_ms send_timeout_ms : ℕ) (old : Socket) where
    tcp_status : ℤ
    tcp_status = (sockets_connect ms_to_ticks peer.network receive_timeout_ms send_timeout_ms old).0

    prepared_status :
        (if_success
          (if_success
            (tcp_connect ms_to_ticks build peer receive_timeout_ms send_timeout_ms old).0
            (init_mbedtls peer))
          (tls_setup build peer credentials)).0
        ≡ first_failure (before_stages peer credentials tcp_status)
    unfolding before_stages tcp_connect tcp_status
    prepared_status =
        if_success-and_then _ (tls_setup build peer credentials)
        ∙ ap (λ t. and_then t (tls_setup build peer credentials).0)
            (if_success-and_then _ (init_mbedtls peer)
              ∙ ap (λ t. and_then tcp_result t) (first_failure-init_mbedtls peer))
        ∙ ap (λ t. and_then (and_then tcp_result (first_failure seeding)) t)
            (first_failure-tls_setup build peer credentials)
        ∙ assemble (is_zero tcp_status) seeding (setup_stages peer credentials) (refl, (refl, tt))
      where
        tcp_result : TlsStatus
        tcp_result = if not (is_zero tcp_status) then TlsCalls.connect_failure else TlsCalls.success

        seeding : Stages
        seeding =
            (is_zero peer.entropy_source_status, TlsCalls.internal_error)
            ∷ ((is_zero peer.seed_status, TlsCalls.internal_error) ∷ [])

    -- `TLS_FreeRTOS_Connect`, where the handshake asks to be called again up to its m-th call and not
    -- behind that, with fuel for these calls, returns: and it returns the status of the first stage
    -- that fails, or `TLS_TRANSPORT_SUCCESS` if none does.
    pub tls_connect-first_failure :
        (fuel m : ℕ) (has_host : Bool)
        → m < fuel
        → ((j : ℕ) → j < m → is_wanted build peer j ≡ true)
        → is_wanted build peer m ≡ false
        → (s : Socket) × (calls : List TlsCall) × (tls_connect ms_to_ticks build peer fuel has_host
              (some credentials)
              receive_timeout_ms
              send_timeout_ms
              old
            ≡ some (
              first_failure (
                  tls_stages peer has_host credentials
                    (sockets_connect ms_to_ticks peer.network receive_timeout_ms send_timeout_ms
                      old).0
                    (peer.handshake_status m)),
              s,
              calls,
            ))
    unfolding tls_connect tls_stages first_failure clean_up tcp_status
    tls_connect-first_failure fuel m has_host f w stop = by_tests has_host credentials.has_root_ca _
      where
        s : Socket
        s = (tcp_connect ms_to_ticks build peer receive_timeout_ms send_timeout_ms old).1

        before : TlsStatus × List TlsCall
        before =
            if_success
              (if_success
                (tcp_connect ms_to_ticks build peer receive_timeout_ms send_timeout_ms old).0
                (init_mbedtls peer))
              (tls_setup build peer credentials)

        last : Stages
        last =
            (is_zero peer.setup_status, TlsCalls.internal_error)
            ∷ ((is_zero (peer.handshake_status m), TlsCalls.handshake_failed) ∷ [])

        finish : Option (TlsStatus × List TlsCall) → Option (TlsStatus × Socket × List TlsCall)
        finish out = elim out [
          | none ↦ none
          | some r ↦
              some ((clean_up ms_to_ticks build s r).0, s, (clean_up ms_to_ticks build s r).1)
        ]

        normal : Option (TlsStatus × Socket × List TlsCall)
        normal = finish (if_success_then before (tls_handshake build peer fuel s))

        status : TlsStatus
        status = first_failure (before_stages peer credentials tcp_status ++ last)

        status_lem : and_then before.0 (first_failure last) ≡ status
        status_lem =
            ap (λ t. and_then t (first_failure last)) prepared_status
            ∙ sym (
                first_failure-append (before_stages peer credentials tcp_status) last
                  (AllErrors-before_stages peer credentials tcp_status))

        run :
            (calls : List TlsCall) × (◌≡◌ {A = Option (TlsStatus × Socket × List TlsCall)} normal
              (some (status, s, calls)))
        run =
            let (shaken, shaking) = handshake_status fuel m s f w stop in
            let (calls, ended) = if_success_then-and_then before (first_failure last, shaken) in
            let calls' =
              (clean_up ms_to_ticks build s (and_then before.0 (first_failure last), calls)).1 in
            (
              calls',
              ap (λ out. finish (if_success_then before out)) shaking
                  ∙ ap finish ended
                  ∙ ap (λ t. triple t s calls') status_lem,
            )

        by_tests :
            (host root : Bool) (refusing : List TlsCall)
            → (s' : Socket) × (calls : List TlsCall) × (◌≡◌
                {A = Option (TlsStatus × Socket × List TlsCall)}
                (if not host || not root
                  then some (TlsCalls.invalid_parameter, old, refusing)
                  else normal)
                (some ((if host && root then status else TlsCalls.invalid_parameter), s', calls)))
        by_tests true true refusing = (s, run.0, run.1)
        by_tests true false refusing = (old, refusing, refl)
        by_tests false root refusing = (old, refusing, refl)
