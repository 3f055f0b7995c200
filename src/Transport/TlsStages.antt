-- ===== src/Transport/TlsStages.antt =====
-- What the stages of a TLS connection behind the first do with its socket: nothing.
use core_mqtt_agent_demos.Prelude.{
  ℕ, zero, suc, ◌+◌, ◌≡◌, refl, Bool, true, false, not, ◌||◌, Option, none, some, List, [], ◌∷◌,
  ◌++◌, if◌then◌else◌,
}
use core_mqtt_agent_demos.Prelude.Int.{ℤ, is_zero, int_eq}
use core_mqtt_agent_demos.Transport.Network.{Socket}
use core_mqtt_agent_demos.Transport.TlsCalls
use core_mqtt_agent_demos.Transport.TlsCalls.{
  TlsStatus, is_success, Credentials, TlsCall, on_socket, TlsPeer, TlsBuild,
}
use core_mqtt_agent_demos.Transport.Tls.{handshake_from, tls_handshake, if_success_then}
use core_mqtt_agent_demos.Transport.TlsSockets.{sockets_of, Quiet, sockets_of-append-Quiet}

-- A result whose calls are none on a socket, if there is one.
abbrev pub QuietResult : {A : Type 0} → Option (A × List TlsCall) → Type 0
QuietResult none = Unit
QuietResult (some (a, calls)) = Quiet calls

QuietResult-handshake_from :
    (build : TlsBuild) (peer : TlsPeer) (fuel n : ℕ)
    → QuietResult (handshake_from build peer fuel n)
unfolding handshake_from sockets_of
QuietResult-handshake_from build peer zero n = tt
QuietResult-handshake_from build peer (suc fuel) n =
    by_test
      (int_eq (peer.handshake_status n) build.want_read
        || int_eq (peer.handshake_status n) build.want_write)
      (handshake_from build peer fuel (n + 1)) (QuietResult-handshake_from build peer fuel (n + 1))
  where
    by_test :
        (again : Bool) (rest : Option (ℤ × List TlsCall))
        → QuietResult rest
        → QuietResult (
            if again
            then elim rest [
              | none ↦ none
              | some (error', calls) ↦ some (error', TlsCalls.ssl_handshake ∷ calls)
            ]
            else some (peer.handshake_status n, TlsCalls.ssl_handshake ∷ []))
    by_test true none q = tt
    by_test true (some (error', calls)) q = q
    by_test false rest q = refl

pub QuietResult-tls_handshake :
    (build : TlsBuild) (peer : TlsPeer) (fuel : ℕ) (s : Socket)
    → QuietResult (tls_handshake build peer fuel s)
unfolding tls_handshake sockets_of
QuietResult-tls_handshake build peer fuel s =
    by_test (not (is_zero peer.setup_status)) (handshake_from build peer fuel 0)
      (QuietResult-handshake_from build peer fuel 0)
  where
    by_test :
        (refused : Bool) (result : Option (ℤ × List TlsCall))
        → QuietResult result
        → QuietResult (
            if refused
            then some (TlsCalls.internal_error, TlsCalls.ssl_setup ∷ [])
            else elim result [
              | none ↦ none
              | some (error, calls) ↦ some (
                (if not (is_zero error) then TlsCalls.handshake_failed else TlsCalls.success),
                TlsCalls.ssl_setup ∷ (TlsCalls.ssl_set_bio s ∷ calls),
              )
            ])
    by_test true result q = refl
    by_test false none q = tt
    by_test false (some (error, calls)) q = q

-- What the last stage leaves of the calls on sockets, and of an earlier error.
abbrev pub Follows : TlsStatus × List TlsCall → Option (TlsStatus × List TlsCall) → Type 0
Follows before none = Unit
Follows (status, calls) (some (status', calls')) =
    (sockets_of calls' ≡ sockets_of calls) × (is_success status ≡ false → status' ≡ status)

pub Follows-if_success_then :
    (before : TlsStatus × List TlsCall) (next : Option (TlsStatus × List TlsCall))
    → QuietResult next
    → Follows before (if_success_then before next)
unfolding if_success_then
Follows-if_success_then (status, calls) next q = by_test (is_success status) refl next q
  where
    by_test :
        (ok : Bool)
        → is_success status ≡ ok
        → (next : Option (TlsStatus × List TlsCall)) → QuietResult next
        → Follows
            (status, calls)
            (if ok
              then elim next [
                | none ↦ none
                | some (status', calls') ↦ some (status', calls ++ calls')
              ]
              else some (status, calls))
    by_test true e none q = tt
    by_test true e (some (status', calls')) q = (sockets_of-append-Quiet calls calls' q, λ h. cc)
    by_test false e next q = (refl, λ h. refl)
