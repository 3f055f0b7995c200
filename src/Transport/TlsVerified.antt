-- ===== src/Transport/TlsVerified.antt =====
-- The server is verified in every TLS handshake.
use core_mqtt_agent_demos.Prelude.{
  ◌∙◌, ◌≡◌, refl, sym, ap, Bool, true, false, not, ◌&&◌, List, [], ◌∷◌, ◌++◌, map, if◌then◌else◌,
  Bool-cases, inl, inr,
}
use core_mqtt_agent_demos.Prelude.Int.{ℤ, is_zero}
use core_mqtt_agent_demos.Transport.Network.{SocketCall}
use core_mqtt_agent_demos.Transport.TlsCalls
use core_mqtt_agent_demos.Transport.TlsCalls.{
  TlsStatus, is_success, Credentials, TlsCall, on_socket, TlsPeer, TlsBuild,
}
use core_mqtt_agent_demos.Transport.Tls.{set_root_ca, if_no_error, set_credentials, init_mbedtls}
use core_mqtt_agent_demos.Transport.TlsErrors.{is_zero-if_no_error}

-- Whether the context requires the server to be verified, whether it has root certificates to do so,
-- and whether there was no handshake without both.
pub record Trust : Type 0 where
  pub required : Bool
  pub chained : Bool
  pub verified : Bool

unfoldable pub trust : Trust → TlsCall → Trust
trust t TlsCalls.ssl_context_init = record t { required = false; chained = false }
trust t TlsCalls.ssl_conf_authmode_required = record t { required = true }
trust t TlsCalls.ssl_conf_ca_chain = record t { chained = true }
trust t TlsCalls.ssl_handshake = record t { verified = t.verified && (t.required && t.chained) }
trust t call = t

unfoldable pub trust_all : Trust → List TlsCall → Trust
trust_all t [] = t
trust_all t (c ∷ calls) = trust_all (trust t c) calls

pub trust_all-append :
    (t : Trust) (xs ys : List TlsCall) → trust_all t (xs ++ ys) ≡ trust_all (trust_all t xs) ys
unfolding trust_all
trust_all-append t [] ys = refl
trust_all-append t (c ∷ xs) ys = trust_all-append (trust t c) xs ys

-- Calls that change nothing of it.
abbrev pub Plain : List TlsCall → Type 0
Plain calls = (t : Trust) → trust_all t calls ≡ t

pub Plain-append : (xs ys : List TlsCall) → Plain xs → Plain ys → Plain (xs ++ ys)
Plain-append xs ys p q t = trust_all-append t xs ys ∙ q (trust_all t xs) ∙ p t

pub Plain-map : (calls : List SocketCall) → Plain (map on_socket calls)
unfolding trust_all trust
Plain-map [] t = refl
Plain-map (c ∷ calls) t = Plain-map calls t

Plain-if :
    {A : Type 0} (b : Bool) (p q : A × List TlsCall)
    → Plain p.1
    → Plain q.1
    → Plain (if b then p else q).1
Plain-if true p q h k = h
Plain-if false p q h k = k

Plain-if_no_error :
    (error status : ℤ) (call : TlsCall)
    → Plain (call ∷ [])
    → Plain (if_no_error error status call).1
unfolding if_no_error trust_all
Plain-if_no_error error status call p =
    Plain-if (is_zero error) (status, call ∷ []) (error, []) p (λ t. refl)

pub Plain-init_mbedtls : (peer : TlsPeer) → Plain (init_mbedtls peer).1
unfolding init_mbedtls trust_all trust
Plain-init_mbedtls peer =
    Plain-if (not (is_zero peer.entropy_source_status)) _ _ (λ t. refl) (λ t. refl)

abbrev pub trusting : Trust → Trust
trusting t = record t { required = true; chained = true }

-- After a set-up without an error both are set; any other changes no handshake.
abbrev pub Sets : Bool → List TlsCall → Type 0
Sets ok calls =
    (t : Trust)
    → ((trust_all t calls).verified ≡ t.verified) × (ok ≡ true → trust_all t calls ≡ trusting t)

pub Sets-append : (ok : Bool) (xs ys : List TlsCall) → Sets ok xs → Plain ys → Sets ok (xs ++ ys)
Sets-append ok xs ys s p t =
    let e = trust_all-append t xs ys ∙ p (trust_all t xs) in
    (ap (λ (u : Trust). u.verified) e ∙ (s t).0, λ h. e ∙ (s t).1 h)

Sets-weaken :
    (ok ok' : Bool) (xs : List TlsCall) → (ok' ≡ true → ok ≡ true) → Sets ok xs → Sets ok' xs
Sets-weaken ok ok' xs w s t = ((s t).0, λ h. (s t).1 (w h))

Sets-root :
    (peer : TlsPeer)
    → Sets (is_zero peer.root_ca_status) (
        TlsCalls.ssl_conf_authmode_required
        ∷ (TlsCalls.ssl_conf_rng ∷ (TlsCalls.ssl_conf_cert_profile ∷ (set_root_ca peer).1)))
unfolding set_root_ca trust_all trust
Sets-root peer t = elim (Bool-cases (is_zero peer.root_ca_status)) [
  | inl ok ↦ (rw ok refl, λ h. rw ok refl)
  | inr bad ↦ (rw bad refl, λ h. cc)
]

Sets-if :
    (b : Bool) (p q : ℤ × List TlsCall)
    → Sets (is_zero p.0) p.1
    → Sets (is_zero q.0) q.1
    → Sets (is_zero (if b then p else q).0) (if b then p else q).1
Sets-if true p q h k = h
Sets-if false p q h k = k

and_left : (a b : Bool) → (a && b) ≡ true → a ≡ true
and_left true b h = refl
and_left false b h = cc

pub Sets-set_credentials :
    (peer : TlsPeer) (credentials : Credentials)
    → Sets (is_zero (set_credentials peer credentials).0) (set_credentials peer credentials).1
unfolding set_credentials trust_all trust set_root_ca
Sets-set_credentials peer credentials =
    Sets-if (credentials.has_client_cert && credentials.has_private_key)
      (own.0, started ++ (cert.1 ++ (key.1 ++ own.1))) (peer.root_ca_status, started)
      (Sets-append (is_zero own.0) started (cert.1 ++ (key.1 ++ own.1))
        (Sets-weaken (is_zero peer.root_ca_status) (is_zero own.0) started weak (Sets-root peer))
        (Plain-append cert.1 (key.1 ++ own.1)
          (Plain-if_no_error peer.root_ca_status peer.client_cert_status TlsCalls.parse_client_cert
            (λ t. refl))
          (Plain-append key.1 own.1
            (Plain-if_no_error cert.0 peer.private_key_status TlsCalls.parse_private_key
              (λ t. refl))
            (Plain-if_no_error key.0 peer.own_cert_status TlsCalls.ssl_conf_own_cert (λ t. refl)))))
      (Sets-root peer)
  where
    cert : ℤ × List TlsCall
    cert = if_no_error peer.root_ca_status peer.client_cert_status TlsCalls.parse_client_cert

    key : ℤ × List TlsCall
    key = if_no_error cert.0 peer.private_key_status TlsCalls.parse_private_key

    own : ℤ × List TlsCall
    own = if_no_error key.0 peer.own_cert_status TlsCalls.ssl_conf_own_cert

    started : List TlsCall
    started =
        TlsCalls.ssl_conf_authmode_required
        ∷ (TlsCalls.ssl_conf_rng ∷ (TlsCalls.ssl_conf_cert_profile ∷ (set_root_ca peer).1))

    weak : is_zero own.0 ≡ true → is_zero peer.root_ca_status ≡ true
    weak h =
        let k =
          and_left _ _
            (sym (is_zero-if_no_error key.0 peer.own_cert_status TlsCalls.ssl_conf_own_cert) ∙ h) in
        let c = and_left _ _ (
          sym (is_zero-if_no_error cert.0 peer.private_key_status TlsCalls.parse_private_key)
          ∙ k) in
        and_left _ _ (
          sym (
            is_zero-if_no_error peer.root_ca_status peer.client_cert_status
              TlsCalls.parse_client_cert)
          ∙ c)
