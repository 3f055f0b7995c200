-- ===== src/MqttAgentTask/Retry.antt =====
-- How often `prvSocketConnect` tries, and what it returns.
use core_mqtt_agent_demos.Prelude.{
  ◌∙◌, ℕ, zero, suc, ◌+◌, ◌≡◌, ◌≤◌, ◌<◌, refl, sym, ap, Bool, true, false, some, List, [], ◌∷◌,
  ◌++◌, if◌then◌else◌, length, arith, Bool-cases, inl, inr,
}
use core_mqtt_agent_demos.MqttAgentTask.Environment.{
  BackoffApi, Event, attempted, delayed, options_set, Peer,
}
use core_mqtt_agent_demos.MqttAgentTask.Connect.{
  connect_from, socket_connect, retry_max_attempts, retry_max_backoff_delay_ms,
  retry_backoff_base_ms,
}

-- The outcomes of the attempts from the n-th on, `left` retries at most: up to the first success.
unfoldable pub attempts : Peer → ℕ → ℕ → List Bool
attempts peer n zero = peer.connects n ∷ []
attempts peer n (suc left) =
    let rest = attempts peer (n + 1) left in if peer.connects n then true ∷ [] else false ∷ rest

-- Whether the last of them succeeds.
unfoldable pub succeeds : List Bool → Bool
succeeds [] = false
succeeds (b ∷ []) = b
succeeds (b ∷ (c ∷ cs)) = succeeds (c ∷ cs)

-- The attempts that a trace shows.
pub attempts_of : List Event → List Bool
attempts_of [] = []
attempts_of (attempted b ∷ events) = b ∷ attempts_of events
attempts_of (_ ∷ events) = attempts_of events

-- How often it waits, and how often it sets the options of the socket.
pub delays_of : List Event → ℕ
delays_of [] = 0
delays_of (delayed ms ∷ events) = suc (delays_of events)
delays_of (_ ∷ events) = delays_of events

pub options_of : List Event → ℕ
options_of [] = 0
options_of (options_set ∷ events) = suc (options_of events)
options_of (_ ∷ events) = options_of events

-- What setting the options adds to a trace.
attempts_of-options :
    (events : List Event) → attempts_of (events ++ (options_set ∷ [])) ≡ attempts_of events
unfolding attempts_of
attempts_of-options [] = refl
attempts_of-options (attempted b ∷ events) = ap (λ l. b ∷ l) (attempts_of-options events)
attempts_of-options (_ ∷ events) = attempts_of-options events

delays_of-options :
    (events : List Event) → delays_of (events ++ (options_set ∷ [])) ≡ delays_of events
unfolding delays_of
delays_of-options [] = refl
delays_of-options (delayed ms ∷ events) = ap suc (delays_of-options events)
delays_of-options (_ ∷ events) = delays_of-options events

options_of-options :
    (events : List Event) → options_of (events ++ (options_set ∷ [])) ≡ suc (options_of events)
unfolding options_of
options_of-options [] = refl
options_of-options (options_set ∷ events) = ap suc (options_of-options events)
options_of-options (_ ∷ events) = options_of-options events

succeeds-cons :
    (peer : Peer) (n left : ℕ)
    → succeeds (false ∷ attempts peer n left) ≡ succeeds (attempts peer n left)
unfolding attempts succeeds
succeeds-cons peer n zero = refl
succeeds-cons peer n (suc left) = ground arith

length-attempts : (peer : Peer) (n left : ℕ) → length (attempts peer n left) ≤ suc left
unfolding attempts
length-attempts peer n zero = omega arith
length-attempts peer n (suc left) = ground (arith, length-attempts peer (n + 1) left)

module _ (api : BackoffApi) where
  open api use {
    Context, initialize, next, attempts_left, initialize_attempts, next_success, next_exhausted,
  }

  connect_from-attempts :
      (fuel : ℕ) (peer : Peer) (n left : ℕ) (b : Context)
      → left < fuel
      → attempts_left b ≡ left
      → (connected : Bool) × (events : List Event) × (connect_from api fuel peer n b
          ≡ some (connected, events))
        × (attempts_of events ≡ attempts peer n left)
        × (connected ≡ succeeds (attempts peer n left))
        × (options_of events ≡ 0)
        × (suc (delays_of events) ≡ length (attempts peer n left))
  unfolding connect_from attempts succeeds attempts_of options_of delays_of
  connect_from-attempts zero peer n left b h e = absurd (omega arith)
  connect_from-attempts (suc fuel) peer n zero b h e = elim (Bool-cases (peer.connects n)) [
    | inl up ↦ (true, attempted true ∷ [], rw up, rw up, rw up, refl, refl)
    | inr down ↦ (
      false,
      attempted false ∷ [],
      rw (down, next_exhausted b (peer.random n) e),
      rw down,
      rw down,
      refl,
      refl,
    )
  ]
  connect_from-attempts (suc fuel) peer n (suc left) b h e = elim (Bool-cases (peer.connects n)) [
    | inl up ↦ (true, attempted true ∷ [], rw up, rw up, rw up, refl, rw up)
    | inr down ↦
        let (ok, e') = next_success b (peer.random n) left e in
        let b' = (next b (peer.random n)).0 in
        let (connected, events, run, tried, result, none_set, waits) =
          connect_from-attempts fuel peer (n + 1) left b' (omega arith) e' in
        (
          connected,
          attempted false ∷ (delayed ((next b (peer.random n)).2) ∷ events),
          rw (down, ok, run),
          rw (down, tried),
          rw down (result ∙ sym (succeeds-cons peer (n + 1) left)),
          none_set,
          rw down (ap suc waits),
        )
  ]

  -- `prvSocketConnect` ends: it makes its attempts until one succeeds, at most 6 of them, and
  -- returns whether one did. After each attempt but the last it waits once. The options of the
  -- socket are set, once, exactly if it is connected.
  pub socket_connect-attempts :
      (peer : Peer)
      → (events : List Event) × (socket_connect api peer
          ≡ some (succeeds (attempts peer 0 retry_max_attempts), events))
        × (attempts_of events ≡ attempts peer 0 retry_max_attempts)
        × (length (attempts_of events) ≤ 6)
        × (suc (delays_of events) ≡ length (attempts_of events))
        × (options_of events ≡ (if succeeds (attempts_of events) then 1 else 0))
  unfolding socket_connect
  socket_connect-attempts peer =
      let b = initialize retry_backoff_base_ms retry_max_backoff_delay_ms retry_max_attempts in
      let (connected, events, run, tried, result, none_set, waits) =
        connect_from-attempts (suc retry_max_attempts) peer 0 retry_max_attempts b (omega arith) (
          initialize_attempts retry_backoff_base_ms retry_max_backoff_delay_ms
            retry_max_attempts) in
      let few = length-attempts peer 0 retry_max_attempts in
      elim (Bool-cases connected) [
        | inl up ↦ (
          events ++ (options_set ∷ []),
          rw (run, socket_connect, up)
              (ap (λ c. some (c, events ++ (options_set ∷ []))) (sym up ∙ result)),
          attempts_of-options events ∙ tried,
          rw (attempts_of-options, tried) few,
          rw (attempts_of-options, delays_of-options, tried) waits,
          rw (attempts_of-options, options_of-options, tried, ← result, up) (ap suc none_set),
        )
        | inr down ↦ (
          events,
          rw (run, socket_connect, down) (ap (λ c. some (c, events)) (sym down ∙ result)),
          tried,
          rw tried few,
          rw tried waits,
          rw (tried, ← result, down) none_set,
        )
      ]
