-- ===== src/MqttAgentTask/Connect.antt =====
-- `prvSocketConnect` and `prvSocketDisconnect` of source/mqtt-agent-task.c.
use core_mqtt_agent_demos.Prelude.{
  ℕ, zero, suc, ◌+◌, Bool, true, false, Option, none, some, List, [], ◌∷◌, ◌++◌, if◌then◌else◌,
}
use core_mqtt_agent_demos.MqttAgentTask.Environment.{
  BackoffApi, backoff_success, retries_exhausted, Event, attempted, delayed, options_set,
  socket_closed, Peer,
}

-- `RETRY_MAX_ATTEMPTS`, `RETRY_MAX_BACKOFF_DELAY_MS` and `RETRY_BACKOFF_BASE_MS`
abbrev pub retry_max_attempts : ℕ
retry_max_attempts = 5

abbrev pub retry_max_backoff_delay_ms : ℕ
retry_max_backoff_delay_ms = 5000

abbrev pub retry_backoff_base_ms : ℕ
retry_backoff_base_ms = 500

module _ (api : BackoffApi) where
  open api use {Context, initialize, next}

  -- The `do` loop of `prvSocketConnect` from the n-th attempt on, with fuel: whether the socket is
  -- connected, and the calls. `none` if the fuel runs out.
  unfoldable pub connect_from : ℕ → Peer → ℕ → Context → Option (Bool × List Event)
  connect_from zero peer n b = none
  connect_from (suc fuel) peer n b =
      let (b', status, delay) = next b (peer.random n) in
      let rest = connect_from fuel peer (n + 1) b' in
      if peer.connects n then some (true, attempted true ∷ []) else elim status [
        | backoff_success ↦ elim rest [
          | none ↦ none
          | some (connected, events) ↦ some (connected, attempted false ∷ (delayed delay ∷ events))
        ]
        | retries_exhausted ↦ some (false, attempted false ∷ [])
      ]

  -- `prvSocketConnect`. The retries are limited, so this much fuel is enough.
  unfoldable pub socket_connect : Peer → Option (Bool × List Event)
  socket_connect peer =
      elim (connect_from (suc retry_max_attempts) peer 0
        (initialize retry_backoff_base_ms retry_max_backoff_delay_ms retry_max_attempts)) [
          | none ↦ none
          | some (connected, events) ↦
              some (connected, (if connected then events ++ (options_set ∷ []) else events))
        ]

-- `prvSocketDisconnect`, with TLS or without it.
unfoldable pub socket_disconnect : Bool → Peer → Bool × List Event
socket_disconnect use_tls peer = ((if use_tls then true else peer.closes), socket_closed ∷ [])
