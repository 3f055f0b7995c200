-- ===== src/MqttAgentTask/Environment.antt =====
-- What source/mqtt-agent-task.c calls in other libraries, and the trace of such calls.
use core_mqtt_agent_demos.Prelude.{ℕ, suc, ◌≡◌, Bool, true, false, List}

-- What is named of `MQTTStatus_t` of coreMQTT; `other` stands for its other error codes.
pub data MqttStatus : Type 0 where
  mqtt_success mqtt_bad_parameter : MqttStatus
  mqtt_other : ℕ → MqttStatus

abbrev pub is_success : MqttStatus → Bool
is_success mqtt_success = true
is_success mqtt_bad_parameter = false
is_success (mqtt_other code) = false

-- `BackoffAlgorithmStatus_t`
pub data BackoffStatus : Type 0 where
  backoff_success retries_exhausted : BackoffStatus

-- The backoffAlgorithm library. `next` is `BackoffAlgorithm_GetNextBackoff` with its random number:
-- the context, the status, and the delay in milliseconds for a success. A context allows as many
-- delays as it was initialised with.
pub record BackoffApi : Type 1 where
  pub Context : Type 0
  pub initialize : ℕ → ℕ → ℕ → Context
  pub next : Context → ℕ → Context × BackoffStatus × ℕ
  pub attempts_left : Context → ℕ
  pub initialize_attempts :
      (base max_delay attempts : ℕ) → attempts_left (initialize base max_delay attempts) ≡ attempts
  pub next_success :
      (b : Context) (random left : ℕ)
      → attempts_left b ≡ suc left
      → ((next b random).1 ≡ backoff_success) × (attempts_left (next b random).0 ≡ left)
  pub next_exhausted :
      (b : Context) (random : ℕ) → attempts_left b ≡ 0 → (next b random).1 ≡ retries_exhausted

-- What is set of `MQTTSubscribeInfo_t`.
pub record SubscribeInfo : Type 0 where
  pub topic_filter : ℕ
  pub topic_filter_length : ℕ
  pub qos : ℕ

-- The calls that the rest of the system sees, in their order.
pub data Event : Type 0 where
  -- an attempt to connect the socket, and whether it succeeded
  attempted : Bool → Event
  -- `vTaskDelay` for so many milliseconds
  delayed : ℕ → Event
  -- the two calls of `FreeRTOS_setsockopt` on a new connection
  options_set : Event
  -- the wakeup callback taken off the socket, and the socket closed
  socket_closed : Event
  -- `connectStatus` set to `MQTTNotConnected`
  status_reset : Event
  -- `MQTT_Connect`, with `cleanSession`, and whether it succeeded
  mqtt_connected : Bool → Bool → Event
  -- `MQTTAgent_ResumeSession`, with `xSessionPresent`
  session_resumed : Bool → Event
  -- `MQTTAgent_Subscribe`
  subscribed : List SubscribeInfo → Event
  -- `MQTTAgent_CommandLoop`
  command_looped : Event
  -- `vSuspendOTACodeSigningDemo` and `vResumeOTACodeSigningDemo`
  ota_suspended : Event
  ota_resumed : Event

-- What the network and the broker answer while one connection is set up: the n-th attempt to
-- connect the socket, the n-th number of `uxRand`, the status of closing a plaintext socket, the
-- status of `MQTT_Connect` with the session that it finds, and the statuses of
-- `MQTTAgent_ResumeSession` and `MQTTAgent_Subscribe`.
pub record Peer : Type 0 where
  pub connects : ℕ → Bool
  pub random : ℕ → ℕ
  pub closes : Bool
  pub mqtt_connects : Bool → MqttStatus × Bool
  pub resumes : Bool → MqttStatus
  pub subscribes : List SubscribeInfo → MqttStatus
