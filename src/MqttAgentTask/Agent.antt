-- ===== src/MqttAgentTask/Agent.antt =====
-- `prvMQTTAgentTask` and `prvConnectToMQTTBroker` of source/mqtt-agent-task.c.
use core_mqtt_agent_demos.Prelude.{
  ℕ, zero, suc, ◌+◌, Bool, true, false, none, some, List, [], ◌∷◌, ◌++◌, if◌then◌else◌,
}
use core_mqtt_agent_demos.SubscriptionManager.{Table}
use core_mqtt_agent_demos.MqttAgentTask.Environment.{
  BackoffApi, MqttStatus, is_success, SubscribeInfo, Event, status_reset, command_looped,
  ota_suspended, ota_resumed, Peer,
}
use core_mqtt_agent_demos.MqttAgentTask.Connect.{socket_connect, socket_disconnect}
use core_mqtt_agent_demos.MqttAgentTask.Session.{mqtt_connect}

-- How the task ends: the loop ends, an assert fails, or the fuel runs out.
pub data End : Type 0 where
  finished halted running : End

-- The build options `democonfigUSE_TLS` and `democonfigCREATE_CODE_SIGNING_OTA_DEMO`.
pub record Build : Type 0 where
  pub use_tls : Bool
  pub ota_demo : Bool

-- What a sequence of calls with asserts returns: whether all held, the static array of
-- `prvHandleResubscribe`, and the calls.
abbrev pub Outcome : Type 0
Outcome = Bool × List SubscribeInfo × List Event

-- Calls made before.
abbrev pub behind : List Event → Outcome → Outcome
behind events (held, infos, later) = (held, infos, events ++ later)

module _ (api : BackoffApi) (build : Build) where
  -- `prvSocketConnect` with the assert behind it, and what follows.
  unfoldable pub connected_then : Peer → List SubscribeInfo → Outcome → Outcome
  connected_then peer infos next = elim (socket_connect api peer) [
    | none ↦ (false, infos, [])
    | some (connected, events) ↦ behind events (if connected then next else (false, infos, []))
  ]

  -- `prvMQTTConnect` with the assert behind it, and what follows.
  unfoldable pub mqtt_connected_then :
      Peer → Bool → Table → List SubscribeInfo → List Event → Outcome
  mqtt_connected_then peer clean_session table infos next =
      let (status, infos', events) = mqtt_connect peer clean_session table infos in
      (is_success status, infos', events ++ (if is_success status then next else []))

  -- The branch of `prvMQTTAgentTask` for an error of the command loop.
  unfoldable pub reconnect : Peer → MqttStatus → Table → List SubscribeInfo → Outcome
  reconnect peer mqtt_status table infos =
      let (disconnected, closing) = socket_disconnect build.use_tls peer in
      let resumption =
        if build.ota_demo then (if is_success mqtt_status then ota_resumed ∷ [] else []) else [] in
      behind ((if build.ota_demo then ota_suspended ∷ [] else []) ++ closing) (
        if disconnected
        then connected_then peer infos
            (behind (status_reset ∷ []) (mqtt_connected_then peer false table infos resumption))
        else (false, infos, []))

  -- `prvMQTTAgentTask` from the n-th round on: `command_loop` gives the status with which the n-th
  -- call of `MQTTAgent_CommandLoop` returns, `peers` what is met behind it, and `tables` the
  -- subscriptions at that time.
  unfoldable pub agent_task :
      ℕ → (ℕ → MqttStatus) → (ℕ → Peer) → (ℕ → Table) → ℕ → List SubscribeInfo → End × List Event
  agent_task zero command_loop peers tables n infos = (running, [])
  agent_task (suc fuel) command_loop peers tables n infos =
      let (held, infos', events) = reconnect (peers n) (command_loop n) (tables n) infos in
      let rest = agent_task fuel command_loop peers tables (n + 1) infos' in
      if is_success (command_loop n)
      then (finished, command_looped ∷ (socket_disconnect build.use_tls (peers n)).1)
      else if held
      then (rest.0, command_looped ∷ (events ++ rest.1))
      else (halted, command_looped ∷ events)

  -- `prvConnectToMQTTBroker`, with the status of `prvMQTTInit`.
  unfoldable pub connect_to_mqtt_broker : Peer → MqttStatus → Table → List SubscribeInfo → Outcome
  connect_to_mqtt_broker peer init_status table infos = connected_then peer infos (
      if is_success init_status
      then mqtt_connected_then peer true table infos []
      else (false, infos, []))
