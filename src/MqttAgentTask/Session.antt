-- ===== src/MqttAgentTask/Session.antt =====
-- `prvMQTTConnect`, `prvHandleResubscribe` and `prvSubscriptionCommandCallback` of
-- source/mqtt-agent-task.c.
use core_mqtt_agent_demos.Prelude.{
  ℕ, zero, suc, ◌+◌, Bool, not, ◌&&◌, Option, none, some, List, [], ◌∷◌, ltb, ◌==◌, if◌then◌else◌,
  set, take,
}
use core_mqtt_agent_demos.Prelude.Memory.{Memory}
use core_mqtt_agent_demos.SubscriptionManager.{
  SubscriptionElement, Table, max_subscriptions, element_at, remove_subscription,
}
use core_mqtt_agent_demos.MqttAgentTask.Environment.{
  MqttStatus, mqtt_success, is_success, SubscribeInfo, Event, mqtt_connected, session_resumed,
  subscribed, Peer,
}

-- `MQTTQoS1`
abbrev pub qos1 : ℕ
qos1 = 1

-- What the loop of `prvHandleResubscribe` stores for an element.
unfoldable pub to_info : SubscriptionElement → SubscribeInfo
to_info e = record {
  topic_filter = e.subscription_filter_string;
  topic_filter_length = e.filter_string_length;
  qos = qos1;
}

-- The loop, from index `i` with `rounds` left: the static array `xSubInfo` and
-- `usNumSubscriptions`.
unfoldable pub collect : Table → List SubscribeInfo → ℕ → ℕ → ℕ → List SubscribeInfo × ℕ
collect table infos num i zero = (infos, num)
collect table infos num i (suc rounds) =
    let e = element_at table i in
    let stored = collect table (set infos num (to_info e)) (num + 1) (i + 1) rounds in
    let skipped = collect table infos num (i + 1) rounds in
    if not (e.filter_string_length == 0) then stored else skipped

-- `prvHandleResubscribe`: the status, the static array, and the calls.
unfoldable pub handle_resubscribe :
    Peer → Table → List SubscribeInfo → MqttStatus × List SubscribeInfo × List Event
handle_resubscribe peer table infos =
    let (infos', num) = collect table infos 0 0 max_subscriptions in
    if ltb 0 num
    then (peer.subscribes (take num infos'), infos', subscribed (take num infos') ∷ [])
    else (mqtt_success, infos', [])

-- `prvMQTTConnect`, likewise.
unfoldable pub mqtt_connect :
    Peer → Bool → Table → List SubscribeInfo → MqttStatus × List SubscribeInfo × List Event
mqtt_connect peer clean_session table infos =
    let (status, session_present) = peer.mqtt_connects clean_session in
    let status' = peer.resumes session_present in
    let (status'', infos', events) = handle_resubscribe peer table infos in
    if is_success status && not clean_session
    then (if is_success status' && not session_present
        then (
          status'',
          infos',
          mqtt_connected clean_session (is_success status)
              ∷ (session_resumed session_present ∷ events),
        )
        else (
          status',
          infos,
          mqtt_connected clean_session (is_success status) ∷ (session_resumed session_present ∷ []),
        ))
    else (status, infos, mqtt_connected clean_session (is_success status) ∷ [])

-- The table behind the pointer after `removeSubscription`, which keeps the pointer.
abbrev table_after : Table → Option Table → Table
table_after table none = table
table_after table (some table') = table'

-- The loop of `prvSubscriptionCommandCallback`. `pSubackCodes` is `none` for `NULL`, and otherwise says
-- of each code whether it is `MQTTSubAckFailure`. The result is `none` where the loop reads through
-- `NULL` or behind the codes.
unfoldable pub remove_failed :
    Memory → Option (List Bool) → List SubscribeInfo → Table → Option Table
remove_failed mem codes [] table = some table
remove_failed mem none (info ∷ infos) table = none
remove_failed mem (some []) (info ∷ infos) table = none
remove_failed mem (some (failed ∷ codes)) (info ∷ infos) table =
    remove_failed mem (some codes) infos (
      if failed
      then table_after table
          (remove_subscription mem (some table) info.topic_filter info.topic_filter_length)
      else table)

-- `prvSubscriptionCommandCallback`. Its `configASSERT( pdTRUE )` never fails.
unfoldable pub subscription_command_callback :
    Memory → MqttStatus → Option (List Bool) → List SubscribeInfo → Table → Option Table
subscription_command_callback mem return_code codes infos table =
    if is_success return_code then some table else remove_failed mem codes infos table
