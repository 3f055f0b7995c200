-- ===== src/OtaDemo/Commands.antt =====
-- The commands that the OTA agent sends to the MQTT agent: `prvMQTTSubscribe`, `prvMQTTPublish` and
-- `prvMQTTUnsubscribe`, with `prvCommandCallback`.
use core_mqtt_agent_demos.Prelude.{
  ℕ, Bool, true, false, not, ◌||◌, Option, none, some, ◌==◌, if◌then◌else◌,
}
use core_mqtt_agent_demos.Prelude.Memory.{null}

-- `OtaMqttStatus_t`, as far as it is returned.
pub data OtaMqttStatus : Type 0 where
  success publish_failed subscribe_failed unsubscribe_failed : OtaMqttStatus

-- The context of a command: whether its `xReturnStatus` is `MQTTSuccess`. It is zeroed, and
-- `MQTTSuccess` is 0.
abbrev pub zeroed_context : Bool
zeroed_context = true

-- `prvCommandCallback` for the command of this context, with whether the return code is
-- `MQTTSuccess`; it notifies the task too.
unfoldable pub command_callback : Bool → Bool → Bool
command_callback return_status ok = ok

-- How the wait for the notification of the task ends: not in time; by the callback of this command,
-- with whether it succeeded; or by the callback of an earlier one, whose wait was over before it.
pub data Wake : Type 0 where
  timed_out : Wake
  completed : Bool → Wake
  late_callback : Wake

-- Whether `mqttStatus` is `MQTTSuccess` behind the wait.
unfoldable pub status_after : Wake → Bool
status_after timed_out = false
status_after (completed ok) = command_callback zeroed_context ok
status_after late_callback = zeroed_context

-- The body that the three functions share, with whether the command was queued.
unfoldable pub send_command : OtaMqttStatus → Bool → Wake → OtaMqttStatus
send_command failure queued wake =
    let mqtt_success = if queued then status_after wake else false in
    if not mqtt_success then failure else success

-- `prvMQTTSubscribe` and `prvMQTTUnsubscribe`, `none` if an assert fails.
unfoldable pub mqtt_subscribe : ℕ → ℕ → Bool → Wake → Option OtaMqttStatus
mqtt_subscribe topic_filter filter_length queued wake =
    if topic_filter == null || filter_length == 0
    then none
    else some (send_command subscribe_failed queued wake)

unfoldable pub mqtt_unsubscribe : ℕ → ℕ → Bool → Wake → Option OtaMqttStatus
mqtt_unsubscribe topic_filter filter_length queued wake =
    if topic_filter == null || filter_length == 0
    then none
    else some (send_command unsubscribe_failed queued wake)

-- `prvMQTTPublish`
unfoldable pub mqtt_publish : Bool → Wake → OtaMqttStatus
mqtt_publish queued wake = send_command publish_failed queued wake
