-- ===== src/SubPubDemo.antt =====
-- source/demo-tasks/simple_sub_pub_demo.c: the callbacks, and the loop of
-- `prvSimpleSubscribePublishTask`.
pub mod Outcomes
mod Tests
use core_mqtt_agent_demos.Prelude.{
  ℕ, zero, suc, ◌+◌, ◌-◌, ◌%◌, ◌^◌, Bool, true, false, not, Option, none, some, List, [], ◌∷◌, ◌==◌,
  if◌then◌else◌,
}
use core_mqtt_agent_demos.Prelude.Memory.{Memory}
use core_mqtt_agent_demos.SubscriptionManager.{SubscriptionElement, Table, add_subscription}
use core_mqtt_agent_demos.MetricsCollector.{memcpy}
use core_mqtt_agent_demos.Prelude.{set, ltb}

-- `mqttexampleSTRING_BUFFER_LENGTH`
abbrev pub string_buffer_length : ℕ
string_buffer_length = 100

-- `cTerminatedString` behind `prvIncomingPublishCallback`, for a payload and its length.
unfoldable pub terminated_string : List ℕ → List ℕ → ℕ → List ℕ
terminated_string buffer payload payload_length =
    if ltb payload_length string_buffer_length
    then set (memcpy buffer payload payload_length) payload_length 0
    else set (memcpy buffer payload string_buffer_length) (string_buffer_length - 1) 0

-- The list behind `prvSubscribeCommandCallback`, with whether the return code is `MQTTSuccess`. The
-- result of `addSubscription` is only logged.
unfoldable pub subscribe_completed :
    Memory → SubscriptionElement → Bool → Option Table → Option Table
subscribe_completed mem new success table =
    if success then (add_subscription mem table new).0 else table

-- The task notification of the task: whether it is pending, and its value.
pub record Notification : Type 0 where
  pub pending : Bool
  pub notified_value : ℕ

-- `xTaskNotify` with `eSetValueWithOverwrite`.
abbrev pub notify : ℕ → Notification
notify value = record { pending = true; notified_value = value }

-- `xTaskNotifyStateClear`
abbrev pub state_clear : Notification → Notification
state_clear n = record n { pending = false }

-- The variables of the loop: the notification, `xCommandContext.ulNotificationValue`,
-- `ulValueToNotify`, and the pass and the fail count of the task.
pub record Publisher : Type 0 where
  pub notification : Notification
  pub context_value : ℕ
  pub value_to_notify : ℕ
  pub pass_count : ℕ
  pub fail_count : ℕ

-- `prvPublishCommandCallback`. There is one context, so that it is the same for each publish that
-- may be completed.
unfoldable pub publish_completed : Publisher → Publisher
publish_completed s = record s { notification = notify s.context_value }

-- When that callback runs in a round: between the set-up of the context and the wait, during the
-- wait, if that waits, and behind it.
pub record Round : Type 0 where
  pub completed_first : Bool
  pub completed_waiting : Bool
  pub completed_after : Bool

-- `~ulValueToNotify`
abbrev pub complement : ℕ → ℕ
complement n = 2 ^ 32 - 1 - n

-- The comparison behind the wait, for `ulNotification`.
unfoldable pub count_round : ℕ → Publisher → Publisher
count_round notification s =
    let passes = notification == s.value_to_notify in
    record s {
      pass_count = if passes then (s.pass_count + 1) % 2 ^ 32 else s.pass_count;
      fail_count = if passes then s.fail_count else (s.fail_count + 1) % 2 ^ 32;
    }

-- `on_time_out` is what `ulNotification` holds when `xTaskNotifyWait` has timed out, from what it
-- held before, and the value of the notification.
module _ (on_time_out : ℕ → ℕ → ℕ) where
  -- `prvWaitForCommandAcknowledgment`, with whether the callback runs while it waits: `ulNotification`,
  -- and the notification behind it.
  unfoldable pub wait_for_acknowledgment : Bool → ℕ → Publisher → ℕ × Notification
  wait_for_acknowledgment completed before s =
      let late = notify s.context_value in
      if s.notification.pending
      then (s.notification.notified_value, state_clear s.notification)
      else (if completed
          then (late.notified_value, state_clear late)
          else (on_time_out before s.notification.notified_value, s.notification))

  -- A round of the loop, where `MQTTAgent_Publish` returns `MQTTSuccess`, as is asserted.
  unfoldable pub publish_round : Round → Publisher → Publisher
  publish_round r s =
      let ready = record s { context_value = s.value_to_notify } in
      let sent = if r.completed_first then publish_completed ready else ready in
      let (notification, left) =
        wait_for_acknowledgment r.completed_waiting (complement s.value_to_notify) sent in
      let counted = count_round notification (record sent { notification = left }) in
      let slept = if r.completed_after then publish_completed counted else counted in
      record slept { value_to_notify = s.value_to_notify + 1 }

  unfoldable pub publish_rounds : List Round → Publisher → Publisher
  publish_rounds [] s = s
  publish_rounds (r ∷ rounds) s = publish_rounds rounds (publish_round r s)
