-- ===== src/ShadowDemo/Subscribing.antt =====
-- How the two shadow tasks subscribe: shadow_device_task.c and shadow_update_task.c.
use core_mqtt_agent_demos.Prelude.{
  ℕ, zero, suc, ◌+◌, Bool, true, false, Option, none, some, ◌==◌, if◌then◌else◌,
}
use core_mqtt_agent_demos.Prelude.Memory.{Memory}
use core_mqtt_agent_demos.SubscriptionManager.{SubscriptionElement, Table, add_subscription}

-- The topic filters of the shadow library for this thing, and the callbacks of a task, as the
-- elements that `addSubscription` is called for.
pub record Topics : Type 0 where
  pub update_delta : SubscriptionElement
  pub update_accepted : SubscriptionElement
  pub update_rejected : SubscriptionElement

-- A call of `addSubscription` behind the test of `xSuccess`.
unfoldable pub add_next : Memory → SubscriptionElement → Option Table × Bool → Option Table × Bool
add_next mem new (table, success) =
    let added = add_subscription mem table new in if success then added else (table, false)

-- `prvSubscribeCommandCallback` of the device task, with whether the return code is `MQTTSuccess`:
-- the list, and `xReturnStatus`.
unfoldable pub device_subscribed : Memory → Topics → Bool → Option Table → Option Table × Bool
device_subscribed mem topics success table =
    add_next mem topics.update_rejected
      (add_next mem topics.update_accepted (add_next mem topics.update_delta (table, success)))

-- The same of the update task, which has no callback for deltas.
unfoldable pub update_subscribed : Memory → Topics → Bool → Option Table → Option Table × Bool
update_subscribed mem topics success table =
    add_next mem topics.update_rejected (add_next mem topics.update_accepted (table, success))

-- The `do` loop of `prvSubscribeToShadowUpdateTopics` from the n-th call of `MQTTAgent_Subscribe` on,
-- with whether each is queued: how many calls there are, or `none` if the fuel runs out.
unfoldable pub subscribe_from : (ℕ → Bool) → ℕ → ℕ → Option ℕ
subscribe_from queued zero n = none
subscribe_from queued (suc fuel) n =
    let rest = subscribe_from queued fuel (n + 1) in if queued n then some (n + 1) else rest

-- How `prvSubscribeToShadowUpdateTopics` ends.
pub data SubscribeEnd : Type 0 where
  returned : Bool → SubscribeEnd
  assert_failed : SubscribeEnd

-- `prvSubscribeToShadowUpdateTopics`, with the notification value that the wait returns, and
-- `xReturnStatus` as the callback has left it.
unfoldable pub subscribe_to_topics : (ℕ → Bool) → ℕ → ℕ → Bool → Option SubscribeEnd
subscribe_to_topics queued fuel notification status = elim (subscribe_from queued fuel 0) [
  | none ↦ none
  | some calls ↦ some (
      if notification == 0
      then assert_failed
      else (if status then returned true else returned false))
]
