-- ===== src/MqttAgentTask/Publish.antt =====
-- `prvIncomingPublishCallback` and `prvMQTTClientSocketWakeupCallback` of source/mqtt-agent-task.c.
use core_mqtt_agent_demos.Prelude.{
  ℕ, zero, suc, ◌+◌, Bool, true, not, Option, none, some, List, [], ◌∷◌, if◌then◌else◌, ◌==◌, ltb,
  ◌&&◌,
}
use core_mqtt_agent_demos.Prelude.Memory.{Memory}
use core_mqtt_agent_demos.SubscriptionManager.{Table, PublishInfo, handle_incoming_publishes}

-- A byte stored at an address.
unfoldable pub store : Memory → ℕ → ℕ → Memory
store mem a byte b = if a == b then byte else mem b

-- What `%s` prints from an address: the bytes up to a terminator. The fuel is the distance to one.
unfoldable pub c_string : Memory → ℕ → ℕ → List ℕ
c_string mem a zero = []
c_string mem a (suc fuel) =
    let rest = c_string mem (a + 1) fuel in if mem a == 0 then [] else mem a ∷ rest

-- The warning on an unsolicited publish: the memory, and the topic that is logged. The byte behind
-- the topic is overwritten by a terminator, and restored.
unfoldable pub log_unsolicited : Memory → PublishInfo → Memory × List ℕ
log_unsolicited mem p =
    let location = p.topic_name + p.topic_name_length in
    let original = mem location in
    let terminated = store mem location 0 in
    (store terminated location original, c_string terminated p.topic_name (suc p.topic_name_length))

-- `prvIncomingPublishCallback`, over a state `S` that the callbacks of the tasks may change. The OTA
-- demo is a parameter, `none` where the build leaves it out. The result is the state, and the topic
-- that is logged for a publish that nobody handled.
module _ {S : Type 0} (table_of : S → Table) (call : ℕ → ℕ → PublishInfo → S → S)
    (match_topic : ℕ → ℕ → ℕ → ℕ → Option Bool) (memory_of : S → Memory)
    (with_memory : S → Memory → S) (ota_process_message : Option (PublishInfo → S → S × Bool)) where
  unfoldable pub offer_to_ota : PublishInfo → S × Bool → S × Bool
  offer_to_ota p (s, handled) = elim ota_process_message [
    | none ↦ (s, handled)
    | some ota ↦ if not handled then ota p s else (s, handled)
  ]

  unfoldable pub incoming_publish_callback : PublishInfo → S → S × Option (List ℕ)
  incoming_publish_callback p s =
      let (s', handled) =
        offer_to_ota p (handle_incoming_publishes table_of call match_topic true (some p) s) in
      let (mem', topic) = log_unsolicited (memory_of s') p in
      if not handled then (with_memory s' mem', some topic) else (s', none)

-- `prvMQTTClientSocketWakeupCallback`: whether `MQTTAgent_ProcessLoop` is called, for the number of
-- messages in the command queue and the number of bytes received.
unfoldable pub wakes_agent : ℕ → ℕ → Bool
wakes_agent messages_waiting bytes_received = messages_waiting == 0 && ltb 0 bytes_received
