-- ===== src/MqttAgentTask/Resubscribe.antt =====
-- Which topic filters are subscribed again, and which are given up.
use core_mqtt_agent_demos.Prelude.{◌≤◌, List, [], ◌∷◌, length, ltb, ◌==◌, if◌then◌else◌, arith}
use core_mqtt_agent_demos.SubscriptionManager.{Table}
use core_mqtt_agent_demos.MqttAgentTask.Environment.{SubscribeInfo, Event, subscribed}
use core_mqtt_agent_demos.MqttAgentTask.Session.{to_info}

-- The topic filters of the elements in use, in the order of the table.
unfoldable pub active_infos : Table → List SubscribeInfo
active_infos [] = []
active_infos (e ∷ es) =
    let rest = active_infos es in if e.filter_string_length == 0 then rest else to_info e ∷ rest

length-active_infos : (table : Table) → length (active_infos table) ≤ length table
unfolding active_infos
length-active_infos [] = omega arith
length-active_infos (e ∷ es) = ground (arith, length-active_infos es)

-- One SUBSCRIBE for all the topic filters of the elements in use, if there are any.
pub resubscription : Table → List Event
resubscription table =
    if ltb 0 (length (active_infos table)) then subscribed (active_infos table) ∷ [] else []
