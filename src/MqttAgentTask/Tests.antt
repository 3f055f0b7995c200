-- ===== src/MqttAgentTask/Tests.antt =====
-- Runs of the agent task, and its theorems at such inputs.
use core_mqtt_agent_demos.Prelude.{
  ℕ, zero, suc, ◌≡◌, ◌≤◌, refl, Bool, true, false, Option, none, some, List, [], ◌∷◌, if◌then◌else◌,
  length, get_or, set, replicate, ◌==◌, ◌||◌, inl, inr, arith,
}
use core_mqtt_agent_demos.Prelude.Memory.{Memory, null}
use core_mqtt_agent_demos.SubscriptionManager.{
  Table, SubscriptionElement, PublishInfo, empty_element, element_at, max_subscriptions,
}
use core_mqtt_agent_demos.SubscriptionManager.Named.{set-AllNamed, replicate-AllNamed}
use core_mqtt_agent_demos.SubscriptionManager.Dispatch.{
  Answers, IsSilent, recipients, is_recipient, any,
}
use core_mqtt_agent_demos.MqttAgentTask.Environment.{
  BackoffApi, BackoffStatus, backoff_success, retries_exhausted, MqttStatus, mqtt_success,
  mqtt_bad_parameter, mqtt_other, SubscribeInfo, Event, attempted, delayed, options_set,
  mqtt_connected, session_resumed, subscribed, Peer,
}
use core_mqtt_agent_demos.SubscriptionManager.History.{zeroed}
use core_mqtt_agent_demos.MqttAgentTask.Connect.{
  socket_connect, connect_from, socket_disconnect, retry_max_attempts,
}
use core_mqtt_agent_demos.MqttAgentTask.Retry.{
  attempts, attempts_of, delays_of, options_of, succeeds, socket_connect-attempts,
}
use core_mqtt_agent_demos.MqttAgentTask.Session.{
  to_info, collect, handle_resubscribe, mqtt_connect, remove_failed, subscription_command_callback,
}
use core_mqtt_agent_demos.MqttAgentTask.Agent.{
  finished, Build, connected_then, mqtt_connected_then, reconnect, agent_task,
  connect_to_mqtt_broker,
}
use core_mqtt_agent_demos.MqttAgentTask.Link.{closed, Keeps}
use core_mqtt_agent_demos.MqttAgentTask.Order.{connect_to_mqtt_broker-Keeps}
use core_mqtt_agent_demos.MqttAgentTask.Recovery.{Recovers, agent_task-finished}
use core_mqtt_agent_demos.MqttAgentTask.Rounds.{
  InOrder, agent_task-InOrder, resumes_ota, agent_task-resumes_ota,
}
use core_mqtt_agent_demos.MqttAgentTask.Suback.{is_rejected, subscription_command_callback_lem}
use core_mqtt_agent_demos.MqttAgentTask.Publish.{incoming_publish_callback}
use core_mqtt_agent_demos.MqttAgentTask.Unsolicited.{bytes, incoming_publish_callback_lem}

-- A backoff whose context is the number of attempts left, and whose delay is the random number.
next_counted : ℕ → ℕ → ℕ × BackoffStatus × ℕ
next_counted zero random = (zero, retries_exhausted, 0)
next_counted (suc left) random = (left, backoff_success, random)

next_counted_success :
    (b random left : ℕ)
    → b ≡ suc left
    → ((next_counted b random).1 ≡ backoff_success) × ((next_counted b random).0 ≡ left)
unfolding next_counted
next_counted_success zero random left h = absurd cc
next_counted_success (suc b) random left h = (refl, omega arith)

next_counted_exhausted : (b random : ℕ) → b ≡ 0 → (next_counted b random).1 ≡ retries_exhausted
unfolding next_counted
next_counted_exhausted zero random h = refl
next_counted_exhausted (suc b) random h = absurd cc

abbrev counted_backoff : BackoffApi
counted_backoff = record {
  Context = ℕ;
  initialize = λ base max_delay attempts. attempts;
  next = next_counted;
  attempts_left = λ b. b;
  initialize_attempts = λ base max_delay attempts. refl;
  next_success = next_counted_success;
  next_exhausted = next_counted_exhausted;
}

-- A peer that takes the connection at the third attempt, and whose broker has lost the session.
abbrev peer : Peer
peer = record {
  connects = λ n. n == 2;
  random = λ n. 500;
  closes = true;
  mqtt_connects = λ clean. (mqtt_success, false);
  resumes = λ present. mqtt_success;
  subscribes = λ infos. mqtt_success;
}

-- "a" at address 1, and "b" at 3.
abbrev memory : Memory
memory a = get_or (0 ∷ b'a' ∷ 0 ∷ b'b' ∷ 0 ∷ []) a 0

abbrev element : ℕ → SubscriptionElement
element filter = record {
  incoming_publish_callback = 100;
  incoming_publish_callback_context = 7;
  filter_string_length = 1;
  subscription_filter_string = filter;
}

abbrev table : Table
table = set (set zeroed 1 (element 1)) 4 (element 3)

abbrev info : ℕ → SubscribeInfo
info filter = record { topic_filter = filter; topic_filter_length = 1; qos = 1 }

abbrev no_infos : List SubscribeInfo
no_infos = replicate 10 (record { topic_filter = 0; topic_filter_length = 0; qos = 0 })

connect_third :
    socket_connect counted_backoff peer
    ≡ some (
      true,
      attempted false
          ∷ (delayed 500
              ∷ (attempted false ∷ (delayed 500 ∷ (attempted true ∷ (options_set ∷ []))))),
    )
unfolding socket_connect connect_from next_counted
connect_third = refl

connect_lost_session :
    (mqtt_connect peer false table no_infos).2
    ≡ mqtt_connected false true
      ∷ (session_resumed false ∷ (subscribed (info 1 ∷ (info 3 ∷ [])) ∷ []))
unfolding mqtt_connect handle_resubscribe collect to_info
connect_lost_session = refl

-- The command loop fails once, and then ends.
abbrev statuses : ℕ → MqttStatus
statuses n = if n == 0 then mqtt_bad_parameter else mqtt_success

abbrev build : Build
build = record { use_tls = true; ota_demo = true }

task_twice :
    (agent_task counted_backoff build 2 statuses (λ n. peer) (λ n. table) 0 no_infos).0 ≡ finished
unfolding agent_task reconnect connected_then mqtt_connected_then socket_connect connect_from
    next_counted socket_disconnect mqtt_connect handle_resubscribe collect
task_twice = refl

socket_connect-attempts_example :
    (events : List Event) × (socket_connect counted_backoff peer
      ≡ some (succeeds (attempts peer 0 retry_max_attempts), events))
    × (attempts_of events ≡ attempts peer 0 retry_max_attempts)
    × (length (attempts_of events) ≤ 6)
    × (suc (delays_of events) ≡ length (attempts_of events))
    × (options_of events ≡ (if succeeds (attempts_of events) then 1 else 0))
socket_connect-attempts_example = socket_connect-attempts counted_backoff peer

connect_to_mqtt_broker-Keeps_example :
    Keeps closed (connect_to_mqtt_broker counted_backoff build peer mqtt_success table no_infos)
connect_to_mqtt_broker-Keeps_example =
    connect_to_mqtt_broker-Keeps counted_backoff build peer mqtt_success table no_infos

agent_task-InOrder_example :
    InOrder (agent_task counted_backoff build 2 statuses (λ n. peer) (λ n. table) 0 no_infos)
agent_task-InOrder_example =
    agent_task-InOrder counted_backoff build 2 statuses (λ n. peer) (λ n. table) 0 no_infos

peer-Recovers : Recovers peer
unfolding attempts succeeds
peer-Recovers = record {
  closing = refl;
  connecting = refl;
  accepted = refl;
  resumed = λ present. refl;
  subscribing = λ infos. refl;
}

agent_task-finished_example :
    (agent_task counted_backoff build 2 statuses (λ n. peer) (λ n. table) 0 no_infos).0 ≡ finished
agent_task-finished_example =
    agent_task-finished counted_backoff build 1 statuses (λ n. peer) (λ n. table) 0 no_infos
      (λ i. peer-Recovers) refl

agent_task-resumes_ota_example :
    resumes_ota (agent_task counted_backoff build 2 statuses (λ n. peer) (λ n. table) 0 no_infos).1
    ≡ false
agent_task-resumes_ota_example =
    agent_task-resumes_ota counted_backoff build 2 statuses (λ n. peer) (λ n. table) 0 no_infos

-- The server has refused the subscription.
abbrev server_refused : MqttStatus
server_refused = mqtt_other 7

-- The first topic filter is rejected, the second is not.
subscription_command_callback_lem_example :
    (table' : Table) × (subscription_command_callback memory server_refused
        (some (true ∷ (false ∷ [])))
        (info 1 ∷ (info 3 ∷ []))
        table
      ≡ some table')
    × (length table' ≡ max_subscriptions)
    × ((j : ℕ)
        → element_at table' j ≡ (
            if is_rejected memory
              (true ∷ (false ∷ []))
              (info 1 ∷ (info 3 ∷ []))
              (element_at table j)
            then empty_element
            else element_at table j))
subscription_command_callback_lem_example =
    subscription_command_callback_lem memory server_refused (some (true ∷ (false ∷ [])))
      (info 1 ∷ (info 3 ∷ [])) table refl
      ((omega arith, omega arith), ((omega arith, omega arith), tt)) refl

-- A SUBSCRIBE that fails without a SUBACK.
without_suback :
    subscription_command_callback memory mqtt_bad_parameter none (info 1 ∷ []) table ≡ none
unfolding subscription_command_callback remove_failed
without_suback = refl

-- The state: the memory, the table, and the contexts with which callbacks were called.
abbrev State : Type 0
State = Memory × Table × List ℕ

abbrev log_call : ℕ → ℕ → PublishInfo → State → State
log_call callback context p (mem, t, log) = (mem, t, context ∷ log)

-- The filter "a" matches nothing else.
abbrev match_first : ℕ → ℕ → ℕ → ℕ → Option Bool
match_first topic topic_length filter filter_length =
    if (topic == null || topic_length == 0) || (filter == null || filter_length == 0)
    then none
    else some (topic == filter)

match_first-Answers : Answers match_first
match_first-Answers a b c d h i j k = ground arith

match_first-IsSilent : IsSilent match_first
match_first-IsSilent a b c d (inl h) = ground arith
match_first-IsSilent a b c d (inr h) = ground arith

abbrev with_memory : State → Memory → State
with_memory (mem, t, log) mem' = (mem', t, log)

-- A publish to a topic that has no subscription.
abbrev unsolicited : PublishInfo
unsolicited = record { topic_name = 3; topic_name_length = 1 }

abbrev one_subscription : Table
one_subscription = set zeroed 1 (element 1)

incoming_publish_callback_lem_example :
    incoming_publish_callback
      (λ (s : State). s.1)
      log_call
      match_first
      (λ s. s.0)
      with_memory
      none
      unsolicited
      (memory, one_subscription, [])
    ≡ ((memory, one_subscription, []), some (b'b' ∷ []))
unfolding recipients is_recipient any bytes
incoming_publish_callback_lem_example =
    incoming_publish_callback_lem (λ (s : State). s.1) log_call match_first (λ s. s.0) with_memory
      match_first-Answers match_first-IsSilent (λ c x p s. refl) (λ s. refl) unsolicited
      (memory, one_subscription, []) refl
      (set-AllNamed zeroed 1 (element 1) (replicate-AllNamed max_subscriptions) (inr (omega arith)))
      (omega arith, tt)
