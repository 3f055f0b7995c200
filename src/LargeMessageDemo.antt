-- ===== src/LargeMessageDemo.antt =====
-- source/demo-tasks/large_message_sub_pub_demo.c: the payload, the callback of its echo, and the loop
-- of `prvLargeMessageSubscribePublishTask`.
pub mod Echoes
mod Tests
use core_mqtt_agent_demos.Prelude.{
  ℕ, zero, suc, ◌+◌, ◌-◌, ◌/◌, ◌%◌, ◌^◌, Bool, true, false, ◌&&◌, Option, none, some, List, [], ◌∷◌,
  ◌==◌, ltb, leb, if◌then◌else◌, length, replicate,
}
use core_mqtt_agent_demos.Prelude.Memory.{Memory}
use core_mqtt_agent_demos.SubscriptionManager.{SubscriptionElement, Table, add_subscription}
use core_mqtt_agent_demos.MetricsCollector.{memcpy}

-- The loop of `prvCreateMQTTPayload` from index `x`, with the size of the buffer and the rounds left.
unfoldable pub fill_from : ℕ → ℕ → ℕ → List ℕ
fill_from size x zero = []
fill_from size x (suc left) =
    (if ltb x (size / 2) then b'a' else b'b') ∷ fill_from size (x + 1) left

-- `prvCreateMQTTPayload`
unfoldable pub create_payload : ℕ → List ℕ
create_payload size = fill_from size 0 size

-- `memcmp( a, b, n ) == 0` on two arrays of that size.
unfoldable pub memcmp_eq : List ℕ → List ℕ → Bool
memcmp_eq [] [] = true
memcmp_eq [] (b ∷ ys) = false
memcmp_eq (a ∷ xs) [] = false
memcmp_eq (a ∷ xs) (b ∷ ys) = let rest = memcmp_eq xs ys in if a == b then rest else false

-- `pcReceivedPublishPayload`, the notification value of the task, and the two counts.
pub record Task : Type 0 where
  pub received : List ℕ
  pub notifications : ℕ
  pub passes : ℕ
  pub failures : ℕ

-- The payloads of the publishes that reach the callback in a round: up to the return of
-- `ulTaskNotifyTake`, behind that and up to the comparison, and up to the next round.
pub record Round : Type 0 where
  pub before_take : List (List ℕ)
  pub before_comparison : List (List ℕ)
  pub before_next : List (List ℕ)

-- What follows, unless an assert has failed.
abbrev pub and_then : Option Task → (Task → Option Task) → Option Task
and_then none next = none
and_then (some s) next = next s

-- `max_length` is `mqttexampleMAX_PAYLOAD_LENGTH`.
module _ (max_length : ℕ) where
  -- `prvIncomingPublishCallback`, `none` if its assert fails.
  unfoldable pub incoming_publish : List ℕ → Task → Option Task
  incoming_publish payload s =
      if leb (length payload) max_length
      then some (record s {
        received = memcpy s.received payload (length payload);
        notifications = (s.notifications + 1) % 2 ^ 32;
      })
      else none

  -- The comparison behind the wait, for the notification value that this returns.
  unfoldable pub count_echo : ℕ → Task → Task
  count_echo value s =
      let same = memcmp_eq (create_payload max_length) s.received in
      if value == 1
      then (if same then record s { passes = (s.passes + 1) % 2 ^ 32 } else s)
      else record s { failures = (s.failures + 1) % 2 ^ 32 }

  unfoldable pub receive_all : List (List ℕ) → Task → Option Task
  receive_all [] s = some s
  receive_all (payload ∷ payloads) s = and_then (incoming_publish payload s) (receive_all payloads)

  -- A round, where the publish is queued, as is asserted.
  unfoldable pub echo_round : Round → Task → Option Task
  echo_round r s =
      and_then (receive_all r.before_take (record s { received = replicate max_length 0 }))
        (λ waited.
          and_then
            (receive_all r.before_comparison
              (record waited { notifications = waited.notifications - 1 }))
            (λ taken. receive_all r.before_next (count_echo waited.notifications taken)))

  unfoldable pub echo_rounds : List Round → Task → Option Task
  echo_rounds [] s = some s
  echo_rounds (r ∷ rounds) s = and_then (echo_round r s) (echo_rounds rounds)

-- `prvSubscribeCommandCallback`, with whether the return code is `MQTTSuccess`: the list, and whether
-- `xReturnStatus` is `MQTTSuccess`. The result of `addSubscription` is only logged.
unfoldable pub subscribe_callback :
    Memory → SubscriptionElement → Bool → Option Table → Option Table × Bool
subscribe_callback mem new success table =
    ((if success then (add_subscription mem table new).0 else table), success)
