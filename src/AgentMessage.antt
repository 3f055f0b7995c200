-- ===== src/AgentMessage.antt =====
-- lib/FreeRTOS/mqtt-agent-interface/freertos_agent_message.c: commands go through a FreeRTOS queue.
use core_mqtt_agent_demos.Prelude.{
  ℕ, ◌≡◌, Bool, true, false, Option, none, some, List, [], ◌∷◌, ◌++◌, ◌<◌, length,
}

-- The queue of FreeRTOS (queue.h), which the repository only calls. A handle stands for the state
-- of its queue, and an item is the address that is copied in. A call that blocks takes effect when
-- it ends, so what other tasks do meanwhile comes before it.
pub record QueueApi : Type 1 where
  pub Handle : Type 0
  -- `xQueueCreateStatic`, `none` for `NULL`
  pub create_static : ℕ → Option Handle
  -- `xQueueSendToBack` with its ticks to wait; true for `pdPASS`
  pub send_to_back : Handle → ℕ → ℕ → Handle × Bool
  -- `xQueueReceive` with its ticks to wait; the item for `pdPASS`
  pub receive : Handle → ℕ → Handle × Option ℕ
  pub contents : Handle → List ℕ
  pub capacity : Handle → ℕ
  -- Static storage is given, so the creation succeeds with an empty queue.
  pub create_static_lem :
      (n : ℕ) → (h : Handle) × (create_static n ≡ some h) × (contents h ≡ []) × (capacity h ≡ n)
  -- A queue with room takes the item at its back.
  pub send_room :
      (h : Handle) (item ticks : ℕ)
      → length (contents h) < capacity h
      → ((send_to_back h item ticks).1 ≡ true)
        × (contents (send_to_back h item ticks).0 ≡ contents h ++ (item ∷ []))
        × (capacity (send_to_back h item ticks).0 ≡ capacity h)
  -- The item at the front is received, and removed.
  pub receive_front :
      (h : Handle) (ticks item : ℕ) (rest : List ℕ)
      → contents h ≡ item ∷ rest
      → ((receive h ticks).1 ≡ some item)
        × (contents (receive h ticks).0 ≡ rest)
        × (capacity (receive h ticks).0 ≡ capacity h)
  -- Nothing is received from a queue that is still empty when the wait ends.
  pub receive_empty :
      (h : Handle) (ticks : ℕ)
      → contents h ≡ []
      → ((receive h ticks).1 ≡ none)
        × (contents (receive h ticks).0 ≡ [])
        × (capacity (receive h ticks).0 ≡ capacity h)

-- `ms_to_ticks` is `pdMS_TO_TICKS` of FreeRTOS.
module _ (api : QueueApi) (ms_to_ticks : ℕ → ℕ) where
  open api use {Handle, send_to_back, receive}

  -- `Agent_MessageSend`. The first two arguments are `none` for a `NULL` pointer. A
  -- `MQTTAgentMessageContext_t` holds the queue alone.
  unfoldable pub message_send : Option Handle → Option ℕ → ℕ → Option Handle × Bool
  message_send none command block_time_ms = (none, false)
  message_send (some h) none block_time_ms = (some h, false)
  message_send (some h) (some command) block_time_ms =
      let (h', status) = send_to_back h command (ms_to_ticks block_time_ms) in (some h', status)

  -- `Agent_MessageReceive`. `has_place` is false for a `NULL` pointer to the received command. The
  -- result is the command that is stored there, or `none` for `false` with nothing stored.
  unfoldable pub message_receive : Option Handle → Bool → ℕ → Option Handle × Option ℕ
  message_receive none has_place block_time_ms = (none, none)
  message_receive (some h) false block_time_ms = (some h, none)
  message_receive (some h) true block_time_ms =
      let (h', received) = receive h (ms_to_ticks block_time_ms) in (some h', received)
