-- ===== src/MqttAgentTask/Unsolicited.antt =====
-- Every publish is handled by its subscribers, or logged without a trace in memory.
use core_mqtt_agent_demos.Prelude.{
  ◌∙◌, ℕ, zero, suc, ◌+◌, ◌≡◌, ◌≢◌, refl, ap, ap₂, fun_ext, Bool, not, Option, none, some, List, [],
  ◌∷◌, length, if◌then◌else◌, arith,
}
use core_mqtt_agent_demos.Prelude.Memory.{Memory}
use core_mqtt_agent_demos.SubscriptionManager.{
  SubscriptionElement, Table, PublishInfo, max_subscriptions,
}
use core_mqtt_agent_demos.SubscriptionManager.Dispatch.{
  Answers, IsSilent, AllNamed, recipients, any, call_all, handle_incoming_publishes_lem,
}
use core_mqtt_agent_demos.MqttAgentTask.Publish.{
  store, c_string, log_unsolicited, offer_to_ota, incoming_publish_callback,
}

-- The bytes from an address on.
unfoldable pub bytes : Memory → ℕ → ℕ → List ℕ
bytes mem a zero = []
bytes mem a (suc n) = mem a ∷ bytes mem (a + 1) n

-- None of them is a terminator.
abbrev pub NoTerminator : Memory → ℕ → ℕ → Type 0
NoTerminator mem a zero = Unit
NoTerminator mem a (suc n) = (mem a ≢ 0) × NoTerminator mem (a + 1) n

store_back : (mem : Memory) (a byte : ℕ) → store (store mem a byte) a (mem a) ≡ mem
unfolding store
store_back mem a byte = fun_ext (λ b. ground arith)

store-ne : (mem : Memory) (a byte b : ℕ) → a ≢ b → store mem a byte b ≡ mem b
unfolding store
store-ne mem a byte b h = ground arith

c_string-end : (mem : Memory) (a b fuel : ℕ) → b ≡ a → c_string (store mem b 0) a (suc fuel) ≡ []
unfolding c_string store
c_string-end mem a b fuel h = ground arith

c_string-next :
    (mem : Memory) (a fuel byte : ℕ)
    → byte ≢ 0
    → mem a ≡ byte
    → c_string mem a (suc fuel) ≡ byte ∷ c_string mem (a + 1) fuel
unfolding c_string
c_string-next mem a fuel byte h e = ground arith

-- With a terminator stored behind them, the bytes are the string.
c_string-store :
    (mem : Memory) (n a : ℕ)
    → NoTerminator mem a n
    → c_string (store mem (a + n) 0) a (suc n) ≡ bytes mem a n
unfolding bytes
c_string-store mem zero a h = c_string-end mem a (a + 0) 0 (omega arith)
c_string-store mem (suc n) a h =
    let e : a + suc n ≡ a + 1 + n = omega arith in
    rw e (
      c_string-next (store mem (a + 1 + n) 0) a (suc n) (mem a) h.0
        (store-ne mem (a + 1 + n) 0 a (omega arith))
      ∙ ap (λ l. mem a ∷ l) (c_string-store mem n (a + 1) h.1))

-- Logging an unsolicited publish leaves the memory as it was, and the logged topic is all of the
-- topic of the publish, where that holds no terminator.
pub log_unsolicited_lem :
    (mem : Memory) (p : PublishInfo)
    → NoTerminator mem p.topic_name p.topic_name_length
    → log_unsolicited mem p ≡ (mem, bytes mem p.topic_name p.topic_name_length)
unfolding log_unsolicited
log_unsolicited_lem mem p h =
    ap₂ (λ m t. (m, t)) (store_back mem (p.topic_name + p.topic_name_length) 0)
      (c_string-store mem p.topic_name_length p.topic_name h)

module _ {S : Type 0} (table_of : S → Table) (call : ℕ → ℕ → PublishInfo → S → S)
    (match_topic : ℕ → ℕ → ℕ → ℕ → Option Bool) (memory_of : S → Memory)
    (with_memory : S → Memory → S) (answers : Answers match_topic) (silent : IsSilent match_topic)
    (keeps : (c x : ℕ) (p : PublishInfo) (s : S) → table_of (call c x p s) ≡ table_of s)
    (restored : (s : S) → with_memory s (memory_of s) ≡ s) where
  -- In a build without the OTA demo, on a table of the full length in which no element in use has a
  -- `NULL` filter, where no callback changes the table, `MQTT_MatchTopic` writes a result for a topic
  -- and a filter that are neither `NULL` nor empty, and none for a topic that is, and the topic holds
  -- no terminator: `prvIncomingPublishCallback` calls the callbacks of all elements whose filter
  -- matches, and logs nothing; or, if there is none, it changes nothing and logs the whole topic.
  pub incoming_publish_callback_lem :
      (p : PublishInfo) (s : S)
      → length (table_of s) ≡ max_subscriptions
      → AllNamed (table_of s)
      → NoTerminator (memory_of s) p.topic_name p.topic_name_length
      → incoming_publish_callback table_of call match_topic memory_of with_memory none p s ≡ (
          if any (recipients match_topic p (table_of s))
          then (call_all call p (recipients match_topic p (table_of s)) s, none)
          else (s, some (bytes (memory_of s) p.topic_name p.topic_name_length)))
  unfolding incoming_publish_callback offer_to_ota any call_all
  incoming_publish_callback_lem p s size named plain =
      rw
        (handle_incoming_publishes_lem table_of call match_topic answers silent keeps p s size
          named)
        (by_recipients (recipients match_topic p (table_of s)))
    where
      by_recipients :
          (es : List SubscriptionElement)
          → ◌≡◌ {A = S × Option (List ℕ)}
              (if not (any es)
                then (
                  with_memory
                      (call_all call p es s)
                      ((log_unsolicited (memory_of (call_all call p es s)) p).0),
                  some ((log_unsolicited (memory_of (call_all call p es s)) p).1),
                )
                else (call_all call p es s, none))
              (if any es
                then (call_all call p es s, none)
                else (s, some (bytes (memory_of s) p.topic_name p.topic_name_length)))
      by_recipients [] = rw (log_unsolicited_lem (memory_of s) p plain, restored)
      by_recipients (e ∷ es) = refl
