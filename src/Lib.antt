-- ===== src/Lib.antt =====
-- A model of the logic that the demos of coreMQTT-Agent share: how subscriptions are kept and
-- publishes are dispatched, how the commands of the agent are pooled, how the agent task keeps its
-- connection, how the transports open and close theirs, how the Device Defender demo collects metrics
-- and builds its report, how the OTA demo takes incoming publishes, how the Device Shadow demo keeps
-- a state in step with its shadow, and how the simple demo and the large message demo count their
-- publishes.
--
-- The parts, and the code that each is about:
--
-- SubscriptionManager: source/subscription-manager/subscription_manager.c. The list is a list of
-- 10 elements over a memory of bytes, since two filters are compared by `strncmp`. `scan` and
-- `store_available` are the loop of `addSubscription` and the write behind it; `remove_from` is
-- the loop of `removeSubscription`; `dispatch_from` is the loop of `handleIncomingPublishes`,
-- over a state that the callbacks may change.
-- AgentMessage and CommandPool: lib/FreeRTOS/mqtt-agent-interface. `QueueApi` is what the code
-- relies on of a FreeRTOS queue. `Agent_InitializePool`, `Agent_GetCommand` and
-- `Agent_ReleaseCommand` are `initialize_pool`, `get_command` and `release_command`; a failed
-- assert is `none`.
-- MetricsCollector: source/defender-tools/metrics_collector.c. A reading of `vGetMetrics`
-- is a parameter: its status, and the metrics that it stores.
-- ReportBuilder: source/defender-tools/report_builder.c. A function of that file is a chain of
-- steps on the buffer, the write position and the remaining length (`Cursor`); `print` is an
-- `snprintf` with its test. The formats are in Format, the three array functions in Arrays, and
-- `eGenerateJsonReport` in Generate.
-- MqttAgentTask: source/mqtt-agent-task.c. Connect has `prvSocketConnect` and
-- `prvSocketDisconnect`, Session has `prvMQTTConnect`, `prvHandleResubscribe` and
-- `prvSubscriptionCommandCallback`, Publish has `prvIncomingPublishCallback` and the wakeup
-- callback, Agent has `prvMQTTAgentTask` and `prvConnectToMQTTBroker`, and Time has
-- `prvGetTimeMs`. Calls that the rest of the system sees are kept as a trace (`Event`); what the
-- network and the broker answer is a parameter (`Peer`).
-- OtaDemo: source/demo-tasks/ota_over_mqtt_demo.c. The five event buffers are a list;
-- `event_buffer_get` and `event_buffer_free` are `prvOTAEventBufferGet` and `prvOTAEventBufferFree`,
-- `process_incoming` is the body of the two handlers, and `ota_process_message` is
-- `vOTAProcessMessage`. Callback has `otaAppCallback` and how the demo is suspended and resumed,
-- Commands the commands that the OTA agent sends; History follows the buffers from a publish until
-- its event is processed.
-- Transport: lib/FreeRTOS/network_transport/freertos_plus_tcp. Sockets has `Sockets_Connect` and
-- `Sockets_Disconnect` of sockets_wrapper.c, Plaintext has using_plaintext/using_plaintext.c, and
-- Tls has using_mbedtls/using_mbedtls.c. Each call on a socket and of mbedTLS is kept in a trace;
-- what FreeRTOS+TCP and mbedTLS answer is a parameter (`Network`, `TlsPeer`). Tracking says which
-- socket is open after a trace.
-- ShadowDemo: source/demo-tasks/shadow_device_task.c and shadow_update_task.c. Device has the three
-- callbacks of the device task, and the parts of the loop of `vShadowDeviceTask` as steps, between
-- which the callbacks may come (`Step`); Update has the callbacks and the rounds of
-- `vShadowUpdateTask`, Document the JSON texts with their buffers, and Subscribing
-- `prvSubscribeToShadowUpdateTopics` and its callback. `Json` is what is called of coreJSON and
-- `strtoul`.
-- SubPubDemo: source/demo-tasks/simple_sub_pub_demo.c. `publish_round` is a round of the loop of
-- `prvSimpleSubscribePublishTask`, with when its callback runs; the notification of the task is part
-- of the state.
-- LargeMessageDemo: source/demo-tasks/large_message_sub_pub_demo.c, likewise: `echo_round` is a round
-- of `prvLargeMessageSubscribePublishTask`, with the payloads that reach the callback in
-- each part of it.
-- Prelude: numbers, lists, options, texts and memory that the parts share.
--
-- The agent task works on the table of SubscriptionManager: it resubscribes what is in use there,
-- and hands each publish to `handle_incoming_publishes`. ReportBuilder prints the records that
-- MetricsCollector fills. The shadow tasks add their callbacks to the table of SubscriptionManager.
--
-- Bounds: the table has `SUBSCRIPTION_MANAGER_MAX_SUBSCRIPTIONS` elements, 10. The loop of
-- `prvSocketConnect` has fuel for 6 attempts, and a backoff context that allows 5 retries never
-- needs more. The loop of the TLS handshake has fuel, and ends with fuel for one call more than
-- those that ask to be called again; `Sockets_Disconnect` waits 3 rounds. The loops in which the
-- shadow tasks subscribe have fuel for the calls up to one that is queued. `agent_task` has as fuel
-- the number of rounds that are followed, any number. Sizes and ports are natural numbers; where the
-- code wraps, in `prvGetTimeMs`, in a number read from JSON and in the counts of the demos, the wrap
-- is written out.
--
-- Not modelled: the tasks of the Device Defender demo, the set-up of the OTA demo, the TLS transport
-- with PKCS #11, the OTA platform layer and the crypto utilities; coreMQTT, its agent, FreeRTOS,
-- FreeRTOS+TCP, mbedTLS, coreJSON and backoffAlgorithm, which are parameters; logging, but for the
-- topic of an unsolicited publish; and the set-up of contexts and tasks.
pub mod Prelude
pub mod SubscriptionManager
pub mod AgentMessage
pub mod CommandPool
pub mod MetricsCollector
pub mod ReportBuilder
pub mod MqttAgentTask
pub mod OtaDemo
pub mod Transport
pub mod ShadowDemo
pub mod SubPubDemo
pub mod LargeMessageDemo
