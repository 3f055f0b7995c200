-- ===== src/OtaDemo.antt =====
-- source/demo-tasks/ota_over_mqtt_demo.c: what the OTA demo does with an incoming publish, and its
-- pool of event buffers.
pub mod Identifier
pub mod Buffers
pub mod Routing
pub mod Callback
pub mod History
pub mod Commands
mod Tests
use core_mqtt_agent_demos.Prelude.{
  ℕ, zero, suc, ◌+◌, ◌-◌, Bool, true, false, not, Option, none, some, List, [], ◌∷◌, ◌++◌, ◌==◌,
  leb, if◌then◌else◌, length, get_or, set,
}
use core_mqtt_agent_demos.Prelude.Memory.{Memory}
use core_mqtt_agent_demos.Prelude.Text.{codes}
use core_mqtt_agent_demos.SubscriptionManager.{PublishInfo}
use core_mqtt_agent_demos.MetricsCollector.{memcpy}

-- `otaconfigMAX_NUM_OTA_DATA_BUFFERS`
abbrev pub max_num_ota_data_buffers : ℕ
max_num_ota_data_buffers = 5

-- `OtaEventData_t`
pub record EventBuffer : Type 0 where
  pub data_bytes : List ℕ
  pub data_length : ℕ
  pub buffer_used : Bool

abbrev pub no_buffer : EventBuffer
no_buffer = record { data_bytes = []; data_length = 0; buffer_used = true }

abbrev pub buffer_at : List EventBuffer → ℕ → EventBuffer
buffer_at buffers i = get_or buffers i no_buffer

-- `prvOTAEventBufferFree`, with the result of `xSemaphoreTake`.
unfoldable pub event_buffer_free : Bool → List EventBuffer → ℕ → List EventBuffer
event_buffer_free taken buffers i =
    if taken then set buffers i (record (buffer_at buffers i) { buffer_used = false }) else buffers

-- The loop of `prvOTAEventBufferGet` from index `i`, with `rounds` left.
unfoldable pub free_from : List EventBuffer → ℕ → ℕ → Option ℕ
free_from buffers i zero = none
free_from buffers i (suc rounds) =
    let rest = free_from buffers (i + 1) rounds in
    if not (buffer_at buffers i).buffer_used then some i else rest

-- `prvOTAEventBufferGet`, likewise: the buffers, and the index of the one that is handed out.
unfoldable pub event_buffer_get : Bool → List EventBuffer → List EventBuffer × Option ℕ
event_buffer_get taken buffers =
    if taken
    then elim (free_from buffers 0 max_num_ota_data_buffers) [
      | none ↦ (buffers, none)
      | some i ↦ (set buffers i (record (buffer_at buffers i) { buffer_used = true }), some i)
    ]
    else (buffers, none)

-- The two events of the OTA agent that are signalled here.
pub data EventId : Type 0 where
  received_job_document received_file_block : EventId

-- The buffers, and the events that were signalled to the agent, the last one first.
pub record OtaState : Type 0 where
  pub buffers : List EventBuffer
  pub signalled : List (EventId × ℕ)

-- What is read of an incoming publish: its topic, its payload, and the length of that.
pub record OtaPublish : Type 0 where
  pub info : PublishInfo
  pub payload : List ℕ
  pub payload_length : ℕ

-- The payload copied into a buffer that was handed out.
unfoldable pub fill : OtaPublish → EventBuffer → EventBuffer
fill p b = record b {
  data_bytes = memcpy b.data_bytes p.payload p.payload_length;
  data_length = p.payload_length;
}

-- The body that `prvProcessIncomingData` and `prvProcessIncomingJobMessage` share, but for the
-- event; `none` if the assert on the payload fails. `block_size` is `OTA_DATA_BLOCK_SIZE`.
unfoldable pub process_incoming : ℕ → Bool → EventId → OtaPublish → OtaState → Option OtaState
process_incoming block_size taken event p s =
    let (buffers, got) = event_buffer_get taken s.buffers in
    if leb p.payload_length block_size
    then elim got [
      | none ↦ some (record s { buffers = buffers })
      | some i ↦ some (record {
        buffers = set buffers i (fill p (buffer_at buffers i));
        signalled = (event, i) ∷ s.signalled;
      })
    ]
    else none

-- `OTA_TOPIC_CLIENT_IDENTIFIER_START_IDX`
abbrev pub client_identifier_start : ℕ
client_identifier_start = 12

-- The loop of `prvMatchClientIdentifierInTopic` from `idx`, with `rounds` left.
unfoldable pub match_from : Memory → ℕ → ℕ → ℕ → ℕ → ℕ → ℕ → Bool
match_from mem topic client len idx match_idx zero = false
match_from mem topic client len idx match_idx (suc rounds) =
    let rest = match_from mem topic client len (idx + 1) (match_idx + 1) rounds in
    if match_idx == len
    then mem (topic + idx) == b'/'
    else if mem (client + match_idx) == mem (topic + idx)
    then rest
    else false

-- `prvMatchClientIdentifierInTopic`
unfoldable pub match_client_identifier_in_topic : Memory → ℕ → ℕ → ℕ → ℕ → Bool
match_client_identifier_in_topic mem topic topic_length client len =
    match_from mem topic client len client_identifier_start 0
      (topic_length - client_identifier_start)

-- Where the string literals of the file lie in memory, and `democonfigCLIENT_IDENTIFIER`.
pub record Literals : Type 0 where
  pub job_accepted : ℕ
  pub job_notify : ℕ
  pub data_stream : ℕ
  pub client_identifier : ℕ
  pub client_identifier_length : ℕ

-- `OTA_JOB_ACCEPTED_RESPONSE_TOPIC_FILTER_LENGTH`, `OTA_JOB_NOTIFY_TOPIC_FILTER_LENGTH` and
-- `OTA_DATA_STREAM_TOPIC_FILTER_LENGTH`
abbrev pub job_accepted_length : ℕ
job_accepted_length = length (codes "$aws/things/+/jobs/$next/get/accepted")

abbrev pub job_notify_length : ℕ
job_notify_length = length (codes "$aws/things/+/jobs/notify-next")

abbrev pub data_stream_length : ℕ
data_stream_length = length (codes "$aws/things/+/streams/#")

-- `match_topic` is `MQTT_MatchTopic`, `none` where it writes no result.
module _ (mem : Memory) (literals : Literals) (match_topic : ℕ → ℕ → ℕ → ℕ → Option Bool)
    (block_size : ℕ) (taken : Bool) where
  -- A call of it on the topic of a publish; without a result `isMatch` keeps its value, false.
  unfoldable pub is_match : OtaPublish → ℕ → ℕ → Bool
  is_match p filter filter_length =
      elim (match_topic p.info.topic_name p.info.topic_name_length filter filter_length) [
        | none ↦ false
        | some result ↦ result
      ]

  -- A handler, and `isMatch` behind it.
  unfoldable pub handled_by : EventId → OtaPublish → OtaState → Option (OtaState × Bool)
  handled_by event p s = elim (process_incoming block_size taken event p s) [
    | none ↦ none
    | some s' ↦ some (s', true)
  ]

  -- `vOTAProcessMessage`; `none` if an assert fails.
  unfoldable pub ota_process_message : OtaPublish → OtaState → Option (OtaState × Bool)
  ota_process_message p s =
      let accepted =
        if is_match p literals.job_accepted job_accepted_length
        then match_client_identifier_in_topic mem p.info.topic_name p.info.topic_name_length
            literals.client_identifier literals.client_identifier_length
        else false in
      if accepted
      then handled_by received_job_document p s
      else if is_match p literals.job_notify job_notify_length
      then handled_by received_job_document p s
      else if is_match p literals.data_stream data_stream_length
      then handled_by received_file_block p s
      else some (s, false)
