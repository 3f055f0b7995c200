-- ===== src/OtaDemo/Tests.antt =====
-- Runs of the OTA demo, and its theorems at such inputs.
use core_mqtt_agent_demos.Prelude.{
  ℕ, ◌+◌, ◌≡◌, refl, Bool, true, false, ◌&&◌, ◌==◌, ltb, Option, none, some, List, [], ◌∷◌, ◌++◌,
  replicate, set, get_or, arith,
}
use core_mqtt_agent_demos.Prelude.Memory.{Memory}
use core_mqtt_agent_demos.Prelude.Text.{codes}
use core_mqtt_agent_demos.MetricsCollector.{memcpy}
use core_mqtt_agent_demos.OtaDemo.{
  EventBuffer, buffer_at, received_job_document, received_file_block, OtaState, OtaPublish,
  Literals, free_from, event_buffer_get, event_buffer_free, fill, process_incoming, match_from,
  match_client_identifier_in_topic, client_identifier_start, is_match, handled_by,
  ota_process_message,
}
use core_mqtt_agent_demos.OtaDemo.Identifier.{equal_bytes, match_client_identifier_in_topic_lem}
use core_mqtt_agent_demos.OtaDemo.Buffers.{Processed, process_incoming-Processed}
use core_mqtt_agent_demos.OtaDemo.Callback.{ota_app_callback}
use core_mqtt_agent_demos.OtaDemo.Commands
use core_mqtt_agent_demos.OtaDemo.Commands.{
  OtaMqttStatus, late_callback, status_after, send_command, mqtt_subscribe,
}
use core_mqtt_agent_demos.OtaDemo.History.{
  Demo, update, stores, processes, Reach, here, next, IsOwned, zeroed, Reach-IsOwned,
}
use core_mqtt_agent_demos.OtaDemo.Routing.{Delivered, event_of, ota_process_message-Delivered}

-- A topic of the client "me", and the identifier behind it.
abbrev topic_text : List ℕ
topic_text = codes "$aws/things/me/streams/1"

abbrev memory : Memory
memory a = get_or (topic_text ++ codes "me") a 0

abbrev literals : Literals
literals = record {
  job_accepted = 100;
  job_notify = 200;
  data_stream = 300;
  client_identifier = 24;
  client_identifier_length = 2;
}

-- The topic matches the filter of the data.
abbrev match_stream : ℕ → ℕ → ℕ → ℕ → Option Bool
match_stream topic topic_length filter filter_length = some (filter == 300)

abbrev free_buffer : EventBuffer
free_buffer = record { data_bytes = 0 ∷ 0 ∷ 0 ∷ []; data_length = 0; buffer_used = false }

abbrev used_buffer : EventBuffer
used_buffer = record free_buffer { buffer_used = true }

-- The first buffer is in use.
abbrev state : OtaState
state = record { buffers = set (replicate 5 free_buffer) 0 used_buffer; signalled = [] }

abbrev publish : OtaPublish
publish = record {
  info = record { topic_name = 0; topic_name_length = 24 };
  payload = 7 ∷ 8 ∷ [];
  payload_length = 2;
}

own_topic : match_client_identifier_in_topic memory 0 24 24 2 ≡ true
unfolding match_client_identifier_in_topic match_from
own_topic = refl

take_block :
    ota_process_message memory literals match_stream 3 true publish state
    ≡ some (
      record {
        buffers =
            set state.buffers 1
              (record { data_bytes = 7 ∷ 8 ∷ 0 ∷ []; data_length = 2; buffer_used = true });
        signalled = (received_file_block, 1) ∷ [];
      },
      true,
    )
unfolding ota_process_message is_match handled_by process_incoming event_buffer_get free_from fill
    memcpy
take_block = refl

match_client_identifier_in_topic_lem_example : match_client_identifier_in_topic memory 0 24 24 2 ≡ (
    ltb (client_identifier_start + 2) 24
    && (equal_bytes memory 24 (0 + client_identifier_start) 2
        && (memory (0 + client_identifier_start + 2) == b'/')))
match_client_identifier_in_topic_lem_example = match_client_identifier_in_topic_lem memory 0 24 24 2

process_incoming-Processed_example :
    Processed received_job_document publish state
      (process_incoming 3 true received_job_document publish state)
process_incoming-Processed_example =
    process_incoming-Processed 3 received_job_document publish state refl (omega arith)

-- The wait for a command that failed is ended by the callback of an earlier one: it counts as done.
late_success : mqtt_subscribe 100 5 true late_callback ≡ some Commands.success
unfolding mqtt_subscribe send_command status_after
late_success = refl

-- A block is stored and signalled, and then processed.
abbrev stored : Demo
stored = record {
  state = record {
    buffers =
        set (zeroed 3).state.buffers 0
          (fill publish (record (buffer_at (zeroed 3).state.buffers 0) { buffer_used = true }));
    signalled = (received_file_block, 0) ∷ [];
  };
  pending = update 0 (some publish) (zeroed 3).pending;
}

abbrev freed : List EventBuffer
freed = event_buffer_free true stored.state.buffers 0

abbrev blocks : Reach 3 (zeroed 3) (record {
  state = record (stored.state) { buffers = freed };
  pending = update 0 none stored.pending;
})
unfolding process_incoming event_buffer_get free_from ota_app_callback
blocks =
    next
      (next here (
        stores received_file_block publish 0 stored.state (omega arith) (omega arith) refl refl
          refl))
      (processes 0 publish freed refl refl refl)

Reach-IsOwned_example : IsOwned 3 (record {
  state = record (stored.state) { buffers = freed };
  pending = update 0 none stored.pending;
})
Reach-IsOwned_example = Reach-IsOwned 3 blocks

ota_process_message-Delivered_example :
    Delivered
      (event_of memory literals match_stream 3 publish)
      publish
      state
      (ota_process_message memory literals match_stream 3 true publish state)
ota_process_message-Delivered_example =
    ota_process_message-Delivered memory literals match_stream 3 publish state refl (omega arith)
