-- ===== src/OtaDemo/Routing.antt =====
-- Which publishes the OTA demo takes, and as what.
use core_mqtt_agent_demos.Prelude.{
  ℕ, ◌≡◌, ◌≤◌, refl, Bool, true, false, ◌&&◌, ◌||◌, Option, none, some, length, if◌then◌else◌,
}
use core_mqtt_agent_demos.Prelude.Memory.{Memory}
use core_mqtt_agent_demos.OtaDemo.{
  max_num_ota_data_buffers, EventId, received_job_document, received_file_block, OtaState,
  OtaPublish, process_incoming, match_client_identifier_in_topic, Literals, job_accepted_length,
  job_notify_length, data_stream_length, is_match, handled_by, ota_process_message,
}
use core_mqtt_agent_demos.OtaDemo.Buffers.{Processed, kept, lost, process_incoming-Processed}

-- The publish is left to others, or it is taken as an event.
abbrev pub Delivered : Option EventId → OtaPublish → OtaState → Option (OtaState × Bool) → Type 0
Delivered none p s out = out ≡ some (s, false)
Delivered (some event) p s out =
    (s' : OtaState) × (out ≡ some (s', true)) × Processed event p s (some s')

module _ (mem : Memory) (literals : Literals) (match_topic : ℕ → ℕ → ℕ → ℕ → Option Bool)
    (block_size : ℕ) where
  -- As what the topic of a publish says that it is to be taken.
  unfoldable pub event_of : OtaPublish → Option EventId
  event_of p =
      let own =
        match_client_identifier_in_topic mem p.info.topic_name p.info.topic_name_length
          literals.client_identifier literals.client_identifier_length in
      let matches = is_match mem literals match_topic block_size true p in
      if (matches literals.job_accepted job_accepted_length && own)
        || matches literals.job_notify job_notify_length
      then some received_job_document
      else if matches literals.data_stream data_stream_length
      then some received_file_block
      else none

  handled_by-Delivered :
      (event : EventId) (p : OtaPublish) (s : OtaState)
      → length s.buffers ≡ max_num_ota_data_buffers
      → p.payload_length ≤ block_size
      → Delivered (some event) p s (handled_by mem literals match_topic block_size true event p s)
  unfolding handled_by
  handled_by-Delivered event p s size fits =
      by_outcome (process_incoming block_size true event p s)
        (process_incoming-Processed block_size event p s size fits)
    where
      by_outcome :
          (out : Option OtaState)
          → Processed event p s out
          → Delivered (some event) p s (elim out [ none ↦ none | some s' ↦ some (s', true) ])
      by_outcome none (kept i s' a b c e f g h k) = absurd cc
      by_outcome none (lost a e) = absurd cc
      by_outcome (some s') processed = (s', refl, processed)

  -- `vOTAProcessMessage`, on all five buffers and a payload of at most a block, where the semaphore
  -- is taken: it leaves a publish alone, and returns false, exactly if its topic is neither that of
  -- an accepted job of this client, nor a job notification, nor data; else it returns true, also
  -- where no buffer was free, and the payload is taken as a job document in the first two cases and
  -- as a file block in the third.
  pub ota_process_message-Delivered :
      (p : OtaPublish) (s : OtaState)
      → length s.buffers ≡ max_num_ota_data_buffers
      → p.payload_length ≤ block_size
      → Delivered
          (event_of p)
          p
          s
          (ota_process_message mem literals match_topic block_size true p s)
  unfolding ota_process_message event_of
  ota_process_message-Delivered p s size fits =
      by_tests
        (is_match mem literals match_topic block_size true p literals.job_accepted
          job_accepted_length)
        (match_client_identifier_in_topic mem p.info.topic_name p.info.topic_name_length
          literals.client_identifier literals.client_identifier_length)
        (is_match mem literals match_topic block_size true p literals.job_notify job_notify_length)
        (is_match mem literals match_topic block_size true p literals.data_stream
          data_stream_length)
    where
      handled : EventId → Option (OtaState × Bool)
      handled event = handled_by mem literals match_topic block_size true event p s

      by_tests :
          (accepted own notify stream : Bool)
          → Delivered
              (if (accepted && own) || notify
                then some received_job_document
                else if stream
                then some received_file_block
                else none)
              p
              s
              (if (if accepted then own else false)
                then handled received_job_document
                else if notify
                then handled received_job_document
                else if stream
                then handled received_file_block
                else some (s, false))
      by_tests true true notify stream = handled_by-Delivered received_job_document p s size fits
      by_tests true false true stream = handled_by-Delivered received_job_document p s size fits
      by_tests true false false true = handled_by-Delivered received_file_block p s size fits
      by_tests true false false false = refl
      by_tests false own true stream = handled_by-Delivered received_job_document p s size fits
      by_tests false own false true = handled_by-Delivered received_file_block p s size fits
      by_tests false own false false = refl
