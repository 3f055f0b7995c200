-- ===== src/SubPubDemo/Tests.antt =====
-- Runs of the simple publish and subscribe demo, and its theorem at such an input.
use core_mqtt_agent_demos.Prelude.{ℕ, ◌≡◌, refl, true, false, [], ◌∷◌, replicate, take, arith, inl}
use core_mqtt_agent_demos.MetricsCollector.{memcpy}
use core_mqtt_agent_demos.SubPubDemo.{
  terminated_string, Publisher, publish_completed, Round, count_round, wait_for_acknowledgment,
  publish_round, publish_rounds,
}
use core_mqtt_agent_demos.SubPubDemo.Outcomes.{outcomes, tally_all, publish_rounds-outcomes}

-- Behind the subscription, before the publish of number 1.
abbrev start : Publisher
start = record {
  notification = record { pending = false; notified_value = 0 };
  context_value = 0;
  value_to_notify = 1;
  pass_count = 0;
  fail_count = 0;
}

abbrev in_time : Round
in_time = record { completed_first = false; completed_waiting = true; completed_after = false }

-- The wait times out, and the publish is completed behind it.
abbrev late : Round
late = record { completed_first = false; completed_waiting = false; completed_after = true }

abbrev keeps : ℕ → ℕ → ℕ
keeps before value = before

-- A publish that is late fails the next one too, which is completed in time.
late_run :
    let s = publish_rounds keeps (in_time ∷ (late ∷ (in_time ∷ (in_time ∷ [])))) start in
    (s.pass_count ≡ 2) × (s.fail_count ≡ 2)
unfolding publish_rounds publish_round wait_for_acknowledgment publish_completed count_round
late_run = (refl, refl)

terminated_run :
    take 4 (terminated_string (replicate 100 7) (1 ∷ (2 ∷ (3 ∷ []))) 2) ≡ 1 ∷ (2 ∷ (0 ∷ (7 ∷ [])))
unfolding terminated_string memcpy
terminated_run = refl

publish_rounds-outcomes_example :
    let s = publish_rounds keeps (late ∷ (in_time ∷ [])) start in
    (s.pass_count, s.fail_count) ≡ tally_all (outcomes false (late ∷ (in_time ∷ []))) (0, 0)
publish_rounds-outcomes_example =
    publish_rounds-outcomes keeps (late ∷ (in_time ∷ [])) start (λ before value. inl refl)
      (omega arith) (omega arith)
