-- ===== src/SubPubDemo/Outcomes.antt =====
-- Which publishes of the simple demo count as passed.
use core_mqtt_agent_demos.Prelude.{
  ◌∙◌, ℕ, zero, suc, ◌+◌, ◌%◌, ◌^◌, ◌≡◌, ◌<◌, refl, ap, ap₂, Bool, true, false, not, ◌&&◌, ◌||◌,
  ◌⊎◌, List, [], ◌∷◌, ◌==◌, length, replicate, arith, inl, inr,
}
use core_mqtt_agent_demos.SubPubDemo.{
  Publisher, publish_completed, Round, complement, count_round, wait_for_acknowledgment,
  publish_round, publish_rounds,
}

-- Whether each round passes: one does where the callback runs between the set-up of the context and
-- the wait, or in the wait if no notification was pending before. One is pending if the callback runs
-- behind the wait of the round before.
unfoldable pub outcomes : Bool → List Round → List Bool
outcomes pending [] = []
outcomes pending (r ∷ rounds) =
    (r.completed_first || (not pending && r.completed_waiting)) ∷ outcomes r.completed_after rounds

-- The pass and the fail count, of 32 bits each, behind a round.
unfoldable pub tally : Bool → ℕ × ℕ → ℕ × ℕ
tally true (passes, failures) = ((passes + 1) % 2 ^ 32, failures)
tally false (passes, failures) = (passes, (failures + 1) % 2 ^ 32)

unfoldable pub tally_all : List Bool → ℕ × ℕ → ℕ × ℕ
tally_all [] counts = counts
tally_all (passes ∷ rest) counts = tally_all rest (tally passes counts)

-- With a notification pending, rounds in which the callback runs behind the wait fail for good,
-- although each publish is completed.
pub outcomes-completed_after :
    (n : ℕ) (waiting : Bool)
    → outcomes true (
        replicate n
          (record { completed_first = false; completed_waiting = waiting; completed_after = true }))
      ≡ replicate n false
unfolding outcomes
outcomes-completed_after zero waiting = refl
outcomes-completed_after (suc n) waiting =
    ap (λ bs. false ∷ bs) (outcomes-completed_after n waiting)

abbrev counts : Publisher → ℕ × ℕ
counts s = (s.pass_count, s.fail_count)

counts-count_round :
    (n : ℕ) (s : Publisher) (b : Bool)
    → (n == s.value_to_notify) ≡ b
    → counts (count_round n s) ≡ tally b (counts s)
unfolding count_round tally
counts-count_round n s true h = rw h refl
counts-count_round n s false h = rw h refl

module _ (on_time_out : ℕ → ℕ → ℕ) where
  counts-publish_round :
      (r : Round) (s : Publisher)
      → ((before value : ℕ)
          → (on_time_out before value ≡ before) ⊎ (on_time_out before value ≡ value))
      → s.notification.notified_value < s.value_to_notify
      → s.value_to_notify < 2 ^ 32
      → let s' = publish_round on_time_out r s in
        (counts s'
          ≡ tally
              (r.completed_first || (not s.notification.pending && r.completed_waiting))
              (counts s))
        × (s'.notification.pending ≡ r.completed_after)
        × (s'.notification.notified_value < s'.value_to_notify)
        × (s'.value_to_notify ≡ s.value_to_notify + 1)
  unfolding publish_round wait_for_acknowledgment publish_completed count_round
  counts-publish_round r s time_out old bound =
      by_cases r.completed_first s.notification.pending r.completed_waiting r.completed_after
    where
      k : ℕ
      k = s.value_to_notify

      v : ℕ
      v = s.notification.notified_value

      same : (k == k) ≡ true
      same = ground arith

      other : (v == k) ≡ false
      other = ground arith

      complement_other : (complement k == k) ≡ false
      complement_other = ground arith

      timed_out : (on_time_out (complement k) v == k) ≡ false
      timed_out = elim (time_out (complement k) v) [
        | inl e ↦ ap (λ n. n == k) e ∙ complement_other
        | inr e ↦ ap (λ n. n == k) e ∙ other
      ]

      ready : Publisher
      ready = record s { context_value = k }

      by_cases :
          (first pending waiting after : Bool)
          → let s' =
              publish_round on_time_out
                (record {
                  completed_first = first;
                  completed_waiting = waiting;
                  completed_after = after;
                })
                (record s { notification = record { pending = pending; notified_value = v } }) in
            (counts s' ≡ tally (first || (not pending && waiting)) (counts s))
            × (s'.notification.pending ≡ after)
            × (s'.notification.notified_value < s'.value_to_notify)
            × (s'.value_to_notify ≡ k + 1)
      by_cases true pending waiting true =
          (counts-count_round k ready true same, refl, omega arith, refl)
      by_cases true pending waiting false =
          (counts-count_round k ready true same, refl, omega arith, refl)
      by_cases false true waiting true =
          (counts-count_round v ready false other, refl, omega arith, refl)
      by_cases false true waiting false =
          (counts-count_round v ready false other, refl, omega arith, refl)
      by_cases false false true true =
          (counts-count_round k ready true same, refl, omega arith, refl)
      by_cases false false true false =
          (counts-count_round k ready true same, refl, omega arith, refl)
      by_cases false false false true = (
        counts-count_round (on_time_out (complement k) v) ready false timed_out,
        refl,
        omega arith,
        refl,
      )
      by_cases false false false false = (
        counts-count_round (on_time_out (complement k) v) ready false timed_out,
        refl,
        omega arith,
        refl,
      )

  -- Where a wait that times out leaves `ulNotification` or stores the value of the notification, from
  -- a value below the number of the next publish, and as long as that number has 32 bits: the pass and
  -- the fail count behind any rounds are those of the rounds that `outcomes` says, one more pass for
  -- each that passes and one more failure for each other, modulo 2 ^ 32. A notification that is
  -- pending when a round begins fails that round, unless the callback runs before its wait.
  pub publish_rounds-outcomes :
      (rounds : List Round) (s : Publisher)
      → ((before value : ℕ)
          → (on_time_out before value ≡ before) ⊎ (on_time_out before value ≡ value))
      → s.notification.notified_value < s.value_to_notify
      → s.value_to_notify + length rounds < 2 ^ 32
      → let s' = publish_rounds on_time_out rounds s in
        (s'.pass_count, s'.fail_count)
        ≡ tally_all (outcomes s.notification.pending rounds) (s.pass_count, s.fail_count)
  unfolding publish_rounds outcomes tally_all
  publish_rounds-outcomes [] s time_out old bound = refl
  publish_rounds-outcomes (r ∷ rounds) s time_out old bound =
      let (counted, pending, new, count) = counts-publish_round r s time_out old (omega arith) in
      publish_rounds-outcomes rounds (publish_round on_time_out r s) time_out new
        (omega (arith, count))
      ∙ ap₂ (λ p c. tally_all (outcomes p rounds) c) pending counted
