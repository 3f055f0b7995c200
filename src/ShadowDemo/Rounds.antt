-- ===== src/ShadowDemo/Rounds.antt =====
-- Rounds of the shadow device task: a report that is accepted, one that times out, and one behind a
-- stray response.
use core_mqtt_agent_demos.Prelude.{
  ◌∙◌, ℕ, ◌+◌, ◌%◌, ◌≡◌, refl, sym, ap, ap₂, subst, Bool, true, false, some, List, ◌∷◌, ◌==◌,
  if◌then◌else◌, arith,
}
use core_mqtt_agent_demos.ShadowDemo.Json.{Json, received_token}
use core_mqtt_agent_demos.ShadowDemo.Document.{update_document}
use core_mqtt_agent_demos.ShadowDemo.Device.{
  invalid_power_on_state, Shadow, accepted_state, update_accepted, checking, creating, Device,
  check_state, create_report, publish_report, take_notification, time_out, forget_state,
  clear_token, on_shadow, checks, creates, publishes, takes, times_out, forgets, clears,
  accepted_received, Reach, here, next,
}
use core_mqtt_agent_demos.ShadowDemo.Responses.{is_response_lem}

check_state-creating :
    (d : Device)
    → (d.shadow.current_power_on_state == d.shadow.reported_power_on_state) ≡ false
    → check_state d ≡ record d { point = creating }
unfolding check_state
check_state-creating d h = rw h refl

check_state_same :
    (d : Device)
    → d.shadow.reported_power_on_state ≡ d.shadow.current_power_on_state
    → check_state d ≡ d
unfolding check_state
check_state_same d h = ground (arith, h)

-- The task has created a report and published it.
unfoldable report_sent : ℕ → Device → Device
report_sent ticks d = publish_report true (create_report ticks (record d { point = creating }))

module _ (json : Json) where
  Reach-report_sent :
      (ticks : ℕ) (d : Device)
      → d.point ≡ checking
      → (d.shadow.current_power_on_state == d.shadow.reported_power_on_state) ≡ false
      → Reach json d (report_sent ticks d)
  unfolding report_sent create_report
  Reach-report_sent ticks d at differs =
      next
        (next (next here (checks at (sym (check_state-creating d differs))))
          (creates ticks refl refl))
        (publishes true refl refl)

  update_accepted-response :
      (payload : List ℕ) (s : Shadow)
      → received_token json payload ≡ some s.client_token
      → update_accepted json payload s ≡ record s {
        reported_power_on_state = accepted_state json payload s.reported_power_on_state;
        notifications = s.notifications + 1;
      }
  unfolding update_accepted
  update_accepted-response payload s h =
      rw (is_response_lem json payload s.client_token s.client_token h) (ground arith)

  update_accepted-other :
      (payload : List ℕ) (token : ℕ) (s : Shadow)
      → received_token json payload ≡ some token
      → (token == s.client_token) ≡ false
      → update_accepted json payload s ≡ s
  unfolding update_accepted
  update_accepted-other payload token s h other =
      rw (is_response_lem json payload token s.client_token h ∙ other) refl

  -- The task has a state to report, its report is published, and while it waits the report is
  -- accepted, with its token and the state that it reports. Then it ends the round with that state as
  -- the reported one, the token 0 and the notifications as before, and the next comparison finds
  -- nothing to report.
  pub report_accepted :
      (payload : List ℕ) (ticks : ℕ) (d : Device)
      → d.point ≡ checking
      → (d.shadow.current_power_on_state == d.shadow.reported_power_on_state) ≡ false
      → received_token json payload ≡ some (ticks % 1000000)
      → accepted_state json payload d.shadow.reported_power_on_state
        ≡ d.shadow.current_power_on_state
      → (d' : Device) × Reach json d d'
        × (d'.published
            ≡ update_document d.shadow.current_power_on_state (ticks % 1000000) ∷ d.published)
        × (d'.shadow ≡ record (d.shadow) {
          reported_power_on_state = d.shadow.current_power_on_state;
          client_token = 0;
        })
        × (check_state d' ≡ d')
  unfolding report_sent publish_report create_report on_shadow take_notification clear_token
  report_accepted payload ticks d at differs token state = (
    ended,
    next
        (next
          (next (Reach-report_sent ticks d at differs) (
            accepted_received payload (
              ap (λ (s : Shadow). record (report_sent ticks d) { shadow = s })
                (sym (update_accepted-response payload (report_sent ticks d).shadow token)))))
          (takes d.shadow.notifications refl refl refl))
        (clears refl refl),
    refl,
    ap₂
        (λ (r n : ℕ). record (d.shadow) {
          reported_power_on_state = r;
          client_token = 0;
          notifications = n;
        })
        state (omega arith),
    check_state_same ended state,
  )
    where
      responded : Device
      responded = record (report_sent ticks d) {
        shadow = record ((report_sent ticks d).shadow) {
          reported_power_on_state = accepted_state json payload d.shadow.reported_power_on_state;
          notifications = d.shadow.notifications + 1;
        };
      }

      ended : Device
      ended = clear_token (take_notification responded)

  -- The task has a state to report and no notification, its report is published, and no response
  -- comes in time. Then it can end the round with that report, and no other, published, the reported
  -- state forgotten and the token 0, and the next comparison goes on to a new report, unless the state
  -- of the device is `shadowexampleINVALID_POWERON_STATE`: then it does not.
  pub report_timed_out :
      (ticks : ℕ) (d : Device)
      → d.point ≡ checking
      → (d.shadow.current_power_on_state == d.shadow.reported_power_on_state) ≡ false
      → d.shadow.notifications ≡ 0
      → (d' : Device) × Reach json d d'
        × (d'.point ≡ checking)
        × (d'.published
            ≡ update_document d.shadow.current_power_on_state (ticks % 1000000) ∷ d.published)
        × (d'.shadow ≡ record (d.shadow) {
          reported_power_on_state = invalid_power_on_state;
          client_token = 0;
        })
        × ((check_state d').point ≡ (
            if d.shadow.current_power_on_state == invalid_power_on_state
            then checking
            else creating))
  unfolding report_sent publish_report create_report time_out forget_state clear_token check_state
  report_timed_out ticks d at differs none_left = (
    clear_token (forget_state (time_out (report_sent ticks d))),
    next
        (next (next (Reach-report_sent ticks d at differs) (times_out refl none_left refl))
          (forgets refl refl))
        (clears refl refl),
    refl,
    refl,
    refl,
    by_test (d.shadow.current_power_on_state == invalid_power_on_state),
  )
    where
      by_test :
          (same : Bool)
          → (if same
              then clear_token (forget_state (time_out (report_sent ticks d)))
              else record (clear_token (forget_state (time_out (report_sent ticks d)))) {
                point = creating;
              }).point
            ≡ (if same then checking else creating)
      by_test true = refl
      by_test false = refl

  -- While no report is under way, the token is 0, and a publish whose token is no number, which
  -- `strtoul` reads as 0, is taken for the response: the reported state changes to the one that it
  -- has, and the task is notified. If that differs from the state of the device, the task reports
  -- again, but takes that notification for the response, and ends the round at once: the true
  -- response, which comes behind that, with a token other than 0, changes nothing.
  pub stray_response :
      (stray late : List ℕ) (ticks : ℕ) (d : Device)
      → d.point ≡ checking
      → d.shadow.client_token ≡ 0
      → received_token json stray ≡ some 0
      → (d.shadow.current_power_on_state
          == accepted_state json stray d.shadow.reported_power_on_state)
        ≡ false
      → received_token json late ≡ some (ticks % 1000000)
      → (ticks % 1000000 == 0) ≡ false
      → (d' : Device) × Reach json (on_shadow (update_accepted json stray) d) d'
        × (d'.published
            ≡ update_document d.shadow.current_power_on_state (ticks % 1000000) ∷ d.published)
        × (d'.shadow ≡ record (d.shadow) {
          reported_power_on_state = accepted_state json stray d.shadow.reported_power_on_state;
          client_token = 0;
        })
        × (on_shadow (update_accepted json late) d' ≡ d')
  unfolding report_sent publish_report create_report on_shadow take_notification clear_token
  stray_response stray late ticks d at idle stray_token differs late_token nonzero = (
    ended,
    subst (λ e. Reach json e ended)
        (ap (λ (s : Shadow). record d { shadow = s })
          (sym (update_accepted-response stray d.shadow (stray_token ∙ ap some (sym idle)))))
        (next
          (next (Reach-report_sent ticks notified at differs)
            (takes d.shadow.notifications refl refl refl))
          (clears refl refl)),
    refl,
    ap
        (λ (n : ℕ). record (d.shadow) {
          reported_power_on_state = accepted_state json stray d.shadow.reported_power_on_state;
          client_token = 0;
          notifications = n;
        })
        (omega arith),
    ap (λ (s : Shadow). record ended { shadow = s })
        (update_accepted-other late (ticks % 1000000) ended.shadow late_token nonzero),
  )
    where
      notified : Device
      notified = record d {
        shadow = record (d.shadow) {
          reported_power_on_state = accepted_state json stray d.shadow.reported_power_on_state;
          notifications = d.shadow.notifications + 1;
        };
      }

      ended : Device
      ended = clear_token (take_notification (report_sent ticks notified))
