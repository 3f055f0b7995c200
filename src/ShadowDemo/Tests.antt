-- ===== src/ShadowDemo/Tests.antt =====
-- Runs of the shadow demo, and its theorems at such inputs.
use core_mqtt_agent_demos.Prelude.{
  ℕ, ◌≡◌, ◌≤◌, ◌<◌, refl, true, false, ◌⊎◌, none, some, List, [], ◌∷◌, ◌++◌, ◌==◌, if◌then◌else◌,
  length, get_or, take, arith,
}
use core_mqtt_agent_demos.ShadowDemo.Json.{Json, number_at, received_token}
use core_mqtt_agent_demos.ShadowDemo.Document.{reported_json, reported_json_length, update_document}
use core_mqtt_agent_demos.ShadowDemo.Device.{
  newer_delta, update_delta, accepted_state, update_accepted, update_rejected, checking, creating,
  Device, check_state, create_report, publish_report, on_shadow, Reach, here, next, checks, creates,
  publishes, delta_received, started,
}
use core_mqtt_agent_demos.ShadowDemo.Deltas.{Reach-update_delta}
use core_mqtt_agent_demos.ShadowDemo.Consistency.{IsConsistent, Reach-IsConsistent}
use core_mqtt_agent_demos.ShadowDemo.Responses.{is_under_way, Reach-response}
use core_mqtt_agent_demos.ShadowDemo.Rounds.{report_accepted, report_timed_out, stray_response}
use core_mqtt_agent_demos.ShadowDemo.Fits.{update_document-reported_json}
use core_mqtt_agent_demos.ShadowDemo.Update.{Desired, Round, request_documents}
use core_mqtt_agent_demos.ShadowDemo.Requests.{alternating, request_documents-alternating}

-- Payloads are four numbers: the version, the token, the new state and the reported state. The keys
-- are told apart by their lengths.
abbrev json : Json
json = record {
  validate = λ payload. true;
  search = λ payload key.
      if length key == 7
      then some 0
      else (if length key == 11
          then some 1
          else (if length key == 13 then some 2 else (if length key == 22 then some 3 else none)));
  strtoul = λ payload at. get_or payload at 0;
}

abbrev delta : List ℕ
delta = 5 ∷ (0 ∷ (1 ∷ (0 ∷ [])))

-- The same version again, with another state.
abbrev stale : List ℕ
stale = 5 ∷ (0 ∷ (0 ∷ (0 ∷ [])))

-- A response with this token and reported state.
abbrev response : ℕ → ℕ → List ℕ
response token state = 0 ∷ (token ∷ (0 ∷ (state ∷ [])))

abbrev start : Device
start = started []

delta_state : (on_shadow (update_delta json delta) start).shadow.current_power_on_state ≡ 1
unfolding on_shadow update_delta newer_delta number_at
delta_state = refl

stale_state :
    update_delta json stale (update_delta json delta start.shadow)
    ≡ update_delta json delta start.shadow
unfolding update_delta newer_delta number_at
stale_state = refl

abbrev created : Device
created = create_report 12345678 (check_state start)

-- The task reports for the first time.
abbrev running : Reach json start (publish_report true created)
unfolding check_state create_report
running =
    next (next (next here (checks refl refl)) (creates 12345678 refl refl))
      (publishes true refl refl)

Reach-update_delta_example :
    let d = on_shadow (update_delta json stale) (on_shadow (update_delta json delta) start) in
    on_shadow (update_delta json delta) d ≡ d
Reach-update_delta_example =
    Reach-update_delta json delta start (next here (delta_received stale refl))

Reach-IsConsistent_example : IsConsistent json start (publish_report true created)
Reach-IsConsistent_example = Reach-IsConsistent json [] running

Reach-response_example :
    let d = publish_report true created in
    ((is_under_way d.point ≡ true) × (d.shadow.client_token ≡ 345678))
    ⊎ ((on_shadow (update_accepted json (response 345678 0)) d ≡ d)
        × (on_shadow (update_rejected json (response 345678 0)) d ≡ d))
unfolding received_token number_at
Reach-response_example = Reach-response json [] (response 345678 0) 345677 running refl

report_accepted_example :
    (d' : Device) × Reach json start d'
    × (d'.published ≡ update_document 0 345678 ∷ [])
    × (d'.shadow ≡ record (start.shadow) { reported_power_on_state = 0; client_token = 0 })
    × (check_state d' ≡ d')
unfolding received_token number_at accepted_state
report_accepted_example =
    report_accepted json (response 345678 0) 12345678 start refl refl refl refl

report_timed_out_example :
    (d' : Device) × Reach json start d'
    × (d'.point ≡ checking)
    × (d'.published ≡ update_document 0 345678 ∷ [])
    × (d'.shadow ≡ record (start.shadow) { reported_power_on_state = 2; client_token = 0 })
    × ((check_state d').point ≡ creating)
report_timed_out_example = report_timed_out json 12345678 start refl refl refl

stray_response_example :
    (d' : Device) × Reach json (on_shadow (update_accepted json (response 0 1)) start) d'
    × (d'.published ≡ update_document 0 345678 ∷ [])
    × (d'.shadow ≡ record (start.shadow) {
      reported_power_on_state = accepted_state json (response 0 1) 2;
      client_token = 0;
    })
    × (on_shadow (update_accepted json (response 345678 0)) d' ≡ d')
unfolding received_token number_at accepted_state
stray_response_example =
    stray_response json (response 0 1) (response 345678 0) 12345678 start refl refl refl refl refl
      refl

update_document-reported_json_example :
    (12 < 10 → update_document 12 345678 ≡ reported_json 12 345678 ++ (0 ∷ []))
    × (10 ≤ 12
        → (update_document 12 345678
            ≡ take reported_json_length (reported_json 12 345678) ++ (0 ∷ []))
          × (reported_json_length < length (reported_json 12 345678)))
update_document-reported_json_example = update_document-reported_json 12 345678 (omega arith)

abbrev rounds : List Round
rounds =
    record { ticks = 12345678; queued = true; responses = response 345678 0 ∷ [] }
    ∷ (record { ticks = 22345678; queued = false; responses = [] } ∷ [])

abbrev desired : Desired
desired = record { client_token = 0; notifications = 0; desired_state = 0 }

request_documents-alternating_example : request_documents json rounds desired ≡ alternating 0 rounds
request_documents-alternating_example =
    request_documents-alternating json rounds desired (omega arith)
