-- ===== src/ShadowDemo/Requests.antt =====
-- The requests of the shadow update task.
use core_mqtt_agent_demos.Prelude.{
  ◌∙◌, ℕ, ◌+◌, ◌-◌, ◌%◌, ◌≡◌, ◌≤◌, refl, ap, ap₂, Bool, true, false, List, [], ◌∷◌, ◌++◌, ◌==◌,
  if◌then◌else◌, arith,
}
use core_mqtt_agent_demos.ShadowDemo.Json.{Json, is_response}
use core_mqtt_agent_demos.ShadowDemo.Document.{desired_json}
use core_mqtt_agent_demos.ShadowDemo.Update.{
  Desired, desired_response, create_request, finish_request, Round, respond_all, request_documents,
}
use core_mqtt_agent_demos.ShadowDemo.Fits.{desired_document-desired_json}

-- The JSON texts of requests for this state and its opposite in turn, each with a terminator.
unfoldable pub alternating : ℕ → List Round → List (List ℕ)
alternating state [] = []
alternating state (r ∷ rounds) =
    (desired_json state (r.ticks % 1000000) ++ (0 ∷ [])) ∷ alternating (1 - state) rounds

module _ (json : Json) where
  desired_state-respond_all :
      (payloads : List (List ℕ)) (s : Desired)
      → (respond_all json payloads s).desired_state ≡ s.desired_state
  unfolding respond_all desired_response
  desired_state-respond_all [] s = refl
  desired_state-respond_all (payload ∷ payloads) s =
      desired_state-respond_all payloads (desired_response json payload s)
      ∙ by_test (is_response json s.client_token payload)
    where
      by_test :
          (heeded : Bool)
          → (if heeded then record s { notifications = s.notifications + 1 } else s).desired_state
            ≡ s.desired_state
      by_test true = refl
      by_test false = refl

  -- Whatever the responses, the tick counts and the results of `MQTTAgent_Publish`, the task requests
  -- the states 0 and 1 in turn, and each document that it publishes is the whole JSON text with a
  -- terminator.
  pub request_documents-alternating :
      (rounds : List Round) (s : Desired)
      → s.desired_state ≤ 1
      → request_documents json rounds s ≡ alternating s.desired_state rounds
  unfolding request_documents alternating create_request finish_request
  request_documents-alternating [] s h = refl
  request_documents-alternating (r ∷ rounds) s h =
      ap₂ ◌∷◌
        (desired_document-desired_json s.desired_state (r.ticks % 1000000) (omega arith)
          (omega arith))
        (request_documents-alternating rounds (finish_request r.queued after)
            (rw kept (ground arith))
          ∙ ap (λ state. alternating state rounds)
              (ap (λ n. if n == 0 then 1 else 0) kept ∙ ground arith))
    where
      after : Desired
      after = respond_all json r.responses (create_request r.ticks s).0

      kept : after.desired_state ≡ s.desired_state
      kept = desired_state-respond_all r.responses (create_request r.ticks s).0
