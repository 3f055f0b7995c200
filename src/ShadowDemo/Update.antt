-- ===== src/ShadowDemo/Update.antt =====
-- shadow_update_task.c: the callbacks, and a round of `vShadowUpdateTask`.
use core_mqtt_agent_demos.Prelude.{ℕ, ◌+◌, ◌-◌, ◌%◌, Bool, List, [], ◌∷◌, ◌==◌, if◌then◌else◌}
use core_mqtt_agent_demos.ShadowDemo.Json.{Json, is_response}
use core_mqtt_agent_demos.ShadowDemo.Document.{desired_document}

-- `ulClientToken`, the notification value of the task, and `desiredState`.
pub record Desired : Type 0 where
  pub client_token : ℕ
  pub notifications : ℕ
  pub desired_state : ℕ

-- `prvIncomingPublishUpdateAcceptedCallback` and `prvIncomingPublishUpdateRejectedCallback` of this
-- task, which differ in what they log.
unfoldable pub desired_response : Json → List ℕ → Desired → Desired
desired_response json payload s =
    if is_response json s.client_token payload
    then record s { notifications = s.notifications + 1 }
    else s

-- A round up to the call of `MQTTAgent_Publish`: the token, for a tick count, and the document.
unfoldable pub create_request : ℕ → Desired → Desired × List ℕ
create_request ticks s =
    let token = ticks % 1000000 in
    (record s { client_token = token }, desired_document s.desired_state token)

-- The round behind it, where a time-out of the wait is only logged: `ulTaskNotifyTake` takes one
-- notification, if there is one.
unfoldable pub finish_request : Bool → Desired → Desired
finish_request queued s =
    let left = if queued then s.notifications - 1 else s.notifications in
    record s {
      client_token = 0;
      notifications = left;
      desired_state = if s.desired_state == 0 then 1 else 0;
    }

-- What a round meets: the tick count, whether the publish is queued, and the payloads of the
-- responses that come in up to its end.
pub record Round : Type 0 where
  pub ticks : ℕ
  pub queued : Bool
  pub responses : List (List ℕ)

unfoldable pub respond_all : Json → List (List ℕ) → Desired → Desired
respond_all json [] s = s
respond_all json (payload ∷ payloads) s =
    respond_all json payloads (desired_response json payload s)

-- The loop of `vShadowUpdateTask` for these rounds: the documents that are handed to
-- `MQTTAgent_Publish`.
unfoldable pub request_documents : Json → List Round → Desired → List (List ℕ)
request_documents json [] s = []
request_documents json (r ∷ rounds) s =
    let (s', document) = create_request r.ticks s in
    document
    ∷ request_documents json rounds (finish_request r.queued (respond_all json r.responses s'))
