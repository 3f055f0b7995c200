-- ===== src/ShadowDemo/Device.antt =====
-- shadow_device_task.c: the callbacks, and the loop of `vShadowDeviceTask`.
use core_mqtt_agent_demos.Prelude.{
  ℕ, ◌+◌, ◌-◌, ◌%◌, ◌≡◌, Bool, none, some, List, [], ◌∷◌, ◌==◌, leb, if◌then◌else◌,
}
use core_mqtt_agent_demos.Prelude.Text.{codes}
use core_mqtt_agent_demos.ShadowDemo.Json.{Json, number_at, is_response}
use core_mqtt_agent_demos.ShadowDemo.Document.{update_document}

-- `shadowexampleINVALID_POWERON_STATE`
abbrev pub invalid_power_on_state : ℕ
invalid_power_on_state = 2

-- The variables `ulCurrentVersion` of the delta callback, `ulCurrentPowerOnState`,
-- `ulReportedPowerOnState` and `ulClientToken`, and the notification value of the task.
pub record Shadow : Type 0 where
  pub current_version : ℕ
  pub current_power_on_state : ℕ
  pub reported_power_on_state : ℕ
  pub client_token : ℕ
  pub notifications : ℕ

-- As they are initialised.
abbrev pub initial : Shadow
initial = record {
  current_version = 0;
  current_power_on_state = 0;
  reported_power_on_state = invalid_power_on_state;
  client_token = 0;
  notifications = 0;
}

module _ (json : Json) where
  -- `prvIncomingPublishUpdateDeltaCallback` behind the validation, for the version that it found.
  unfoldable pub newer_delta : List ℕ → ℕ → Shadow → Shadow
  newer_delta payload version s =
      let s' = record s { current_version = version } in
      if leb version s.current_version
      then s
      else elim (number_at json payload (codes "state.powerOn")) [
        | none ↦ s'
        | some new_state ↦ record s' { current_power_on_state = new_state }
      ]

  -- `prvIncomingPublishUpdateDeltaCallback`
  unfoldable pub update_delta : List ℕ → Shadow → Shadow
  update_delta payload s =
      if json.validate payload
      then elim (number_at json payload (codes "version")) [
        | none ↦ s
        | some version ↦ newer_delta payload version s
      ]
      else s

  -- The state that a response reports, or the one before.
  unfoldable pub accepted_state : List ℕ → ℕ → ℕ
  accepted_state payload reported = elim (number_at json payload (codes "state.reported.powerOn")) [
    | none ↦ reported
    | some state ↦ state
  ]

  -- `prvIncomingPublishUpdateAcceptedCallback`
  unfoldable pub update_accepted : List ℕ → Shadow → Shadow
  update_accepted payload s =
      if is_response json s.client_token payload
      then record s {
        reported_power_on_state = accepted_state payload s.reported_power_on_state;
        notifications = s.notifications + 1;
      }
      else s

  -- `prvIncomingPublishUpdateRejectedCallback`; the error code is only logged.
  unfoldable pub update_rejected : List ℕ → Shadow → Shadow
  update_rejected payload s =
      if is_response json s.client_token payload
      then record s { notifications = s.notifications + 1 }
      else s

-- Where the loop of `vShadowDeviceTask` stands: before the comparison of the states; before a report
-- is created, published, and responded to; behind a wait that timed out; and before the token is
-- cleared.
pub data Point : Type 0 where
  checking creating publishing waiting timed_out clearing : Point

-- The task, with the content of `pcUpdateDocument`, and of the documents that it has handed to
-- `MQTTAgent_Publish`, the last one first.
pub record Device : Type 0 where
  pub point : Point
  pub shadow : Shadow
  pub document : List ℕ
  pub published : List (List ℕ)

-- The comparison; the ping of the other branch is not seen here.
unfoldable pub check_state : Device → Device
check_state d =
    if d.shadow.current_power_on_state == d.shadow.reported_power_on_state
    then d
    else record d { point = creating }

-- The token, for a tick count, and the document.
unfoldable pub create_report : ℕ → Device → Device
create_report ticks d =
    let token = ticks % 1000000 in
    record d {
      point = publishing;
      shadow = record (d.shadow) { client_token = token };
      document = update_document d.shadow.current_power_on_state token;
    }

-- `MQTTAgent_Publish`, with whether it returns `MQTTSuccess`.
unfoldable pub publish_report : Bool → Device → Device
publish_report queued d =
    if queued
    then record d { point = waiting; published = d.document ∷ d.published }
    else record d { point = clearing }

-- `ulTaskNotifyTake` with a notification.
unfoldable pub take_notification : Device → Device
take_notification d = record d {
  point = clearing;
  shadow = record (d.shadow) { notifications = d.shadow.notifications - 1 };
}

-- `ulTaskNotifyTake` without one in time.
unfoldable pub time_out : Device → Device
time_out d = record d { point = timed_out }

-- The reported state is forgotten.
unfoldable pub forget_state : Device → Device
forget_state d = record d {
  point = clearing;
  shadow = record (d.shadow) { reported_power_on_state = invalid_power_on_state };
}

-- The token is cleared, and the task sleeps.
unfoldable pub clear_token : Device → Device
clear_token d = record d { point = checking; shadow = record (d.shadow) { client_token = 0 } }

unfoldable pub on_shadow : (Shadow → Shadow) → Device → Device
on_shadow f d = record d { shadow = f d.shadow }

module _ (json : Json) where
  -- A step of the task, or a callback, which the task of the agent may call at any time.
  pub data Step (c d : Device) : Type 0 where
    checks : c.point ≡ checking → d ≡ check_state c → Step c d
    creates : (ticks : ℕ) → c.point ≡ creating → d ≡ create_report ticks c → Step c d
    publishes : (queued : Bool) → c.point ≡ publishing → d ≡ publish_report queued c → Step c d
    takes :
        (n : ℕ)
        → c.point ≡ waiting
        → c.shadow.notifications ≡ n + 1
        → d ≡ take_notification c
        → Step c d
    times_out : c.point ≡ waiting → c.shadow.notifications ≡ 0 → d ≡ time_out c → Step c d
    forgets : c.point ≡ timed_out → d ≡ forget_state c → Step c d
    clears : c.point ≡ clearing → d ≡ clear_token c → Step c d
    delta_received : (payload : List ℕ) → d ≡ on_shadow (update_delta json payload) c → Step c d
    accepted_received :
        (payload : List ℕ) → d ≡ on_shadow (update_accepted json payload) c → Step c d
    rejected_received :
        (payload : List ℕ) → d ≡ on_shadow (update_rejected json payload) c → Step c d

  pub data Reach (c : Device) : Device → Type 0 where
    here : Reach c c
    next : {d e : Device} → Reach c d → Step d e → Reach c e

-- The task behind its subscription.
abbrev pub started : List ℕ → Device
started document = record {
  point = checking;
  shadow = initial;
  document = document;
  published = [];
}
