-- ===== src/OtaDemo/Callback.antt =====
-- The callback of the OTA agent, `otaAppCallback`, and how the demo is suspended and resumed.
use core_mqtt_agent_demos.Prelude.{
  ℕ, zero, suc, ◌+◌, Bool, true, false, not, ◌&&◌, Option, none, some, List, [], ◌∷◌, if◌then◌else◌,
}
use core_mqtt_agent_demos.OtaDemo.{EventBuffer, event_buffer_free}

-- `OtaJobEvent_t`, as far as it is handled. A processed event has its buffer, `none` for `NULL`.
pub data JobEvent : Type 0 where
  activate fail start_test self_test_failed unhandled : JobEvent
  processed : Option ℕ → JobEvent

-- The calls of the OTA library.
pub data OtaCall : Type 0 where
  -- `OTA_ActivateNewImage`, `OTA_Shutdown( 0, 1 )` and `OTA_SetImageState( OtaImageStateAccepted )`
  new_image_activated shut_down image_accepted : OtaCall
  -- `OTA_Suspend` and `OTA_Resume`
  suspended resumed : OtaCall

-- `otaAppCallback`, with the result of `xSemaphoreTake`: the buffers and the calls, or `none` if the
-- assert on the buffer fails.
unfoldable pub ota_app_callback :
    Bool → JobEvent → List EventBuffer → Option (List EventBuffer × List OtaCall)
ota_app_callback taken activate buffers = some (buffers, new_image_activated ∷ (shut_down ∷ []))
ota_app_callback taken fail buffers = some (buffers, [])
ota_app_callback taken start_test buffers = some (buffers, image_accepted ∷ [])
ota_app_callback taken self_test_failed buffers = some (buffers, shut_down ∷ [])
ota_app_callback taken unhandled buffers = some (buffers, [])
ota_app_callback taken (processed none) buffers = none
ota_app_callback taken (processed (some i)) buffers = some (event_buffer_free taken buffers i, [])

-- What is told apart of `OTA_GetState`.
pub data AgentState : Type 0 where
  is_suspended is_stopped is_active : AgentState

abbrev pub equals_suspended : AgentState → Bool
equals_suspended is_suspended = true
equals_suspended is_stopped = false
equals_suspended is_active = false

abbrev pub equals_stopped : AgentState → Bool
equals_stopped is_suspended = false
equals_stopped is_stopped = true
equals_stopped is_active = false

-- The rounds of a waiting loop from the n-th on, with fuel: how many delays there are.
unfoldable pub wait_while : (ℕ → Bool) → ℕ → ℕ → Option ℕ
wait_while goes_on zero n = none
wait_while goes_on (suc fuel) n =
    let rest = wait_while goes_on fuel (n + 1) in if goes_on n then rest else some n

-- `vSuspendOTACodeSigningDemo`. `before` are the two readings of `OTA_GetState` of its condition, the
-- second of which is made if the first is not suspended, and `first n` and `second n` those of the
-- n-th test of its loop. The result has the calls and the number of delays, `none` if the fuel runs
-- out.
unfoldable pub suspend_demo :
    AgentState × AgentState → (ℕ → AgentState) → (ℕ → AgentState) → ℕ → Option (List OtaCall × ℕ)
suspend_demo before first second fuel =
    let waited =
      wait_while (λ n. not (equals_suspended (first n)) && not (equals_stopped (second n))) fuel
        0 in
    if not (equals_suspended before.0) && not (equals_stopped before.1)
    then elim waited [ none ↦ none | some delays ↦ some (suspended ∷ [], delays) ]
    else some ([], 0)

-- `vResumeOTACodeSigningDemo`, likewise.
unfoldable pub resume_demo : AgentState → (ℕ → AgentState) → ℕ → Option (List OtaCall × ℕ)
resume_demo before states fuel =
    let waited = wait_while (λ n. equals_suspended (states n)) fuel 0 in
    if equals_suspended before
    then elim waited [ none ↦ none | some delays ↦ some (resumed ∷ [], delays) ]
    else some ([], 0)
