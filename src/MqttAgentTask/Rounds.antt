-- ===== src/MqttAgentTask/Rounds.antt =====
-- All rounds of `prvMQTTAgentTask`.
use core_mqtt_agent_demos.Prelude.{
  ◌∙◌, ℕ, zero, suc, ◌+◌, ◌≡◌, refl, Bool, true, false, Option, none, some, List, [], ◌∷◌, ◌++◌,
  if◌then◌else◌,
}
use core_mqtt_agent_demos.SubscriptionManager.{Table}
use core_mqtt_agent_demos.MqttAgentTask.Environment.{
  BackoffApi, MqttStatus, is_success, SubscribeInfo, Event, command_looped, ota_resumed,
  socket_closed, Peer,
}
use core_mqtt_agent_demos.MqttAgentTask.Connect.{socket_disconnect}
use core_mqtt_agent_demos.MqttAgentTask.Agent.{
  End, finished, halted, running, Build, Outcome, reconnect, agent_task,
}
use core_mqtt_agent_demos.MqttAgentTask.Link.{
  Link, closed, opened, configured, established, advance, advance_some, follow, follow-append,
  Keeps,
}
use core_mqtt_agent_demos.MqttAgentTask.Order.{Keeps-reconnect}

-- The calls of the task are in order. Where its loop has ended, the socket is closed, and where it
-- still runs, the link carries MQTT.
abbrev pub InOrder : End × List Event → Type 0
InOrder (end, events) =
    (l : Link) × (follow (some established) events ≡ some l)
    × (end ≡ finished → l ≡ closed)
    × (end ≡ running → l ≡ established)

InOrder-round :
    (succeeded : Bool) (outcome : Outcome) (rest : End × List Event)
    → (succeeded ≡ false → Keeps established outcome)
    → InOrder rest
    → InOrder (
        if succeeded
        then (finished, command_looped ∷ (socket_closed ∷ []))
        else if outcome.0
        then (rest.0, command_looped ∷ (outcome.2 ++ rest.1))
        else (halted, command_looped ∷ outcome.2))
unfolding follow advance
InOrder-round true outcome rest k r = (closed, refl, λ _. refl, λ h. absurd cc)
InOrder-round false (true, infos, events) rest k r =
    let (m, h, at) = k refl in
    (r.0, follow-append (some established) events rest.1 ∙ rw (h, at refl) r.1, r.2, r.3)
InOrder-round false (false, infos, events) rest k r =
    let (m, h, at) = k refl in (m, h, λ e. absurd cc, λ e. absurd cc)

module _ (api : BackoffApi) (build : Build) where
  -- `prvMQTTAgentTask`, from an established link and through any number of rounds, makes its calls
  -- in order: it runs the command loop only on an MQTT connection, closes the socket before it
  -- connects it again, sets `connectStatus` and calls `MQTT_Connect` only on a socket that is
  -- connected and has its options, and resumes a session only after `MQTT_Connect` succeeded. When
  -- its loop has ended the socket is closed; where it still runs, the link carries MQTT.
  pub agent_task-InOrder :
      (fuel : ℕ) (command_loop : ℕ → MqttStatus) (peers : ℕ → Peer) (tables : ℕ → Table) (n : ℕ)
      (infos : List SubscribeInfo)
      → InOrder (agent_task api build fuel command_loop peers tables n infos)
  unfolding agent_task follow socket_disconnect
  agent_task-InOrder zero command_loop peers tables n infos =
      (established, refl, λ h. absurd cc, λ _. refl)
  agent_task-InOrder (suc fuel) command_loop peers tables n infos =
      let outcome = reconnect api build (peers n) (command_loop n) (tables n) infos in
      InOrder-round (is_success (command_loop n)) outcome _
        (Keeps-reconnect api build (peers n) (command_loop n) (tables n) infos)
        (agent_task-InOrder fuel command_loop peers tables (n + 1) outcome.1)

-- Whether a trace has a call of `vResumeOTACodeSigningDemo`.
pub resumes_ota : List Event → Bool
resumes_ota [] = false
resumes_ota (ota_resumed ∷ events) = true
resumes_ota (_ ∷ events) = resumes_ota events

advance-ota_resumed : (l : Option Link) → advance_some l ota_resumed ≡ none
unfolding advance
advance-ota_resumed none = refl
advance-ota_resumed (some closed) = refl
advance-ota_resumed (some opened) = refl
advance-ota_resumed (some configured) = refl
advance-ota_resumed (some established) = refl

follow-none : (events : List Event) → follow none events ≡ none
unfolding follow
follow-none [] = refl
follow-none (e ∷ events) = follow-none events

not-resumes_ota :
    (l : Option Link) (events : List Event) (l' : Link)
    → follow l events ≡ some l'
    → resumes_ota events ≡ false
unfolding follow resumes_ota
not-resumes_ota l [] l' h = refl
not-resumes_ota l (ota_resumed ∷ events) l' h =
    let stuck = follow-none events in let e = advance-ota_resumed l in absurd (cc)
not-resumes_ota l (e ∷ events) l' h = not-resumes_ota (advance_some l e) events l' h

module _ (api : BackoffApi) (build : Build) where
  -- `prvMQTTAgentTask` never calls `vResumeOTACodeSigningDemo`, in any build, whatever the network,
  -- the broker and the command loop do, and through any number of rounds.
  pub agent_task-resumes_ota :
      (fuel : ℕ) (command_loop : ℕ → MqttStatus) (peers : ℕ → Peer) (tables : ℕ → Table) (n : ℕ)
      (infos : List SubscribeInfo)
      → resumes_ota (agent_task api build fuel command_loop peers tables n infos).1 ≡ false
  agent_task-resumes_ota fuel command_loop peers tables n infos =
      let (l, h, _, _) = agent_task-InOrder api build fuel command_loop peers tables n infos in
      not-resumes_ota (some established) _ l h
