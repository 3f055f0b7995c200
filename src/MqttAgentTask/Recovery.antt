-- ===== src/MqttAgentTask/Recovery.antt =====
-- The task comes through broken connections, as long as they can be set up again.
use core_mqtt_agent_demos.Prelude.{
  ◌∙◌, ℕ, zero, suc, ◌+◌, ◌≡◌, refl, ap, subst, Bool, true, false, not, some, List, [], ◌∷◌,
  if◌then◌else◌, ltb, take, arith, Bool-cases, inl, inr,
}
use core_mqtt_agent_demos.SubscriptionManager.{Table, max_subscriptions}
use core_mqtt_agent_demos.MqttAgentTask.Environment.{
  BackoffApi, MqttStatus, mqtt_success, is_success, SubscribeInfo, Event, Peer,
}
use core_mqtt_agent_demos.MqttAgentTask.Connect.{
  socket_connect, socket_disconnect, retry_max_attempts,
}
use core_mqtt_agent_demos.MqttAgentTask.Retry.{attempts, succeeds, socket_connect-attempts}
use core_mqtt_agent_demos.MqttAgentTask.Session.{collect, handle_resubscribe, mqtt_connect}
use core_mqtt_agent_demos.MqttAgentTask.Agent.{
  finished, Build, connected_then, mqtt_connected_then, reconnect, agent_task,
}

-- A connection that can be set up: the old socket closes, an attempt succeeds, and the broker
-- accepts the connection, the session and each SUBSCRIBE.
pub record Recovers (peer : Peer) : Type 0 where
  pub closing : peer.closes ≡ true
  pub connecting : succeeds (attempts peer 0 retry_max_attempts) ≡ true
  pub accepted : is_success (peer.mqtt_connects false).0 ≡ true
  pub resumed : (present : Bool) → is_success (peer.resumes present) ≡ true
  pub subscribing : (infos : List SubscribeInfo) → is_success (peer.subscribes infos) ≡ true

is_success-handle_resubscribe :
    (peer : Peer) (table : Table) (infos : List SubscribeInfo)
    → Recovers peer
    → is_success (handle_resubscribe peer table infos).0 ≡ true
unfolding handle_resubscribe
is_success-handle_resubscribe peer table infos r =
    let (infos', num) = collect table infos 0 0 max_subscriptions in
    by_test (ltb 0 num) (take num infos') infos'
  where
    by_test :
        (b : Bool) (sent infos' : List SubscribeInfo)
        → is_success
            (if◌then◌else◌ {A = MqttStatus × List SubscribeInfo × List Event} b
              (peer.subscribes sent, infos', Event.subscribed sent ∷ [])
              (mqtt_success, infos', [])).0
          ≡ true
    by_test true sent infos' = r.subscribing sent
    by_test false sent infos' = refl

is_success-mqtt_connect :
    (peer : Peer) (table : Table) (infos : List SubscribeInfo)
    → Recovers peer
    → is_success (mqtt_connect peer false table infos).0 ≡ true
unfolding mqtt_connect
is_success-mqtt_connect peer table infos r =
    let again = is_success-handle_resubscribe peer table infos r in
    let present = (peer.mqtt_connects false).1 in
    elim (Bool-cases (not present)) [
      | inl lost ↦ rw (r.accepted, r.resumed present, lost) again
      | inr kept ↦ rw (r.accepted, r.resumed present, kept) (r.resumed present)
    ]

module _ (api : BackoffApi) (build : Build) where
  held-reconnect :
      (peer : Peer) (mqtt_status : MqttStatus) (table : Table) (infos : List SubscribeInfo)
      → Recovers peer
      → (reconnect api build peer mqtt_status table infos).0 ≡ true
  unfolding reconnect connected_then mqtt_connected_then socket_disconnect
  held-reconnect peer mqtt_status table infos r =
      let (events, run, _, _, _, _) = socket_connect-attempts api peer in
      let closed : (if build.use_tls then true else peer.closes) ≡ true =
        ground (arith, r.closing) in
      let connected : socket_connect api peer ≡ some (true, events) =
        run ∙ ap (λ b. some (b, events)) r.connecting in
      rw (closed, connected_then, connected) (is_success-mqtt_connect peer table infos r)

  -- `prvMQTTAgentTask` passes all its asserts and its loop ends, within `rounds + 1` rounds, if the
  -- command loop reports success in the last of these, and every connection can be set up again:
  -- the old socket closes, one of the 6 attempts succeeds, and the broker accepts the connection,
  -- the session and each SUBSCRIBE.
  pub agent_task-finished :
      (rounds : ℕ) (command_loop : ℕ → MqttStatus) (peers : ℕ → Peer) (tables : ℕ → Table) (n : ℕ)
      (infos : List SubscribeInfo)
      → ((i : ℕ) → Recovers (peers i))
      → is_success (command_loop (n + rounds)) ≡ true
      → (agent_task api build (suc rounds) command_loop peers tables n infos).0 ≡ finished
  unfolding agent_task
  agent_task-finished zero command_loop peers tables n infos r last =
      let e : n + 0 ≡ n = omega arith in
      rw (subst (λ k. is_success (command_loop k) ≡ true) e last) refl
  agent_task-finished (suc rounds) command_loop peers tables n infos r last =
      let e : n + suc rounds ≡ n + 1 + rounds = omega arith in
      let held = held-reconnect (peers n) (command_loop n) (tables n) infos (r n) in
      let rest =
        agent_task-finished rounds command_loop peers tables (n + 1)
          (reconnect api build (peers n) (command_loop n) (tables n) infos).1 r
          (subst (λ k. is_success (command_loop k) ≡ true) e last) in
      elim (Bool-cases (is_success (command_loop n))) [
        | inl over ↦ rw over refl
        | inr failed ↦ rw (failed, held) rest
      ]
