-- ===== src/MqttAgentTask/Order.antt =====
-- `prvMQTTAgentTask` and `prvConnectToMQTTBroker` use the connection in order.
use core_mqtt_agent_demos.Prelude.{
  ◌≡◌, refl, subst, sym, Bool, true, false, not, ◌&&◌, some, List, [], ◌∷◌, ◌++◌, if◌then◌else◌,
  arith, ltb, take, append-nil,
}
use core_mqtt_agent_demos.SubscriptionManager.{Table, max_subscriptions}
use core_mqtt_agent_demos.MqttAgentTask.Environment.{
  BackoffApi, MqttStatus, mqtt_success, is_success, SubscribeInfo, Event, status_reset,
  mqtt_connected, session_resumed, subscribed, socket_closed, ota_suspended, ota_resumed, Peer,
}
use core_mqtt_agent_demos.MqttAgentTask.Connect.{socket_disconnect}
use core_mqtt_agent_demos.MqttAgentTask.Session.{collect, handle_resubscribe, mqtt_connect}
use core_mqtt_agent_demos.MqttAgentTask.Agent.{
  Build, Outcome, behind, connected_then, mqtt_connected_then, reconnect, connect_to_mqtt_broker,
}
use core_mqtt_agent_demos.MqttAgentTask.Link.{
  Link, closed, configured, established, advance, follow, Keeps, Keeps-behind, Keeps-halted,
  Keeps-connected_then,
}

follow-handle_resubscribe :
    (peer : Peer) (table : Table) (infos : List SubscribeInfo)
    → follow (some established) (handle_resubscribe peer table infos).2 ≡ some established
unfolding handle_resubscribe follow advance
follow-handle_resubscribe peer table infos =
    let (infos', num) = collect table infos 0 0 max_subscriptions in
    by_test (ltb 0 num) (take num infos') infos' (peer.subscribes (take num infos'))
  where
    by_test :
        (b : Bool) (sent infos' : List SubscribeInfo) (status : MqttStatus)
        → follow (some established) (
            (if◌then◌else◌ {A = MqttStatus × List SubscribeInfo × List Event} b
              (status, infos', subscribed sent ∷ [])
              (mqtt_success, infos', [])).2)
          ≡ some established
    by_test true sent infos' status = refl
    by_test false sent infos' status = refl

-- The calls of `prvMQTTConnect` on a configured link, and its status.
abbrev Connects : MqttStatus × List SubscribeInfo × List Event → Type 0
Connects (status, infos, events) = Keeps configured (is_success status, infos, events)

Connects-mqtt_connect :
    (peer : Peer) (clean_session : Bool) (table : Table) (infos : List SubscribeInfo)
    → Connects (mqtt_connect peer clean_session table infos)
unfolding mqtt_connect follow advance
Connects-mqtt_connect peer clean_session table infos =
    let (status, session_present) = peer.mqtt_connects clean_session in
    let status' = peer.resumes session_present in
    let (status'', infos', events) = handle_resubscribe peer table infos in
    by_tests (is_success status) (not clean_session) (is_success status' && not session_present)
      session_present status status' status'' infos' events refl
      (follow-handle_resubscribe peer table infos)
  where
    by_tests :
        (connected asked lost session_present : Bool) (status status' status'' : MqttStatus)
        (infos' : List SubscribeInfo) (events : List Event)
        → is_success status ≡ connected
        → follow (some established) events ≡ some established
        → Connects (
            if connected && asked
            then (if lost
                then (
                  status'',
                  infos',
                  mqtt_connected clean_session connected
                      ∷ (session_resumed session_present ∷ events),
                )
                else (
                  status',
                  infos,
                  mqtt_connected clean_session connected ∷ (session_resumed session_present ∷ []),
                ))
            else (status, infos, mqtt_connected clean_session connected ∷ []))
    by_tests true true true present s s' s'' infos' events h l = (established, l, λ _. refl)
    by_tests true true false present s s' s'' infos' events h l = (established, refl, λ _. refl)
    by_tests true false lost present s s' s'' infos' events h l = (established, refl, λ _. refl)
    by_tests false asked lost present s s' s'' infos' events h l =
        (configured, refl, λ ok. absurd cc)

-- Nothing behind a trace.
Keeps-end :
    (l : Link) (held : Bool) (infos : List SubscribeInfo) (events : List Event)
    → Keeps l (held, infos, events)
    → Keeps l (held, infos, events ++ (if held then [] else []))
Keeps-end l true infos events k = (k.0, rw (append-nil events) k.1, k.2)
Keeps-end l false infos events k = (k.0, rw (append-nil events) k.1, k.2)

module _ (api : BackoffApi) (build : Build) where
  Keeps-mqtt_connected_then :
      (peer : Peer) (clean_session : Bool) (table : Table) (infos : List SubscribeInfo)
      → Keeps configured (mqtt_connected_then api build peer clean_session table infos [])
  unfolding mqtt_connected_then
  Keeps-mqtt_connected_then peer clean_session table infos =
      let (status, infos', events) = mqtt_connect peer clean_session table infos in
      Keeps-end configured (is_success status) infos' events
        (Connects-mqtt_connect peer clean_session table infos)

  pub Keeps-reconnect :
      (peer : Peer) (mqtt_status : MqttStatus) (table : Table) (infos : List SubscribeInfo)
      → is_success mqtt_status ≡ false
      → Keeps established (reconnect api build peer mqtt_status table infos)
  unfolding reconnect socket_disconnect follow advance
  Keeps-reconnect peer mqtt_status table infos h =
      by_builds build.ota_demo ((socket_disconnect build.use_tls peer).0) _ none_resumed
    where
      none_resumed :
          (if build.ota_demo then (if is_success mqtt_status then ota_resumed ∷ [] else []) else [])
          ≡ []
      none_resumed = ground arith

      connected_again : List Event → Outcome
      connected_again resumption = connected_then api build peer infos (
          behind (status_reset ∷ [])
            (mqtt_connected_then api build peer false table infos resumption))

      again :
          (resumption : List Event) → resumption ≡ [] → Keeps closed (connected_again resumption)
      again resumption e =
          Keeps-connected_then api build peer infos
            (behind (status_reset ∷ [])
              (mqtt_connected_then api build peer false table infos resumption))
            (Keeps-behind configured configured (status_reset ∷ [])
              (mqtt_connected_then api build peer false table infos resumption) refl
              (subst
                (λ r. Keeps configured (mqtt_connected_then api build peer false table infos r))
                (sym e) (Keeps-mqtt_connected_then peer false table infos)))

      by_builds :
          (ota disconnected : Bool) (resumption : List Event)
          → resumption ≡ []
          → Keeps established (
              behind ((if ota then ota_suspended ∷ [] else []) ++ (socket_closed ∷ [])) (
                if disconnected
                then connected_then api build peer infos (
                    behind
                      (status_reset ∷ [])
                      (mqtt_connected_then api build peer false table infos resumption))
                else (false, infos, [])))
      by_builds true true resumption e =
          Keeps-behind established closed (ota_suspended ∷ (socket_closed ∷ []))
            (connected_again resumption) refl (again resumption e)
      by_builds false true resumption e =
          Keeps-behind established closed (socket_closed ∷ []) (connected_again resumption) refl
            (again resumption e)
      by_builds true false resumption e = (closed, refl, λ held. absurd cc)
      by_builds false false resumption e = (closed, refl, λ held. absurd cc)

  -- `prvConnectToMQTTBroker`, from a closed link, makes its calls in order, and if all its asserts
  -- hold, the link carries MQTT at the end.
  pub connect_to_mqtt_broker-Keeps :
      (peer : Peer) (init_status : MqttStatus) (table : Table) (infos : List SubscribeInfo)
      → Keeps closed (connect_to_mqtt_broker api build peer init_status table infos)
  unfolding connect_to_mqtt_broker
  connect_to_mqtt_broker-Keeps peer init_status table infos =
      Keeps-connected_then api build peer infos _ (by_status (is_success init_status))
    where
      by_status :
          (b : Bool)
          → Keeps configured (
              if b
              then mqtt_connected_then api build peer true table infos []
              else (false, infos, []))
      by_status true = Keeps-mqtt_connected_then peer true table infos
      by_status false = Keeps-halted configured infos
