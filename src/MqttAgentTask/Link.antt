-- ===== src/MqttAgentTask/Link.antt =====
-- The order in which the agent task uses its connection.
use core_mqtt_agent_demos.Prelude.{
  ◌∙◌, ℕ, zero, suc, ◌+◌, ◌≡◌, refl, Bool, true, false, Option, none, some, List, [], ◌∷◌, ◌++◌,
  if◌then◌else◌,
}
use core_mqtt_agent_demos.MqttAgentTask.Environment.{
  BackoffApi, BackoffStatus, backoff_success, retries_exhausted, SubscribeInfo, Event, attempted,
  delayed, options_set, socket_closed, status_reset, mqtt_connected, session_resumed, subscribed,
  command_looped, ota_suspended, Peer,
}
use core_mqtt_agent_demos.MqttAgentTask.Connect.{connect_from, socket_connect}
use core_mqtt_agent_demos.MqttAgentTask.Agent.{Build, Outcome, behind, connected_then}

-- The link to the broker: no socket; a connected socket; one with its options set; and an MQTT
-- connection on it.
pub data Link : Type 0 where
  closed opened configured established : Link

-- How a call changes the link, or `none` where it may not be made. The OTA demo may be suspended at
-- any time, and is not resumed.
unfoldable pub advance : Link → Event → Option Link
advance closed (attempted b) = some (if b then opened else closed)
advance closed (delayed ms) = some closed
advance opened options_set = some configured
advance configured status_reset = some configured
advance configured (mqtt_connected clean ok) = some (if ok then established else configured)
advance established (session_resumed present) = some established
advance established (subscribed infos) = some established
advance established command_looped = some established
advance established socket_closed = some closed
advance l ota_suspended = some l
advance l e = none

abbrev pub advance_some : Option Link → Event → Option Link
advance_some none e = none
advance_some (some l) e = advance l e

-- The link after a trace; `none` once a call was made that may not be.
unfoldable pub follow : Option Link → List Event → Option Link
follow l [] = l
follow l (e ∷ events) = follow (advance_some l e) events

pub follow-append :
    (l : Option Link) (xs ys : List Event) → follow l (xs ++ ys) ≡ follow (follow l xs) ys
unfolding follow
follow-append l [] ys = refl
follow-append l (e ∷ xs) ys = follow-append (advance_some l e) xs ys

-- A result of the attempts leads from a closed link to a connected socket, or leaves it closed.
abbrev Leads : Option (Bool × List Event) → Type 0
Leads none = Unit
Leads (some (connected, events)) =
    follow (some closed) events ≡ some (if connected then opened else closed)

-- One attempt, in front of a result of the others.
Leads-attempt :
    (up : Bool) (status : BackoffStatus) (delay : ℕ) (rest : Option (Bool × List Event))
    → Leads rest
    → Leads (
        if up then some (true, attempted true ∷ []) else elim status [
          | backoff_success ↦ elim rest [
            | none ↦ none
            | some (connected, events) ↦
                some (connected, attempted false ∷ (delayed delay ∷ events))
          ]
          | retries_exhausted ↦ some (false, attempted false ∷ [])
        ])
unfolding follow advance
Leads-attempt true status delay rest h = refl
Leads-attempt false backoff_success delay none h = tt
Leads-attempt false backoff_success delay (some (connected, events)) h = h
Leads-attempt false retries_exhausted delay rest h = refl

-- The same behind the options of the socket.
abbrev pub Settles : Option (Bool × List Event) → Type 0
Settles none = Unit
Settles (some (connected, events)) =
    follow (some closed) events ≡ some (if connected then configured else closed)

with_options :
    (events : List Event)
    → follow (some closed) events ≡ some opened
    → follow (some closed) (events ++ (options_set ∷ [])) ≡ some configured
unfolding follow advance
with_options events h = rw (follow-append (some closed) events (options_set ∷ []), h) refl

-- The calls of an outcome are in order, and if the asserts held, the link carries MQTT.
abbrev pub Keeps : Link → Outcome → Type 0
Keeps l (held, infos, events) =
    (l' : Link) × (follow (some l) events ≡ some l') × (held ≡ true → l' ≡ established)

pub Keeps-behind :
    (l m : Link) (before : List Event) (next : Outcome)
    → follow (some l) before ≡ some m
    → Keeps m next
    → Keeps l (behind before next)
Keeps-behind l m before next h k = (k.0, follow-append (some l) before (next.2) ∙ (rw h k.1), k.2)

-- An assert that fails before any call.
pub Keeps-halted : (l : Link) (infos : List SubscribeInfo) → Keeps l (false, infos, [])
unfolding follow
Keeps-halted l infos = (l, refl, λ h. absurd cc)

module _ (api : BackoffApi) where
  open api use {Context, next}

  Leads-connect_from :
      (fuel : ℕ) (peer : Peer) (n : ℕ) (b : Context) → Leads (connect_from api fuel peer n b)
  unfolding connect_from
  Leads-connect_from zero peer n b = tt
  Leads-connect_from (suc fuel) peer n b =
      Leads-attempt (peer.connects n) ((next b (peer.random n)).1) ((next b (peer.random n)).2) _
        (Leads-connect_from fuel peer (n + 1) ((next b (peer.random n)).0))

  -- What `prvSocketConnect` does to a closed link.
  Settles-socket_connect : (peer : Peer) → Settles (socket_connect api peer)
  unfolding socket_connect
  Settles-socket_connect peer =
      by_result (connect_from api 6 peer 0 _) (Leads-connect_from 6 peer 0 _)
    where
      by_result :
          (r : Option (Bool × List Event))
          → Leads r
          → Settles (elim r [
            | none ↦ none
            | some (c, e) ↦ some (c, (if c then e ++ (options_set ∷ []) else e))
          ])
      by_result none l = tt
      by_result (some (true, e)) l = with_options e l
      by_result (some (false, e)) l = l

  pub Keeps-connected_then :
      (build : Build) (peer : Peer) (infos : List SubscribeInfo) (next : Outcome)
      → Keeps configured next
      → Keeps closed (connected_then api build peer infos next)
  unfolding connected_then
  Keeps-connected_then build peer infos next k =
      by_result (socket_connect api peer) (Settles-socket_connect peer)
    where
      by_result :
          (r : Option (Bool × List Event))
          → Settles r
          → Keeps closed (elim r [
            | none ↦ (false, infos, [])
            | some (connected, events) ↦
                behind events (if connected then next else (false, infos, []))
          ])
      by_result none h = Keeps-halted closed infos
      by_result (some (true, e)) h = Keeps-behind closed configured e next h k
      by_result (some (false, e)) h =
          Keeps-behind closed closed e (false, infos, []) h (Keeps-halted closed infos)
