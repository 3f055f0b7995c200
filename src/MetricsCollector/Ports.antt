-- ===== src/MetricsCollector/Ports.antt =====
-- The lists of open ports.
use core_mqtt_agent_demos.Prelude.{
  ℕ, zero, suc, ◌≡◌, ◌≤◌, refl, ap, Bool, true, false, Option, none, some, List, [], ◌∷◌, ◌++◌,
  ◌==◌, take, drop, length, arith, min,
}
use core_mqtt_agent_demos.MetricsCollector.{
  Status, success, collection_failed, PortList, Metrics, memcpy, copy_amount, get_open_tcp_ports,
  get_open_udp_ports,
}

-- Within both arrays `memcpy` replaces the front of its target.
pub memcpy-take-drop :
    (target source : List ℕ) (n : ℕ)
    → n ≤ length target
    → n ≤ length source
    → memcpy target source n ≡ take n source ++ drop n target
unfolding memcpy
memcpy-take-drop target source zero h k = refl
memcpy-take-drop [] source (suc n) h k = absurd (omega arith)
memcpy-take-drop (x ∷ target) [] (suc n) h k = absurd (omega arith)
memcpy-take-drop (x ∷ target) (y ∷ source) (suc n) h k =
    ap (λ l. y ∷ l) (memcpy-take-drop target source n (omega arith) (omega arith))

pub copy_amount-min :
    (array_length count : ℕ) → copy_amount array_length count ≡ min array_length count
unfolding copy_amount
copy_amount-min array_length count = ground arith

-- What the two functions on ports do, given the list that they read: with a failed reading nothing
-- changes and the status says so; without an array the number is the count of the open ports; and
-- with one, the first ports, as many as there are and fit, replace the front of the array, the rest
-- of the array stays, and the number is how many were copied.
pub ports_result : Bool → PortList → Option (List ℕ) → ℕ → ℕ → Status × Option (List ℕ) × ℕ
ports_result false list array array_length num = (collection_failed, array, num)
ports_result true list none array_length num = (success, none, list.count)
ports_result true list (some target) array_length num =
    let n = min array_length list.count in (success, some (take n list.ports ++ drop n target), n)

-- The array that a caller passes holds the length that the caller states.
abbrev pub Holds {ℓ} : {A : Type ℓ} → ℕ → Option (List A) → Type 0
Holds n none = Unit
Holds n (some target) = n ≤ length target

-- `eGetOpenTcpPorts`, where the arrays hold the lengths stated with them: a failed reading gives
-- `eMetricsCollectorCollectionFailed` and changes nothing; without an array the number is the count
-- of the open TCP ports; with one, the first ports, as many as there are and fit, replace the front
-- of the array, the rest of it stays, and the number is how many were copied.
pub get_open_tcp_ports_lem :
    (metrics_status : ℕ) (m : Metrics) (array : Option (List ℕ)) (array_length num : ℕ)
    → m.tcp_port_list.count ≤ length m.tcp_port_list.ports
    → Holds array_length array
    → get_open_tcp_ports (metrics_status, m) array array_length (some num)
      ≡ some (ports_result (metrics_status == 0) m.tcp_port_list array array_length num)
unfolding get_open_tcp_ports ports_result
get_open_tcp_ports_lem metrics_status m none array_length num counted holds = ground arith
get_open_tcp_ports_lem metrics_status m (some target) array_length num counted holds = ground (
  arith,
  copy_amount-min array_length m.tcp_port_list.count,
  memcpy-take-drop target m.tcp_port_list.ports (min array_length m.tcp_port_list.count),
)

-- `eGetOpenUdpPorts` does the same with the UDP ports.
pub get_open_udp_ports_lem :
    (metrics_status : ℕ) (m : Metrics) (array : Option (List ℕ)) (array_length num : ℕ)
    → m.udp_port_list.count ≤ length m.udp_port_list.ports
    → Holds array_length array
    → get_open_udp_ports (metrics_status, m) array array_length (some num)
      ≡ some (ports_result (metrics_status == 0) m.udp_port_list array array_length num)
unfolding get_open_udp_ports ports_result
get_open_udp_ports_lem metrics_status m none array_length num counted holds = ground arith
get_open_udp_ports_lem metrics_status m (some target) array_length num counted holds = ground (
  arith,
  copy_amount-min array_length m.udp_port_list.count,
  memcpy-take-drop target m.udp_port_list.ports (min array_length m.udp_port_list.count),
)

-- The ports of one protocol can be read: the list has as many as it counts, and the array as much
-- room as is stated.
abbrev pub CanRead : PortList → Option (List ℕ) → ℕ → Type 0
CanRead list array array_length = (list.count ≤ length list.ports) × Holds array_length array

-- `eGetOpenTcpPorts` and `eGetOpenUdpPorts`, each on the ports of its protocol and on every branch:
-- a failed reading, no array, and an array that is filled with as many ports as there are and fit.
pub get_open_ports_lem :
    (metrics_status : ℕ) (m : Metrics) (array : Option (List ℕ)) (array_length num : ℕ)
    → CanRead m.tcp_port_list array array_length
    → CanRead m.udp_port_list array array_length
    → (get_open_tcp_ports (metrics_status, m) array array_length (some num)
        ≡ some (ports_result (metrics_status == 0) m.tcp_port_list array array_length num))
      × (get_open_udp_ports (metrics_status, m) array array_length (some num)
          ≡ some (ports_result (metrics_status == 0) m.udp_port_list array array_length num))
get_open_ports_lem metrics_status m array array_length num tcp udp = (
  get_open_tcp_ports_lem metrics_status m array array_length num tcp.0 tcp.1,
  get_open_udp_ports_lem metrics_status m array array_length num udp.0 udp.1,
)
