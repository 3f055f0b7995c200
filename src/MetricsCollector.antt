-- ===== src/MetricsCollector.antt =====
-- source/defender-tools/metrics_collector.c and its header: open ports and connections.
pub mod Ports
pub mod Connections
mod Tests
use core_mqtt_agent_demos.Prelude.{
  ℕ, zero, suc, ◌+◌, Bool, true, false, Option, none, some, List, [], ◌∷◌, ltb, ◌==◌, if◌then◌else◌,
  get_or, set,
}

-- `eMetricsCollectorStatus`
pub data Status : Type 0 where
  success bad_parameter collection_failed : Status

-- `NetworkStats_t`
pub record NetworkStats : Type 0 where
  pub bytes_received : ℕ
  pub bytes_sent : ℕ
  pub packets_received : ℕ
  pub packets_sent : ℕ

-- `Connection_t`
pub record Connection : Type 0 where
  pub local_ip : ℕ
  pub remote_ip : ℕ
  pub local_port : ℕ
  pub remote_port : ℕ

-- What is read of `MetricsType_t`, which the tcp_netstat utility of FreeRTOS+TCP fills: its traffic
-- counts, its lists of ports, and its list of TCP sockets, each list an array and its count.
pub record Traffic : Type 0 where
  pub byte_count : ℕ
  pub packet_count : ℕ

pub record PortList : Type 0 where
  pub count : ℕ
  pub ports : List ℕ

pub record TcpSocket : Type 0 where
  pub local_port : ℕ
  pub remote_ip : ℕ
  pub remote_port : ℕ

pub record SocketList : Type 0 where
  pub count : ℕ
  pub sockets : List TcpSocket

pub record Metrics : Type 0 where
  pub input : Traffic
  pub output : Traffic
  pub tcp_port_list : PortList
  pub udp_port_list : PortList
  pub tcp_socket_list : SocketList

-- What `vGetMetrics` returns and stores.
abbrev pub Reading : Type 0
Reading = ℕ × Metrics

abbrev pub no_stats : NetworkStats
no_stats = record { bytes_received = 0; bytes_sent = 0; packets_received = 0; packets_sent = 0 }

-- `eGetNetworkStats`. A pointer is `none` if it is `NULL`, and otherwise what it points to. The
-- result is `none` if the assert fails, and otherwise the status and what the pointer leads to.
pub get_network_stats : Reading → Option NetworkStats → Option (Status × NetworkStats)
get_network_stats reading none = none
get_network_stats (metrics_status, m) (some out) = some (
    if metrics_status == 0
    then (
      success,
      record no_stats {
        bytes_received = m.input.byte_count;
        packets_received = m.input.packet_count;
        bytes_sent = m.output.byte_count;
        packets_sent = m.output.packet_count;
      },
    )
    else (collection_failed, no_stats))

-- `memcpy` of `n` elements. What the source lacks is not copied, what the target lacks not written.
unfoldable pub memcpy : List ℕ → List ℕ → ℕ → List ℕ
memcpy target source zero = target
memcpy [] source (suc n) = []
memcpy (x ∷ target) [] (suc n) = x ∷ target
memcpy (x ∷ target) (y ∷ source) (suc n) = y ∷ memcpy target source n

-- `ulCopyAmount`: the count, limited to what fits.
pub copy_amount : ℕ → ℕ → ℕ
copy_amount array_length count = if ltb array_length count then array_length else count

-- `eGetOpenTcpPorts`. The result is `none` if the assert fails, and otherwise the status, the array
-- behind `pusOutTcpPortsArray` and the number behind `pulOutNumTcpOpenPorts`.
pub get_open_tcp_ports :
    Reading → Option (List ℕ) → ℕ → Option ℕ → Option (Status × Option (List ℕ) × ℕ)
get_open_tcp_ports reading array array_length none = none
get_open_tcp_ports (metrics_status, m) array array_length (some num) =
    let list = m.tcp_port_list in
    let amount = copy_amount array_length list.count in
    some (
      if metrics_status == 0
      then elim array [
        | none ↦ (success, none, list.count)
        | some target ↦ (success, some (memcpy target list.ports amount), amount)
      ]
      else (collection_failed, array, num))

-- `eGetOpenUdpPorts`, likewise.
pub get_open_udp_ports :
    Reading → Option (List ℕ) → ℕ → Option ℕ → Option (Status × Option (List ℕ) × ℕ)
get_open_udp_ports reading array array_length none = none
get_open_udp_ports (metrics_status, m) array array_length (some num) =
    let list = m.udp_port_list in
    let amount = copy_amount array_length list.count in
    some (
      if metrics_status == 0
      then elim array [
        | none ↦ (success, none, list.count)
        | some target ↦ (success, some (memcpy target list.ports amount), amount)
      ]
      else (collection_failed, array, num))

abbrev pub no_socket : TcpSocket
no_socket = record { local_port = 0; remote_ip = 0; remote_port = 0 }

-- What one round of the loop of `eGetEstablishedConnections` stores.
pub to_connection : ℕ → TcpSocket → Connection
to_connection ip socket = record {
  local_ip = ip;
  local_port = socket.local_port;
  remote_ip = socket.remote_ip;
  remote_port = socket.remote_port;
}

-- The loop from index `i`, with `rounds` of them left.
pub copy_connections : ℕ → List TcpSocket → List Connection → ℕ → ℕ → List Connection
copy_connections ip sockets target i zero = target
copy_connections ip sockets target i (suc rounds) =
    copy_connections ip sockets (set target i (to_connection ip (get_or sockets i no_socket)))
      (i + 1) rounds

-- `eGetEstablishedConnections`, with the address that `FreeRTOS_GetIPAddress` returns.
pub get_established_connections :
    Reading
    → ℕ
    → Option (List Connection)
    → ℕ
    → Option ℕ
    → Option (Status × Option (List Connection) × ℕ)
get_established_connections reading ip array array_length none = none
get_established_connections (metrics_status, m) ip array array_length (some num) =
    let list = m.tcp_socket_list in
    let amount = copy_amount array_length list.count in
    some (
      if metrics_status == 0
      then elim array [
        | none ↦ (success, none, list.count)
        | some target ↦ (success, some (copy_connections ip list.sockets target 0 amount), amount)
      ]
      else (collection_failed, array, num))
