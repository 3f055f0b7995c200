-- ===== src/MetricsCollector/Tests.antt =====
-- Runs of the metrics collector, and its theorems at such inputs.
use core_mqtt_agent_demos.Prelude.{◌≡◌, refl, true, some, [], ◌∷◌, arith}
use core_mqtt_agent_demos.MetricsCollector.{
  success, collection_failed, Connection, Metrics, memcpy, copy_amount, get_network_stats, no_stats,
  get_open_tcp_ports, get_open_udp_ports,
}
use core_mqtt_agent_demos.MetricsCollector.Ports.{ports_result, get_open_ports_lem}

abbrev metrics : Metrics
metrics = record {
  input = record { byte_count = 10; packet_count = 1 };
  output = record { byte_count = 20; packet_count = 2 };
  tcp_port_list = record { count = 3; ports = 80 ∷ 443 ∷ 8883 ∷ 0 ∷ [] };
  udp_port_list = record { count = 1; ports = 53 ∷ 0 ∷ [] };
  tcp_socket_list = record {
    count = 1;
    sockets = record { local_port = 49152; remote_ip = 16909060; remote_port = 8883 } ∷ [];
  };
}

abbrev unused : Connection
unused = record { local_ip = 0; remote_ip = 0; local_port = 0; remote_port = 0 }

failed_stats : get_network_stats (1, metrics) (some no_stats) ≡ some (collection_failed, no_stats)
unfolding get_network_stats
failed_stats = refl

tcp_truncated :
    get_open_tcp_ports (0, metrics) (some (0 ∷ 0 ∷ [])) 2 (some 9)
    ≡ some (success, some (80 ∷ 443 ∷ []), 2)
unfolding get_open_tcp_ports memcpy copy_amount
tcp_truncated = refl

get_open_ports_lem_example :
    (get_open_tcp_ports (0, metrics) (some (0 ∷ 0 ∷ [])) 2 (some 9)
      ≡ some (ports_result true metrics.tcp_port_list (some (0 ∷ 0 ∷ [])) 2 9))
    × (get_open_udp_ports (0, metrics) (some (0 ∷ 0 ∷ [])) 2 (some 9)
        ≡ some (ports_result true metrics.udp_port_list (some (0 ∷ 0 ∷ [])) 2 9))
get_open_ports_lem_example =
    get_open_ports_lem 0 metrics (some (0 ∷ 0 ∷ [])) 2 9 (omega arith, omega arith)
      (omega arith, omega arith)
