-- ===== src/ReportBuilder/Format.antt =====
-- The formats of source/defender-tools/report_builder.c, as the texts that they print.
use core_mqtt_agent_demos.Prelude.{ℕ, ◌/◌, ◌%◌, ◌^◌, List, ◌++◌, length}
use core_mqtt_agent_demos.Prelude.Text.{Text, codes, decimal}
use core_mqtt_agent_demos.MetricsCollector.{Connection, NetworkStats}

-- The keys `DEFENDER_REPORT_..._KEY` of the Device Defender library (defender.h).
pub record Keys : Type 0 where
  pub header : Text
  pub report_id : Text
  pub version : Text
  pub metrics : Text
  pub tcp_listening_ports : Text
  pub udp_listening_ports : Text
  pub ports : Text
  pub port : Text
  pub total : Text
  pub network_stats : Text
  pub bytes_in : Text
  pub bytes_out : Text
  pub packets_in : Text
  pub packets_out : Text
  pub tcp_connections : Text
  pub established_connections : Text
  pub connections : Text
  pub local_port : Text
  pub remote_addr : Text
  pub custom_metrics : Text
  pub number : Text
  pub number_list : Text

-- `ReportMetrics_t`. An array and its length are one list; the pointer to the network statistics is
-- not `NULL`.
pub record ReportMetrics : Type 0 where
  pub network_stats : NetworkStats
  pub open_tcp_ports : List ℕ
  pub open_udp_ports : List ℕ
  pub established_connections : List Connection
  pub stack_high_water_mark : ℕ
  pub task_ids : List ℕ

-- `reportbuilderJSON_PORT_OBJECT_FORMAT` without its comma
unfoldable pub port_object : Keys → ℕ → Text
port_object k port = codes "{\"" ++ (k.port ++ (codes "\": " ++ (decimal port ++ codes "}")))

-- `( ulRemoteIp >> shift ) & 0xFF`
abbrev pub octet : ℕ → ℕ → ℕ
octet ip shift = ip / 2 ^ shift % 256

-- `reportbuilderJSON_CONNECTION_OBJECT_FORMAT` without its last comma
unfoldable pub connection_object : Keys → Connection → Text
connection_object k c =
    codes "{\""
    ++ (k.local_port
        ++ (codes "\": "
            ++ (decimal c.local_port
                ++ (codes ",\""
                    ++ (k.remote_addr
                        ++ (codes "\": \""
                            ++ (decimal (octet c.remote_ip 24)
                                ++ (codes "."
                                    ++ (decimal (octet c.remote_ip 16)
                                        ++ (codes "."
                                            ++ (decimal (octet c.remote_ip 8)
                                                ++ (codes "."
                                                    ++ (decimal (octet c.remote_ip 0)
                                                        ++ (codes ":"
                                                            ++ (decimal c.remote_port
                                                            ++ codes "\"}")))))))))))))))

-- `reportbuilderJSON_REPORT_FORMAT_PART1`
unfoldable pub part1 : Keys → ℕ → ℕ → ℕ → Text
part1 k report_id major minor =
    codes "{\""
    ++ (k.header
        ++ (codes "\": {\""
            ++ (k.report_id
                ++ (codes "\": "
                    ++ (decimal report_id
                        ++ (codes ",\""
                            ++ (k.version
                                ++ (codes "\": \""
                                    ++ (decimal major
                                        ++ (codes "."
                                            ++ (decimal minor
                                                ++ (codes "\"},\""
                                                    ++ (k.metrics
                                                        ++ (codes "\": {\""
                                                            ++ (k.tcp_listening_ports
                                                            ++ (codes "\": {\""
                                                            ++ (k.ports
                                                            ++ codes "\": ")))))))))))))))))

-- `reportbuilderJSON_REPORT_FORMAT_PART2`
unfoldable pub part2 : Keys → ReportMetrics → Text
part2 k m =
    codes ",\""
    ++ (k.total
        ++ (codes "\": "
            ++ (decimal (length m.open_tcp_ports)
                ++ (codes "},\""
                    ++ (k.udp_listening_ports ++ (codes "\": {\"" ++ (k.ports ++ codes "\": ")))))))

-- `reportbuilderJSON_REPORT_FORMAT_PART3`
unfoldable pub part3 : Keys → ReportMetrics → Text
part3 k m =
    codes ",\""
    ++ (k.total
        ++ (codes "\": "
            ++ (decimal (length m.open_udp_ports)
                ++ (codes "},\""
                    ++ (k.network_stats
                        ++ (codes "\": {\""
                            ++ (k.bytes_in
                                ++ (codes "\": "
                                    ++ (decimal m.network_stats.bytes_received
                                        ++ (codes ",\""
                                            ++ (k.bytes_out
                                                ++ (codes "\": "
                                                    ++ (decimal m.network_stats.bytes_sent
                                                        ++ (codes ",\""
                                                            ++ (k.packets_in
                                                            ++ (codes "\": "
                                                            ++ (decimal
                                                            m.network_stats.packets_received
                                                            ++ (codes ",\""
                                                            ++ (k.packets_out
                                                            ++ (codes "\": "
                                                            ++ (decimal m.network_stats.packets_sent
                                                            ++ (codes "},\""
                                                            ++ (k.tcp_connections
                                                            ++ (codes "\": {\""
                                                            ++ (k.established_connections
                                                            ++ (codes "\": {\""
                                                            ++ (k.connections
                                                            ++ codes
                                                            "\": ")))))))))))))))))))))))))))

-- `reportbuilderJSON_REPORT_FORMAT_PART4`
unfoldable pub part4 : Keys → ReportMetrics → Text
part4 k m =
    codes ",\""
    ++ (k.total
        ++ (codes "\": "
            ++ (decimal (length m.established_connections)
                ++ (codes "}}},\""
                    ++ (k.custom_metrics
                        ++ (codes "\": {\"stack_high_water_mark\": [{\""
                            ++ (k.number
                                ++ (codes "\": "
                                    ++ (decimal m.stack_high_water_mark
                                        ++ (codes "}],\"task_numbers\": [{\""
                                            ++ (k.number_list ++ codes "\": ")))))))))))

-- `reportbuilderJSON_REPORT_FORMAT_PART5`
unfoldable pub part5 : Text
part5 = codes "}]}}"
