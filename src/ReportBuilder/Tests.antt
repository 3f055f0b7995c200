-- ===== src/ReportBuilder/Tests.antt =====
-- Runs of the report builder, and its theorems at such inputs.
use core_mqtt_agent_demos.Prelude.{◌≡◌, refl, none, some, [], ◌∷◌, ◌++◌, map, replicate, arith}
use core_mqtt_agent_demos.Prelude.Text.{codes, decimal}
use core_mqtt_agent_demos.ReportBuilder.Cursor.{
  write_at, snprintf, print, put_char, print_all, discard_comma,
}
use core_mqtt_agent_demos.ReportBuilder.Format.{Keys, ReportMetrics, port_object, connection_object}
use core_mqtt_agent_demos.ReportBuilder.Arrays.{
  array_stage, write_array, write_ports_array, write_connections_array, write_task_ids_array,
}
use core_mqtt_agent_demos.ReportBuilder.ArrayText.{json_array}
use core_mqtt_agent_demos.ReportBuilder.ArrayResult.{Written, write_arrays-Written}
use core_mqtt_agent_demos.ReportBuilder.Generate.{Report, generate_json_report}
use core_mqtt_agent_demos.ReportBuilder.ReportText.{report_text}
use core_mqtt_agent_demos.ReportBuilder.Result.{Generated, generate_json_report-Generated}

-- The short keys of the Device Defender service.
abbrev short_keys : Keys
short_keys = record {
  header = codes "hed";
  report_id = codes "rid";
  version = codes "v";
  metrics = codes "met";
  tcp_listening_ports = codes "tp";
  udp_listening_ports = codes "up";
  ports = codes "pts";
  port = codes "pt";
  total = codes "t";
  network_stats = codes "ns";
  bytes_in = codes "bi";
  bytes_out = codes "bo";
  packets_in = codes "pi";
  packets_out = codes "po";
  tcp_connections = codes "tc";
  established_connections = codes "ec";
  connections = codes "cs";
  local_port = codes "lp";
  remote_addr = codes "rad";
  custom_metrics = codes "cmet";
  number = codes "number";
  number_list = codes "number_list";
}

abbrev metrics : ReportMetrics
metrics = record {
  network_stats = record {
    bytes_received = 10;
    bytes_sent = 20;
    packets_received = 1;
    packets_sent = 2;
  };
  open_tcp_ports = 80 ∷ 443 ∷ [];
  open_udp_ports = [];
  established_connections =
      record { local_ip = 1; remote_ip = 2130706433; local_port = 44207; remote_port = 45148 } ∷ [];
  stack_high_water_mark = 7;
  task_ids = 1 ∷ 2 ∷ [];
}

connection_text :
    map (connection_object short_keys) metrics.established_connections
    ≡ codes "{\"lp\": 44207,\"rad\": \"127.0.0.1:45148\"}" ∷ []
unfolding connection_object decimal
connection_text = refl

ports_written :
    write_ports_array short_keys metrics.open_tcp_ports (replicate 26 0) 1 25
    ≡ (0 ∷ codes "[{\"pt\": 80},{\"pt\": 443}]" ++ (0 ∷ []), some 24)
unfolding write_ports_array write_array array_stage put_char print_all print discard_comma snprintf
    write_at port_object decimal
ports_written = refl

-- One character less is too small.
ports_too_small :
    (write_ports_array short_keys metrics.open_tcp_ports (replicate 25 0) 1 24).1 ≡ none
unfolding write_ports_array write_array array_stage put_char print_all print discard_comma snprintf
    write_at port_object decimal
ports_too_small = refl

write_arrays-Written_example :
    Written
      (json_array (map (port_object short_keys) metrics.open_tcp_ports))
      (replicate 40 0)
      1
      39
      (write_ports_array short_keys metrics.open_tcp_ports (replicate 40 0) 1 39)
    × Written
        (json_array (map (connection_object short_keys) metrics.established_connections))
        (replicate 40 0)
        1
        39
        (write_connections_array short_keys metrics.established_connections (replicate 40 0) 1 39)
    × Written
        (json_array (map decimal metrics.task_ids))
        (replicate 40 0)
        1
        39
        (write_task_ids_array metrics.task_ids (replicate 40 0) 1 39)
write_arrays-Written_example =
    write_arrays-Written (replicate 40 0) 1 39 (omega arith) (omega arith) short_keys
      metrics.open_tcp_ports metrics.established_connections metrics.task_ids

generate_json_report-Generated_example :
    (r : Report) × (generate_json_report short_keys
        (some (replicate 500 0))
        400
        (some metrics)
        1
        0
        42
        (some 0)
      ≡ some r)
    × Generated (report_text short_keys metrics 1 0 42) (replicate 500 0) 400 0 r
generate_json_report-Generated_example =
    generate_json_report-Generated short_keys (replicate 500 0) 400 metrics 1 0 42 0 (omega arith)
      (omega arith)
