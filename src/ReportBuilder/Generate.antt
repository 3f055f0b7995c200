-- ===== src/ReportBuilder/Generate.antt =====
-- `eGenerateJsonReport` of source/defender-tools/report_builder.c.
use core_mqtt_agent_demos.Prelude.{
  ℕ, ◌+◌, ◌-◌, true, false, Option, none, some, List, ◌==◌, if◌then◌else◌,
}
use core_mqtt_agent_demos.ReportBuilder.Cursor.{Stage, ◌>=>◌, print}
use core_mqtt_agent_demos.ReportBuilder.Format.{
  Keys, ReportMetrics, part1, part2, part3, part4, part5,
}
use core_mqtt_agent_demos.ReportBuilder.Arrays.{
  write_ports_array, write_connections_array, write_task_ids_array,
}

-- `eReportBuilderStatus`
pub data Status : Type 0 where
  success bad_parameter buffer_too_small : Status

-- A call of one of the array functions at the write position, and the update behind it.
unfoldable pub array_call : (List ℕ → ℕ → ℕ → List ℕ × Option ℕ) → Stage
array_call write c =
    let (buffer', result) = write c.buffer c.position c.remaining in
    elim result [
      | none ↦ (record c { buffer = buffer' }, false)
      | some written ↦ (
        record {
          buffer = buffer';
          position = c.position + written;
          remaining = c.remaining - written;
        },
        true,
      )
    ]

-- The parts and arrays in their order.
unfoldable pub report_stage : Keys → ReportMetrics → ℕ → ℕ → ℕ → Stage
report_stage k m major minor report_id =
    print (part1 k report_id major minor)
    >=> array_call (write_ports_array k m.open_tcp_ports)
    >=> print (part2 k m)
    >=> array_call (write_ports_array k m.open_udp_ports)
    >=> print (part3 k m)
    >=> array_call (write_connections_array k m.established_connections)
    >=> print (part4 k m)
    >=> array_call (write_task_ids_array m.task_ids)
    >=> print part5

-- What the caller finds: the status, the buffer, and `*pulOutReportLength`.
pub record Report : Type 0 where
  pub status : Status
  pub buffer : List ℕ
  pub report_length : ℕ

-- `eGenerateJsonReport` behind its tests, on pointers that are not `NULL`.
unfoldable pub write_report : Keys → List ℕ → ℕ → ReportMetrics → ℕ → ℕ → ℕ → ℕ → Report
write_report k buffer buffer_length m major minor report_id report_length =
    let (c, written) =
      report_stage k m major minor report_id
        (record { buffer = buffer; position = 0; remaining = buffer_length }) in
    record {
      status = if written then success else buffer_too_small;
      buffer = c.buffer;
      report_length = if written then buffer_length - c.remaining else report_length;
    }

-- `eGenerateJsonReport`. A pointer is `none` if it is `NULL`. The result is `none` if an assert
-- fails. The test for bad parameters stands behind asserts of the same conditions, so its branch
-- is not reached.
unfoldable pub generate_json_report :
    Keys → Option (List ℕ) → ℕ → Option ReportMetrics → ℕ → ℕ → ℕ → Option ℕ → Option Report
generate_json_report k none buffer_length m major minor report_id out = none
generate_json_report k (some buffer) buffer_length none major minor report_id out = none
generate_json_report k (some buffer) buffer_length (some m) major minor report_id none = none
generate_json_report k (some buffer) buffer_length (some m) major minor report_id (some out) =
    if buffer_length == 0
    then none
    else some (write_report k buffer buffer_length m major minor report_id out)
