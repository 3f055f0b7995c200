-- ===== src/ReportBuilder/Arrays.antt =====
-- The three functions of source/defender-tools/report_builder.c that write a JSON array.
use core_mqtt_agent_demos.Prelude.{ℕ, ◌-◌, Option, none, some, List, ◌++◌, map, if◌then◌else◌}
use core_mqtt_agent_demos.Prelude.Text.{Text, codes, decimal}
use core_mqtt_agent_demos.MetricsCollector.{Connection}
use core_mqtt_agent_demos.ReportBuilder.Cursor.{Stage, ◌>=>◌, put_char, print_all, discard_comma}
use core_mqtt_agent_demos.ReportBuilder.Format.{Keys, port_object, connection_object}

-- The body that the three functions share, for the texts of their elements: the open marker, the
-- elements, the last comma discarded, and the close marker.
unfoldable pub array_stage : List Text → Stage
array_stage texts = put_char b'[' >=> print_all texts >=> discard_comma texts >=> put_char b']'

-- Such a function, on the buffer that holds its own from the offset `start` on, with
-- `ulBufferLength`. It returns the buffer, and `*pulOutCharsWritten` for `eReportBuilderSuccess` or
-- `none` for `eReportBuilderBufferTooSmall`.
unfoldable pub write_array : List Text → List ℕ → ℕ → ℕ → List ℕ × Option ℕ
write_array texts buffer start buffer_length =
    let (c, success) =
      array_stage texts (record { buffer = buffer; position = start; remaining = buffer_length }) in
    (c.buffer, if success then some (buffer_length - c.remaining) else none)

-- Each element is printed with a comma behind it.
abbrev pub with_comma : Text → Text
with_comma text = text ++ codes ","

-- `prvWritePortsArray`
unfoldable pub write_ports_array : Keys → List ℕ → List ℕ → ℕ → ℕ → List ℕ × Option ℕ
write_ports_array k ports = write_array (map (λ port. with_comma (port_object k port)) ports)

-- `prvWriteConnectionsArray`
unfoldable pub write_connections_array : Keys → List Connection → List ℕ → ℕ → ℕ → List ℕ × Option ℕ
write_connections_array k connections =
    write_array (map (λ c. with_comma (connection_object k c)) connections)

-- `prvWriteTaskIdsArray`
unfoldable pub write_task_ids_array : List ℕ → List ℕ → ℕ → ℕ → List ℕ × Option ℕ
write_task_ids_array ids = write_array (map (λ id. with_comma (decimal id)) ids)
