-- ===== src/ReportBuilder/ArrayResult.antt =====
-- The array functions of the report builder as `eGenerateJsonReport` sees them.
use mathlib.Core.List.{map-map}
use core_mqtt_agent_demos.Prelude.{
  ℕ, ◌+◌, ◌≡◌, ◌≤◌, ◌<◌, subst, Option, none, some, List, map, length, get_or, ltb, if◌then◌else◌,
  arith,
}
use core_mqtt_agent_demos.Prelude.Text.{Text, decimal}
use core_mqtt_agent_demos.MetricsCollector.{Connection}
use core_mqtt_agent_demos.ReportBuilder.Cursor.{Cursor}
use core_mqtt_agent_demos.ReportBuilder.Writes.{Outcome, fits, too_small}
use core_mqtt_agent_demos.ReportBuilder.Format.{Keys, port_object, connection_object}
use core_mqtt_agent_demos.ReportBuilder.Arrays.{
  array_stage, with_comma, write_array, write_ports_array, write_connections_array,
  write_task_ids_array,
}
use core_mqtt_agent_demos.ReportBuilder.ArrayText.{json_array, array_stage-Writes}

-- The result of an array function that writes a text into `buffer_length` characters at `start`: the
-- count of its characters if they fit with a terminator, and only then; the text is in place; the
-- buffer keeps its length, and its content outside those characters.
pub record Written (text : Text) (buffer : List ℕ) (start buffer_length : ℕ) (r : List ℕ × Option ℕ)
    : Type 0 where
  pub count : r.1 ≡ (if ltb (length text) buffer_length then some (length text) else none)
  pub placed :
      (j : ℕ)
      → length text < buffer_length
      → j < length text
      → get_or r.0 (start + j) 0 ≡ get_or text j 0
  pub size : length r.0 ≡ length buffer
  pub before : (j : ℕ) → j < start → get_or r.0 j 0 ≡ get_or buffer j 0
  pub beyond : (j : ℕ) → start + buffer_length ≤ j → get_or r.0 j 0 ≡ get_or buffer j 0

module _ (buffer : List ℕ) (start buffer_length : ℕ) (pos : 0 < buffer_length)
    (room : start + buffer_length ≤ length buffer) where
  write_array-Written :
      (texts : List Text)
      → Written
          (json_array texts)
          buffer
          start
          buffer_length
          (write_array (map with_comma texts) buffer start buffer_length)
  unfolding write_array
  write_array-Written texts =
      by_outcome (array_stage-Writes texts c (record { room = pos; inside = room }))
    where
      c : Cursor
      c = record { buffer = buffer; position = start; remaining = buffer_length }

      text : Text
      text = json_array texts

      by_outcome :
          Outcome c text (array_stage (map with_comma texts) c)
          → Written text buffer start buffer_length
              (write_array (map with_comma texts) buffer start buffer_length)
      by_outcome (fits p e w) = record {
        count = ground (arith, w.left);
        placed = λ j h q. w.written j q;
        size = w.kept.size;
        before = w.kept.before;
        beyond = w.kept.beyond;
      }
      by_outcome (too_small p e kept) = record {
        count = ground arith;
        placed = λ j h q. absurd (omega arith);
        size = kept.size;
        before = kept.before;
        beyond = kept.beyond;
      }

  -- In a buffer that holds `buffer_length` characters from `start` on, at least one, each of
  -- `prvWritePortsArray`, `prvWriteConnectionsArray` and `prvWriteTaskIdsArray` writes the JSON
  -- array of its elements there, separated by commas with none behind the last. It succeeds exactly
  -- if the array is shorter than `buffer_length`, and then returns its length; nothing outside
  -- those characters changes.
  pub write_arrays-Written :
      (k : Keys) (ports : List ℕ) (connections : List Connection) (ids : List ℕ)
      → Written
          (json_array (map (port_object k) ports))
          buffer
          start
          buffer_length
          (write_ports_array k ports buffer start buffer_length)
        × Written
            (json_array (map (connection_object k) connections))
            buffer
            start
            buffer_length
            (write_connections_array k connections buffer start buffer_length)
        × Written
            (json_array (map decimal ids))
            buffer
            start
            buffer_length
            (write_task_ids_array ids buffer start buffer_length)
  unfolding write_ports_array write_connections_array write_task_ids_array
  write_arrays-Written k ports connections ids = (
    subst
        (λ t.
          Written (json_array (map (port_object k) ports)) buffer start buffer_length
            (write_array t buffer start buffer_length))
        (map-map with_comma (port_object k) ports)
        (write_array-Written (map (port_object k) ports)),
    subst
        (λ t.
          Written (json_array (map (connection_object k) connections)) buffer start buffer_length
            (write_array t buffer start buffer_length))
        (map-map with_comma (connection_object k) connections)
        (write_array-Written (map (connection_object k) connections)),
    subst
        (λ t.
          Written (json_array (map decimal ids)) buffer start buffer_length
            (write_array t buffer start buffer_length))
        (map-map with_comma decimal ids) (write_array-Written (map decimal ids)),
  )
