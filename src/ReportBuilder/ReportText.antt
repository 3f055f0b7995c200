-- ===== src/ReportBuilder/ReportText.antt =====
-- What `eGenerateJsonReport` writes, and when it succeeds.
use mathlib.Core.List.{map-map}
use core_mqtt_agent_demos.MetricsCollector.{Connection}
use core_mqtt_agent_demos.Prelude.{
  ◌∙◌, ℕ, ◌+◌, ◌≡◌, ◌<◌, subst, List, ◌++◌, map, length, length-append, append_assoc, get_or,
  get_or-out, arith,
}
use core_mqtt_agent_demos.Prelude.Text.{Text, decimal}
use core_mqtt_agent_demos.ReportBuilder.Cursor.{Cursor, Stage, ◌>=>◌, print, snprintf}
use core_mqtt_agent_demos.ReportBuilder.Writes.{
  InBounds, Outcome, fits, too_small, Writes, InBounds-after, >=>-Writes,
}
use core_mqtt_agent_demos.ReportBuilder.Steps.{print-Writes, snprintf-text}
use core_mqtt_agent_demos.ReportBuilder.Format.{
  Keys, ReportMetrics, port_object, connection_object, part1, part2, part3, part4, part5,
}
use core_mqtt_agent_demos.ReportBuilder.Arrays.{
  write_array, with_comma, write_ports_array, write_connections_array, write_task_ids_array,
}
use core_mqtt_agent_demos.ReportBuilder.ArrayText.{json_array, array_call-Writes}
use core_mqtt_agent_demos.ReportBuilder.Generate.{array_call, report_stage}

module _ (k : Keys) (m : ReportMetrics) (major minor report_id : ℕ) where
  -- The report but for its last part.
  report_front : Text
  report_front =
      part1 k report_id major minor
      ++ (json_array (map (port_object k) m.open_tcp_ports)
          ++ (part2 k m
              ++ (json_array (map (port_object k) m.open_udp_ports)
                  ++ (part3 k m
                      ++ (json_array (map (connection_object k) m.established_connections)
                          ++ (part4 k m ++ json_array (map decimal m.task_ids)))))))

  -- The whole report.
  pub report_text : Text
  report_text = report_front ++ part5

  front_stage : Stage
  front_stage =
      print (part1 k report_id major minor)
      >=> array_call (write_ports_array k m.open_tcp_ports)
      >=> print (part2 k m)
      >=> array_call (write_ports_array k m.open_udp_ports)
      >=> print (part3 k m)
      >=> array_call (write_connections_array k m.established_connections)
      >=> print (part4 k m)
      >=> array_call (write_task_ids_array m.task_ids)

  part1-pos : 0 < length (part1 k report_id major minor)
  unfolding part1
  part1-pos = omega arith

  part2-pos : 0 < length (part2 k m)
  unfolding part2
  part2-pos = omega arith

  part3-pos : 0 < length (part3 k m)
  unfolding part3
  part3-pos = omega arith

  part4-pos : 0 < length (part4 k m)
  unfolding part4
  part4-pos = omega arith

  ports-Writes :
      (ports : List ℕ)
      → Writes (array_call (write_ports_array k ports)) (json_array (map (port_object k) ports))
  unfolding write_ports_array
  ports-Writes ports =
      subst
        (λ texts. Writes (array_call (write_array texts)) (json_array (map (port_object k) ports)))
        (map-map with_comma (port_object k) ports) (array_call-Writes (map (port_object k) ports))

  connections-Writes :
      (cs : List Connection)
      → Writes
          (array_call (write_connections_array k cs))
          (json_array (map (connection_object k) cs))
  unfolding write_connections_array
  connections-Writes cs =
      subst
        (λ texts.
          Writes (array_call (write_array texts)) (json_array (map (connection_object k) cs)))
        (map-map with_comma (connection_object k) cs)
        (array_call-Writes (map (connection_object k) cs))

  task_ids-Writes :
      (ids : List ℕ) → Writes (array_call (write_task_ids_array ids)) (json_array (map decimal ids))
  unfolding write_task_ids_array
  task_ids-Writes ids =
      subst (λ texts. Writes (array_call (write_array texts)) (json_array (map decimal ids)))
        (map-map with_comma decimal ids) (array_call-Writes (map decimal ids))

  front-Writes : Writes front_stage report_front
  unfolding front_stage report_front
  front-Writes = subst (Writes _) (simp append_assoc) (
      >=>-Writes _ _ _ _
        (>=>-Writes _ _ _ _
          (>=>-Writes _ _ _ _
            (>=>-Writes _ _ _ _
              (>=>-Writes _ _ _ _
                (>=>-Writes _ _ _ _
                  (>=>-Writes _ _ _ _ (print-Writes (part1 k report_id major minor) part1-pos)
                    (ports-Writes m.open_tcp_ports))
                  (print-Writes (part2 k m) part2-pos))
                (ports-Writes m.open_udp_ports))
              (print-Writes (part3 k m) part3-pos))
            (connections-Writes m.established_connections))
          (print-Writes (part4 k m) part4-pos))
        (task_ids-Writes m.task_ids))

  part5-pos : 0 < length part5
  unfolding part5
  part5-pos = omega arith

  pub report-Writes : Writes (report_stage k m major minor report_id) report_text
  unfolding report_stage front_stage report_text
  report-Writes =
      >=>-Writes front_stage (print part5) report_front part5 front-Writes
        (print-Writes part5 part5-pos)

  buffer-print :
      (text : Text) (c : Cursor)
      → (print text c).0.buffer ≡ snprintf c.buffer c.position c.remaining text
  unfolding print
  buffer-print text c = ground arith

  -- Behind a report that fits stands the terminator of the last `snprintf`.
  pub report-terminated :
      (c : Cursor)
      → InBounds c
      → length report_text < c.remaining
      → get_or
          (report_stage k m major minor report_id c).0.buffer
          (c.position + length report_text)
          0
        ≡ 0
  unfolding report_stage front_stage report_text
  report-terminated c b h = by_front (front-Writes c b)
    where
      by_front :
          Outcome c report_front (front_stage c)
          → get_or
              (report_stage k m major minor report_id c).0.buffer
              (c.position + length report_text)
              0
            ≡ 0
      by_front (fits p e w) =
          let c1 = (front_stage c).0 in
          let total = length-append {0} report_front part5 in
          let place : c.position + length (report_front ++ part5) ≡ c1.position + length part5 =
            omega (arith, w.moved, total) in
          rw (e, place, buffer-print part5 c1)
            (snprintf-text c1 part5 (length part5) (InBounds-after w p b)
                (omega (arith, w.left, total)) (omega arith)
              ∙ get_or-out part5 (length part5) 0 (omega arith))
      by_front (too_small p e kept) = absurd (omega (arith, length-append {0} report_front part5))
