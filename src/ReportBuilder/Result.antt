-- ===== src/ReportBuilder/Result.antt =====
-- `eGenerateJsonReport` as its caller sees it.
use core_mqtt_agent_demos.Prelude.{
  ◌∙◌, ℕ, ◌+◌, ◌≡◌, ◌≤◌, ◌<◌, refl, sym, ap, some, List, length, get_or, get_or_ext, get_or-take,
  get_or-out, take, length-take, arith, dec_lt,
}
use core_mqtt_agent_demos.Prelude.Text.{Text}
use core_mqtt_agent_demos.ReportBuilder.Cursor.{Cursor}
use core_mqtt_agent_demos.ReportBuilder.Writes.{InBounds, Wrote, Outcome, fits, too_small}
use core_mqtt_agent_demos.ReportBuilder.Format.{Keys, ReportMetrics}
use core_mqtt_agent_demos.ReportBuilder.ReportText.{report_text, report-Writes, report-terminated}
use core_mqtt_agent_demos.ReportBuilder.Generate.{
  success, buffer_too_small, report_stage, Report, write_report, generate_json_report,
}

-- The two ways in which a report of a given text may end, for a buffer of the stated length.
pub data Generated (text : Text) (buffer : List ℕ) (buffer_length old_length : ℕ) (r : Report)
    : Type 0 where
  -- The text fits with its terminator: it is in the buffer from the start, terminated, and its
  -- length is reported.
  complete :
      length text < buffer_length
      → r.status ≡ success
      → r.report_length ≡ length text
      → take (length text) r.buffer ≡ text
      → get_or r.buffer (length text) 0 ≡ 0
      → length r.buffer ≡ length buffer
      → ((j : ℕ) → buffer_length ≤ j → get_or r.buffer j 0 ≡ get_or buffer j 0)
      → Generated text buffer buffer_length old_length r
  -- It does not fit: the status says so, and the reported length stays.
  incomplete :
      buffer_length ≤ length text
      → r.status ≡ buffer_too_small
      → r.report_length ≡ old_length
      → length r.buffer ≡ length buffer
      → ((j : ℕ) → buffer_length ≤ j → get_or r.buffer j 0 ≡ get_or buffer j 0)
      → Generated text buffer buffer_length old_length r

-- A text written at the start of a buffer is its front.
take-Wrote :
    {c c' : Cursor} (text : Text)
    → c.position ≡ 0
    → InBounds c
    → length text < c.remaining
    → Wrote c c' text
    → take (length text) c'.buffer ≡ text
take-Wrote {c} {c'} text start b h w =
    get_or_ext (take (length text) c'.buffer) text 0
      (omega (arith, length-take {0} (length text) c'.buffer, w.kept.size))
      (λ j. elim (dec_lt j (length text)) [
        | yes p ↦
            let place : c.position + j ≡ j = omega arith in
            get_or-take (length text) c'.buffer j 0 p
            ∙ ap (λ i. get_or c'.buffer i 0) (sym place)
            ∙ w.written j p
        | no q ↦
            get_or-out (take (length text) c'.buffer) j 0
              (omega (arith, length-take {0} (length text) c'.buffer))
            ∙ sym (get_or-out text j 0 (omega arith))
      ])

module _ (k : Keys) (buffer : List ℕ) (buffer_length : ℕ) (m : ReportMetrics)
    (major minor report_id old_length : ℕ) where
  abbrev start : Cursor
  start = record { buffer = buffer; position = 0; remaining = buffer_length }

  write_report-Generated :
      0 < buffer_length
      → buffer_length ≤ length buffer
      → Generated
          (report_text k m major minor report_id)
          buffer
          buffer_length
          old_length
          (write_report k buffer buffer_length m major minor report_id old_length)
  unfolding write_report
  write_report-Generated pos room = by_outcome (report-Writes k m major minor report_id start b)
    where
      b : InBounds start
      b = record { room = pos; inside = omega arith }

      text : Text
      text = report_text k m major minor report_id

      by_outcome :
          Outcome start text (report_stage k m major minor report_id start)
          → Generated text buffer buffer_length old_length
              (write_report k buffer buffer_length m major minor report_id old_length)
      by_outcome (fits p e w) =
          rw (e, write_report)
            (complete p refl (omega (arith, w.left)) (take-Wrote text refl b p w)
              (let place : 0 + length text ≡ length text = omega arith in
                ap (λ i. get_or (report_stage k m major minor report_id start).0.buffer i 0)
                  (sym place)
                ∙ report-terminated k m major minor report_id start b p)
              w.kept.size (λ j h. w.kept.beyond j (omega arith)))
      by_outcome (too_small p e kept) =
          rw (e, write_report)
            (incomplete p refl refl kept.size (λ j h. kept.beyond j (omega arith)))

  -- On a buffer of at least the stated length, which is not 0, `eGenerateJsonReport` passes its
  -- asserts. It succeeds exactly if the report is shorter than the stated length: then the buffer
  -- begins with the report and a terminator, and its length is reported; else the status is
  -- `eReportBuilderBufferTooSmall` and the reported length stays. In both cases the buffer keeps
  -- its length, and nothing from the stated length on changes.
  pub generate_json_report-Generated :
      0 < buffer_length
      → buffer_length ≤ length buffer
      → (r : Report) × (generate_json_report k
            (some buffer)
            buffer_length
            (some m)
            major
            minor
            report_id
            (some old_length)
          ≡ some r)
        × Generated (report_text k m major minor report_id) buffer buffer_length old_length r
  unfolding generate_json_report
  generate_json_report-Generated pos room = (
    write_report k buffer buffer_length m major minor report_id old_length,
    ground arith,
    write_report-Generated pos room,
  )
