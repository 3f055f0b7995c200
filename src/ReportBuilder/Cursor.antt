-- ===== src/ReportBuilder/Cursor.antt =====
-- Writing into a buffer: `snprintf` and the write position of source/defender-tools/report_builder.c.
use core_mqtt_agent_demos.Prelude.{
  ℕ, zero, suc, ◌+◌, ◌-◌, Bool, true, false, ◌&&◌, List, [], ◌∷◌, ◌++◌, ltb, if◌then◌else◌, length,
  set, take,
}
use core_mqtt_agent_demos.Prelude.Text.{Text}

-- Characters stored from an index on.
unfoldable pub write_at : List ℕ → ℕ → Text → List ℕ
write_at buffer i [] = buffer
write_at buffer i (c ∷ cs) = write_at (set buffer i c) (i + 1) cs

-- The effect of `snprintf( pos, size, ... )` on the buffer, for the formatted text: at most
-- `size - 1` characters and a terminator, and nothing for the size 0. It returns the length of the
-- whole text, which is far below 2^31 here.
unfoldable pub snprintf : List ℕ → ℕ → ℕ → Text → List ℕ
snprintf buffer position zero text = buffer
snprintf buffer position (suc room) text = write_at buffer position (take room text ++ (0 ∷ []))

-- The variables of a function of the file: the buffer that its first argument leads into, the
-- offset of `pcCurrentWritePos` in it, and `ulRemainingBufferLength`.
pub record Cursor : Type 0 where
  pub buffer : List ℕ
  pub position : ℕ
  pub remaining : ℕ

-- A step returns the variables, and whether `eStatus` is still `eReportBuilderSuccess`.
abbrev pub Stage : Type 0
Stage = Cursor → Cursor × Bool

-- `if( eStatus == eReportBuilderSuccess ) { ... }` behind a step.
infixl 5 ◌>=>◌
abbrev pub ◌>=>◌ : Stage → Stage → Stage
◌>=>◌ f g c = let (c', success) = f c in if success then g c' else (c', false)

-- An `snprintf` with the test `reportbuilderSNPRINTF_SUCCESS` and the update of the variables.
unfoldable pub print : Text → Stage
print text c =
    let buffer' = snprintf c.buffer c.position c.remaining text in
    if ltb 0 (length text) && ltb (length text) c.remaining
    then (
      record {
        buffer = buffer';
        position = c.position + length text;
        remaining = c.remaining - length text;
      },
      true,
    )
    else (record c { buffer = buffer' }, false)

-- A single character, with the test `ulRemainingBufferLength > 1`.
unfoldable pub put_char : ℕ → Stage
put_char char c =
    if ltb 1 c.remaining
    then (
      record {
        buffer = set c.buffer c.position char;
        position = c.position + 1;
        remaining = c.remaining - 1;
      },
      true,
    )
    else (c, false)

-- The loop over the elements of an array.
unfoldable pub print_all : List Text → Stage
print_all [] c = (c, true)
print_all (text ∷ texts) c =
    let (c', success) = print text c in
    let rest = print_all texts c' in if success then rest else (c', false)

-- "Discard the last comma."
unfoldable pub discard_comma : List Text → Stage
discard_comma texts c =
    if ltb 0 (length texts)
    then (record c { position = c.position - 1; remaining = c.remaining + 1 }, true)
    else (c, true)
