-- ===== src/ReportBuilder/Writes.antt =====
-- What a step of the report builder does to the buffer, and that steps one behind the other write
-- their texts one behind the other.
use core_mqtt_agent_demos.Prelude.{
  ◌∙◌, ℕ, ◌+◌, ◌-◌, ◌≡◌, ◌≤◌, ◌<◌, refl, ap, Bool, true, false, List, ◌++◌, length, get_or,
  length-append, get_or-append, arith, dec_lt,
}
use core_mqtt_agent_demos.Prelude.Text.{Text}
use core_mqtt_agent_demos.ReportBuilder.Cursor.{Cursor, Stage, ◌>=>◌}

-- There is room left, and it lies in the buffer.
pub record InBounds (c : Cursor) : Type 0 where
  pub room : 0 < c.remaining
  pub inside : c.position + c.remaining ≤ length c.buffer

-- No character before the write position, or from the end of the room on, has changed.
pub record Kept (c : Cursor) (buffer' : List ℕ) : Type 0 where
  pub size : length buffer' ≡ length c.buffer
  pub before : (j : ℕ) → j < c.position → get_or buffer' j 0 ≡ get_or c.buffer j 0
  pub beyond : (j : ℕ) → c.position + c.remaining ≤ j → get_or buffer' j 0 ≡ get_or c.buffer j 0

-- The text stands behind the former write position, and the variables are moved past it.
pub record Wrote (c : Cursor) (c' : Cursor) (text : Text) : Type 0 where
  pub moved : c'.position ≡ c.position + length text
  pub left : c'.remaining + length text ≡ c.remaining
  pub kept : Kept c c'.buffer
  pub written : (j : ℕ) → j < length text → get_or c'.buffer (c.position + j) 0 ≡ get_or text j 0

-- A text that fits with a terminator is written; else the step fails, and stays in its room.
pub data Outcome (c : Cursor) (text : Text) (r : Cursor × Bool) : Type 0 where
  fits : length text < c.remaining → r.1 ≡ true → Wrote c r.0 text → Outcome c text r
  too_small : c.remaining ≤ length text → r.1 ≡ false → Kept c r.0.buffer → Outcome c text r

abbrev pub Writes : Stage → Text → Type 0
Writes stage text = (c : Cursor) → InBounds c → Outcome c text (stage c)

Kept-after :
    {c c' : Cursor} {text : Text} (buffer' : List ℕ)
    → Wrote c c' text
    → length text ≤ c.remaining
    → Kept c' buffer'
    → Kept c buffer'
Kept-after {c} {c'} {text} buffer' w h k = record {
  size = k.size ∙ w.kept.size;
  before = λ j p. k.before j (omega (arith, w.moved)) ∙ w.kept.before j p;
  beyond = λ j p. k.beyond j (omega (arith, w.moved, w.left)) ∙ w.kept.beyond j p;
}

pub Wrote-append :
    {c c1 c2 : Cursor} {text1 text2 : Text}
    → Wrote c c1 text1
    → Wrote c1 c2 text2
    → Wrote c c2 (text1 ++ text2)
Wrote-append {c} {c1} {c2} {text1} {text2} w v = record {
  moved = omega (arith, w.moved, v.moved, length-append {0} text1 text2);
  left = omega (arith, w.left, v.left, length-append {0} text1 text2);
  kept = Kept-after c2.buffer w (omega (arith, w.left)) v.kept;
  written = λ j p. elim (dec_lt j (length text1)) [
    | yes q ↦
        v.kept.before (c.position + j) (omega (arith, w.moved))
        ∙ w.written j q
        ∙ ground (arith, get_or-append text1 text2 j 0)
    | no q ↦
        let k : ℕ = j - length text1 in
        ap (λ i. get_or c2.buffer i 0)
          (let e : c.position + j ≡ c1.position + (j - length text1) = omega (arith, w.moved) in e)
        ∙ v.written (j - length text1) (omega (arith, length-append {0} text1 text2))
        ∙ ground (arith, get_or-append text1 text2 j 0)
  ];
}

-- Behind a step that wrote its text, another one.
Outcome-after :
    {c c1 : Cursor} {text1 text2 : Text} {r : Cursor × Bool}
    → Wrote c c1 text1
    → length text1 < c.remaining
    → Outcome c1 text2 r
    → Outcome c (text1 ++ text2) r
Outcome-after {c} {c1} {text1} {text2} w h (fits p e v) =
    fits (omega (arith, w.left, length-append {0} text1 text2)) e (Wrote-append w v)
Outcome-after {c} {c1} {text1} {text2} {r} w h (too_small p e k) =
    too_small (omega (arith, w.left, length-append {0} text1 text2)) e
      (Kept-after r.0.buffer w (omega arith) k)

pub InBounds-after :
    {c c' : Cursor} {text : Text}
    → Wrote c c' text
    → length text < c.remaining
    → InBounds c
    → InBounds c'
InBounds-after w h b = omega (arith, w.moved, w.left, w.kept.size)

-- Steps in a row write their texts in a row.
pub >=>-Writes :
    (f g : Stage) (text1 text2 : Text)
    → Writes f text1
    → Writes g text2
    → Writes (f >=> g) (text1 ++ text2)
>=>-Writes f g text1 text2 wf wg c b = by_outcome (wf c b)
  where
    by_outcome : Outcome c text1 (f c) → Outcome c (text1 ++ text2) ((f >=> g) c)
    by_outcome (fits p e w) = rw e (Outcome-after w p (wg (f c).0 (InBounds-after w p b)))
    by_outcome (too_small p e k) =
        rw e (too_small (omega (arith, length-append {0} text1 text2)) refl k)
