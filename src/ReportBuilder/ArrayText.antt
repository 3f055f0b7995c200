-- ===== src/ReportBuilder/ArrayText.antt =====
-- What the array functions of the report builder write.
use core_mqtt_agent_demos.Prelude.{
  ◌∙◌, ℕ, ◌+◌, ◌-◌, ◌≡◌, ◌<◌, refl, subst, true, List, [], ◌∷◌, ◌++◌, map, length, length-append,
  append_assoc, append-nil, get_or-append, arith,
}
use core_mqtt_agent_demos.Prelude.Text.{Text, codes}
use core_mqtt_agent_demos.ReportBuilder.Cursor.{
  Cursor, Stage, ◌>=>◌, print, put_char, print_all, discard_comma,
}
use core_mqtt_agent_demos.ReportBuilder.Writes.{
  InBounds, Wrote, Outcome, fits, too_small, Writes, InBounds-after, Wrote-append, >=>-Writes,
}
use core_mqtt_agent_demos.ReportBuilder.Steps.{print-Writes, put_char-Writes}
use core_mqtt_agent_demos.ReportBuilder.Arrays.{array_stage, write_array, with_comma}
use core_mqtt_agent_demos.ReportBuilder.Generate.{array_call}

-- Texts with a comma between them.
unfoldable pub join : List Text → Text
join [] = []
join (t ∷ []) = t
join (t ∷ (u ∷ us)) = t ++ (codes "," ++ join (u ∷ us))

-- A JSON array of the texts.
unfoldable pub json_array : List Text → Text
json_array texts = codes "[" ++ (join texts ++ codes "]")

-- Texts with a comma behind each of them.
commas : List Text → Text
commas [] = []
commas (t ∷ ts) = with_comma t ++ commas ts

commas-join : (t : Text) (ts : List Text) → commas (t ∷ ts) ≡ join (t ∷ ts) ++ codes ","
unfolding commas join
commas-join t [] = append-nil (with_comma t)
commas-join t (u ∷ us) = rw (commas-join u us) (simp append_assoc)

print_all-Writes : (texts : List Text) → Writes (print_all (map with_comma texts)) (commas texts)
unfolding print_all commas
print_all-Writes [] c b = fits b.room refl (record {
  moved = omega arith;
  left = omega arith;
  kept = record { size = refl; before = λ j p. refl; beyond = λ j p. refl };
  written = λ j p. absurd (omega arith);
})
print_all-Writes (t ∷ ts) c b =
    >=>-Writes (print (with_comma t)) (print_all (map with_comma ts)) (with_comma t) (commas ts)
      (print-Writes (with_comma t) (omega (arith, length-append {0} t (codes ","))))
      (print_all-Writes ts) c b

-- The variables after the last comma is discarded.
abbrev back : Cursor → Cursor
back c = record c { position = c.position - 1; remaining = c.remaining + 1 }

back-Wrote :
    {c c' : Cursor} {text : Text} (comma : ℕ)
    → Wrote c c' (text ++ (comma ∷ []))
    → Wrote c (back c') text
back-Wrote {c} {c'} {text} comma w = record {
  moved = omega (arith, w.moved, length-append {0} text (comma ∷ []));
  left = omega (arith, w.left, length-append {0} text (comma ∷ []));
  kept = w.kept;
  written = λ j p.
      w.written j (omega (arith, length-append {0} text (comma ∷ [])))
      ∙ ground (arith, get_or-append text (comma ∷ []) j 0);
}

-- Behind a text that ends in a comma the close marker always fits, in its place.
close-Outcome :
    (text : Text) {c c' : Cursor}
    → InBounds c
    → length text + 1 < c.remaining
    → Wrote c c' (text ++ codes ",")
    → Outcome c (text ++ codes "]") (put_char b']' (back c'))
close-Outcome text {c} {c'} b h w =
    by_outcome (put_char-Writes b']' (back c') (InBounds-after v (omega arith) b))
  where
    v : Wrote c (back c') text
    v = back-Wrote b',' w

    by_outcome :
        Outcome (back c') (codes "]") (put_char b']' (back c'))
        → Outcome c (text ++ codes "]") (put_char b']' (back c'))
    by_outcome (fits p e u) =
        fits (omega (arith, length-append {0} text (codes "]"))) e (Wrote-append v u)
    by_outcome (too_small p e k) = absurd (omega (arith, v.left))

print_nothing-Writes : Writes (print_all []) []
unfolding commas
print_nothing-Writes = print_all-Writes []

discard_nothing-Writes : Writes (discard_comma []) []
unfolding commas discard_comma print_all
discard_nothing-Writes = print_all-Writes []

discard_comma-cons :
    (t : Text) (ts : List Text) (c : Cursor) → discard_comma (t ∷ ts) c ≡ (back c, true)
unfolding discard_comma
discard_comma-cons t ts c = ground arith

pub array_stage-Writes :
    (texts : List Text) → Writes (array_stage (map with_comma texts)) (json_array texts)
unfolding array_stage json_array join
array_stage-Writes [] c b =
    >=>-Writes (put_char b'[' >=> print_all [] >=> discard_comma []) (put_char b']') (codes "[")
      (codes "]")
      (>=>-Writes (put_char b'[' >=> print_all []) (discard_comma []) (codes "[") []
        (>=>-Writes (put_char b'[') (print_all []) (codes "[") [] (put_char-Writes b'[')
          print_nothing-Writes)
        discard_nothing-Writes)
      (put_char-Writes b']') c b
array_stage-Writes (t ∷ ts) c b = by_outcome (opened c b)
  where
    elements : Stage
    elements = put_char b'[' >=> print_all (map with_comma (t ∷ ts))

    body : Text
    body = codes "[" ++ join (t ∷ ts)

    opened : Writes elements (body ++ codes ",")
    opened =
        subst (λ text. Writes elements (codes "[" ++ text)) (commas-join t ts)
          (>=>-Writes (put_char b'[') (print_all (map with_comma (t ∷ ts))) (codes "[")
            (commas (t ∷ ts)) (put_char-Writes b'[') (print_all-Writes (t ∷ ts)))

    by_outcome :
        Outcome c (body ++ codes ",") (elements c)
        → Outcome c (body ++ codes "]") (array_stage (map with_comma (t ∷ ts)) c)
    by_outcome (fits p e w) =
        rw (e, discard_comma-cons (with_comma t) (map with_comma ts) (elements c).0)
          (close-Outcome body b (omega (arith, length-append {0} body (codes ","))) w)
    by_outcome (too_small p e k) = rw e (
        too_small
          (omega (arith, length-append {0} body (codes ","), length-append {0} body (codes "]")))
          refl k)

-- A call of an array function writes the JSON array of its elements.
pub array_call-Writes :
    (texts : List Text)
    → Writes (array_call (write_array (map with_comma texts))) (json_array texts)
unfolding array_call write_array
array_call-Writes texts c b = by_outcome (array_stage-Writes texts c b)
  where
    by_outcome :
        Outcome c (json_array texts) (array_stage (map with_comma texts) c)
        → Outcome c (json_array texts) (array_call (write_array (map with_comma texts)) c)
    by_outcome (fits p e w) =
        rw (e, array_call)
          (fits p refl (record {
            moved = omega (arith, w.left);
            left = omega (arith, w.left);
            kept = record { size = w.kept.size; before = w.kept.before; beyond = w.kept.beyond };
            written = w.written;
          }))
    by_outcome (too_small p e k) = rw (e, array_call) (too_small p refl k)
