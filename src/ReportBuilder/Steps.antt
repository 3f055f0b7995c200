-- ===== src/ReportBuilder/Steps.antt =====
-- The single steps of the report builder write their texts.
use core_mqtt_agent_demos.Prelude.{
  ◌∙◌, ℕ, zero, suc, ◌+◌, ◌-◌, ◌≡◌, ◌≤◌, ◌<◌, refl, not, ◌&&◌, List, [], ◌∷◌, ◌++◌, ltb, ◌==◌,
  if◌then◌else◌, length, set, take, get_or, length-set, length-append, length-take, get_or-set,
  get_or-append, get_or-out, lt→ltb, le→ltb, take-all, arith, dec_lt,
}
use core_mqtt_agent_demos.Prelude.Text.{Text}
use core_mqtt_agent_demos.ReportBuilder.Cursor.{Cursor, write_at, snprintf, print, put_char}
use core_mqtt_agent_demos.ReportBuilder.Writes.{InBounds, Kept, fits, too_small, Writes}

pub length-write_at :
    (buffer : List ℕ) (i : ℕ) (text : Text) → length (write_at buffer i text) ≡ length buffer
unfolding write_at
length-write_at buffer i [] = refl
length-write_at buffer i (c ∷ cs) =
    length-write_at (set buffer i c) (i + 1) cs ∙ length-set buffer i c

pub get_or-write_at :
    (buffer : List ℕ) (i : ℕ) (text : Text) (j : ℕ)
    → i + length text ≤ length buffer
    → get_or (write_at buffer i text) j 0 ≡ (
        if not (ltb j i) && ltb j (i + length text)
        then get_or text (j - i) 0
        else get_or buffer j 0)
unfolding write_at
get_or-write_at buffer i [] j h = ground arith
get_or-write_at buffer i (c ∷ cs) j h = elim (dec_lt i j) [
  | yes p ↦
      let e : j - i ≡ suc (j - (i + 1)) = omega arith in
      rw e (
        ground (
          arith,
          get_or-write_at (set buffer i c) (i + 1) cs j,
          length-set buffer i c,
          get_or-set buffer i j c 0,
        ))
  | no q ↦ ground (
    arith,
    get_or-write_at (set buffer i c) (i + 1) cs j,
    length-set buffer i c,
    get_or-set buffer i j c 0,
  )
]

-- Storing within the room keeps what is outside.
write_at-Kept :
    (c : Cursor) (text : Text)
    → InBounds c
    → length text ≤ c.remaining
    → Kept c (write_at c.buffer c.position text)
write_at-Kept c text b h = record {
  size = length-write_at c.buffer c.position text;
  before = λ j p. ground (arith, get_or-write_at c.buffer c.position text j);
  beyond = λ j p. ground (arith, get_or-write_at c.buffer c.position text j);
}

snprintf-Kept :
    (c : Cursor) (text : Text) → InBounds c → Kept c (snprintf c.buffer c.position c.remaining text)
unfolding snprintf
snprintf-Kept c text b = by_room c.remaining refl
  where
    by_room : (n : ℕ) → c.remaining ≡ n → Kept c (snprintf c.buffer c.position n text)
    by_room zero e = record { size = refl; before = λ j p. refl; beyond = λ j p. refl }
    by_room (suc room) e =
        write_at-Kept c (take room text ++ (0 ∷ [])) b
          (omega (arith, length-append {0} (take room text) (0 ∷ []), length-take {0} room text))

-- The characters that a fitting `snprintf` leaves, its terminator included.
pub snprintf-text :
    (c : Cursor) (text : Text) (j : ℕ)
    → InBounds c
    → length text < c.remaining
    → j ≤ length text
    → get_or (snprintf c.buffer c.position c.remaining text) (c.position + j) 0 ≡ get_or text j 0
unfolding snprintf
snprintf-text c text j b h k = by_room c.remaining refl
  where
    by_room :
        (n : ℕ)
        → c.remaining ≡ n
        → get_or (snprintf c.buffer c.position n text) (c.position + j) 0 ≡ get_or text j 0
    by_room zero e = absurd (omega arith)
    by_room (suc room) e =
        let back : c.position + j - c.position ≡ j = omega arith in
        rw (take-all room text (omega arith)) (
          ground (
            arith,
            length-append text (0 ∷ []),
            get_or-write_at c.buffer c.position (text ++ (0 ∷ [])) (c.position + j),
            get_or-append text (0 ∷ []) j 0,
            get_or-out text j 0,
          ))

pub print-Writes : (text : Text) → 0 < length text → Writes (print text) text
unfolding print
print-Writes text pos c b = elim (dec_lt (length text) c.remaining) [
  | yes p ↦
      rw (lt→ltb 0 (length text) pos, lt→ltb (length text) c.remaining p)
        (fits p refl (record {
          moved = refl;
          left = omega arith;
          kept = snprintf-Kept c text b;
          written = λ j k. snprintf-text c text j b p (omega arith);
        }))
  | no q ↦
      rw (lt→ltb 0 (length text) pos, le→ltb (length text) c.remaining (omega arith))
        (too_small (omega arith) refl (snprintf-Kept c text b))
]

Kept-refl : (c : Cursor) → Kept c c.buffer
Kept-refl c = record { size = refl; before = λ j p. refl; beyond = λ j p. refl }

pub put_char-Writes : (char : ℕ) → Writes (put_char char) (char ∷ [])
unfolding put_char
put_char-Writes char c b = elim (dec_lt 1 c.remaining) [
  | yes p ↦ rw (lt→ltb 1 c.remaining p) (
      fits p refl (record {
        moved = refl;
        left = omega arith;
        kept = record {
          size = length-set c.buffer c.position char;
          before = λ j k. ground (arith, at j);
          beyond = λ j k. ground (arith, at j);
        };
        written = λ j k.
            let zero_index : j ≡ 0 = omega arith in
            let here : c.position + j ≡ c.position = omega arith in
            ground (arith, at (c.position + j));
      }))
  | no q ↦ rw (le→ltb 1 c.remaining (omega arith)) (too_small (omega arith) refl (Kept-refl c))
]
  where
    at :
        (j : ℕ)
        → 1 < c.remaining
        → get_or (set c.buffer c.position char) j 0
          ≡ (if c.position == j then char else get_or c.buffer j 0)
    at j p = get_or-set c.buffer c.position j char 0 (omega arith)
