-- ===== src/ShadowDemo/Fits.antt =====
-- Whether a document of the shadow demo fits its buffer.
use core_mqtt_agent_demos.Prelude.{
  ◌∙◌, ℕ, suc, ◌+◌, ◌-◌, ◌≡◌, ◌≤◌, ◌<◌, sym, ap, List, [], ◌∷◌, ◌++◌, length, take, replicate,
  length-append, length-take, length-replicate, take-all, get_or_ext, get_or-out, dec_lt, arith,
}
use core_mqtt_agent_demos.Prelude.Text.{
  Text, codes, decimal, ten_to, length-decimal, length-decimal_two,
}
use core_mqtt_agent_demos.ReportBuilder.Cursor.{write_at, snprintf}
use core_mqtt_agent_demos.ReportBuilder.Steps.{length-write_at, get_or-write_at}
use core_mqtt_agent_demos.ShadowDemo.Document.{
  six_digits, reported_json, reported_json_length, update_document, desired_json,
  desired_json_length, desired_document,
}

write_at-all :
    (buffer : List ℕ) (text : Text) → length text ≡ length buffer → write_at buffer 0 text ≡ text
write_at-all buffer text h =
    get_or_ext (write_at buffer 0 text) text 0 (length-write_at buffer 0 text ∙ sym h) (λ i.
      ground (arith, get_or-write_at buffer 0 text i, get_or-out buffer i 0, get_or-out text i 0))

-- A text that fills a buffer of zeros, but for the terminator, or is longer.
snprintf-filled :
    (room : ℕ) (text : Text)
    → room ≤ length text
    → snprintf (replicate (suc room) 0) 0 (suc room) text ≡ take room text ++ (0 ∷ [])
unfolding snprintf
snprintf-filled room text h = write_at-all (replicate (suc room) 0) (take room text ++ (0 ∷ [])) (
    omega (
      arith,
      length-append (take room text) (0 ∷ []),
      length-take room text,
      length-replicate {A = ℕ} (suc room) 0,
    ))

length-six_digits : (n : ℕ) → n < 1000000 → length (six_digits n) ≡ 6
unfolding six_digits ten_to
length-six_digits n h = omega (
  arith,
  length-append (replicate (6 - length (decimal n)) b'0') (decimal n),
  length-replicate {A = ℕ} (6 - length (decimal n)) b'0',
  (length-decimal 5 n h).1,
)

length-reported_json :
    (power_on token : ℕ)
    → token < 1000000
    → length (reported_json power_on token) + 1 ≡ reported_json_length + length (decimal power_on)
unfolding reported_json
length-reported_json power_on token h = omega (
  arith,
  length-append (decimal power_on)
      (codes "}},\"clientToken\":\"" ++ (six_digits token ++ codes "\"}")),
  length-append (six_digits token) (codes "\"}"),
  length-six_digits token h,
)

length-desired_json :
    (power_on token : ℕ)
    → token < 1000000
    → length (desired_json power_on token) + 1 ≡ desired_json_length + length (decimal power_on)
unfolding desired_json
length-desired_json power_on token h = omega (
  arith,
  length-append (decimal power_on)
      (codes "}},\"clientToken\":\"" ++ (six_digits token ++ codes "\"}")),
  length-append (six_digits token) (codes "\"}"),
  length-six_digits token h,
)

-- The document of a report with a token of six digits at most: the front of its JSON text that fits,
-- and a terminator.
pub update_document-front :
    (power_on token : ℕ)
    → token < 1000000
    → update_document power_on token
      ≡ take reported_json_length (reported_json power_on token) ++ (0 ∷ [])
unfolding update_document ten_to
update_document-front power_on token h =
    snprintf-filled reported_json_length (reported_json power_on token) (elim (dec_lt power_on 10) [
      | yes one ↦
          omega (arith, (length-decimal 0 power_on one).0, length-reported_json power_on token h)
      | no more ↦
          omega (
            arith,
            length-decimal_two power_on (omega arith),
            length-reported_json power_on token h,
          )
    ])

-- The document of a report with a token of six digits at most: for a state of one digit it is the
-- whole JSON text with a terminator, which fill the buffer; for any other state, it lacks the end of
-- that text.
pub update_document-reported_json :
    (power_on token : ℕ)
    → token < 1000000
    → (power_on < 10 → update_document power_on token ≡ reported_json power_on token ++ (0 ∷ []))
      × (10 ≤ power_on
          → (update_document power_on token
              ≡ take reported_json_length (reported_json power_on token) ++ (0 ∷ []))
            × (reported_json_length < length (reported_json power_on token)))
unfolding update_document ten_to
update_document-reported_json power_on token h = (
  λ one.
      snprintf-filled reported_json_length (reported_json power_on token)
        (omega (arith, (length-decimal 0 power_on one).0, length-reported_json power_on token h))
      ∙ ap (λ text. text ++ (0 ∷ []))
          (take-all reported_json_length (reported_json power_on token) (
            omega
              (arith, (length-decimal 0 power_on one).1, length-reported_json power_on token h))),
  λ more. (
    snprintf-filled reported_json_length (reported_json power_on token)
        (omega (arith, length-decimal_two power_on more, length-reported_json power_on token h)),
    omega (arith, length-decimal_two power_on more, length-reported_json power_on token h),
  ),
)

pub desired_document-desired_json :
    (power_on token : ℕ)
    → power_on < 10
    → token < 1000000
    → desired_document power_on token ≡ desired_json power_on token ++ (0 ∷ [])
unfolding desired_document ten_to
desired_document-desired_json power_on token one h =
    snprintf-filled desired_json_length (desired_json power_on token)
      (omega (arith, (length-decimal 0 power_on one).0, length-desired_json power_on token h))
    ∙ ap (λ text. text ++ (0 ∷ []))
        (take-all desired_json_length (desired_json power_on token)
          (omega (arith, (length-decimal 0 power_on one).1, length-desired_json power_on token h)))
