-- ===== src/LargeMessageDemo/Echoes.antt =====
-- Which echoes of the large message demo count.
use core_mqtt_agent_demos.Prelude.{
  ℕ, zero, suc, ◌+◌, ◌%◌, ◌^◌, List, [], ◌∷◌, ◌==◌, ◌-◌, ltb, if◌then◌else◌, replicate,
}
use core_mqtt_agent_demos.LargeMessageDemo.{Round, create_payload}

-- How many echoes arrive in a round: up to the return of `ulTaskNotifyTake`, behind that and up to the
-- comparison, and up to the next round.
pub record Arrivals : Type 0 where
  pub before_take : ℕ
  pub before_comparison : ℕ
  pub before_next : ℕ

-- The notifications that a round finds, and those that it leaves, of 32 bits each.
unfoldable pub found : Arrivals → ℕ → ℕ
found r pending = (pending + r.before_take) % 2 ^ 32

unfoldable pub left_over : Arrivals → ℕ → ℕ
left_over r pending =
    ((found r pending - 1 + r.before_comparison) % 2 ^ 32 + r.before_next) % 2 ^ 32

-- The counts of passes and failures behind a round: it fails unless it finds one notification, and
-- passes if there is one, and an echo has arrived in this round. Else it does not count.
unfoldable pub tally : ℕ → ℕ → ℕ × ℕ → ℕ × ℕ
tally notifications arrived (passes, failures) =
    if notifications == 1
    then (if ltb 0 arrived then ((passes + 1) % 2 ^ 32, failures) else (passes, failures))
    else (passes, (failures + 1) % 2 ^ 32)

unfoldable pub expected : List Arrivals → ℕ → ℕ × ℕ → ℕ × ℕ
expected [] pending counts = counts
expected (r ∷ rounds) pending counts =
    expected rounds (left_over r pending)
      (tally (found r pending) (r.before_take + r.before_comparison) counts)

-- What is in the buffer behind some echoes.
abbrev behind : ℕ → List ℕ → List ℕ → List ℕ
behind zero payload buffer = buffer
behind (suc k) payload buffer = payload

module _ (max_length : ℕ) where
  abbrev payload : List ℕ
  payload = create_payload max_length

  -- A round in which every publish is an echo.
  abbrev pub echoes : Arrivals → Round
  echoes r = record {
    before_take = replicate r.before_take payload;
    before_comparison = replicate r.before_comparison payload;
    before_next = replicate r.before_next payload;
  }
