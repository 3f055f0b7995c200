-- ===== src/LargeMessageDemo/Tests.antt =====
-- A run of the large message demo, and its theorem at such an input.
use core_mqtt_agent_demos.Prelude.{◌≡◌, refl, List, [], ◌∷◌}
use core_mqtt_agent_demos.LargeMessageDemo.{fill_from, create_payload, Task}
use core_mqtt_agent_demos.LargeMessageDemo.Echoes.{Arrivals, found, left_over, tally, expected}

abbrev start : Task
start = record { received = []; notifications = 0; passes = 0; failures = 0 }

halves : create_payload 5 ≡ b'a' ∷ (b'a' ∷ (b'b' ∷ (b'b' ∷ (b'b' ∷ []))))
unfolding create_payload fill_from
halves = refl

abbrev in_time : Arrivals
in_time = record { before_take = 1; before_comparison = 0; before_next = 0 }

abbrev late : Arrivals
late = record { before_take = 0; before_comparison = 0; before_next = 1 }

abbrev lost : Arrivals
lost = record { before_take = 0; before_comparison = 0; before_next = 0 }

-- One pass; a late echo, behind which an echo in time fails; a lost one, which does not count and uses
-- up the notification that was left over; and a pass again.
abbrev rounds : List Arrivals
rounds = in_time ∷ (late ∷ (in_time ∷ (lost ∷ (in_time ∷ []))))

late_counts : expected rounds 0 (0, 0) ≡ (2, 2)
unfolding expected found left_over tally
late_counts = refl
