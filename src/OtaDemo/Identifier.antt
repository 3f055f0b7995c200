-- ===== src/OtaDemo/Identifier.antt =====
-- Which topics carry the identifier of the client.
use core_mqtt_agent_demos.Prelude.{
  ◌∙◌, subst, ℕ, zero, suc, ◌+◌, ◌-◌, ◌≡◌, refl, ap, Bool, true, false, ◌&&◌, ◌==◌, ltb, arith,
}
use core_mqtt_agent_demos.Prelude.Memory.{Memory}
use core_mqtt_agent_demos.OtaDemo.{
  match_from, match_client_identifier_in_topic, client_identifier_start,
}

-- Two stretches of memory hold the same bytes.
pub equal_bytes : Memory → ℕ → ℕ → ℕ → Bool
equal_bytes mem a b zero = true
equal_bytes mem a b (suc n) = (mem a == mem b) && equal_bytes mem (a + 1) (b + 1) n

match_from-here :
    (mem : Memory) (topic client len idx m rounds : ℕ)
    → m ≡ len
    → match_from mem topic client len idx m (suc rounds) ≡ (mem (topic + idx) == b'/')
unfolding match_from
match_from-here mem topic client len idx m rounds h = ground arith

match_from-later :
    (mem : Memory) (topic client len idx m rounds r : ℕ)
    → m + suc r ≡ len
    → match_from mem topic client len idx m (suc rounds) ≡ (
        (mem (client + m) == mem (topic + idx))
        && match_from mem topic client len (idx + 1) (m + 1) rounds)
unfolding match_from
match_from-later mem topic client len idx m rounds r h = ground arith

match_from-zero :
    (mem : Memory) (topic client len idx m : ℕ) → match_from mem topic client len idx m zero ≡ false
unfolding match_from
match_from-zero mem topic client len idx m = refl

none_left : (r : ℕ) (b : Bool) → false ≡ (ltb r 0 && b)
none_left r b = ground arith

behind : (a b c d : Bool) → (a && (b && (c && d))) ≡ (b && ((a && c) && d))
behind true b c d = refl
behind false true c d = refl
behind false false c d = refl

match_from-equal_bytes :
    (mem : Memory) (topic client len idx m rounds r : ℕ)
    → m + r ≡ len
    → match_from mem topic client len idx m rounds ≡ (
        ltb r rounds
        && (equal_bytes mem (client + m) (topic + idx) r && (mem (topic + idx + r) == b'/')))
unfolding equal_bytes
match_from-equal_bytes mem topic client len idx m zero r h =
    match_from-zero mem topic client len idx m ∙ none_left r _
match_from-equal_bytes mem topic client len idx m (suc rounds) zero h =
    match_from-here mem topic client len idx m rounds (omega arith) ∙ ground arith
match_from-equal_bytes mem topic client len idx m (suc rounds) (suc r) h =
    match_from-later mem topic client len idx m rounds r h
    ∙ (let rest =
          match_from-equal_bytes mem topic client len (idx + 1) (m + 1) rounds r (omega arith) in
        let c : client + (m + 1) ≡ client + m + 1 = omega arith in
        let t : topic + (idx + 1) ≡ topic + idx + 1 = omega arith in
        let u : topic + idx + suc r ≡ topic + idx + 1 + r = omega arith in
        let more : ltb (suc r) (suc rounds) ≡ ltb r rounds = ground arith in
        rw (rest, c, t, u, more)
          (behind (mem (client + m) == mem (topic + idx)) (ltb r rounds)
            (equal_bytes mem (client + m + 1) (topic + idx + 1) r)
            (mem (topic + idx + 1 + r) == b'/')))

-- `prvMatchClientIdentifierInTopic` is true exactly if the topic goes on behind the identifier, the
-- identifier stands at index 12 of the topic, and a slash follows it.
pub match_client_identifier_in_topic_lem :
    (mem : Memory) (topic topic_length client len : ℕ)
    → match_client_identifier_in_topic mem topic topic_length client len ≡ (
        ltb (client_identifier_start + len) topic_length
        && (equal_bytes mem client (topic + client_identifier_start) len
            && (mem (topic + client_identifier_start + len) == b'/')))
unfolding match_client_identifier_in_topic
match_client_identifier_in_topic_lem mem topic topic_length client len =
    let room : ltb len (topic_length - client_identifier_start)
        ≡ ltb (client_identifier_start + len) topic_length =
      ground arith in
    let start : client + 0 ≡ client = omega arith in
    let found =
      match_from-equal_bytes mem topic client len client_identifier_start 0
        (topic_length - client_identifier_start) len (omega arith) in
    let ending = mem (topic + client_identifier_start + len) == b'/' in
    subst
      (λ c.
        match_from mem topic client len client_identifier_start 0
          (topic_length - client_identifier_start)
        ≡ (ltb len (topic_length - client_identifier_start)
            && (equal_bytes mem c (topic + client_identifier_start) len && ending)))
      start found
    ∙ ap (λ b. b && (equal_bytes mem client (topic + client_identifier_start) len && ending)) room
