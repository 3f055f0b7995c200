-- ===== src/OtaDemo/Buffers.antt =====
-- Where the payload of a publish goes.
use core_mqtt_agent_demos.Prelude.{
  ◌∙◌, subst, dec_lt, ℕ_discrete, ℕ, zero, suc, ◌+◌, ◌≡◌, ◌≢◌, ◌≤◌, ◌<◌, refl, sym, ap, Bool, true,
  false, not, Option, none, some, List, [], ◌∷◌, length, length-set, set, get_or, get_or-set_self,
  get_or-set_ne, leb, if◌then◌else◌, arith,
}
use core_mqtt_agent_demos.MetricsCollector.{memcpy}
use core_mqtt_agent_demos.OtaDemo.{
  max_num_ota_data_buffers, EventBuffer, no_buffer, buffer_at, free_from, event_buffer_free,
  event_buffer_get, EventId, OtaState, OtaPublish, fill, process_incoming,
}

-- A buffer is in use.
abbrev pub Used : List EventBuffer → ℕ → Type 0
Used buffers j = (buffer_at buffers j).buffer_used ≡ true

-- What the search from an index finds: the first free buffer, or none.
abbrev Search : List EventBuffer → ℕ → ℕ → Option ℕ → Type 0
Search buffers i rounds none = (j : ℕ) → i ≤ j → j < i + rounds → Used buffers j
Search buffers i rounds (some k) =
    (i ≤ k)
    × (k < i + rounds)
    × ((buffer_at buffers k).buffer_used ≡ false)
    × ((j : ℕ) → i ≤ j → j < k → Used buffers j)

free_from-Search :
    (buffers : List EventBuffer) (i rounds : ℕ)
    → Search buffers i rounds (free_from buffers i rounds)
unfolding free_from
free_from-Search buffers i zero = λ j p q. absurd (omega arith)
free_from-Search buffers i (suc rounds) =
    by_result ((buffer_at buffers i).buffer_used) refl (free_from buffers (i + 1) rounds)
      (free_from-Search buffers (i + 1) rounds)
  where
    at_or_later :
        (hi : ℕ)
        → Used buffers i
        → ((j : ℕ) → i + 1 ≤ j → j < hi → Used buffers j)
        → (j : ℕ) → i ≤ j
        → j < hi
        → Used buffers j
    at_or_later hi here later j p q = elim (ℕ_discrete i j) [
      | yes e ↦ subst (λ t. Used buffers t) e here
      | no n ↦ later j (omega arith) q
    ]

    by_result :
        (used : Bool)
        → (buffer_at buffers i).buffer_used ≡ used
        → (rest : Option ℕ) → Search buffers (i + 1) rounds rest
        → Search buffers i (suc rounds) (if not used then some i else rest)
    by_result false e rest s = (omega arith, omega arith, e, λ j p q. absurd (omega arith))
    by_result true e none s = at_or_later (i + suc rounds) e (λ j p q. s j p (omega arith))
    by_result true e (some k) s = (omega (arith, s.0), omega (arith, s.1), s.2, at_or_later k e s.3)

-- The first `n` bytes are those of a source, as far as there are that many, and the bytes behind
-- them are as before.
pub record Copied (source : List ℕ) (n : ℕ) (old new : List ℕ) : Type 0 where
  pub same_length : length new ≡ length old
  pub front :
      (k : ℕ) → k < n → k < length source → k < length old → get_or new k 0 ≡ get_or source k 0
  pub behind : (k : ℕ) → n ≤ k → get_or new k 0 ≡ get_or old k 0

length-memcpy : (target source : List ℕ) (n : ℕ) → length (memcpy target source n) ≡ length target
unfolding memcpy
length-memcpy target source zero = refl
length-memcpy [] source (suc n) = refl
length-memcpy (x ∷ target) [] (suc n) = refl
length-memcpy (x ∷ target) (y ∷ source) (suc n) = ap suc (length-memcpy target source n)

memcpy-front :
    (target source : List ℕ) (n k : ℕ)
    → k < n
    → k < length source
    → k < length target
    → get_or (memcpy target source n) k 0 ≡ get_or source k 0
unfolding memcpy
memcpy-front target source zero k h i j = absurd (omega arith)
memcpy-front [] source (suc n) k h i j = absurd (omega arith)
memcpy-front (x ∷ target) [] (suc n) k h i j = absurd (omega arith)
memcpy-front (x ∷ target) (y ∷ source) (suc n) zero h i j = refl
memcpy-front (x ∷ target) (y ∷ source) (suc n) (suc k) h i j =
    memcpy-front target source n k (omega arith) (omega arith) (omega arith)

memcpy-behind :
    (target source : List ℕ) (n k : ℕ)
    → n ≤ k
    → get_or (memcpy target source n) k 0 ≡ get_or target k 0
unfolding memcpy
memcpy-behind target source zero k h = refl
memcpy-behind [] source (suc n) k h = refl
memcpy-behind (x ∷ target) [] (suc n) k h = refl
memcpy-behind (x ∷ target) (y ∷ source) (suc n) zero h = absurd (omega arith)
memcpy-behind (x ∷ target) (y ∷ source) (suc n) (suc k) h =
    memcpy-behind target source n k (omega arith)

-- The buffer is in use, and its bytes and their number are those of a publish.
pub record Stored (p : OtaPublish) (old new : EventBuffer) : Type 0 where
  pub used : new.buffer_used ≡ true
  pub sized : new.data_length ≡ p.payload_length
  pub bytes : Copied p.payload p.payload_length old.data_bytes new.data_bytes

fill-Stored :
    (p : OtaPublish) (old : EventBuffer) → Stored p old (fill p (record old { buffer_used = true }))
unfolding fill
fill-Stored p old = record {
  used = refl;
  sized = refl;
  bytes = record {
    same_length = length-memcpy old.data_bytes p.payload p.payload_length;
    front = memcpy-front old.data_bytes p.payload p.payload_length;
    behind = memcpy-behind old.data_bytes p.payload p.payload_length;
  };
}

-- What becomes of a publish: its payload is in the first free buffer, of which the agent is told,
-- or no buffer is free, and nothing changes.
pub data Processed (event : EventId) (p : OtaPublish) (s : OtaState) (out : Option OtaState)
    : Type 0 where
  kept :
      (i : ℕ) (s' : OtaState)
      → i < max_num_ota_data_buffers
      → (buffer_at s.buffers i).buffer_used ≡ false
      → ((j : ℕ) → j < i → Used s.buffers j)
      → out ≡ some s'
      → s'.signalled ≡ (event, i) ∷ s.signalled
      → Stored p (buffer_at s.buffers i) (buffer_at s'.buffers i)
      → ((j : ℕ) → i ≢ j → buffer_at s'.buffers j ≡ buffer_at s.buffers j)
      → length s'.buffers ≡ length s.buffers
      → Processed event p s out
  lost :
      ((j : ℕ) → j < max_num_ota_data_buffers → Used s.buffers j)
      → out ≡ some s
      → Processed event p s out

-- `prvProcessIncomingJobMessage` and `prvProcessIncomingData`, on all five buffers and a payload of
-- at most a block, where the semaphore is taken: the free buffer of the lowest index is now in use,
-- it has the length of the payload, its first bytes are those of the payload, as far as payload and
-- buffer reach, and the bytes behind that length are as before; the agent is told of it once, and
-- every other buffer stays; or all are in use, and nothing changes.
pub process_incoming-Processed :
    (block_size : ℕ) (event : EventId) (p : OtaPublish) (s : OtaState)
    → length s.buffers ≡ max_num_ota_data_buffers
    → p.payload_length ≤ block_size
    → Processed event p s (process_incoming block_size true event p s)
unfolding process_incoming event_buffer_get
process_incoming-Processed block_size event p s size fits =
    by_search (free_from s.buffers 0 max_num_ota_data_buffers)
      (free_from-Search s.buffers 0 max_num_ota_data_buffers)
  where
    fitting : leb p.payload_length block_size ≡ true
    fitting = ground arith

    marked : ℕ → EventBuffer
    marked i = record (buffer_at s.buffers i) { buffer_used = true }

    by_search :
        (found : Option ℕ)
        → Search s.buffers 0 max_num_ota_data_buffers found
        → Processed event p s (
            let (buffers, got) = elim found as (λ _. List EventBuffer × Option ℕ) [
              | none ↦ (s.buffers, none)
              | some i ↦ (set s.buffers i (marked i), some i)
            ] in
            if leb p.payload_length block_size
            then elim got [
              | none ↦ some (record s { buffers = buffers })
              | some i ↦ some (record {
                buffers = set buffers i (fill p (buffer_at buffers i));
                signalled = (event, i) ∷ s.signalled;
              })
            ]
            else none)
    by_search none all_used = lost (λ j q. all_used j (omega arith) (omega arith)) (rw fitting)
    by_search (some i) found =
        let inside : i < length s.buffers = omega (arith, found.1) in
        let size' = length-set s.buffers i (marked i) in
        let got = get_or-set_self s.buffers i (marked i) no_buffer inside in
        let taken = set s.buffers i (marked i) in
        kept i
          (record {
            buffers = set taken i (fill p (buffer_at taken i));
            signalled = (event, i) ∷ s.signalled;
          })
          (omega (arith, found.1)) found.2 (λ j q. found.3 j (omega arith) q) (rw fitting refl) refl
          (subst (Stored p (buffer_at s.buffers i))
            (sym (
              get_or-set_self taken i (fill p (buffer_at taken i)) no_buffer (rw size' inside)
              ∙ ap (fill p) got))
            (fill-Stored p (buffer_at s.buffers i)))
          (λ j n.
            get_or-set_ne taken i j (fill p (buffer_at taken i)) no_buffer n
            ∙ get_or-set_ne s.buffers i j (marked i) no_buffer n)
          (length-set taken i (fill p (buffer_at taken i)) ∙ size')

-- After `prvOTAEventBufferFree` of one of the five buffers, `prvOTAEventBufferGet` hands one out,
-- at that index or below it, where the semaphore is taken both times.
pub event_buffer_get-event_buffer_free :
    (buffers : List EventBuffer) (i : ℕ)
    → length buffers ≡ max_num_ota_data_buffers
    → i < max_num_ota_data_buffers
    → (k : ℕ) × ((event_buffer_get true (event_buffer_free true buffers i)).1 ≡ some k) × (k ≤ i)
unfolding event_buffer_get event_buffer_free
event_buffer_get-event_buffer_free buffers i size inside =
    by_search (free_from freed 0 max_num_ota_data_buffers)
      (free_from-Search freed 0 max_num_ota_data_buffers)
  where
    freed : List EventBuffer
    freed = set buffers i (record (buffer_at buffers i) { buffer_used = false })

    free : (buffer_at freed i).buffer_used ≡ false
    free =
        ap (λ (b : EventBuffer). b.buffer_used)
          (get_or-set_self buffers i (record (buffer_at buffers i) { buffer_used = false })
            no_buffer (omega arith))

    not_used : Used freed i → ⊥
    not_used u = let f = free in cc

    by_search :
        (found : Option ℕ)
        → Search freed 0 max_num_ota_data_buffers found
        → (k : ℕ) × ((elim found as (λ _. List EventBuffer × Option ℕ) [
          | none ↦ (freed, none)
          | some j ↦ (set freed j (record (buffer_at freed j) { buffer_used = true }), some j)
        ]).1
            ≡ some k)
          × (k ≤ i)
    by_search none all_used = absurd (not_used (all_used i (omega arith) (omega arith)))
    by_search (some k) found = (
      k,
      refl,
      elim (dec_lt i k) [
        | yes below ↦ absurd (not_used (found.3 i (omega arith) below))
        | no above ↦ omega arith
      ],
    )
