-- ===== src/OtaDemo/History.antt =====
-- Which buffers are in use, along any sequence of publishes and processed events.
use core_mqtt_agent_demos.Prelude.{
  ◌∙◌, ℕ, zero, suc, ◌≡◌, ◌≢◌, ◌≤◌, ◌<◌, refl, sym, ap, subst, Bool, true, false, Option, none,
  some, List, [], ◌∷◌, ◌==◌, if◌then◌else◌, length, length-set, length-replicate, set, replicate,
  get_or, get_or-set_self, get_or-set_ne, ℕ_discrete, dec_lt, arith,
}
use core_mqtt_agent_demos.OtaDemo.{
  max_num_ota_data_buffers, EventBuffer, no_buffer, buffer_at, event_buffer_free, EventId, OtaState,
  OtaPublish, process_incoming,
}
use core_mqtt_agent_demos.OtaDemo.Buffers.{Processed, kept, lost, process_incoming-Processed}
use core_mqtt_agent_demos.OtaDemo.Callback.{processed, ota_app_callback}

-- The state of the demo, and for each buffer the publish that the OTA agent was told of and has not
-- processed yet.
pub record Demo : Type 0 where
  pub state : OtaState
  pub pending : ℕ → Option OtaPublish

abbrev pub update : ℕ → Option OtaPublish → (ℕ → Option OtaPublish) → ℕ → Option OtaPublish
update i v f j = if i == j then v else f j

-- A publish is taken, with the signal of its buffer, or lost, without one; or the agent has processed
-- a publish that was pending, and hands its buffer to `otaAppCallback`. The semaphore is taken, and a
-- payload has at least the bytes that its length says.
pub data Move (block_size : ℕ) (a b : Demo) : Type 0 where
  stores :
      (event : EventId) (p : OtaPublish) (i : ℕ) (s' : OtaState)
      → p.payload_length ≤ block_size
      → p.payload_length ≤ length p.payload
      → process_incoming block_size true event p a.state ≡ some s'
      → s'.signalled ≡ (event, i) ∷ a.state.signalled
      → b ≡ record { state = s'; pending = update i (some p) a.pending }
      → Move block_size a b
  loses :
      (event : EventId) (p : OtaPublish) (s' : OtaState)
      → p.payload_length ≤ block_size
      → process_incoming block_size true event p a.state ≡ some s'
      → length s'.signalled ≡ length a.state.signalled
      → b ≡ record a { state = s' }
      → Move block_size a b
  processes :
      (i : ℕ) (p : OtaPublish) (buffers : List EventBuffer)
      → a.pending i ≡ some p
      → ota_app_callback true (processed (some i)) a.state.buffers ≡ some (buffers, [])
      → b ≡ record {
        state = record (a.state) { buffers = buffers };
        pending = update i none a.pending;
      }
      → Move block_size a b

pub data Reach (block_size : ℕ) (a : Demo) : Demo → Type 0 where
  here : Reach block_size a a
  next : {b c : Demo} → Reach block_size a b → Move block_size b c → Reach block_size a c

-- A buffer is free, or it is in use, and its bytes and their number are those of the payload of a
-- publish.
abbrev pub Holds : Option OtaPublish → EventBuffer → Type 0
Holds none b = b.buffer_used ≡ false
Holds (some p) b =
    (b.buffer_used ≡ true)
    × (b.data_length ≡ p.payload_length)
    × ((k : ℕ) → k < p.payload_length → get_or b.data_bytes k 0 ≡ get_or p.payload k 0)

pub record IsOwned (block_size : ℕ) (d : Demo) : Type 0 where
  pub size : length d.state.buffers ≡ max_num_ota_data_buffers
  pub block :
      (j : ℕ)
      → j < max_num_ota_data_buffers
      → length (buffer_at d.state.buffers j).data_bytes ≡ block_size
  pub holds :
      (j : ℕ) → j < max_num_ota_data_buffers → Holds (d.pending j) (buffer_at d.state.buffers j)
  pub inside : (j : ℕ) → max_num_ota_data_buffers ≤ j → d.pending j ≡ none

-- The buffers as they are zeroed, of a size of their own each.
abbrev pub zeroed : ℕ → Demo
zeroed block_size = record {
  state = record {
    buffers =
        replicate max_num_ota_data_buffers
          (record { data_bytes = replicate block_size 0; data_length = 0; buffer_used = false });
    signalled = [];
  };
  pending = λ j. none;
}

update_self :
    (i j : ℕ) (v : Option OtaPublish) (f : ℕ → Option OtaPublish) → i ≡ j → update i v f j ≡ v
update_self i j v f e =
    ap (λ (same : Bool). if same then v else f j) (let t : (i == j) ≡ true = ground arith in t)

update_other :
    (i j : ℕ) (v : Option OtaPublish) (f : ℕ → Option OtaPublish) → i ≢ j → update i v f j ≡ f j
update_other i j v f n =
    ap (λ (same : Bool). if same then v else f j) (let t : (i == j) ≡ false = ground arith in t)

-- A change of one buffer and of what is pending there.
change-IsOwned :
    (block_size : ℕ) (d : Demo) (i : ℕ) (v : Option OtaPublish) (s' : OtaState)
    → IsOwned block_size d
    → i < max_num_ota_data_buffers
    → length s'.buffers ≡ length d.state.buffers
    → length (buffer_at s'.buffers i).data_bytes ≡ block_size
    → Holds v (buffer_at s'.buffers i)
    → ((j : ℕ) → i ≢ j → buffer_at s'.buffers j ≡ buffer_at d.state.buffers j)
    → IsOwned block_size (record { state = s'; pending = update i v d.pending })
change-IsOwned block_size d i v s' k below size block new others = record {
  size = size ∙ k.size;
  block = λ j h. elim (ℕ_discrete i j) [
    | yes same ↦ subst (λ n. length (buffer_at s'.buffers n).data_bytes ≡ block_size) same block
    | no other ↦ ap (λ (b : EventBuffer). length b.data_bytes) (others j other) ∙ k.block j h
  ];
  holds = λ j h. elim (ℕ_discrete i j) [
    | yes same ↦
        subst (λ o. Holds o (buffer_at s'.buffers j)) (sym (update_self i j v d.pending same))
          (subst (λ n. Holds v (buffer_at s'.buffers n)) same new)
    | no other ↦
        subst (λ o. Holds o (buffer_at s'.buffers j)) (sym (update_other i j v d.pending other))
          (subst (Holds (d.pending j)) (sym (others j other)) (k.holds j h))
  ];
  inside = λ j h. update_other i j v d.pending (λ e. absurd (omega arith)) ∙ k.inside j h;
}

buffer_at-replicate : (n j : ℕ) (b : EventBuffer) → j < n → buffer_at (replicate n b) j ≡ b
buffer_at-replicate zero j b h = absurd (omega arith)
buffer_at-replicate (suc n) zero b h = refl
buffer_at-replicate (suc n) (suc j) b h = buffer_at-replicate n j b (omega arith)

same_state : {out : Option OtaState} {s t : OtaState} → out ≡ some s → out ≡ some t → s ≡ t
same_state e f = cc

module _ (block_size : ℕ) where
  stores-IsOwned :
      (d : Demo) (event : EventId) (p : OtaPublish) (i : ℕ) (s' : OtaState)
      → p.payload_length ≤ block_size
      → p.payload_length ≤ length p.payload
      → process_incoming block_size true event p d.state ≡ some s'
      → s'.signalled ≡ (event, i) ∷ d.state.signalled
      → IsOwned block_size d
      → IsOwned block_size (record { state = s'; pending = update i (some p) d.pending })
  stores-IsOwned d event p i s' fits whole e told k =
      by_outcome (process_incoming-Processed block_size event p d.state k.size fits)
    where
      by_outcome :
          Processed event p d.state (process_incoming block_size true event p d.state)
          → IsOwned block_size (record { state = s'; pending = update i (some p) d.pending })
      by_outcome (kept n s'' below free prior out signalled filled others size) =
          let es : s'' ≡ s' = same_state out e in
          let en : n ≡ i = let q = ap (λ (s : OtaState). s.signalled) es in cc in
          subst
            (λ m. IsOwned block_size (record { state = s'; pending = update m (some p) d.pending }))
            en
            (subst
              (λ s.
                IsOwned block_size (record { state = s; pending = update n (some p) d.pending }))
              es
              (change-IsOwned block_size d n (some p) s'' k below size
                (filled.bytes.same_length ∙ k.block n below)
                (
                  filled.used,
                  filled.sized,
                  λ m h.
                      filled.bytes.front m h (omega arith) (let q = k.block n below in omega arith),
                )
                others))
      by_outcome (lost used out) = absurd (
          let q : length d.state.signalled ≡ suc (length d.state.signalled) =
            ap (λ (s : OtaState). length s.signalled) (same_state out e) ∙ ap length told in
          omega (arith, q))

  loses-IsOwned :
      (d : Demo) (event : EventId) (p : OtaPublish) (s' : OtaState)
      → p.payload_length ≤ block_size
      → process_incoming block_size true event p d.state ≡ some s'
      → length s'.signalled ≡ length d.state.signalled
      → IsOwned block_size d
      → IsOwned block_size (record d { state = s' })
  loses-IsOwned d event p s' fits e told k =
      by_outcome (process_incoming-Processed block_size event p d.state k.size fits)
    where
      by_outcome :
          Processed event p d.state (process_incoming block_size true event p d.state)
          → IsOwned block_size (record d { state = s' })
      by_outcome (kept n s'' below free prior out signalled filled others size) = absurd (
          let q : length s'.signalled ≡ suc (length d.state.signalled) =
            ap (λ (s : OtaState). length s.signalled) (same_state e out) ∙ ap length signalled in
          omega (arith, q, told))
      by_outcome (lost used out) =
          subst (λ s. IsOwned block_size (record d { state = s })) (same_state out e) k

  processes-IsOwned :
      (d : Demo) (i : ℕ) (p : OtaPublish)
      → d.pending i ≡ some p
      → IsOwned block_size d
      → IsOwned block_size (record {
        state = record (d.state) { buffers = event_buffer_free true d.state.buffers i };
        pending = update i none d.pending;
      })
  unfolding event_buffer_free
  processes-IsOwned d i p was k = elim (dec_lt i max_num_ota_data_buffers) [
    | yes below ↦
        change-IsOwned block_size d i none
          (record (d.state) { buffers = set d.state.buffers i freed }) k below
          (length-set d.state.buffers i freed)
          (ap (λ (b : EventBuffer). length b.data_bytes)
              (get_or-set_self d.state.buffers i freed no_buffer (rw (k.size) below))
            ∙ k.block i below)
          (ap (λ (b : EventBuffer). b.buffer_used)
            (get_or-set_self d.state.buffers i freed no_buffer (rw (k.size) below)))
          (λ j n. get_or-set_ne d.state.buffers i j freed no_buffer n)
    | no beyond ↦ absurd (let q = k.inside i (omega arith) in not_pending q)
  ]
    where
      freed : EventBuffer
      freed = record (buffer_at d.state.buffers i) { buffer_used = false }

      not_pending : d.pending i ≡ none → ⊥
      not_pending q = cc

  Move-IsOwned : {a b : Demo} → Move block_size a b → IsOwned block_size a → IsOwned block_size b
  unfolding ota_app_callback
  Move-IsOwned {a} (stores event p i s' fits whole e told at) k =
      subst (IsOwned block_size) (sym at) (stores-IsOwned a event p i s' fits whole e told k)
  Move-IsOwned {a} (loses event p s' fits e told at) k =
      subst (IsOwned block_size) (sym at) (loses-IsOwned a event p s' fits e told k)
  Move-IsOwned {a} (processes i p buffers was e at) k = subst (IsOwned block_size) (sym at) (
      subst
        (λ bs.
          IsOwned block_size (record {
            state = record (a.state) { buffers = bs };
            pending = update i none a.pending;
          }))
        freed (processes-IsOwned a i p was k))
    where
      freed : event_buffer_free true a.state.buffers i ≡ buffers
      freed = cc

  -- Along any sequence of publishes, with payloads of at most a block, and processed events from the
  -- zeroed buffers, where the semaphore is taken: the buffers in use are those of the publishes that
  -- the OTA agent was told of and has not processed, and each of them still has the length and the
  -- bytes of the payload of its publish; so no payload is overwritten before it is processed, and each
  -- buffer is free again behind that.
  pub Reach-IsOwned : {d : Demo} → Reach block_size (zeroed block_size) d → IsOwned block_size d
  Reach-IsOwned here = record {
    size = refl;
    block = λ j h.
        ap (λ (b : EventBuffer). length b.data_bytes)
          (buffer_at-replicate max_num_ota_data_buffers j
            (record { data_bytes = replicate block_size 0; data_length = 0; buffer_used = false })
            h)
        ∙ length-replicate block_size 0;
    holds = λ j h.
        ap (λ (b : EventBuffer). b.buffer_used)
          (buffer_at-replicate max_num_ota_data_buffers j
            (record { data_bytes = replicate block_size 0; data_length = 0; buffer_used = false })
            h);
    inside = λ j h. refl;
  }
  Reach-IsOwned (next r m) = Move-IsOwned m (Reach-IsOwned r)
