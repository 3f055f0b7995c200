-- ===== src/ShadowDemo/Deltas.antt =====
-- A delta takes effect once, however often and late it is delivered again.
use core_mqtt_agent_demos.Prelude.{
  ℕ, ◌≡◌, ◌≤◌, refl, ap, Bool, true, false, Option, none, some, List, leb, if◌then◌else◌, arith,
  Bool-cases, inl, inr,
}
use core_mqtt_agent_demos.Prelude.Text.{codes}
use core_mqtt_agent_demos.ShadowDemo.Json.{Json, number_at}
use core_mqtt_agent_demos.ShadowDemo.Device.{
  Shadow, newer_delta, update_delta, update_accepted, update_rejected, Device, check_state,
  create_report, publish_report, take_notification, time_out, forget_state, clear_token, on_shadow,
  Step, checks, creates, publishes, takes, times_out, forgets, clears, delta_received,
  accepted_received, rejected_received, Reach, here, next,
}

module _ (json : Json) where
  -- The version of a valid delta.
  unfoldable pub delta_version : List ℕ → Option ℕ
  delta_version payload =
      if json.validate payload then number_at json payload (codes "version") else none

  abbrev IsStale : Option ℕ → Shadow → Type 0
  IsStale none s = Unit
  IsStale (some version) s = version ≤ s.current_version

  newer_delta-IsStale :
      (payload : List ℕ) (version : ℕ) (s : Shadow)
      → (version ≤ (newer_delta json payload version s).current_version)
        × (s.current_version ≤ (newer_delta json payload version s).current_version)
  unfolding newer_delta
  newer_delta-IsStale payload version s = by_state (number_at json payload (codes "state.powerOn"))
    where
      outcome : Option ℕ → Shadow
      outcome state =
          let s' = record s { current_version = version } in
          if leb version s.current_version then s else elim state [
            | none ↦ s'
            | some new_state ↦ record s' { current_power_on_state = new_state }
          ]

      by_state :
          (state : Option ℕ)
          → (version ≤ (outcome state).current_version)
            × (s.current_version ≤ (outcome state).current_version)
      by_state none = elim (Bool-cases (leb version s.current_version)) [
        | inl old ↦ rw old (ground arith, ground arith)
        | inr newer ↦ rw newer (ground arith, ground arith)
      ]
      by_state (some state) = elim (Bool-cases (leb version s.current_version)) [
        | inl old ↦ rw old (ground arith, ground arith)
        | inr newer ↦ rw newer (ground arith, ground arith)
      ]

  update_delta-IsStale :
      (payload : List ℕ) (s : Shadow)
      → IsStale (delta_version payload) (update_delta json payload s)
        × (s.current_version ≤ (update_delta json payload s).current_version)
  unfolding delta_version update_delta
  update_delta-IsStale payload s =
      by_tests (json.validate payload) (number_at json payload (codes "version"))
    where
      by_tests :
          (valid : Bool) (found : Option ℕ)
          → let s' =
              if valid
              then elim found [ none ↦ s | some version ↦ newer_delta json payload version s ]
              else s in
            IsStale (if valid then found else none) s' × (s.current_version ≤ s'.current_version)
      by_tests false found = (tt, omega arith)
      by_tests true none = (tt, omega arith)
      by_tests true (some version) = newer_delta-IsStale payload version s

  update_delta-stale :
      (payload : List ℕ) (s : Shadow)
      → IsStale (delta_version payload) s
      → update_delta json payload s ≡ s
  unfolding delta_version update_delta newer_delta
  update_delta-stale payload s =
      by_tests (json.validate payload) (number_at json payload (codes "version"))
    where
      by_tests :
          (valid : Bool) (found : Option ℕ)
          → IsStale (if valid then found else none) s
          → (if valid
              then elim found [ none ↦ s | some version ↦ newer_delta json payload version s ]
              else s)
            ≡ s
      by_tests false found h = refl
      by_tests true none h = refl
      by_tests true (some version) h = ground arith

  IsStale-mono :
      (version : Option ℕ) (s t : Shadow)
      → s.current_version ≤ t.current_version
      → IsStale version s
      → IsStale version t
  IsStale-mono none s t h k = tt
  IsStale-mono (some version) s t h k = omega arith

  Step-mono : {c d : Device} → Step json c d → c.shadow.current_version ≤ d.shadow.current_version
  unfolding check_state create_report publish_report take_notification time_out forget_state
      clear_token on_shadow update_accepted update_rejected
  Step-mono {c} (checks at e) = rw e (ground arith)
  Step-mono (creates ticks at e) = rw e (ground arith)
  Step-mono (publishes queued at e) = rw e (ground arith)
  Step-mono (takes n at h e) = rw e (ground arith)
  Step-mono (times_out at h e) = rw e (ground arith)
  Step-mono (forgets at e) = rw e (ground arith)
  Step-mono (clears at e) = rw e (ground arith)
  Step-mono {c} (delta_received payload e) = rw e (update_delta-IsStale payload c.shadow).1
  Step-mono {c} (accepted_received payload e) = rw e (ground arith)
  Step-mono (rejected_received payload e) = rw e (ground arith)

  Reach-mono : {c d : Device} → Reach json c d → c.shadow.current_version ≤ d.shadow.current_version
  Reach-mono here = omega arith
  Reach-mono (next r m) = omega (arith, Reach-mono r, Step-mono m)

  -- Behind a delta, whatever the task does and whatever else it receives, the same delta changes
  -- nothing any more; so one that is delivered twice, as QoS 1 allows, takes effect once, and never
  -- undoes a newer one.
  pub Reach-update_delta :
      (payload : List ℕ) (c : Device) {d : Device}
      → Reach json (on_shadow (update_delta json payload) c) d
      → on_shadow (update_delta json payload) d ≡ d
  unfolding on_shadow
  Reach-update_delta payload c {d} r =
      ap (λ (s : Shadow). record d { shadow = s })
        (update_delta-stale payload d.shadow (
          IsStale-mono (delta_version payload) (update_delta json payload c.shadow) d.shadow
            (Reach-mono r) (update_delta-IsStale payload c.shadow).0))
