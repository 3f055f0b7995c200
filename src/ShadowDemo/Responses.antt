-- ===== src/ShadowDemo/Responses.antt =====
-- Which responses the shadow device task heeds.
use core_mqtt_agent_demos.Prelude.{
  ◌∙◌, ℕ, suc, ◌≡◌, refl, ap, Bool, true, false, ◌⊎◌, Option, none, some, List, ◌==◌, arith,
  Bool-cases, inl, inr,
}
use core_mqtt_agent_demos.ShadowDemo.Json.{Json, received_token, is_response}
use core_mqtt_agent_demos.ShadowDemo.Device.{
  update_accepted, update_rejected, Point, checking, creating, publishing, waiting, timed_out,
  clearing, Device, on_shadow, Reach, started,
}
use core_mqtt_agent_demos.ShadowDemo.Consistency.{IsInStep, Reach-IsConsistent}

-- A report is published, waited for, or just responded to.
abbrev pub is_under_way : Point → Bool
is_under_way checking = false
is_under_way creating = false
is_under_way publishing = true
is_under_way waiting = true
is_under_way timed_out = true
is_under_way clearing = true

module _ (json : Json) where
  pub is_response_lem :
      (payload : List ℕ) (token client_token : ℕ)
      → received_token json payload ≡ some token
      → is_response json client_token payload ≡ (token == client_token)
  unfolding is_response
  is_response_lem payload token client_token h =
      ap (λ (found : Option ℕ). elim found [ none ↦ false | some t ↦ t == client_token ]) h

  ignored :
      (payload : List ℕ) (d : Device)
      → is_response json d.shadow.client_token payload ≡ false
      → (on_shadow (update_accepted json payload) d ≡ d)
        × (on_shadow (update_rejected json payload) d ≡ d)
  unfolding on_shadow update_accepted update_rejected
  ignored payload d h = (rw h refl, rw h refl)

  -- Along any run, a response with another token than 0 changes the device only while a report with
  -- that token is under way: at any other time, neither callback changes anything.
  pub Reach-response :
      (document payload : List ℕ) (t : ℕ) {d : Device}
      → Reach json (started document) d
      → received_token json payload ≡ some (suc t)
      → ((is_under_way d.point ≡ true) × (d.shadow.client_token ≡ suc t))
        ⊎ ((on_shadow (update_accepted json payload) d ≡ d)
            × (on_shadow (update_rejected json payload) d ≡ d))
  Reach-response document payload t {d} r h = elim (Bool-cases (suc t == d.shadow.client_token)) [
    | inl same ↦ inl (
      by_point _ d.point d.shadow.client_token (Reach-IsConsistent json document r).in_step
          (ground arith),
      ground arith,
    )
    | inr other ↦
        inr (ignored payload d (is_response_lem payload (suc t) d.shadow.client_token h ∙ other))
  ]
    where
      by_point :
          (reports : Type 0) (point : Point) (token : ℕ)
          → IsInStep reports point token
          → token ≡ suc t
          → is_under_way point ≡ true
      by_point reports checking token k e = absurd (omega arith)
      by_point reports creating token k e = absurd (omega arith)
      by_point reports publishing token k e = refl
      by_point reports waiting token k e = refl
      by_point reports timed_out token k e = refl
      by_point reports clearing token k e = refl
