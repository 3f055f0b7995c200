-- ===== src/ShadowDemo/Consistency.antt =====
-- What holds of the shadow device task at each point of its loop.
use core_mqtt_agent_demos.Prelude.{
  ℕ, ◌≡◌, ◌<◌, refl, sym, subst, Bool, true, false, Option, none, some, List, [], ◌∷◌, ◌++◌, ◌==◌,
  ◌%◌, leb, take, if◌then◌else◌, arith,
}
use core_mqtt_agent_demos.ShadowDemo.Json.{Json}
use core_mqtt_agent_demos.ShadowDemo.Document.{reported_json, reported_json_length}
use core_mqtt_agent_demos.ShadowDemo.Fits.{update_document-front}
use core_mqtt_agent_demos.ShadowDemo.Device.{
  Shadow, newer_delta, update_delta, update_accepted, update_rejected, Point, checking, creating,
  publishing, waiting, timed_out, clearing, Device, check_state, create_report, publish_report,
  take_notification, time_out, forget_state, clear_token, on_shadow, Step, checks, creates,
  publishes, takes, times_out, forgets, clears, delta_received, accepted_received,
  rejected_received, Reach, here, next, started,
}
use core_mqtt_agent_demos.ShadowDemo.Json.{number_at}
use core_mqtt_agent_demos.Prelude.Text.{codes}

-- The token, and whether the document is its report while one is under way.
abbrev pub IsInStep : Type 0 → Point → ℕ → Type 0
IsInStep reports checking token = token ≡ 0
IsInStep reports creating token = token ≡ 0
IsInStep reports publishing token = (token < 1000000) × reports
IsInStep reports waiting token = (token < 1000000) × reports
IsInStep reports timed_out token = token < 1000000
IsInStep reports clearing token = token < 1000000

module _ (json : Json) where
  -- In the run from `start` to `now`, the document was created with that token from the state of the
  -- device at that time: it holds the front of their JSON text that fits, and a terminator.
  abbrev pub IsReport : Device → Device → ℕ → List ℕ → Type 0
  IsReport start now token document =
      (c : Device) × Reach json start c
      × Reach json c now
      × (c.point ≡ creating)
      × (token < 1000000)
      × (document ≡ (
          take reported_json_length (reported_json c.shadow.current_power_on_state token)
          ++ (0 ∷ [])))

  abbrev pub AllReports : Device → Device → List (List ℕ) → Type 0
  AllReports start now [] = Unit
  AllReports start now (document ∷ documents) =
      ((token : ℕ) × IsReport start now token document) × AllReports start now documents

  pub record IsConsistent (start now : Device) : Type 0 where
    pub in_step :
        IsInStep
          (IsReport start now now.shadow.client_token now.document)
          now.point
          now.shadow.client_token
    pub reports : AllReports start now now.published

  pub client_token-update_delta :
      (payload : List ℕ) (s : Shadow) → (update_delta json payload s).client_token ≡ s.client_token
  unfolding update_delta newer_delta
  client_token-update_delta payload s =
      by_tests (json.validate payload) (number_at json payload (codes "version"))
        (number_at json payload (codes "state.powerOn"))
    where
      by_tests :
          (valid : Bool) (found state : Option ℕ)
          → (if valid
              then elim found [
                | none ↦ s
                | some version ↦
                    (if leb version s.current_version then s else elim state [
                      | none ↦ record s { current_version = version }
                      | some new_state ↦ record s {
                        current_version = version;
                        current_power_on_state = new_state;
                      }
                    ])
              ]
              else s).client_token
            ≡ s.client_token
      by_tests false found state = refl
      by_tests true none state = refl
      by_tests true (some version) none = ground arith
      by_tests true (some version) (some new_state) = ground arith

  client_token-update_accepted :
      (payload : List ℕ) (s : Shadow)
      → (update_accepted json payload s).client_token ≡ s.client_token
  unfolding update_accepted
  client_token-update_accepted payload s = ground arith

  client_token-update_rejected :
      (payload : List ℕ) (s : Shadow)
      → (update_rejected json payload s).client_token ≡ s.client_token
  unfolding update_rejected
  client_token-update_rejected payload s = ground arith

  IsReport-Step :
      {start c d : Device} (token : ℕ) (document : List ℕ)
      → Step json c d
      → IsReport start c token document
      → IsReport start d token document
  IsReport-Step token document m (e, before, since, at, small, text) =
      (e, before, next since m, at, small, text)

  AllReports-Step :
      (start : Device) {c d : Device} (documents : List (List ℕ))
      → Step json c d
      → AllReports start c documents
      → AllReports start d documents
  AllReports-Step start [] m k = tt
  AllReports-Step start (document ∷ documents) m ((token, report), k) =
      ((token, IsReport-Step token document m report), AllReports-Step start documents m k)

  IsInStep-map :
      {P Q : Type 0} (point : Point) (token : ℕ)
      → (P → Q)
      → IsInStep P point token
      → IsInStep Q point token
  IsInStep-map checking token f k = k
  IsInStep-map creating token f k = k
  IsInStep-map publishing token f k = (k.0, f k.1)
  IsInStep-map waiting token f k = (k.0, f k.1)
  IsInStep-map timed_out token f k = k
  IsInStep-map clearing token f k = k

  -- A callback, which keeps the token.
  on_shadow-IsConsistent :
      (f : Shadow → Shadow) {start : Device} (c : Device)
      → Step json c (on_shadow f c)
      → (f c.shadow).client_token ≡ c.shadow.client_token
      → IsConsistent start c
      → IsConsistent start (on_shadow f c)
  unfolding on_shadow
  on_shadow-IsConsistent f {start} c m e k = record {
    in_step =
        subst
          (λ token.
            IsInStep (IsReport start (record c { shadow = f c.shadow }) token c.document) c.point
              token)
          (sym e)
          (IsInStep-map c.point c.shadow.client_token
            (IsReport-Step c.shadow.client_token c.document m) k.in_step);
    reports = AllReports-Step start c.published m k.reports;
  }

  create_report-IsReport :
      {start : Device} (ticks : ℕ) (c : Device)
      → c.point ≡ creating
      → Reach json start c
      → IsReport start (create_report ticks c) (ticks % 1000000) (create_report ticks c).document
  unfolding create_report
  create_report-IsReport ticks c at r = (
    c,
    r,
    next here (creates ticks at refl),
    at,
    omega arith,
    update_document-front c.shadow.current_power_on_state (ticks % 1000000) (omega arith),
  )

  -- What is known of a report that is under way.
  under_way :
      (reports : Type 0) {point : Point} (token : ℕ) (expected : Point)
      → point ≡ expected
      → IsInStep reports point token
      → IsInStep reports expected token
  under_way reports token expected at k = subst (λ p. IsInStep reports p token) at k

  Step-IsConsistent :
      {start c d : Device}
      → Reach json start c
      → Step json c d
      → IsConsistent start c
      → IsConsistent start d
  unfolding check_state create_report publish_report take_notification time_out forget_state
      clear_token
  Step-IsConsistent {start} {c} {d} r (checks at e) k = subst (IsConsistent start) (sym e) (
      by_test (c.shadow.current_power_on_state == c.shadow.reported_power_on_state)
        (subst (Step json c) e (checks at e)))
    where
      idle : c.shadow.client_token ≡ 0
      idle = under_way _ c.shadow.client_token checking at k.in_step

      by_test :
          (same : Bool)
          → Step json c (if same then c else record c { point = creating })
          → IsConsistent start (if same then c else record c { point = creating })
      by_test true m = k
      by_test false m = record {
        in_step = idle;
        reports = AllReports-Step start c.published m k.reports;
      }
  Step-IsConsistent {start} {c} r (creates ticks at e) k =
      subst (IsConsistent start) (sym e) (record {
        in_step = (omega arith, create_report-IsReport ticks c at r);
        reports = AllReports-Step start c.published (creates ticks at refl) k.reports;
      })
  Step-IsConsistent {start} {c} r (publishes queued at e) k =
      subst (IsConsistent start) (sym e) (by_test queued (publishes queued at refl))
    where
      by_test :
          (queued : Bool)
          → Step json c (publish_report queued c)
          → IsConsistent start (publish_report queued c)
      by_test true m =
          let (small, report) = under_way _ c.shadow.client_token publishing at k.in_step in
          let kept = IsReport-Step c.shadow.client_token c.document m report in
          record {
            in_step = (small, kept);
            reports =
                ((c.shadow.client_token, kept), AllReports-Step start c.published m k.reports);
          }
      by_test false m = record {
        in_step = (under_way _ c.shadow.client_token publishing at k.in_step).0;
        reports = AllReports-Step start c.published m k.reports;
      }
  Step-IsConsistent {start} {c} r (takes n at h e) k = subst (IsConsistent start) (sym e) (record {
    in_step = (under_way _ c.shadow.client_token waiting at k.in_step).0;
    reports = AllReports-Step start c.published (takes n at h refl) k.reports;
  })
  Step-IsConsistent {start} {c} r (times_out at h e) k =
      subst (IsConsistent start) (sym e) (record {
        in_step = (under_way _ c.shadow.client_token waiting at k.in_step).0;
        reports = AllReports-Step start c.published (times_out at h refl) k.reports;
      })
  Step-IsConsistent {start} {c} r (forgets at e) k = subst (IsConsistent start) (sym e) (record {
    in_step = under_way _ c.shadow.client_token timed_out at k.in_step;
    reports = AllReports-Step start c.published (forgets at refl) k.reports;
  })
  Step-IsConsistent {start} {c} r (clears at e) k = subst (IsConsistent start) (sym e) (record {
    in_step = refl;
    reports = AllReports-Step start c.published (clears at refl) k.reports;
  })
  Step-IsConsistent {start} {c} r (delta_received payload e) k =
      subst (IsConsistent start) (sym e) (
        on_shadow-IsConsistent (update_delta json payload) c (delta_received payload refl)
          (client_token-update_delta payload c.shadow) k)
  Step-IsConsistent {start} {c} r (accepted_received payload e) k =
      subst (IsConsistent start) (sym e) (
        on_shadow-IsConsistent (update_accepted json payload) c (accepted_received payload refl)
          (client_token-update_accepted payload c.shadow) k)
  Step-IsConsistent {start} {c} r (rejected_received payload e) k =
      subst (IsConsistent start) (sym e) (
        on_shadow-IsConsistent (update_rejected json payload) c (rejected_received payload refl)
          (client_token-update_rejected payload c.shadow) k)

  -- Along any run of the task and its callbacks: the token is 0 while no report is under way, and
  -- below 1000000 always; while a report is published and waited for, the document was created, in
  -- this run, for that token and the state that the device then had; and so was every document handed
  -- to `MQTTAgent_Publish`, for a token below 1000000. Such a document is the front of the JSON text
  -- of state and token that fits the buffer, and a terminator.
  pub Reach-IsConsistent :
      (document : List ℕ) {d : Device}
      → Reach json (started document) d
      → IsConsistent (started document) d
  Reach-IsConsistent document here = record { in_step = refl; reports = tt }
  Reach-IsConsistent document (next r m) = Step-IsConsistent r m (Reach-IsConsistent document r)
