-- ===== src/SubscriptionManager/Dispatch.antt =====
-- `handleIncomingPublishes`: which callbacks a publish reaches.
use native.Mathlib.Numerals.{add-one}
use core_mqtt_agent_demos.Prelude.{
  ℕ, suc, ◌+◌, ◌≡◌, refl, Bool, true, false, ◌&&◌, Option, none, some, List, [], ◌∷◌, ltb, drop, ap,
  ◌∙◌, inl, inr, Bool-cases, ◌≢◌, ◌||◌, ◌⊎◌, zero, ℕ_discrete, get_or_of_drop, length, arith,
  if◌then◌else◌,
}
use core_mqtt_agent_demos.Prelude.Memory.{null}
use core_mqtt_agent_demos.SubscriptionManager.{
  SubscriptionElement, Table, max_subscriptions, empty_element, element_at, PublishInfo, is_matched,
  call_element, dispatch_from, handle_incoming_publishes,
}

-- The elements of a table that a publish is for, in their order: in use, with a matching filter.
module _ (match_topic : ℕ → ℕ → ℕ → ℕ → Option Bool) where
  unfoldable pub is_recipient : PublishInfo → SubscriptionElement → Bool
  is_recipient p e =
      ltb 0 e.filter_string_length
      && elim (match_topic p.topic_name p.topic_name_length e.subscription_filter_string
          e.filter_string_length) [ none ↦ false | some result ↦ result ]

  unfoldable pub recipients : PublishInfo → Table → List SubscriptionElement
  recipients p [] = []
  recipients p (e ∷ es) = let rest = recipients p es in if is_recipient p e then e ∷ rest else rest

-- An element is free, or its filter is not `NULL`.
abbrev pub IsNamed : SubscriptionElement → Type 0
IsNamed e = (e.filter_string_length ≡ 0) ⊎ (e.subscription_filter_string ≢ null)

abbrev pub AllNamed : Table → Type 0
AllNamed [] = Unit
AllNamed (e ∷ es) = IsNamed e × AllNamed es

-- `MQTT_MatchTopic` writes its result for a topic and a filter that are neither `NULL` nor empty.
abbrev pub Answers : (ℕ → ℕ → ℕ → ℕ → Option Bool) → Type 0
Answers match_topic =
    (a b c d : ℕ) → a ≢ null → b ≢ 0 → c ≢ null → d ≢ 0 → match_topic a b c d ≢ none

-- It returns `MQTTBadParameter`, without a result, for a topic that is `NULL` or empty.
abbrev pub IsSilent : (ℕ → ℕ → ℕ → ℕ → Option Bool) → Type 0
IsSilent match_topic = (a b c d : ℕ) → (a ≡ null) ⊎ (b ≡ 0) → match_topic a b c d ≡ none

-- Whether a list has an element.
unfoldable pub any {ℓ} : {A : Type ℓ} → List A → Bool
any [] = false
any (x ∷ xs) = true

module _ {S : Type 0} (call : ℕ → ℕ → PublishInfo → S → S) where
  -- The callbacks of the elements, called one after the other.
  unfoldable pub call_all : PublishInfo → List SubscriptionElement → S → S
  call_all p [] s = s
  call_all p (e ∷ es) s =
      call_all p es (call e.incoming_publish_callback e.incoming_publish_callback_context p s)

module _ {S : Type 0} (table_of : S → Table) (call : ℕ → ℕ → PublishInfo → S → S)
    (match_topic : ℕ → ℕ → ℕ → ℕ → Option Bool) (answers : Answers match_topic)
    (silent : IsSilent match_topic)
    (keeps : (c x : ℕ) (p : PublishInfo) (s : S) → table_of (call c x p s) ≡ table_of s) where
  matched-eq-is_recipient :
      (p : PublishInfo) (e : SubscriptionElement) (matched : Bool)
      → p.topic_name ≢ null
      → p.topic_name_length ≢ 0
      → IsNamed e
      → (ltb 0 e.filter_string_length && is_matched table_of call match_topic p e matched)
        ≡ is_recipient match_topic p e
  unfolding is_recipient is_matched
  matched-eq-is_recipient p e matched topic size (inl free) = rw free refl
  matched-eq-is_recipient p e matched topic size (inr named) =
      elim (ℕ_discrete e.filter_string_length 0) [
        | yes free ↦ rw free refl
        | no used ↦ ground (
          arith,
          answers p.topic_name p.topic_name_length e.subscription_filter_string
              e.filter_string_length topic size named used,
        )
      ]

  -- One round on a recipient, and on another element.
  dispatch_from-recipient :
      (p : PublishInfo) (e : SubscriptionElement) (s : S) (i rounds : ℕ) (matched handled : Bool)
      → p.topic_name ≢ null
      → p.topic_name_length ≢ 0
      → IsNamed e
      → element_at (table_of s) i ≡ e
      → is_recipient match_topic p e ≡ true
      → dispatch_from table_of call match_topic p s i (suc rounds) matched handled
        ≡ dispatch_from table_of call match_topic p
            (call e.incoming_publish_callback e.incoming_publish_callback_context p s)
            (i + 1)
            rounds
            (is_matched table_of call match_topic p e matched)
            true
  unfolding dispatch_from call_element
  dispatch_from-recipient p e s i rounds matched handled topic size named h r =
      let m = matched-eq-is_recipient p e matched topic size named in
      let m0 : ltb 0 e.filter_string_length ≡ true = ground arith in
      let m1 : is_matched table_of call match_topic p e matched ≡ true = ground arith in
      rw (h, m0, m1)

  dispatch_from-other :
      (p : PublishInfo) (e : SubscriptionElement) (s : S) (i rounds : ℕ) (matched handled : Bool)
      → p.topic_name ≢ null
      → p.topic_name_length ≢ 0
      → IsNamed e
      → element_at (table_of s) i ≡ e
      → is_recipient match_topic p e ≡ false
      → (matched' : Bool) × (dispatch_from table_of call match_topic p s i
            (suc rounds)
            matched
            handled
          ≡ dispatch_from table_of call match_topic p s (i + 1) rounds matched' handled)
  unfolding dispatch_from
  dispatch_from-other p e s i rounds matched handled topic size named h r =
      let m = matched-eq-is_recipient p e matched topic size named in
      elim (Bool-cases (ltb 0 e.filter_string_length)) [
        | inl used ↦
            let m1 : is_matched table_of call match_topic p e matched ≡ false = ground arith in
            (is_matched table_of call match_topic p e matched, rw (h, used, m1))
        | inr free ↦ (matched, rw (h, free))
      ]

  dispatch_from-zero :
      (p : PublishInfo) (s : S) (i : ℕ) (matched handled : Bool)
      → dispatch_from table_of call match_topic p s i 0 matched handled ≡ (s, handled || false)
  unfolding dispatch_from
  dispatch_from-zero p s i matched handled = ground arith

  dispatch_from-recipients :
      (p : PublishInfo) (es : List SubscriptionElement) (s : S) (i : ℕ) (matched handled : Bool)
      → p.topic_name ≢ null
      → p.topic_name_length ≢ 0
      → AllNamed es
      → drop i (table_of s) ≡ es
      → dispatch_from table_of call match_topic p s i (length es) matched handled ≡ (
        call_all call p (recipients match_topic p es) s,
        handled || any (recipients match_topic p es),
      )
  unfolding recipients call_all any
  dispatch_from-recipients p [] s i matched handled topic size named h =
      dispatch_from-zero p s i matched handled
  dispatch_from-recipients p (e ∷ es) s i matched handled topic size named h =
      elim (Bool-cases (is_recipient match_topic p e)) [
        | inl r ↦
            rw
              (
                dispatch_from-recipient p e s i (length es) matched handled topic size named.0 here
                    r,
                r,
              )
              (dispatch_from-recipients p es s' (i + 1)
                  (is_matched table_of call match_topic p e matched) true topic size named.1
                  (ap (drop (i + 1)) (keeps _ _ p s) ∙ next)
                ∙ ground arith)
        | inr r ↦
            let (matched', e') =
              dispatch_from-other p e s i (length es) matched handled topic size named.0 here r in
            rw (e', r)
              (dispatch_from-recipients p es s (i + 1) matched' handled topic size named.1 next)
      ]
    where
      s' : S
      s' = call e.incoming_publish_callback e.incoming_publish_callback_context p s

      here : element_at (table_of s) i ≡ e
      here = (get_or_of_drop (table_of s) i e es empty_element h).0

      next : drop (i + 1) (table_of s) ≡ es
      next = rw add-one ((get_or_of_drop (table_of s) i e es empty_element h).1)

  -- Without a topic, nothing is matched.
  dispatch_from-silent :
      (p : PublishInfo) (s : S) (i rounds : ℕ)
      → (p.topic_name ≡ null) ⊎ (p.topic_name_length ≡ 0)
      → dispatch_from table_of call match_topic p s i rounds false false ≡ (s, false)
  unfolding dispatch_from is_matched
  dispatch_from-silent p s i zero bad = refl
  dispatch_from-silent p s i (suc rounds) bad = ground (
    arith,
    dispatch_from-silent p s (i + 1) rounds bad,
    silent p.topic_name p.topic_name_length (element_at (table_of s) i).subscription_filter_string
        (element_at (table_of s) i).filter_string_length bad,
  )

  recipients-silent :
      (p : PublishInfo) (es : Table)
      → (p.topic_name ≡ null) ⊎ (p.topic_name_length ≡ 0)
      → recipients match_topic p es ≡ []
  unfolding recipients is_recipient
  recipients-silent p [] bad = refl
  recipients-silent p (e ∷ es) bad = ground (
    arith,
    recipients-silent p es bad,
    silent p.topic_name p.topic_name_length e.subscription_filter_string e.filter_string_length bad,
  )

  -- On a table of the full length in which no element in use has a `NULL` filter, where no callback
  -- changes the table, and `MQTT_MatchTopic` writes a result for a topic and a filter that are neither
  -- `NULL` nor empty, and none for a topic that is: `handleIncomingPublishes` calls, in the order of
  -- the table and each once, the callbacks of exactly the elements that are in use and whose filter
  -- matches, and it returns whether there was one.
  pub handle_incoming_publishes_lem :
      (p : PublishInfo) (s : S)
      → length (table_of s) ≡ max_subscriptions
      → AllNamed (table_of s)
      → handle_incoming_publishes table_of call match_topic true (some p) s ≡ (
        call_all call p (recipients match_topic p (table_of s)) s,
        any (recipients match_topic p (table_of s)),
      )
  unfolding handle_incoming_publishes call_all any
  handle_incoming_publishes_lem p s size named = elim (ℕ_discrete p.topic_name null) [
    | yes bad ↦ without_topic (inl bad)
    | no topic ↦ elim (ℕ_discrete p.topic_name_length 0) [
      | yes bad ↦ without_topic (inr bad)
      | no some_text ↦
          rw (← size)
            (dispatch_from-recipients p (table_of s) s 0 false false topic some_text named refl)
    ]
  ]
    where
      without_topic :
          (p.topic_name ≡ null) ⊎ (p.topic_name_length ≡ 0)
          → handle_incoming_publishes table_of call match_topic true (some p) s ≡ (
            call_all call p (recipients match_topic p (table_of s)) s,
            any (recipients match_topic p (table_of s)),
          )
      without_topic bad =
          dispatch_from-silent p s 0 max_subscriptions bad
          ∙ rw (recipients-silent p (table_of s) bad) refl
