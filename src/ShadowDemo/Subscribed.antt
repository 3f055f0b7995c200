-- ===== src/ShadowDemo/Subscribed.antt =====
-- A shadow task that reports its subscription has all its callbacks in the list.
use core_mqtt_agent_demos.Prelude.{
  ◌∙◌, ℕ, zero, suc, ◌+◌, ◌≡◌, ◌<◌, refl, sym, ap, Bool, true, false, Option, none, some, List, [],
  ◌∷◌, ◌==◌, if◌then◌else◌, arith,
}
use core_mqtt_agent_demos.Prelude.Memory.{Memory}
use core_mqtt_agent_demos.SubscriptionManager.{SubscriptionElement, Table, add_subscription}
use core_mqtt_agent_demos.SubscriptionManager.Add.{
  AddOutcome, refused, exists, added, no_room, add_subscription-AddOutcome,
}
use core_mqtt_agent_demos.SubscriptionManager.Invariant.{IsValid, add_subscription-IsValid}
use core_mqtt_agent_demos.SubscriptionManager.Listing.{
  IsListed, add_subscription-IsListed, IsListed-add_subscription,
}
use core_mqtt_agent_demos.ShadowDemo.Subscribing.{
  Topics, add_next, device_subscribed, subscribe_from, SubscribeEnd, returned, assert_failed,
  subscribe_to_topics,
}

abbrev pub AllListed : Memory → Table → List SubscriptionElement → Type 0
AllListed mem table [] = Unit
AllListed mem table (e ∷ es) = IsListed mem e table × AllListed mem table es

-- The list is there and valid, and has these elements if the status is true.
abbrev pub HasListed : Memory → List SubscriptionElement → Option Table × Bool → Type 0
HasListed mem elements (none, status) = ⊥
HasListed mem elements (some table, status) =
    IsValid mem table × (status ≡ true → AllListed mem table elements)

add_subscription-some :
    (mem : Memory) (table : Table) (new : SubscriptionElement) (status : Bool)
    → add_subscription mem (some table) new ≡ (none, status)
    → ⊥
add_subscription-some mem table new status e =
    by_outcome (add_subscription-AddOutcome mem table new)
  where
    by_outcome : AddOutcome mem table new (add_subscription mem (some table) new) → ⊥
    by_outcome (refused h o) = cc
    by_outcome (exists g i h d o) = cc
    by_outcome (added g i h f u a o) = cc
    by_outcome (no_room g u a o) = cc

AllListed-add_subscription :
    (mem : Memory) (table : Table) (elements : List SubscriptionElement) (new : SubscriptionElement)
    {table' : Table} {status : Bool}
    → IsValid mem table
    → AllListed mem table elements
    → add_subscription mem (some table) new ≡ (some table', status)
    → AllListed mem table' elements
AllListed-add_subscription mem table [] new v a e = tt
AllListed-add_subscription mem table (old ∷ elements) new v a e = (
  IsListed-add_subscription mem table old new v a.0 e,
  AllListed-add_subscription mem table elements new v a.1 e,
)

add_next-HasListed :
    (mem : Memory) (elements : List SubscriptionElement) (new : SubscriptionElement)
    (r : Option Table × Bool)
    → HasListed mem elements r
    → HasListed mem (new ∷ elements) (add_next mem new r)
unfolding add_next
add_next-HasListed mem elements new (none, status) h = absurd h
add_next-HasListed mem elements new (some table, false) (v, a) = (v, λ h. cc)
add_next-HasListed mem elements new (some table, true) (v, a) =
    by_added (add_subscription mem (some table) new) refl
  where
    by_added :
        (out : Option Table × Bool)
        → add_subscription mem (some table) new ≡ out
        → HasListed mem (new ∷ elements) out
    by_added (none, status) e = absurd (add_subscription-some mem table new status e)
    by_added (some table', status) e = (
      add_subscription-IsValid mem table new v e,
      λ ok. (
        add_subscription-IsListed mem table new v (e ∙ ap (λ b. (some table', b)) ok),
        AllListed-add_subscription mem table elements new v (a refl) e,
      ),
    )

-- On a valid list, the callback of the subscription of the device task leaves a valid list; and if it
-- reports success, each of its three callbacks is in use there for its topic filter.
pub device_subscribed-HasListed :
    (mem : Memory) (topics : Topics) (success : Bool) (table : Table)
    → IsValid mem table
    → HasListed mem
        (topics.update_rejected ∷ (topics.update_accepted ∷ (topics.update_delta ∷ [])))
        (device_subscribed mem topics success (some table))
unfolding device_subscribed
device_subscribed-HasListed mem topics success table v =
    add_next-HasListed mem (topics.update_accepted ∷ (topics.update_delta ∷ []))
      topics.update_rejected
      (add_next mem topics.update_accepted (add_next mem topics.update_delta (some table, success)))
      (add_next-HasListed mem (topics.update_delta ∷ []) topics.update_accepted
        (add_next mem topics.update_delta (some table, success))
        (add_next-HasListed mem [] topics.update_delta (some table, success) (v, λ h. tt)))

-- If the n-th call of `MQTTAgent_Subscribe` is the first that is queued, then with fuel for these
-- calls `prvSubscribeToShadowUpdateTopics` ends: its assert fails if no notification came in time,
-- and else it returns the status that the callback has left.
pub subscribe_to_topics-ends :
    (queued : ℕ → Bool) (fuel n notification : ℕ) (status : Bool)
    → n < fuel
    → ((j : ℕ) → j < n → queued j ≡ false)
    → queued n ≡ true
    → subscribe_to_topics queued fuel notification status
      ≡ some (if notification == 0 then assert_failed else returned status)
unfolding subscribe_to_topics subscribe_from
subscribe_to_topics-ends queued fuel n notification status below refused_before queued_then =
    ap
      (λ (calls : Option ℕ). elim calls [
        | none ↦ none
        | some k ↦ some (
            if notification == 0
            then assert_failed
            else (if status then returned true else returned false))
      ])
      (from 0 fuel n below (λ j h. moved j (0 + j) false (omega arith) (refused_before j h))
        (moved n (0 + n) true (omega arith) queued_then))
    ∙ by_status status
  where
    moved : (i j : ℕ) (b : Bool) → i ≡ j → queued i ≡ b → queued j ≡ b
    moved i j b e h = ap queued (sym e) ∙ h

    from :
        (k fuel m : ℕ)
        → m < fuel
        → ((j : ℕ) → j < m → queued (k + j) ≡ false)
        → queued (k + m) ≡ true
        → subscribe_from queued fuel k ≡ some (k + m + 1)
    from k zero m h never then_queued = absurd (omega arith)
    from k (suc fuel) zero h never then_queued =
        rw (moved (k + 0) k true (omega arith) then_queued) (ap some (omega arith))
    from k (suc fuel) (suc m) h never then_queued =
        rw (moved (k + 0) k false (omega arith) (never 0 (omega arith))) (
          from (k + 1) fuel m (omega arith)
            (λ j below.
              moved (k + suc j) (k + 1 + j) false (omega arith) (never (suc j) (omega arith)))
            (moved (k + suc m) (k + 1 + m) true (omega arith) then_queued)
          ∙ ap some (omega arith))

    by_status :
        (status : Bool)
        → ◌≡◌ {A = Option SubscribeEnd}
            (some (
              if notification == 0
              then assert_failed
              else (if status then returned true else returned false)))
            (some (if notification == 0 then assert_failed else returned status))
    by_status true = refl
    by_status false = refl
