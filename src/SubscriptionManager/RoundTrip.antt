-- ===== src/SubscriptionManager/RoundTrip.antt =====
-- `removeSubscription` undoes `addSubscription`.
use core_mqtt_agent_demos.Prelude.{
  ◌∙◌, ℕ, ◌<◌, ◌≡◌, sym, true, false, some, set, length-set, get_or-set, get_or_ext, arith, subst,
  ap,
}
use core_mqtt_agent_demos.Prelude.Memory.{Memory}
use core_mqtt_agent_demos.SubscriptionManager.{
  SubscriptionElement, Table, max_subscriptions, empty_element, element_at, is_removed,
  add_subscription, remove_subscription,
}
use core_mqtt_agent_demos.SubscriptionManager.Remove.{
  remove_subscription_lem, is_removed_self, is_removed_of_has_filter,
}
use core_mqtt_agent_demos.SubscriptionManager.Invariant.{IsValid}
use core_mqtt_agent_demos.SubscriptionManager.Add.{
  has_filter_of_duplicate, is_invalid, valid_length, valid_filter, AddOutcome, refused, exists,
  added, no_room, add_subscription-AddOutcome,
}

-- On a valid table in which no element has the filter of `new`: if `addSubscription` of `new`
-- returns true, then `removeSubscription` of its filter restores the table.
pub remove-add_subscription :
    (mem : Memory) (table : Table) (new : SubscriptionElement) {table' : Table}
    → IsValid mem table
    → ((j : ℕ)
        → is_removed mem new.subscription_filter_string new.filter_string_length
            (element_at table j)
          ≡ false)
    → add_subscription mem (some table) new ≡ (some table', true)
    → remove_subscription mem (some table') new.subscription_filter_string new.filter_string_length
      ≡ some table
remove-add_subscription mem table new {table'} v absent e =
    by_outcome (add_subscription-AddOutcome mem table new)
  where
    filter : ℕ
    filter = new.subscription_filter_string

    len : ℕ
    len = new.filter_string_length

    restored :
        (i : ℕ)
        → is_invalid new ≡ false
        → i < max_subscriptions
        → (element_at table i).filter_string_length ≡ 0
        → remove_subscription mem (some (set table i new)) filter len ≡ some table
    restored i good h free =
        let (t, e', size, at) =
          remove_subscription_lem mem (set table i new) filter len (valid_filter new good)
            (valid_length new good) (length-set table i new ∙ v.size) in
        e'
        ∙ ap some (
            get_or_ext t table empty_element (size ∙ sym v.size) (λ j. ground (
              arith,
              at j,
              get_or-set table i j new empty_element,
              is_removed_self mem new,
              absent j,
              v.cleared i,
              v.size,
            )))

    by_outcome :
        AddOutcome mem table new (add_subscription mem (some table) new)
        → remove_subscription mem (some table') filter len ≡ some table
    by_outcome (refused h o) = cc
    by_outcome (exists g i h d o) = cc (
      is_removed_of_has_filter mem new (element_at table i)
          (has_filter_of_duplicate mem new (element_at table i) d),
      absent i,
    )
    by_outcome (added g i h f u a o) =
        subst (λ t. remove_subscription mem (some t) filter len ≡ some table) (cc)
          (restored i g h f)
    by_outcome (no_room g u a o) = cc
