-- ===== src/SubscriptionManager/Listing.antt =====
-- What `addSubscription` leaves in the list for good.
use core_mqtt_agent_demos.Prelude.{
  ◌∙◌, ℕ, ◌<◌, ◌≡◌, ◌≢◌, sym, ap, Bool, true, false, some, subst, set, get_or-set_self,
  get_or-set_ne, ℕ_discrete,
}
use core_mqtt_agent_demos.Prelude.Memory.{Memory}
use core_mqtt_agent_demos.SubscriptionManager.{
  SubscriptionElement, Table, max_subscriptions, empty_element, element_at, add_subscription,
}
use core_mqtt_agent_demos.SubscriptionManager.Add.{
  is_duplicate, is_duplicate_self, not-is_duplicate-empty, AddOutcome, refused, exists, added,
  no_room, add_subscription-AddOutcome,
}
use core_mqtt_agent_demos.SubscriptionManager.Invariant.{IsValid}

-- An element is in use for the filter, callback and context of `new`.
abbrev pub IsListed : Memory → SubscriptionElement → Table → Type 0
IsListed mem new table =
    (i : ℕ) × (i < max_subscriptions) × (is_duplicate mem new (element_at table i) ≡ true)

pub add_subscription-IsListed :
    (mem : Memory) (table : Table) (new : SubscriptionElement) {table' : Table}
    → IsValid mem table
    → add_subscription mem (some table) new ≡ (some table', true)
    → IsListed mem new table'
add_subscription-IsListed mem table new {table'} v e =
    by_outcome (add_subscription-AddOutcome mem table new)
  where
    by_outcome :
        AddOutcome mem table new (add_subscription mem (some table) new) → IsListed mem new table'
    by_outcome (refused h o) = absurd cc
    by_outcome (exists g i h d o) = subst (IsListed mem new) {x = table} (cc) (i, h, d)
    by_outcome (added g i h f u a o) = subst (IsListed mem new) {x = set table i new} (cc) (
      i,
      h,
      ap (is_duplicate mem new) (get_or-set_self table i new empty_element (rw v.size h))
          ∙ is_duplicate_self mem new g,
    )
    by_outcome (no_room g u a o) = absurd cc

pub IsListed-add_subscription :
    (mem : Memory) (table : Table) (old new : SubscriptionElement) {table' : Table} {status : Bool}
    → IsValid mem table
    → IsListed mem old table
    → add_subscription mem (some table) new ≡ (some table', status)
    → IsListed mem old table'
IsListed-add_subscription mem table old new {table'} {status} v (j, below, d) e =
    by_outcome (add_subscription-AddOutcome mem table new)
  where
    used : (i : ℕ) → (element_at table i).filter_string_length ≡ 0 → i ≢ j
    used i f same = absurd_of (
        sym (subst (λ k. is_duplicate mem old (element_at table k) ≡ true) (sym same) d)
        ∙ ap (is_duplicate mem old) (v.cleared i f)
        ∙ not-is_duplicate-empty mem old)
      where
        absurd_of : true ≡ false → ⊥
        absurd_of e = cc

    by_outcome :
        AddOutcome mem table new (add_subscription mem (some table) new) → IsListed mem old table'
    by_outcome (refused h o) = subst (IsListed mem old) {x = table} (cc) (j, below, d)
    by_outcome (exists g i h d' o) = subst (IsListed mem old) {x = table} (cc) (j, below, d)
    by_outcome (added g i h f u a o) = elim (ℕ_discrete i j) [
      | yes same ↦ absurd (used i f same)
      | no other ↦ subst (IsListed mem old) {x = set table i new} (cc) (
        j,
        below,
        ap (is_duplicate mem old) (get_or-set_ne table i j new empty_element other) ∙ d,
      )
    ]
    by_outcome (no_room g u a o) = subst (IsListed mem old) {x = table} (cc) (j, below, d)
