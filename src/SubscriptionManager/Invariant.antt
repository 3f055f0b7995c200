-- ===== src/SubscriptionManager/Invariant.antt =====
-- What every table of subscriptions satisfies once it was zeroed, whatever is added and removed.
use core_mqtt_agent_demos.Prelude.{
  ◌∙◌, ℕ, zero, suc, ◌+◌, ◌<◌, ◌≡◌, refl, ◌≢◌, Bool, true, false, some, ◌==◌, length, replicate,
  get_or-set, get_or-replicate, dec_lt, set, length-set, get_or-out, arith, subst, if◌then◌else◌,
}
use core_mqtt_agent_demos.Prelude.Memory.{Memory}
use core_mqtt_agent_demos.SubscriptionManager.{
  SubscriptionElement, Table, max_subscriptions, empty_element, element_at, remove_at, remove_from,
  add_subscription, remove_subscription,
}
use core_mqtt_agent_demos.SubscriptionManager.Remove.{
  element_at-clear, remove_at_cases, remove_subscription_cases,
}
use core_mqtt_agent_demos.SubscriptionManager.Add.{
  is_duplicate_symm, not-is_duplicate-empty, is_duplicate, valid_length, AllBelow, AllBelow-at,
  Differs, AddOutcome, refused, exists, added, no_room, add_subscription-AddOutcome,
}

-- The array has its length, a free element is all zero, and no two elements stand for one
-- subscription.
pub record IsValid (mem : Memory) (table : Table) : Type 0 where
  pub size : length table ≡ max_subscriptions
  pub cleared :
      (i : ℕ) → (element_at table i).filter_string_length ≡ 0 → element_at table i ≡ empty_element
  pub distinct :
      (i j : ℕ) → is_duplicate mem (element_at table i) (element_at table j) ≡ true → i ≡ j

-- A zeroed table is valid.
pub zeroed-IsValid : (mem : Memory) → IsValid mem (replicate max_subscriptions empty_element)
zeroed-IsValid mem = record {
  size = refl;
  cleared = λ i h. get_or-replicate max_subscriptions i empty_element;
  distinct = λ i j h. ground (
    arith,
    get_or-replicate max_subscriptions i empty_element,
    get_or-replicate max_subscriptions j empty_element,
    not-is_duplicate-empty mem empty_element,
  );
}

-- Writing a subscription that no element stands for keeps a table valid.
set-IsValid :
    (mem : Memory) (table : Table) (i : ℕ) (new : SubscriptionElement)
    → IsValid mem table
    → i < max_subscriptions
    → new.filter_string_length ≢ 0
    → AllBelow (Differs mem table new) max_subscriptions
    → IsValid mem (set table i new)
set-IsValid mem table i new v h n a = record {
  size = length-set table i new ∙ v.size;
  cleared = λ j z. ground (arith, at j, v.cleared j);
  distinct = λ j k d. ground (
    arith,
    at j,
    at k,
    other j,
    other k,
    is_duplicate_symm mem (element_at table j) new,
    v.distinct j k,
  );
}
  where
    at : (j : ℕ) → element_at (set table i new) j ≡ (if i == j then new else element_at table j)
    at j = get_or-set table i j new empty_element (omega (arith, v.size))

    other : (j : ℕ) → is_duplicate mem new (element_at table j) ≡ false
    other j = elim (dec_lt j max_subscriptions) [
      | yes p ↦ AllBelow-at (Differs mem table new) max_subscriptions j a p
      | no q ↦
          rw (get_or-out table j empty_element (omega (arith, v.size)))
            (not-is_duplicate-empty mem new)
    ]

-- `addSubscription` keeps a table valid.
pub add_subscription-IsValid :
    (mem : Memory) (table : Table) (new : SubscriptionElement) {table' : Table} {status : Bool}
    → IsValid mem table
    → add_subscription mem (some table) new ≡ (some table', status)
    → IsValid mem table'
add_subscription-IsValid mem table new {table'} {status} v e =
    by_outcome (add_subscription-AddOutcome mem table new)
  where
    by_outcome :
        AddOutcome mem table new (add_subscription mem (some table) new) → IsValid mem table'
    by_outcome (refused h o) = subst (IsValid mem) (cc) v
    by_outcome (exists g i h d o) = subst (IsValid mem) (cc) v
    by_outcome (added g i h f u a o) =
        subst (IsValid mem) (cc) (set-IsValid mem table i new v h (valid_length new g) a)
    by_outcome (no_room g u a o) = subst (IsValid mem) (cc) v

-- Clearing an element keeps a table valid.
clear-IsValid :
    (mem : Memory) (table : Table) (i : ℕ)
    → IsValid mem table
    → IsValid mem (set table i empty_element)
clear-IsValid mem table i v = record {
  size = length-set table i empty_element ∙ v.size;
  cleared = λ j z. ground (arith, at j, v.cleared j);
  distinct = λ j k d. ground (
    arith,
    at j,
    at k,
    not-is_duplicate-empty mem (element_at table j),
    not-is_duplicate-empty mem empty_element,
    is_duplicate_symm mem empty_element (element_at table k),
    not-is_duplicate-empty mem (element_at table k),
    v.distinct j k,
  );
}
  where
    at :
        (j : ℕ)
        → element_at (set table i empty_element) j
          ≡ (if i == j then empty_element else element_at table j)
    at j = element_at-clear table i j

remove_from-IsValid :
    (mem : Memory) (filter len : ℕ) (table : Table) (i rounds : ℕ)
    → IsValid mem table
    → IsValid mem (remove_from mem filter len table i rounds)
unfolding remove_from
remove_from-IsValid mem filter len table i zero v = v
remove_from-IsValid mem filter len table i (suc rounds) v =
    remove_from-IsValid mem filter len (remove_at mem table filter len i) (i + 1) rounds
      (remove_at_cases (IsValid mem) mem table filter len i v (clear-IsValid mem table i v))

-- `removeSubscription` keeps a table valid.
pub remove_subscription-IsValid :
    (mem : Memory) (table : Table) (filter len : ℕ) {table' : Table}
    → IsValid mem table
    → remove_subscription mem (some table) filter len ≡ some table'
    → IsValid mem table'
remove_subscription-IsValid mem table filter len {table'} v e =
    remove_subscription_cases (IsValid mem) mem table filter len e v
      (remove_from-IsValid mem filter len table 0 max_subscriptions v)
