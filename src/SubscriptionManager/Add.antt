-- ===== src/SubscriptionManager/Add.antt =====
-- `addSubscription`: its outcome on every table.
use core_mqtt_agent_demos.Prelude.{
  ◌∙◌, ℕ, zero, suc, ◌<◌, ◌≡◌, refl, ◌≢◌, Bool, true, false, not, ◌&&◌, ◌||◌, Option, some, ◌==◌,
  set, arith, inl, inr, subst, Bool-cases, ℕ_discrete,
}
use core_mqtt_agent_demos.Prelude.Memory.{Memory, strncmp_eq_comm, strncmp_eq_refl, null}
use core_mqtt_agent_demos.SubscriptionManager.{
  SubscriptionElement, Table, max_subscriptions, empty_element, element_at, has_filter,
  has_callback, scan, store_available, add_subscription,
}

-- `e` is in use for the filter, callback and context of `new`.
pub is_duplicate : Memory → SubscriptionElement → SubscriptionElement → Bool
is_duplicate mem new e =
    not (e.filter_string_length == 0) && (has_filter mem e new && has_callback e new)

pub is_duplicate_symm :
    (mem : Memory) (a b : SubscriptionElement)
    → is_duplicate mem a b ≡ true
    → is_duplicate mem b a ≡ true
unfolding is_duplicate has_filter has_callback
is_duplicate_symm mem a b h = ground (
  arith,
  strncmp_eq_comm mem a.subscription_filter_string b.subscription_filter_string
      a.filter_string_length,
)

pub not-is_duplicate-empty :
    (mem : Memory) (new : SubscriptionElement) → is_duplicate mem new empty_element ≡ false
unfolding is_duplicate
not-is_duplicate-empty mem new = refl

-- Every index below the bound.
abbrev pub AllBelow {ℓ} : (ℕ → Type ℓ) → ℕ → Type ℓ
AllBelow P zero = Unit
AllBelow P (suc k) = P k × AllBelow P k

pub AllBelow-at {ℓ} : (P : ℕ → Type ℓ) (k i : ℕ) → AllBelow P k → i < k → P i
AllBelow-at P zero i a h = absurd (omega arith)
AllBelow-at P (suc k) i a h = elim (Bool-cases (i == k)) [
  | inl e ↦ subst P (ground arith) a.0
  | inr e ↦ AllBelow-at P k i a.1 (ground arith)
]

abbrev pub InUse : Table → ℕ → Type 0
InUse table i = (element_at table i).filter_string_length ≢ 0

abbrev pub Differs : Memory → Table → SubscriptionElement → ℕ → Type 0
Differs mem table new i = is_duplicate mem new (element_at table i) ≡ false

-- What the scan below `k` may return.
pub data Scanned (mem : Memory) (table : Table) (new : SubscriptionElement) (k available : ℕ)
    (out : ℕ × Bool) : Type 0 where
  duplicate :
      (i : ℕ)
      → i < k
      → is_duplicate mem new (element_at table i) ≡ true
      → out ≡ (max_subscriptions, true)
      → Scanned mem table new k available out
  freed :
      (i : ℕ)
      → i < k
      → (element_at table i).filter_string_length ≡ 0
      → AllBelow (InUse table) i
      → AllBelow (Differs mem table new) k
      → out ≡ (i, false)
      → Scanned mem table new k available out
  full :
      AllBelow (InUse table) k
      → AllBelow (Differs mem table new) k
      → out ≡ (available, false)
      → Scanned mem table new k available out

module _ (mem : Memory) (table : Table) (new : SubscriptionElement) (k : ℕ) where
  Differs-of_free : (element_at table k).filter_string_length ≡ 0 → Differs mem table new k
  unfolding is_duplicate
  Differs-of_free z = ground arith

  -- A free element is where the scan would store, unless it finds a lower one.
  Scanned-free :
      (available : ℕ) (out : ℕ × Bool)
      → (element_at table k).filter_string_length ≡ 0
      → Scanned mem table new k k out
      → Scanned mem table new (suc k) available out
  Scanned-free available out z (duplicate i h d e) = duplicate i (omega arith) d e
  Scanned-free available out z (freed i h f u a e) =
      freed i (omega arith) f u (Differs-of_free z, a) e
  Scanned-free available out z (full u a e) = freed k (omega arith) z u (Differs-of_free z, a) e

  -- An element in use for something else changes nothing.
  Scanned-used :
      (available : ℕ) (out : ℕ × Bool)
      → InUse table k
      → Differs mem table new k
      → Scanned mem table new k available out
      → Scanned mem table new (suc k) available out
  Scanned-used available out n d (duplicate i h d' e) = duplicate i (omega arith) d' e
  Scanned-used available out n d (freed i h f u a e) = freed i (omega arith) f u (d, a) e
  Scanned-used available out n d (full u a e) = full (n, u) (d, a) e

  -- One round of the scan, by what the element is.
  scan-free :
      (available : ℕ)
      → (element_at table k).filter_string_length ≡ 0
      → scan mem table new (suc k) available ≡ scan mem table new k k
  unfolding scan
  scan-free available z = ground arith

  scan-duplicate :
      (available : ℕ)
      → is_duplicate mem new (element_at table k) ≡ true
      → scan mem table new (suc k) available ≡ (max_subscriptions, true)
  unfolding scan is_duplicate
  scan-duplicate available d = ground arith

  scan-used :
      (available : ℕ)
      → InUse table k
      → Differs mem table new k
      → scan mem table new (suc k) available ≡ scan mem table new k available
  unfolding scan is_duplicate
  scan-used available n d = ground arith

scan-Scanned :
    (mem : Memory) (table : Table) (new : SubscriptionElement) (k available : ℕ)
    → Scanned mem table new k available (scan mem table new k available)
unfolding scan
scan-Scanned mem table new zero available = full tt tt refl
scan-Scanned mem table new (suc k) available =
    round (scan-Scanned mem table new k k) (scan-Scanned mem table new k available)
  where
    round :
        Scanned mem table new k k (scan mem table new k k)
        → Scanned mem table new k available (scan mem table new k available)
        → Scanned mem table new (suc k) available (scan mem table new (suc k) available)
    round r r' = elim (ℕ_discrete (element_at table k).filter_string_length 0) [
      | yes z ↦
          rw (scan-free mem table new k available z) (Scanned-free mem table new k available _ z r)
      | no n ↦ elim (Bool-cases (is_duplicate mem new (element_at table k))) [
        | inl d ↦ duplicate k (omega arith) d (scan-duplicate mem table new k available d)
        | inr d ↦
            rw (scan-used mem table new k available n d)
              (Scanned-used mem table new k available _ n d r')
      ]
    ]

-- A `NULL` filter or callback, or an empty filter.
pub is_invalid : SubscriptionElement → Bool
is_invalid new =
    new.subscription_filter_string == null
    || (new.filter_string_length == 0 || new.incoming_publish_callback == null)

pub valid_length :
    (new : SubscriptionElement) → is_invalid new ≡ false → new.filter_string_length ≢ 0
unfolding is_invalid
valid_length new h = ground arith

pub valid_filter :
    (new : SubscriptionElement) → is_invalid new ≡ false → new.subscription_filter_string ≢ null
unfolding is_invalid
valid_filter new h = ground arith

pub is_duplicate_self :
    (mem : Memory) (new : SubscriptionElement)
    → is_invalid new ≡ false
    → is_duplicate mem new new ≡ true
unfolding is_duplicate has_filter has_callback is_invalid
is_duplicate_self mem new h =
    ground (arith, strncmp_eq_refl mem new.subscription_filter_string new.filter_string_length)

pub has_filter_of_duplicate :
    (mem : Memory) (new e : SubscriptionElement)
    → is_duplicate mem new e ≡ true
    → has_filter mem e new ≡ true
unfolding is_duplicate
has_filter_of_duplicate mem new e h = ground arith

-- The four ways in which `addSubscription` may end on a table.
pub data AddOutcome (mem : Memory) (table : Table) (new : SubscriptionElement)
    (out : Option Table × Bool) : Type 0 where
  refused : is_invalid new ≡ true → out ≡ (some table, false) → AddOutcome mem table new out
  exists :
      is_invalid new ≡ false
      → (i : ℕ) → i < max_subscriptions
      → is_duplicate mem new (element_at table i) ≡ true
      → out ≡ (some table, true)
      → AddOutcome mem table new out
  added :
      is_invalid new ≡ false
      → (i : ℕ) → i < max_subscriptions
      → (element_at table i).filter_string_length ≡ 0
      → AllBelow (InUse table) i
      → AllBelow (Differs mem table new) max_subscriptions
      → out ≡ (some (set table i new), true)
      → AddOutcome mem table new out
  no_room :
      is_invalid new ≡ false
      → AllBelow (InUse table) max_subscriptions
      → AllBelow (Differs mem table new) max_subscriptions
      → out ≡ (some table, false)
      → AddOutcome mem table new out

add-refused :
    (mem : Memory) (table : Table) (new : SubscriptionElement)
    → is_invalid new ≡ true
    → add_subscription mem (some table) new ≡ (some table, false)
unfolding add_subscription is_invalid
add-refused mem table new h = ground arith

add-accepted :
    (mem : Memory) (table : Table) (new : SubscriptionElement) (out : ℕ × Bool)
    → is_invalid new ≡ false
    → scan mem table new max_subscriptions max_subscriptions ≡ out
    → let (table', status) = store_available table new out in
      add_subscription mem (some table) new ≡ (some table', status)
unfolding add_subscription is_invalid
add-accepted mem table new out h e = ground arith

-- Whatever the table, `addSubscription` refuses a `NULL` filter or callback and an empty filter;
-- else returns true without a change if an element is in use for this filter, callback and
-- context; else writes the element at the lowest free index and returns true; else, with every
-- index in use, returns false without a change.
pub add_subscription-AddOutcome :
    (mem : Memory) (table : Table) (new : SubscriptionElement)
    → AddOutcome mem table new (add_subscription mem (some table) new)
unfolding store_available
add_subscription-AddOutcome mem table new = elim (Bool-cases (is_invalid new)) [
  | inl bad ↦ refused bad (add-refused mem table new bad)
  | inr good ↦ by_scan good (scan-Scanned mem table new max_subscriptions max_subscriptions)
]
  where
    by_scan :
        is_invalid new ≡ false
        → Scanned mem table new max_subscriptions max_subscriptions
            (scan mem table new max_subscriptions max_subscriptions)
        → AddOutcome mem table new (add_subscription mem (some table) new)
    by_scan good (duplicate i h d e) = exists good i h d (add-accepted mem table new _ good e)
    by_scan good (freed i h f u a e) =
        added good i h f u a (add-accepted mem table new _ good e ∙ ground arith)
    by_scan good (full u a e) = no_room good u a (add-accepted mem table new _ good e)
