-- ===== src/SubscriptionManager/Remove.antt =====
-- `removeSubscription`: which elements it clears.
use core_mqtt_agent_demos.Prelude.{
  ◌∙◌, ℕ, zero, suc, ◌+◌, ◌≡◌, refl, ◌≢◌, Bool, true, false, not, ◌&&◌, ◌||◌, some, ltb, ◌==◌,
  length, set, length-set, get_or-set, get_or-out, set-out, arith, inl, inr, subst, dec_lt,
  Bool-cases, ℕ_discrete, if◌then◌else◌,
}
use core_mqtt_agent_demos.Prelude.Memory.{Memory, null, strncmp_eq_refl, strncmp_eq_comm}
use core_mqtt_agent_demos.SubscriptionManager.{
  SubscriptionElement, Table, max_subscriptions, empty_element, element_at, has_filter, is_removed,
  remove_at, remove_from, remove_subscription,
}

pub is_removed_self :
    (mem : Memory) (new : SubscriptionElement)
    → is_removed mem new.subscription_filter_string new.filter_string_length new ≡ true
unfolding is_removed
is_removed_self mem new =
    ground (arith, strncmp_eq_refl mem new.subscription_filter_string new.filter_string_length)

pub is_removed_of_has_filter :
    (mem : Memory) (new e : SubscriptionElement)
    → has_filter mem e new ≡ true
    → is_removed mem new.subscription_filter_string new.filter_string_length e ≡ true
unfolding is_removed has_filter
is_removed_of_has_filter mem new e h = ground (
  arith,
  strncmp_eq_comm mem e.subscription_filter_string new.subscription_filter_string
      new.filter_string_length,
)

-- A zeroed element has no filter of a length that is not 0.
pub not-is_removed-empty :
    (mem : Memory) (filter len : ℕ) → len ≢ 0 → is_removed mem filter len empty_element ≡ false
unfolding is_removed
not-is_removed-empty mem filter len h = ground arith

pub element_at-clear :
    (table : Table) (i j : ℕ)
    → element_at (set table i empty_element) j
      ≡ (if i == j then empty_element else element_at table j)
element_at-clear table i j = elim (dec_lt i (length table)) [
  | yes p ↦ get_or-set table i j empty_element empty_element p
  | no q ↦
      rw (set-out table i empty_element (omega arith))
        (ground (arith, get_or-out table j empty_element))
]

pub remove_at_cases {ℓ} :
    (P : Table → Type ℓ) (mem : Memory) (table : Table) (filter len i : ℕ)
    → P table
    → P (set table i empty_element)
    → P (remove_at mem table filter len i)
unfolding remove_at
remove_at_cases P mem table filter len i p q =
    choose (is_removed mem filter len (element_at table i))
  where
    choose : (b : Bool) → P (if b then set table i empty_element else table)
    choose true = q
    choose false = p

pub remove_subscription_cases {ℓ} :
    (P : Table → Type ℓ) (mem : Memory) (table : Table) (filter len : ℕ) {table' : Table}
    → remove_subscription mem (some table) filter len ≡ some table'
    → P table
    → P (remove_from mem filter len table 0 max_subscriptions)
    → P table'
unfolding remove_subscription
remove_subscription_cases P mem table filter len {table'} e p q =
    elim (Bool-cases (filter == null || len == 0)) [
      | inl bad ↦ subst P (ground arith) p
      | inr good ↦ subst P (ground arith) q
    ]

element_at-remove_at :
    (mem : Memory) (table : Table) (filter len i j : ℕ)
    → element_at (remove_at mem table filter len i) j ≡ (
        if (i == j && is_removed mem filter len (element_at table j))
        then empty_element
        else element_at table j)
unfolding remove_at
element_at-remove_at mem table filter len i j = elim (ℕ_discrete i j) [
  | yes p ↦
      subst
        (λ k. element_at (remove_at mem table filter len i) k ≡ (
          if (i == k && is_removed mem filter len (element_at table k))
          then empty_element
          else element_at table k))
        p (ground (arith, element_at-clear table i i))
  | no n ↦ ground (arith, element_at-clear table i j)
]

-- The loop clears the matching elements among the indices that it passes.
element_at-remove_from :
    (mem : Memory) (filter len : ℕ) (table : Table) (i rounds j : ℕ)
    → element_at (remove_from mem filter len table i rounds) j ≡ (
        if not (ltb j i) && (ltb j (i + rounds) && is_removed mem filter len (element_at table j))
        then empty_element
        else element_at table j)
unfolding remove_from
element_at-remove_from mem filter len table i zero j = ground arith
element_at-remove_from mem filter len table i (suc rounds) j = ground (
  arith,
  element_at-remove_from mem filter len (remove_at mem table filter len i) (i + 1) rounds j,
  element_at-remove_at mem table filter len i j,
)

length-remove_from :
    (mem : Memory) (filter len : ℕ) (table : Table) (i rounds : ℕ)
    → length (remove_from mem filter len table i rounds) ≡ length table
unfolding remove_from
length-remove_from mem filter len table i zero = refl
length-remove_from mem filter len table i (suc rounds) =
    length-remove_from mem filter len (remove_at mem table filter len i) (i + 1) rounds
    ∙ remove_at_cases (λ t. length t ≡ length table) mem table filter len i refl
        (length-set table i empty_element)

-- `removeSubscription` with a filter that is neither `NULL` nor empty, on an array of the full
-- length, returns an array of that length in which exactly the elements with this filter length
-- and text are zeroed, and every other element is as before.
pub remove_subscription_lem :
    (mem : Memory) (table : Table) (filter len : ℕ)
    → filter ≢ null
    → len ≢ 0
    → length table ≡ max_subscriptions
    → (table' : Table) × (remove_subscription mem (some table) filter len ≡ some table')
      × (length table' ≡ max_subscriptions)
      × ((j : ℕ)
          → element_at table' j ≡ (
              if is_removed mem filter len (element_at table j)
              then empty_element
              else element_at table j))
unfolding remove_subscription
remove_subscription_lem mem table filter len nf nl size = (
  remove_from mem filter len table 0 max_subscriptions,
  ground arith,
  length-remove_from mem filter len table 0 max_subscriptions ∙ size,
  λ j. ground (
    arith,
    element_at-remove_from mem filter len table 0 max_subscriptions j,
    get_or-out table j empty_element,
  ),
)
