-- ===== src/SubscriptionManager.antt =====
-- source/subscription-manager/subscription_manager.c and its header: the table of subscriptions.
pub mod Add
pub mod Invariant
pub mod Remove
pub mod RoundTrip
pub mod History
pub mod Dispatch
pub mod Named
pub mod Listing
mod Tests
use core_mqtt_agent_demos.Prelude.{
  ℕ, zero, suc, ◌+◌, Bool, true, false, ◌&&◌, ◌||◌, Option, none, some, List, ltb, ◌==◌,
  if◌then◌else◌, get_or, set,
}
use core_mqtt_agent_demos.Prelude.Memory.{Memory, null, strncmp_eq}

-- `SUBSCRIPTION_MANAGER_MAX_SUBSCRIPTIONS`
abbrev pub max_subscriptions : ℕ
max_subscriptions = 10

-- `SubscriptionElement_t`: a function pointer, the context it is called with, and the filter.
pub record SubscriptionElement : Type 0 where
  pub incoming_publish_callback : ℕ
  pub incoming_publish_callback_context : ℕ
  pub filter_string_length : ℕ
  pub subscription_filter_string : ℕ

-- An element after `memset( ..., 0x00, ... )`.
abbrev pub empty_element : SubscriptionElement
empty_element = record {
  incoming_publish_callback = null;
  incoming_publish_callback_context = 0;
  filter_string_length = 0;
  subscription_filter_string = null;
}

abbrev pub Table : Type 0
Table = List SubscriptionElement

abbrev pub element_at : Table → ℕ → SubscriptionElement
element_at table i = get_or table i empty_element

-- The length and `strncmp` tests by which `addSubscription` compares an element with the filter of
-- the new one.
pub has_filter : Memory → SubscriptionElement → SubscriptionElement → Bool
has_filter mem e new =
    e.filter_string_length == new.filter_string_length
    && strncmp_eq mem new.subscription_filter_string e.subscription_filter_string
        new.filter_string_length

-- The comparison of the callback and its context.
pub has_callback : SubscriptionElement → SubscriptionElement → Bool
has_callback e new =
    e.incoming_publish_callback == new.incoming_publish_callback
    && e.incoming_publish_callback_context == new.incoming_publish_callback_context

-- The scan of `addSubscription` over the indices below `k`, from the last one down. It returns
-- `xAvailableIndex` and `xReturnStatus` as they are after the loop.
pub scan : Memory → Table → SubscriptionElement → ℕ → ℕ → ℕ × Bool
scan mem table new zero available = (available, false)
scan mem table new (suc k) available =
    let e = element_at table k in
    let freed = scan mem table new k k in
    let next = scan mem table new k available in
    if e.filter_string_length == 0
    then freed
    else if has_filter mem e new
    then if has_callback e new then (max_subscriptions, true) else next
    else next

-- The write behind the scan.
pub store_available : Table → SubscriptionElement → ℕ × Bool → Table × Bool
store_available table new (available, status) =
    if ltb available max_subscriptions then (set table available new, true) else (table, status)

-- `addSubscription`. The list is `none` for a `NULL` pointer.
pub add_subscription : Memory → Option Table → SubscriptionElement → Option Table × Bool
add_subscription mem none new = (none, false)
add_subscription mem (some table) new =
    if new.subscription_filter_string == null
      || (new.filter_string_length == 0 || new.incoming_publish_callback == null)
    then (some table, false)
    else let (table', status) =
        store_available table new (scan mem table new max_subscriptions max_subscriptions) in
      (some table', status)

-- The tests of `removeSubscription` on one element.
pub is_removed : Memory → ℕ → ℕ → SubscriptionElement → Bool
is_removed mem filter len e =
    e.filter_string_length == len && strncmp_eq mem e.subscription_filter_string filter len

-- One round of the loop of `removeSubscription`.
pub remove_at : Memory → Table → ℕ → ℕ → ℕ → Table
remove_at mem table filter len i =
    if is_removed mem filter len (element_at table i) then set table i empty_element else table

-- The loop from index `i`, with `rounds` of them left.
pub remove_from : Memory → ℕ → ℕ → Table → ℕ → ℕ → Table
remove_from mem filter len table i zero = table
remove_from mem filter len table i (suc rounds) =
    remove_from mem filter len (remove_at mem table filter len i) (i + 1) rounds

-- `removeSubscription`
pub remove_subscription : Memory → Option Table → ℕ → ℕ → Option Table
remove_subscription mem none filter len = none
remove_subscription mem (some table) filter len =
    if filter == null || len == 0
    then some table
    else some (remove_from mem filter len table 0 max_subscriptions)

-- What the loop reads of `MQTTPublishInfo_t`.
pub record PublishInfo : Type 0 where
  pub topic_name : ℕ
  pub topic_name_length : ℕ

-- `handleIncomingPublishes`. The callbacks belong to the tasks, so `call` may change any state `S`,
-- the table in it included. `match_topic` is `MQTT_MatchTopic` of coreMQTT: `none` if it writes no
-- result, so that `isMatched` keeps the value of an earlier round.
module _ {S : Type 0} (table_of : S → Table) (call : ℕ → ℕ → PublishInfo → S → S)
    (match_topic : ℕ → ℕ → ℕ → ℕ → Option Bool) where
  pub is_matched : PublishInfo → SubscriptionElement → Bool → Bool
  is_matched p e previous =
      elim (match_topic p.topic_name p.topic_name_length e.subscription_filter_string
        e.filter_string_length) [ none ↦ previous | some result ↦ result ]

  pub call_element : PublishInfo → SubscriptionElement → S → S
  call_element p e s = call e.incoming_publish_callback e.incoming_publish_callback_context p s

  pub dispatch_from : PublishInfo → S → ℕ → ℕ → Bool → Bool → S × Bool
  dispatch_from p s i zero matched handled = (s, handled)
  dispatch_from p s i (suc rounds) matched handled =
      let e = element_at (table_of s) i in
      let matched' = is_matched p e matched in
      let unused = dispatch_from p s (i + 1) rounds matched handled in
      let skipped = dispatch_from p s (i + 1) rounds matched' handled in
      let called = dispatch_from p (call_element p e s) (i + 1) rounds matched' true in
      if ltb 0 e.filter_string_length then (if matched' then called else skipped) else unused

  -- `has_list` is false where the pointer to the table is `NULL`.
  pub handle_incoming_publishes : Bool → Option PublishInfo → S → S × Bool
  handle_incoming_publishes false publish s = (s, false)
  handle_incoming_publishes true none s = (s, false)
  handle_incoming_publishes true (some p) s = dispatch_from p s 0 max_subscriptions false false
