-- ===== src/SubscriptionManager/Tests.antt =====
-- Runs of the subscription manager on a small table, and its theorems at such inputs.
use core_mqtt_agent_demos.Prelude.{
  get_or-replicate, ℕ, ◌≡◌, refl, subst, Bool, true, ◌==◌, ◌||◌, inl, inr, Option, none, some, List,
  [], ◌∷◌, set, length, get_or, arith, if◌then◌else◌,
}
use core_mqtt_agent_demos.Prelude.Memory.{Memory, null, strncmp_eq}
use core_mqtt_agent_demos.SubscriptionManager.{
  SubscriptionElement, Table, max_subscriptions, empty_element, element_at, PublishInfo, has_filter,
  has_callback, is_removed, scan, store_available, remove_at, remove_from, add_subscription,
  remove_subscription, handle_incoming_publishes,
}
use core_mqtt_agent_demos.SubscriptionManager.Add.{AddOutcome, add_subscription-AddOutcome}
use core_mqtt_agent_demos.SubscriptionManager.Remove.{remove_subscription_lem}
use core_mqtt_agent_demos.SubscriptionManager.RoundTrip.{remove-add_subscription}
use core_mqtt_agent_demos.SubscriptionManager.Invariant.{IsValid}
use core_mqtt_agent_demos.SubscriptionManager.History.{Call, adds, run, step, zeroed, run-IsValid}
use core_mqtt_agent_demos.SubscriptionManager.Named.{run-AllNamed}
use core_mqtt_agent_demos.SubscriptionManager.Dispatch.{
  Answers, IsSilent, AllNamed, call_all, recipients, is_recipient, any,
  handle_incoming_publishes_lem,
}

-- "a/b" at 1, "a/c" at 5 and "a/b" again at 9, each with its terminator.
abbrev memory : Memory
memory a =
    get_or (0 ∷ b'a' ∷ b'/' ∷ b'b' ∷ 0 ∷ b'a' ∷ b'/' ∷ b'c' ∷ 0 ∷ b'a' ∷ b'/' ∷ b'b' ∷ 0 ∷ []) a 0

abbrev first : SubscriptionElement
first = record {
  incoming_publish_callback = 100;
  incoming_publish_callback_context = 7;
  filter_string_length = 3;
  subscription_filter_string = 1;
}

abbrev second : SubscriptionElement
second = record first { subscription_filter_string = 5 }

-- `first` by another copy of its filter.
abbrev first_copy : SubscriptionElement
first_copy = record first { subscription_filter_string = 9 }

abbrev calls : List Call
calls = adds first ∷ adds second ∷ adds first_copy ∷ []

abbrev table : Table
table = set (set zeroed 0 first) 1 second

add_twice : add_subscription memory (some table) first_copy ≡ (some table, true)
unfolding add_subscription scan store_available has_filter has_callback strncmp_eq
add_twice = refl

remove_first : remove_subscription memory (some table) 9 3 ≡ some (set zeroed 1 second)
unfolding remove_subscription remove_from remove_at is_removed strncmp_eq
remove_first = refl

run-calls : run memory zeroed calls ≡ table
unfolding run step add_subscription scan store_available has_filter has_callback strncmp_eq
run-calls = refl

add_subscription-AddOutcome_example :
    AddOutcome memory table first_copy (add_subscription memory (some table) first_copy)
add_subscription-AddOutcome_example = add_subscription-AddOutcome memory table first_copy

run-IsValid_example : IsValid memory (run memory zeroed calls)
run-IsValid_example = run-IsValid memory calls

remove_subscription_lem_example :
    (table' : Table) × (remove_subscription memory (some table) 9 3 ≡ some table')
    × (length table' ≡ max_subscriptions)
    × ((j : ℕ)
        → element_at table' j ≡ (
            if is_removed memory 9 3 (element_at table j)
            then empty_element
            else element_at table j))
remove_subscription_lem_example =
    remove_subscription_lem memory table 9 3 (omega arith) (omega arith) refl

remove-add_subscription_example :
    remove_subscription memory (some (set zeroed 0 first)) 1 3 ≡ some zeroed
unfolding add_subscription scan store_available has_filter has_callback strncmp_eq run is_removed
remove-add_subscription_example =
    remove-add_subscription memory zeroed first (run-IsValid memory [])
      (λ j. rw (get_or-replicate max_subscriptions j empty_element)) refl

-- Callbacks that log their context, over a state of the table and the log.
abbrev log_call : ℕ → ℕ → PublishInfo → Table × List ℕ → Table × List ℕ
log_call callback context p (t, log) = (t, context ∷ log)

-- Every topic matches every filter, where none of the parameters is bad.
abbrev match_any : ℕ → ℕ → ℕ → ℕ → Option Bool
match_any a b c d = if (a == null || b == 0) || (c == null || d == 0) then none else some true

match_any-Answers : Answers match_any
match_any-Answers a b c d h i j k = ground arith

match_any-IsSilent : IsSilent match_any
match_any-IsSilent a b c d (inl h) = ground arith
match_any-IsSilent a b c d (inr h) = ground arith

abbrev publish : PublishInfo
publish = record { topic_name = 9; topic_name_length = 3 }

handle_incoming_publishes_lem_example :
    handle_incoming_publishes
      (λ (s : Table × List ℕ). s.0)
      log_call
      match_any
      true
      (some publish)
      (table, [])
    ≡ ((table, 7 ∷ 7 ∷ []), true)
unfolding call_all recipients is_recipient any
handle_incoming_publishes_lem_example =
    handle_incoming_publishes_lem (λ (s : Table × List ℕ). s.0) log_call match_any match_any-Answers
      match_any-IsSilent (λ c x p s. refl) publish (table, []) refl
      (subst AllNamed run-calls (run-AllNamed memory calls))
