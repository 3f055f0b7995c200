-- ===== src/SubscriptionManager/Named.antt =====
-- No element of the table gets a `NULL` filter.
use core_mqtt_agent_demos.Prelude.{
  ℕ, zero, suc, ◌+◌, ◌≡◌, refl, Bool, Option, none, some, List, [], ◌∷◌, replicate, set, inl, inr,
}
use core_mqtt_agent_demos.Prelude.Memory.{Memory}
use core_mqtt_agent_demos.SubscriptionManager.{
  SubscriptionElement, Table, max_subscriptions, empty_element, remove_at, remove_from,
  add_subscription, remove_subscription,
}
use core_mqtt_agent_demos.SubscriptionManager.Add.{
  valid_filter, AddOutcome, refused, exists, added, no_room, add_subscription-AddOutcome,
}
use core_mqtt_agent_demos.SubscriptionManager.Remove.{remove_at_cases, remove_subscription_cases}
use core_mqtt_agent_demos.SubscriptionManager.Dispatch.{IsNamed, AllNamed}
use core_mqtt_agent_demos.SubscriptionManager.History.{
  Call, adds, removes, table_after, step, run, zeroed,
}

pub replicate-AllNamed : (n : ℕ) → AllNamed (replicate n empty_element)
replicate-AllNamed zero = tt
replicate-AllNamed (suc n) = (inl refl, replicate-AllNamed n)

pub set-AllNamed :
    (table : Table) (i : ℕ) (e : SubscriptionElement)
    → AllNamed table
    → IsNamed e
    → AllNamed (set table i e)
set-AllNamed [] i e all new = tt
set-AllNamed (x ∷ table) zero e all new = (new, all.1)
set-AllNamed (x ∷ table) (suc i) e all new = (all.0, set-AllNamed table i e all.1 new)

add_subscription-AllNamed :
    (mem : Memory) (table : Table) (new : SubscriptionElement)
    → AllNamed table
    → AllNamed (table_after table (add_subscription mem (some table) new).0)
add_subscription-AllNamed mem table new all =
    by_outcome (add_subscription mem (some table) new) (add_subscription-AddOutcome mem table new)
  where
    by_outcome :
        (out : Option Table × Bool)
        → AddOutcome mem table new out
        → AllNamed (table_after table out.0)
    by_outcome out (refused h o) = rw o all
    by_outcome out (exists g i h d o) = rw o all
    by_outcome out (added g i h f u a o) =
        rw o (set-AllNamed table i new all (inr (valid_filter new g)))
    by_outcome out (no_room g u a o) = rw o all

remove_from-AllNamed :
    (mem : Memory) (filter len : ℕ) (table : Table) (i rounds : ℕ)
    → AllNamed table
    → AllNamed (remove_from mem filter len table i rounds)
unfolding remove_from
remove_from-AllNamed mem filter len table i zero all = all
remove_from-AllNamed mem filter len table i (suc rounds) all =
    remove_from-AllNamed mem filter len (remove_at mem table filter len i) (i + 1) rounds (
      remove_at_cases AllNamed mem table filter len i all
        (set-AllNamed table i empty_element all (inl refl)))

step-AllNamed :
    (mem : Memory) (table : Table) (c : Call) → AllNamed table → AllNamed (step mem table c)
unfolding step remove_subscription
step-AllNamed mem table (adds new) all = add_subscription-AllNamed mem table new all
step-AllNamed mem table (removes filter len) all =
    by_result (remove_subscription mem (some table) filter len) (λ t' e.
      remove_subscription_cases AllNamed mem table filter len e all
        (remove_from-AllNamed mem filter len table 0 max_subscriptions all))
  where
    by_result :
        (r : Option Table)
        → ((t' : Table) → r ≡ some t' → AllNamed t')
        → AllNamed (table_after table r)
    by_result none k = all
    by_result (some t') k = k t' refl

run_from-AllNamed :
    (mem : Memory) (table : Table) (cs : List Call) → AllNamed table → AllNamed (run mem table cs)
unfolding run
run_from-AllNamed mem table [] all = all
run_from-AllNamed mem table (c ∷ cs) all =
    run_from-AllNamed mem (step mem table c) cs (step-AllNamed mem table c all)

-- After any sequence of `addSubscription` and `removeSubscription` calls on the zeroed array, no element
-- in use has a `NULL` filter.
pub run-AllNamed : (mem : Memory) (cs : List Call) → AllNamed (run mem zeroed cs)
run-AllNamed mem cs = run_from-AllNamed mem zeroed cs (replicate-AllNamed max_subscriptions)
