-- ===== src/SubscriptionManager/History.antt =====
-- A table of subscriptions over its whole life.
use core_mqtt_agent_demos.Prelude.{ℕ, ◌≡◌, refl, Bool, Option, none, some, List, [], ◌∷◌, replicate}
use core_mqtt_agent_demos.Prelude.Memory.{Memory}
use core_mqtt_agent_demos.SubscriptionManager.{
  SubscriptionElement, Table, max_subscriptions, empty_element, add_subscription,
  remove_subscription,
}
use core_mqtt_agent_demos.SubscriptionManager.Invariant.{
  IsValid, zeroed-IsValid, add_subscription-IsValid, remove_subscription-IsValid,
}

pub data Call : Type 0 where
  adds : SubscriptionElement → Call
  removes : ℕ → ℕ → Call

-- The table that a caller finds behind its pointer after a call.
abbrev pub table_after : Table → Option Table → Table
table_after table none = table
table_after table (some table') = table'

unfoldable pub step : Memory → Table → Call → Table
step mem table (adds new) = table_after table (add_subscription mem (some table) new).0
step mem table (removes filter len) =
    table_after table (remove_subscription mem (some table) filter len)

unfoldable pub run : Memory → Table → List Call → Table
run mem table [] = table
run mem table (c ∷ cs) = run mem (step mem table c) cs

abbrev pub zeroed : Table
zeroed = replicate max_subscriptions empty_element

step-IsValid :
    (mem : Memory) (table : Table) (c : Call) → IsValid mem table → IsValid mem (step mem table c)
unfolding step
step-IsValid mem table (adds new) v =
    by_result (add_subscription mem (some table) new)
      (λ t' b e. add_subscription-IsValid mem table new v e)
  where
    by_result :
        (r : Option Table × Bool)
        → ((t' : Table) (b : Bool) → r ≡ (some t', b) → IsValid mem t')
        → IsValid mem (table_after table r.0)
    by_result (none, b) k = v
    by_result (some t', b) k = k t' b refl
step-IsValid mem table (removes filter len) v =
    by_result (remove_subscription mem (some table) filter len)
      (λ t' e. remove_subscription-IsValid mem table filter len v e)
  where
    by_result :
        (r : Option Table)
        → ((t' : Table) → r ≡ some t' → IsValid mem t')
        → IsValid mem (table_after table r)
    by_result none k = v
    by_result (some t') k = k t' refl

run_from-IsValid :
    (mem : Memory) (table : Table) (cs : List Call)
    → IsValid mem table
    → IsValid mem (run mem table cs)
unfolding run
run_from-IsValid mem table [] v = v
run_from-IsValid mem table (c ∷ cs) v =
    run_from-IsValid mem (step mem table c) cs (step-IsValid mem table c v)

-- After any sequence of `addSubscription` and `removeSubscription` calls on the zeroed array, with
-- the filter texts unchanged in memory: the array has its length, each free element is all zero,
-- and no two elements hold one filter with one callback and context.
pub run-IsValid : (mem : Memory) (cs : List Call) → IsValid mem (run mem zeroed cs)
run-IsValid mem cs = run_from-IsValid mem _ cs (zeroed-IsValid mem)
