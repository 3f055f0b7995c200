-- ===== src/MqttAgentTask/Suback.antt =====
-- `prvSubscriptionCommandCallback`: which subscriptions a rejected SUBSCRIBE gives up.
use core_mqtt_agent_demos.Prelude.{
  ◌∙◌, ℕ, ◌≡◌, ◌≢◌, refl, Bool, true, false, ◌&&◌, ◌||◌, Option, none, some, List, [], ◌∷◌, length,
  if◌then◌else◌, arith,
}
use core_mqtt_agent_demos.Prelude.Memory.{Memory, null}
use core_mqtt_agent_demos.SubscriptionManager.{
  SubscriptionElement, Table, max_subscriptions, empty_element, element_at, is_removed,
}
use core_mqtt_agent_demos.SubscriptionManager.Remove.{remove_subscription_lem, not-is_removed-empty}
use core_mqtt_agent_demos.MqttAgentTask.Environment.{MqttStatus, is_success, SubscribeInfo}
use core_mqtt_agent_demos.MqttAgentTask.Session.{remove_failed, subscription_command_callback}

-- A topic filter that is neither `NULL` nor empty.
abbrev pub IsFilter : SubscribeInfo → Type 0
IsFilter info = (info.topic_filter ≢ null) × (info.topic_filter_length ≢ 0)

abbrev pub AllFilters : List SubscribeInfo → Type 0
AllFilters [] = Unit
AllFilters (info ∷ infos) = IsFilter info × AllFilters infos

-- There is a code for each topic filter, or there are no codes.
abbrev pub HasCodes : Option (List Bool) → List SubscribeInfo → Type 0
HasCodes none infos = Unit
HasCodes (some codes) infos = length codes ≡ length infos

-- An element has one of the rejected topic filters.
unfoldable pub is_rejected : Memory → List Bool → List SubscribeInfo → SubscriptionElement → Bool
is_rejected mem [] infos e = false
is_rejected mem (failed ∷ codes) [] e = false
is_rejected mem (failed ∷ codes) (info ∷ infos) e =
    (failed && is_removed mem info.topic_filter info.topic_filter_length e)
    || is_rejected mem codes infos e

-- What is to become of the table, by whether the return code is a success.
abbrev pub Resubscribed :
    Bool → Memory → Option (List Bool) → List SubscribeInfo → Table → Option Table → Type 0
Resubscribed true mem codes infos table out = out ≡ some table
Resubscribed false mem none [] table out = out ≡ some table
Resubscribed false mem none (info ∷ infos) table out = out ≡ none
Resubscribed false mem (some codes) infos table out =
    (table' : Table) × (out ≡ some table')
    × (length table' ≡ max_subscriptions)
    × ((j : ℕ)
        → element_at table' j ≡ (
            if is_rejected mem codes infos (element_at table j)
            then empty_element
            else element_at table j))

not-is_rejected-empty :
    (mem : Memory) (codes : List Bool) (infos : List SubscribeInfo)
    → AllFilters infos
    → is_rejected mem codes infos empty_element ≡ false
unfolding is_rejected
not-is_rejected-empty mem [] infos f = refl
not-is_rejected-empty mem (failed ∷ codes) [] f = refl
not-is_rejected-empty mem (failed ∷ codes) (info ∷ infos) f = ground (
  arith,
  not-is_rejected-empty mem codes infos f.1,
  not-is_removed-empty mem info.topic_filter info.topic_filter_length,
)

cleared_once :
    (removed : Bool) (mem : Memory) (codes : List Bool) (infos : List SubscribeInfo)
    (e e' : SubscriptionElement)
    → e' ≡ (if removed then empty_element else e)
    → is_rejected mem codes infos empty_element ≡ false
    → (if is_rejected mem codes infos e' then empty_element else e')
      ≡ (if removed || is_rejected mem codes infos e then empty_element else e)
cleared_once true mem codes infos e e' h none_left = rw (h, none_left)
cleared_once false mem codes infos e e' h none_left = rw h

remove_failed-is_rejected :
    (mem : Memory) (codes : List Bool) (infos : List SubscribeInfo) (table : Table)
    → length codes ≡ length infos
    → AllFilters infos
    → length table ≡ max_subscriptions
    → Resubscribed false mem (some codes) infos table (remove_failed mem (some codes) infos table)
unfolding remove_failed is_rejected
remove_failed-is_rejected mem [] [] table same f size = (table, refl, size, λ j. refl)
remove_failed-is_rejected mem [] (info ∷ infos) table same f size = absurd (omega (arith, same))
remove_failed-is_rejected mem (failed ∷ codes) [] table same f size = absurd (omega (arith, same))
remove_failed-is_rejected mem (false ∷ codes) (info ∷ infos) table same f size =
    remove_failed-is_rejected mem codes infos table (omega (arith, same)) f.1 size
remove_failed-is_rejected mem (true ∷ codes) (info ∷ infos) table same f size =
    let (table', removed, size', at) =
      remove_subscription_lem mem table info.topic_filter info.topic_filter_length f.0.0 f.0.1
        size in
    let (last, out, size'', next) =
      remove_failed-is_rejected mem codes infos table' (omega (arith, same)) f.1 size' in
    let none_left = not-is_rejected-empty mem codes infos f.1 in
    (
      last,
      rw removed out,
      size'',
      λ j.
          next j
          ∙ cleared_once
              (is_removed mem info.topic_filter info.topic_filter_length (element_at table j)) mem
              codes infos (element_at table j) (element_at table' j) (at j) none_left,
    )

-- `prvSubscriptionCommandCallback`, on a table of the full length and topic filters that are not
-- `NULL` or empty, with a SUBACK code for each of them or with `NULL` for the codes: with a successful
-- return code the table stays; with another one and codes, exactly the elements with the text of a
-- rejected topic filter are zeroed, and every other element stays; with another one and `NULL`, the
-- callback reads through `NULL`, unless there is no topic filter.
pub subscription_command_callback_lem :
    (mem : Memory) (return_code : MqttStatus) (codes : Option (List Bool))
    (infos : List SubscribeInfo) (table : Table)
    → HasCodes codes infos
    → AllFilters infos
    → length table ≡ max_subscriptions
    → Resubscribed
        (is_success return_code)
        mem
        codes
        infos
        table
        (subscription_command_callback mem return_code codes infos table)
unfolding subscription_command_callback remove_failed
subscription_command_callback_lem mem return_code codes infos table same f size =
    by_result (is_success return_code) codes infos same f
  where
    by_result :
        (success : Bool) (codes : Option (List Bool)) (infos : List SubscribeInfo)
        → HasCodes codes infos
        → AllFilters infos
        → Resubscribed success mem codes infos table
            (if success then some table else remove_failed mem codes infos table)
    by_result true codes infos same f = refl
    by_result false none [] same f = refl
    by_result false none (info ∷ infos) same f = refl
    by_result false (some codes) infos same f =
        remove_failed-is_rejected mem codes infos table same f size
