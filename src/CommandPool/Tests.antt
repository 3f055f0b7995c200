-- ===== src/CommandPool/Tests.antt =====
-- The command pool over a queue that is a list, and its theorems on it.
use mathlib.Core.List.{Nodup}
use mathlib.Core.List.Perm
use core_mqtt_agent_demos.Prelude.{
  ℕ, ◌≡◌, ◌<◌, refl, Bool, true, false, Option, none, some, List, [], ◌∷◌, ◌++◌, ltb, if◌then◌else◌,
  length, arith,
}
use core_mqtt_agent_demos.AgentMessage.{QueueApi, message_receive}
use core_mqtt_agent_demos.CommandPool.{Layout, Pool, initialize_pool, get_command, release_command}
use core_mqtt_agent_demos.CommandPool.Ownership.{Owned, addresses}
use core_mqtt_agent_demos.CommandPool.History.{gets, releases, run, run-initialize_pool}

abbrev ListQueue : Type 0
ListQueue = List ℕ × ℕ

abbrev list_send : ListQueue → ℕ → ℕ → ListQueue × Bool
list_send (xs, n) item ticks =
    if ltb (length xs) n then ((xs ++ (item ∷ []), n), true) else ((xs, n), false)

abbrev list_receive : ListQueue → ℕ → ListQueue × Option ℕ
list_receive ([], n) ticks = (([], n), none)
list_receive (x ∷ xs, n) ticks = ((xs, n), some x)

list_send_room :
    (h : ListQueue) (item ticks : ℕ)
    → length h.0 < h.1
    → ((list_send h item ticks).1 ≡ true)
      × ((list_send h item ticks).0.0 ≡ h.0 ++ (item ∷ []))
      × ((list_send h item ticks).0.1 ≡ h.1)
list_send_room (xs, n) item ticks room = ground arith

list_receive_front :
    (h : ListQueue) (ticks item : ℕ) (rest : List ℕ)
    → h.0 ≡ item ∷ rest
    → ((list_receive h ticks).1 ≡ some item)
      × ((list_receive h ticks).0.0 ≡ rest)
      × ((list_receive h ticks).0.1 ≡ h.1)
list_receive_front ([], n) ticks item rest e = cc
list_receive_front (x ∷ xs, n) ticks item rest e = ground arith

list_receive_empty :
    (h : ListQueue) (ticks : ℕ)
    → h.0 ≡ []
    → ((list_receive h ticks).1 ≡ none)
      × ((list_receive h ticks).0.0 ≡ [])
      × ((list_receive h ticks).0.1 ≡ h.1)
list_receive_empty ([], n) ticks e = (refl, refl, refl)
list_receive_empty (x ∷ xs, n) ticks e = cc

abbrev list_queue : QueueApi
list_queue = record {
  Handle = ListQueue;
  create_static = λ n. some ([], n);
  send_to_back = list_send;
  receive = list_receive;
  contents = λ h. h.0;
  capacity = λ h. h.1;
  create_static_lem = λ n. (([], n), refl, refl, refl);
  send_room = list_send_room;
  receive_front = list_receive_front;
  receive_empty = list_receive_empty;
}

abbrev ticks : ℕ → ℕ
ticks ms = ms

abbrev layout : Layout
layout = record { base = 1000; size = 40; count = 2 }

abbrev blank : Pool list_queue ticks layout
blank = record { storage = []; queue = none; initialized = false }

abbrev ready : Pool list_queue ticks layout
ready = record { storage = 0 ∷ 0 ∷ []; queue = some (1000 ∷ 1040 ∷ [], 2); initialized = true }

ready-Owned : Owned list_queue ticks layout ready []
unfolding addresses
ready-Owned = record {
  handle = (1000 ∷ 1040 ∷ [], 2);
  ready = refl;
  created = refl;
  sized = refl;
  shares = Perm.refl _;
}

get_one :
    get_command list_queue ticks layout ready 5
    ≡ some (record ready { queue = some (1040 ∷ [], 2) }, some 1000)
unfolding get_command message_receive
get_one = refl

release_foreign : release_command list_queue ticks layout ready 1080 ≡ some (ready, false)
unfolding release_command
release_foreign = refl

run-initialize_pool_example :
    (first last : Pool list_queue ticks layout) × (held : List ℕ) × (o : Owned list_queue ticks
      layout last held)
    × (initialize_pool list_queue ticks layout blank ≡ some first)
    × (run list_queue ticks layout (first, []) (gets 0 ∷ gets 0 ∷ gets 0 ∷ releases 1 ∷ [])
        ≡ some (last, held))
    × Nodup (o.handle.0 ++ held)
run-initialize_pool_example =
    run-initialize_pool list_queue ticks layout blank (gets 0 ∷ gets 0 ∷ gets 0 ∷ releases 1 ∷ [])
      (omega arith) refl
