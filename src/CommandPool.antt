-- ===== src/CommandPool.antt =====
-- lib/FreeRTOS/mqtt-agent-interface/freertos_command_pool.c: the pool of command structures.
pub mod Ownership
pub mod History
mod Tests
use core_mqtt_agent_demos.Prelude.{
  ℕ, zero, suc, ◌+◌, ◌*◌, ◌≡◌, Bool, true, false, ◌&&◌, Option, none, some, List, [], ◌∷◌, leb, ltb,
  if◌then◌else◌, replicate,
}
use core_mqtt_agent_demos.AgentMessage.{QueueApi, message_send, message_receive}

-- The pool is an array of `count` structures (`MQTT_COMMAND_CONTEXTS_POOL_SIZE`) of `size` bytes
-- each (`sizeof( MQTTAgentCommand_t )`) at the address `base` (`commandStructurePool`). The
-- structures' fields belong to coreMQTT-Agent.
pub record Layout : Type 0 where
  pub base : ℕ
  pub size : ℕ
  pub count : ℕ

-- `&commandStructurePool[ i ]`
abbrev pub command_address : Layout → ℕ → ℕ
command_address l i = l.base + i * l.size

module _ (api : QueueApi) (ms_to_ticks : ℕ → ℕ) (l : Layout) where
  open api use {Handle, create_static}

  -- The static variables of the file: the bytes of `commandStructurePool`, the queue in
  -- `commandStructMessageCtx` (`none` until it is created) and `initStatus`.
  pub record Pool : Type 0 where
    pub storage : List ℕ
    pub queue : Option Handle
    pub initialized : Bool

  -- The loop that populates the queue, from index `i` with `rounds` left. `none` if the
  -- `configASSERT( commandAdded )` fails.
  pub populate : Option Handle → ℕ → ℕ → Option (Option Handle)
  populate q i zero = some q
  populate q i (suc rounds) =
      let (q', added) = message_send api ms_to_ticks q (some (command_address l i)) 0 in
      let rest = populate q' (i + 1) rounds in if added then rest else none

  -- `Agent_InitializePool`; `none` if an assert fails.
  pub initialize_pool : Pool → Option Pool
  initialize_pool p = if p.initialized then some p else elim (create_static l.count) [
    | none ↦ none
    | some h ↦ elim (populate (some h) 0 l.count) [
      | none ↦ none
      | some q ↦
          some (record { storage = replicate (l.count * l.size) 0; queue = q; initialized = true })
    ]
  ]

  -- `Agent_GetCommand`: the pool and the structure, `none` for `NULL`; an outer `none` if the
  -- assert fails.
  pub get_command : Pool → ℕ → Option (Pool × Option ℕ)
  get_command p block_time_ms =
      let (q, received) = message_receive api ms_to_ticks p.queue true block_time_ms in
      if p.initialized then some (record p { queue = q }, received) else none

  -- `Agent_ReleaseCommand`: the pool and `structReturned`; an outer `none` if an assert fails.
  pub release_command : Pool → ℕ → Option (Pool × Bool)
  release_command p command =
      let (q, returned) = message_send api ms_to_ticks p.queue (some command) 0 in
      if p.initialized
      then (if leb l.base command && ltb command (l.base + l.count * l.size)
          then (if returned then some (record p { queue = q }, true) else none)
          else some (p, false))
      else none
