-- ===== src/MqttAgentTask/Time.antt =====
-- `prvGetTimeMs` of source/mqtt-agent-task.c.
use core_mqtt_agent_demos.Prelude.{ℕ, ◌+◌, ◌-◌, ◌*◌, ◌/◌, ◌%◌, ◌^◌}

-- `mqttexampleMILLISECONDS_PER_TICK`, for a value of `configTICK_RATE_HZ`
abbrev pub milliseconds_per_tick : ℕ → ℕ
milliseconds_per_tick tick_rate_hz = 1000 / tick_rate_hz

-- `prvGetTimeMs`, from `ulGlobalEntryTimeMs` and the tick count, all of 32 bits.
pub get_time_ms : ℕ → ℕ → ℕ → ℕ
get_time_ms tick_rate_hz global_entry_time_ms tick_count =
    (tick_count * milliseconds_per_tick tick_rate_hz % 2 ^ 32 + 2 ^ 32 - global_entry_time_ms)
    % 2 ^ 32
