-- ===== src/MqttAgentTask.antt =====
-- source/mqtt-agent-task.c: the task that keeps the MQTT connection and runs the agent.
pub mod Environment
pub mod Time
pub mod Connect
pub mod Retry
pub mod Session
pub mod Resubscribe
pub mod Suback
pub mod Publish
pub mod Unsolicited
pub mod Agent
pub mod Link
pub mod Order
pub mod Rounds
pub mod Recovery
mod Tests
