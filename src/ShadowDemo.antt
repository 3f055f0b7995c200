-- ===== src/ShadowDemo.antt =====
-- source/demo-tasks/shadow_device_task.c and shadow_update_task.c: the two tasks of the Device
-- Shadow demo and their callbacks.
pub mod Json
pub mod Document
pub mod Device
pub mod Update
pub mod Deltas
pub mod Consistency
pub mod Responses
pub mod Rounds
pub mod Fits
pub mod Requests
pub mod Subscribing
pub mod Subscribed
mod Tests
