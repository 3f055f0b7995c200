-- ===== src/ReportBuilder.antt =====
-- source/defender-tools/report_builder.c and its header: the Device Defender report, as JSON.
pub mod Cursor
pub mod Writes
pub mod Steps
pub mod Format
pub mod Arrays
pub mod Generate
pub mod ArrayText
pub mod ArrayResult
pub mod ReportText
pub mod Result
mod Tests
