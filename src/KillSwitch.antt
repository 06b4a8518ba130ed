-- ===== src/KillSwitch.antt =====
-- The switch that resets a hung phone: KillSwitch. Its settings, its clock, and its timer.
pub mod Settings
pub mod Stopwatch
pub mod Timer
mod Loading
mod Holding
mod Course
mod Examples
