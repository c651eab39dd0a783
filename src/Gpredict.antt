-- ===== src/Gpredict.antt =====
-- Pass tracking (gpredict/): the state machine, the tracker around it, the spacecraft profiles, the
-- operator commands and the parameter table.
pub mod Machine
pub mod Config
pub mod Tracker
pub mod Profiles
pub mod Commands
pub mod Table
pub mod System
mod Examples
mod ProfileExamples
mod TableExamples
mod SystemExamples
mod DeadlineExamples
