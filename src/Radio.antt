-- ===== src/Radio.antt =====
-- The UHF radio module (radio-uhf/): the authenticated link, the stored settings, the identity that
-- it reports and its parameter table.
pub mod Platform
pub mod Settings
pub mod Store
pub mod Link
pub mod Handshake
pub mod Frames
pub mod Control
mod Bench
mod Disk
mod Examples
mod HandshakeExamples
mod SettingsExamples
mod ChannelExamples
mod CrashExamples
mod SessionExamples
mod PaceExamples
mod HostExamples
mod TableExamples
pub mod Info
pub mod Sampling
pub mod Shell
pub mod Runs
pub mod Channel
pub mod Session
pub mod Pace
pub mod Host
