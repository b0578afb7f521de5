-- ===== src/Opus.antt =====
-- internal/opus: the audio path between a voice receiver and a voice sender.
pub mod Ring
pub mod Schedule
pub mod Watcher
pub mod Provider
pub mod Tick
pub mod Mix
pub mod Receiver
mod Examples
mod FrameExamples
