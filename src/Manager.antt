-- ===== src/Manager.antt =====
-- internal/manager: the service that starts, watches and stops the voice raids of a guild.
pub mod StartGuard
pub mod SessionIdle
pub mod AllowFilter
pub mod Bindings
pub mod Deafen
pub mod Raid
pub mod Reconnect
mod Examples
