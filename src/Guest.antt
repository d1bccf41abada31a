-- ===== src/Guest.antt =====
-- packages/linux-guest/src: the host's side of the guest agent, its session and what it decodes.
pub mod Session
pub mod Dirents
pub mod Status
mod Examples
