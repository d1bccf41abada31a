-- ===== src/Network.antt =====
-- packages/linux-guest/src/network.ts: the userspace IPv4 endpoint of the private network.
pub mod Checksum
pub mod Packet
pub mod Reassembly
pub mod Tcp
mod Examples
