-- ===== src/Virtio.antt =====
-- packages/kernel/src/virtio: the Ethernet switch that the guests' network devices join, and the
-- packed ring from which a device takes its requests, the block device, and the vsock connections.
pub mod Switch
pub mod Queue
pub mod Block
pub mod Fs
pub mod Receiving
pub mod Vsock
pub mod Ports
mod Examples
