-- ===== src/Bytes.antt =====
-- packages/bytes/src/index.ts: integer types over a DataView, the sequential Reader and the growing
-- buffer Bytes. A byte array is a list of numbers below 256.
pub mod Ints
pub mod Buffer
pub mod Reader
mod Examples
