-- ===== src/Http.antt =====
-- packages/linux-guest/src/http.ts: HTTP/1.1 messages over a byte stream: the buffered reader, the
-- bodies that a message may have, and what its fields declare.
pub mod Reader
pub mod Lines
pub mod Hex
pub mod Chunked
pub mod Encoder
pub mod Encoding
mod Examples
