-- ===== src/Wasm.antt =====
-- packages/kernel/src/wasm_binary.ts: the reader of WebAssembly's binary format that recovers the
-- limits of a module's memories. `Cursor` is the byte reader, `Types` skips what the reader does
-- not need, `Memories` reads the sections, and the other modules prove.
pub mod Cursor
pub mod Types
pub mod Memories
pub mod Functions
pub mod Span
pub mod Safety
pub mod Leb
pub mod RoundTrip
pub mod WholeModule
mod Examples
