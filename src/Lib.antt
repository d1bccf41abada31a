-- ===== src/Lib.antt =====
-- A model of the parts of this repository's TypeScript that parse, route and reassemble bytes, serve
-- a guest's devices and keep a session with its agent, and the theorems about it. The names of the definitions are the source's, in snake case.
--
-- * Bytes (packages/bytes/src/index.ts): the unsigned integer types, each with its size, its get and
--   its set, over the platform's DataView; the sequential Reader, and Bytes, the buffer that doubles. An array is a list of numbers. What throws
--   returns a Result. Bytes/Buffer runs the doubling loop on fuel, one more than the capacity
--   asked for, which is enough from every array that is not empty.
-- * Wasm (packages/kernel/src/wasm_binary.ts): the reader that recovers a module's memory limits and
--   the signatures of its function imports. Wasm/Cursor is the class Cursor, with its LEB128 readers;
--   Wasm/Types reads and skips types, Wasm/Memories reads sections for read_wasm_memories, and
--   Wasm/Functions does so for read_wasm_function_imports. A cursor is passed on by each reader.
--   read_sections has one round for each byte of the module, which is enough since every section
--   takes at least one. The platform's text decoder is a parameter.
-- * Network (packages/linux-guest/src/network.ts): the gateway between the guests' Ethernet and the
--   host. Network/Checksum and Network/Packet have the headers, the parsers and the writers;
--   Network/Reassembly is reassemble_ip with its table, and send_ip's fragments; Network/Tcp is a
--   flow, from process_tcp down, as a function from a flow and a segment to a flow and actions.
--   The folding loop of the checksum runs on fuel, enough for sums below 2 ^ 32. A readable stream
--   is what has been put into it; reads by the host do not happen during a step.
-- * Virtio (packages/kernel/src/virtio): Virtio/Switch is the learning Ethernet switch of net.ts, and
--   Virtio/Queue the packed ring of queue.ts. The loop over a chain has as much fuel as the ring has
--   places, and a throw keeps the queue with its cursor advanced; the descriptor at an address outside
--   the ring is a parameter. Virtio/Vsock is a connection of vsock.ts with its credit, Virtio/Ports the device's
--   table of connections and what a guest's packet does to it, the packets sent back and the throw of
--   #flush on a bad receive buffer included; Virtio/Receiving is RxQueue of rx.ts, whose post may
--   end with a throw of the queue's iteration.
--   Reading and writing have a round for each byte, since each round but the last moves a byte at
--   least.
-- * Virtio/Block (packages/kernel/src/virtio/block.ts): a request on the block device. A view is the
--   number of its buffer, an offset and a length. The storage is a parameter: functions over a world,
--   which is its own state and the guest's memory. That its calls move the first of the bytes asked
--   for, and return their number, is the hypothesis of the theorems.
-- * Virtio/Fs (packages/kernel/src/virtio/fs.ts): the table of nodes that the guest of a filesystem
--   device knows, its open handles, and the requests that change them. notify serves the requests of
--   one queue, each to its end before the next; that the other queue's requests may be served while
--   one awaits the backend is not modelled.
--   What the backend returns is an argument of the request. collect_record has a round for each id,
--   which is enough since each round but the last deletes a record. Virtio/Fs/Buffers joins the bytes
--   of a chain, and scatters an answer.
-- * Http (packages/linux-guest/src/http.ts): Http/Reader is ByteReader, over a stream that is the list
--   of the chunks to come; Http/Chunked is chunked_body, one pull at a time, and Http/Encoder
--   chunked_encoder. The platform's text decoder, from bytes to the UTF-16 units of the text, is a
--   parameter; that it decodes ASCII to itself is the hypothesis of the theorems. The matcher for the size line has a state for each place of
--   the regular expression. The trailer lines have fuel, for which their number is enough.
-- * Guest (packages/linux-guest/src): Guest/Session is the class GuestSession of conn.ts, and
--   Guest/Session/Steps what happens to it: calls, connections made and failed, exchanges that end or
--   throw, and the end of the session, in any order. Guest/Dirents is parse_dirents of abi.ts, over a
--   text decoder that is a parameter, with a round for each byte of the buffer, which is enough since
--   a record takes 19 at least. Guest/Status has the wait-status macros of abi.ts, and how #reap of
--   process.ts reports the end of a process.
--
-- The gateway's frames go through the switch's ports to the guests' devices, which take and give back
-- ring descriptors; the packets are laid out with the integer types of Bytes.
--
-- Common has what all parts share: tests on numbers, lists with native lengths, results.
--
-- Not modelled: promises and timers, beyond the actions that a step emits and the steps of a session;
-- WebAssembly memories and workers; the wire structs of the filesystem's requests and answers; the
-- console device; the requests to the guest agent; the adapters between HTTP and fetch; the web site;
-- the distribution's recipes, patches and C programs.
pub mod Common
pub mod Bytes
pub mod Guest
pub mod Http
pub mod Network
pub mod Virtio
pub mod Wasm
