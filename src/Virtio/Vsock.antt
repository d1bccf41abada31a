-- ===== src/Virtio/Vsock.antt =====
-- packages/kernel/src/virtio/vsock.ts: `create_vsock_connection`, a stream between the host and a
-- guest with credit in both directions, and the packets that change it. A promise that waits is a
-- count of waiters; bytes handed to a waiting reader are the result of the step.
pub mod Credit
use distro.Common.{
  ℕ, zero, suc, ◌+◌, ◌-◌, ◌*◌, ◌/◌, ◌%◌, ◌^◌, Bool, true, false, not, ◌&&◌, ◌||◌, List, [], ◌∷◌,
  ◌++◌, Option, none, some, ltb, leb, ◌==◌, if◌then◌else◌, length, take, drop, min,
}

abbrev pub default_vsock_buf_alloc : ℕ
default_vsock_buf_alloc = 256 * 1024

abbrev pub max_vsock_payload : ℕ
max_vsock_payload = 2048

pub data VsockOp : Type 0 where
  request response rst shutdown rw_op credit_update credit_request : VsockOp

pub record VsockConnection : Type 0 where
  pub read_buffer : List (List ℕ)
  pub read_waiters : ℕ
  pub credit_waiters : ℕ
  pub closed : Bool
  pub bytes_read : ℕ
  pub bytes_written : ℕ
  pub last_credit_update : ℕ
  pub peer_buf_alloc : ℕ
  pub peer_fwd_cnt : ℕ

abbrev pub create_vsock_connection : VsockConnection
create_vsock_connection = record {
  read_buffer = [];
  read_waiters = 0;
  credit_waiters = 0;
  closed = false;
  bytes_read = 0;
  bytes_written = 0;
  last_credit_update = 0;
  peer_buf_alloc = default_vsock_buf_alloc;
  peer_fwd_cnt = 0;
}

-- `(a - b) >>> 0`, of numbers below 2 ^ 32.
abbrev pub subtract : ℕ → ℕ → ℕ
subtract a b = (a + (2 ^ 32 - b)) % 2 ^ 32

unfoldable pub close_from_peer : VsockConnection → VsockConnection
close_from_peer c =
    if c.closed then c else record c { closed = true; read_waiters = 0; credit_waiters = 0 }

unfoldable pub update_credit : VsockConnection → ℕ → ℕ → VsockConnection
update_credit c buf_alloc fwd_cnt = record c {
  peer_buf_alloc = buf_alloc;
  peer_fwd_cnt = fwd_cnt;
  credit_waiters = 0;
}

-- The bytes go to the first reader that waits, or into the buffer.
unfoldable pub enqueue : VsockConnection → List ℕ → VsockConnection × Option (List ℕ)
enqueue c data_bytes =
    if c.closed || (length data_bytes == 0)
    then (c, none)
    else if c.read_waiters == 0
    then (record c { read_buffer = c.read_buffer ++ data_bytes ∷ [] }, none)
    else (record c { read_waiters = c.read_waiters - 1 }, some data_bytes)

-- `none` is a reader that waits.
abbrev pub shift : VsockConnection → List (List ℕ) → VsockConnection × Option (List ℕ)
shift c (chunk ∷ chunks) = (record c { read_buffer = chunks }, some chunk)
shift c [] =
    if c.closed then (c, some []) else (record c { read_waiters = suc c.read_waiters }, none)

unfoldable pub read_chunk : VsockConnection → VsockConnection × Option (List ℕ)
read_chunk c = shift c c.read_buffer

-- Whether a credit update is sent, with the count of bytes read.
unfoldable pub consume : VsockConnection → ℕ → VsockConnection × Option ℕ
consume c n =
    let count = (c.bytes_read + n) % 2 ^ 32 in
    if leb (default_vsock_buf_alloc / 4) (subtract count c.last_credit_update)
    then (record c { bytes_read = count; last_credit_update = count }, some count)
    else (record c { bytes_read = count }, none)

-- How many bytes the peer has not yet said it has read, and how many more it takes.
abbrev pub in_flight : VsockConnection → ℕ
in_flight c = subtract c.bytes_written c.peer_fwd_cnt

abbrev pub available : VsockConnection → ℕ
available c = c.peer_buf_alloc - in_flight c

pub data WriteStop : Type 0 where
  finished waits connection_closed out_of_fuel : WriteStop

-- A run of `write_serialized` until it returns, throws or waits for credit: the payloads of the
-- packets it sends, and the bytes that it has not sent.
pub record Written : Type 0 where
  pub connection : VsockConnection
  pub payloads : List (List ℕ)
  pub unsent : List ℕ
  pub stop : WriteStop

abbrev pub stopped_at : VsockConnection → List ℕ → WriteStop → Written
stopped_at c bytes stop = record { connection = c; payloads = []; unsent = bytes; stop = stop }

abbrev pub sent_then : List ℕ → Written → Written
sent_then payload w = record w { payloads = payload ∷ w.payloads }

abbrev pub packet_size : VsockConnection → List ℕ → ℕ
packet_size c bytes = min (min max_vsock_payload (available c)) (length bytes)

abbrev pub count_written : VsockConnection → ℕ → VsockConnection
count_written c n = record c { bytes_written = (c.bytes_written + n) % 2 ^ 32 }

unfoldable pub write_loop : ℕ → VsockConnection → List ℕ → Written
write_loop zero c bytes = stopped_at c bytes out_of_fuel
write_loop (suc fuel) c bytes =
    let n = packet_size c bytes in
    let rest = write_loop fuel (count_written c n) (drop n bytes) in
    if length bytes == 0
    then stopped_at c bytes finished
    else if c.closed
    then stopped_at c bytes connection_closed
    else if available c == 0
    then stopped_at (record c { credit_waiters = suc c.credit_waiters }) bytes waits
    else sent_then (take n bytes) rest

unfoldable pub write_serialized : VsockConnection → List ℕ → Written
unfolding write_loop
write_serialized c bytes = write_loop (suc (length bytes)) c bytes

-- `readExactly`, until it returns or waits: the bytes read, and the counts of the credit updates.
-- A chunk that is longer than asked for goes back to the front of the buffer.
pub record ReadExactly : Type 0 where
  pub connection : VsockConnection
  pub out : List ℕ
  pub updates : List ℕ
  pub waiting : Bool

abbrev pub put_back : VsockConnection → List ℕ → VsockConnection
put_back c [] = c
put_back c (b ∷ bytes) = record c { read_buffer = (b ∷ bytes) ∷ c.read_buffer }

abbrev pub updated : Option ℕ → List ℕ → List ℕ
updated none counts = counts
updated (some count) counts = count ∷ counts

unfoldable pub read_exactly_loop : ℕ → VsockConnection → ℕ → ReadExactly
read_exactly_loop zero c wanted = record { connection = c; out = []; updates = []; waiting = false }
read_exactly_loop (suc fuel) c wanted =
    let step = read_chunk c in
    let after : ReadExactly = elim step.1 [
      | none ↦ record { connection = step.0; out = []; updates = []; waiting = true }
      | some chunk ↦
          let n = min (length chunk) wanted in
          let counted = consume step.0 n in
          let rest = read_exactly_loop fuel (put_back counted.0 (drop n chunk)) (wanted - n) in
          if length chunk == 0
          then record { connection = step.0; out = []; updates = []; waiting = false }
          else record rest {
            out = take n chunk ++ rest.out;
            updates = updated counted.1 rest.updates;
          }
    ] in
    if wanted == 0
    then record { connection = c; out = []; updates = []; waiting = false }
    else after

-- Each chunk that is taken has a byte at least, so that a round for each byte is enough.
unfoldable pub read_exactly : VsockConnection → ℕ → ReadExactly
read_exactly c wanted = read_exactly_loop (suc wanted) c wanted
