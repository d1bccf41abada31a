-- ===== src/Virtio/Vsock/Credit.antt =====
-- packages/kernel/src/virtio/vsock.ts, `write_serialized`: what is sent, and the credit it keeps to.
use distro.Common.{ℕ, ◌+◌, ◌%◌, ◌^◌, ◌≤◌, ◌<◌, ◌≡◌, ◌⊎◌, true, List, [], ◌∷◌, ◌++◌, length, All}
use distro.Virtio.Vsock.{
  VsockConnection, Written, finished, waits, connection_closed, in_flight, available,
  max_vsock_payload,
}

abbrev pub joined : List (List ℕ) → List ℕ
joined [] = []
joined (p ∷ ps) = p ++ joined ps

-- The payloads and the bytes left are the bytes given; each payload has between one and 2048 bytes;
-- the payloads' bytes are counted as written, and fit in the room that there was; and the peer's
-- buffer holds what is in flight.
pub record IsWritten (c : VsockConnection) (bytes : List ℕ) (w : Written) : Type 0 where
  pub whole : joined w.payloads ++ w.unsent ≡ bytes
  pub sizes : All (λ p. (0 < length p) × (length p ≤ max_vsock_payload)) w.payloads
  pub same_credit :
      (w.connection.peer_buf_alloc ≡ c.peer_buf_alloc)
      × (w.connection.peer_fwd_cnt ≡ c.peer_fwd_cnt)
  pub counted : w.connection.bytes_written ≡ (c.bytes_written + length (joined w.payloads)) % 2 ^ 32
  pub sent : length (joined w.payloads) ≤ available c
  pub in_credit : in_flight w.connection ≤ c.peer_buf_alloc
  pub ends :
      ((w.stop ≡ finished) × (w.unsent ≡ []))
      ⊎ ((w.stop ≡ connection_closed) × (c.closed ≡ true))
      ⊎ ((w.stop ≡ waits) × (in_flight w.connection ≡ c.peer_buf_alloc))

-- What the peer has said, in numbers of 32 bits, and has room for.
pub record HasCredit (c : VsockConnection) : Type 0 where
  pub alloc : c.peer_buf_alloc < 2 ^ 32
  pub count : c.peer_fwd_cnt < 2 ^ 32
  pub written : c.bytes_written < 2 ^ 32
  pub room : in_flight c ≤ c.peer_buf_alloc
